-- ===== src/Start/Rooms.antt =====
-- A room that a configuration names is answered as the configuration says.
use mathlib.Core.Path.{subst}
use rocketbot.GoMap.{GoMap, lookup}
use rocketbot.Text.{trim_space}
use rocketbot.Renderer.{normalize_render_mode}
use rocketbot.Client.{ResolvedPolicy, Client, flag}
use rocketbot.Client.Policy.{
  normalize_active_thread_trigger, base_policy, overridden, room_policy, resolve_policy,
}
use rocketbot.Config.{RoomPolicyConfig, BotConfig, accepts}
use rocketbot.Config.Load.{load}
use rocketbot.Config.Fits.{IsTrigger, IsRenderMode, RoomFits}
use rocketbot.Config.Loaded.{IsComplete, load-Loads}
use rocketbot.Start.{ResponseGenerator, policy_of, map_room_policies, new_client_with_api, bot_with}
use rocketbot.Start.Given.{render_mode-kept, trigger-kept}
use rocketbot.Prelude.{
  if◌then◌else◌, Bool-cases, All, All-get_elem?, get_elem?, ℕ, String, ◌≡◌, refl, ◌⊎◌, inl, inr,
  Bool, true, false, Option, none, some, get_or, List, [], ◌∷◌, arith, ◌==◌, eq_iff,
}

abbrev or_default : String → String → String
or_default v old = if v == "" then old else v

-- What an enabled policy of a room makes of the bot's settings.
abbrev pub Applies : BotConfig → String → RoomPolicyConfig → Option ResolvedPolicy → Type 0
Applies b room p none = ⊥
Applies b room p (some r) =
    (r.scope ≡ "room")
    × (r.room_id ≡ room)
    × (r.render_mode ≡ or_default p.render_mode b.render_mode)
    × (r.active_thread_trigger ≡ or_default p.active_thread_trigger b.active_thread_trigger)
    × (r.session_dir ≡ p.opencode_session_dir)
    × (r.bootstrap_prompt ≡ or_default p.bootstrap_prompt (trim_space b.bootstrap_prompt))
    × (r.thread_default ≡ get_or p.thread_default b.thread_default)
    × (r.streamed_output ≡ get_or p.streamed_output b.streamed_output)

lookup-map_room_policies :
    (rooms : GoMap RoomPolicyConfig) (room : String) (p : RoomPolicyConfig)
    → lookup rooms room ≡ some p
    → lookup (map_room_policies rooms) room ≡ some (policy_of p)
unfolding lookup map_room_policies
lookup-map_room_policies [] room p h = cc
lookup-map_room_policies ((j, q) ∷ rooms) room p h = elim (Bool-cases (j == room)) [
  | inl e ↦ let same : q ≡ p = ground arith in rw (e, same) refl
  | inr e ↦ rw e (lookup-map_room_policies rooms room p (ground arith))
]

lookup-RoomFits :
    (rooms : GoMap RoomPolicyConfig) (room : String) (p : RoomPolicyConfig)
    → All RoomFits rooms
    → lookup rooms room ≡ some p
    → (j : String) × RoomFits (j, p)
unfolding lookup
lookup-RoomFits [] room p a h = cc
lookup-RoomFits ((j, q) ∷ rooms) room p (f, a) h = elim (Bool-cases (j == room)) [
  | inl e ↦ let same : q ≡ p = ground arith in (j, subst (λ x. RoomFits (j, x)) same f)
  | inr e ↦ lookup-RoomFits rooms room p a (ground arith)
]

dir_applied : (v : String) → (if v == "" then "" else v) ≡ v
dir_applied v = elim (Bool-cases (v == "")) [
  | inl e ↦ rw e (ground (arith, eq_iff v ""))
  | inr e ↦ rw e refl
]

mode_applied :
    (v old : String)
    → (v ≡ "") ⊎ IsRenderMode v
    → IsRenderMode old
    → (if v == "" then normalize_render_mode old else normalize_render_mode v) ≡ or_default v old
mode_applied v old f m = elim (Bool-cases (v == "")) [
  | inl e ↦ rw e (render_mode-kept old m)
  | inr e ↦ elim f [
    | inl q ↦ absurd (ground (arith, eq_iff v "", q))
    | inr k ↦ rw e (render_mode-kept v k)
  ]
]

trigger_applied :
    (v old : String)
    → (v ≡ "") ⊎ IsTrigger v
    → IsTrigger old
    → (if v == "" then normalize_active_thread_trigger old else normalize_active_thread_trigger v)
      ≡ or_default v old
trigger_applied v old f m = elim (Bool-cases (v == "")) [
  | inl e ↦ rw e (trigger-kept old m)
  | inr e ↦ elim f [
    | inl q ↦ absurd (ground (arith, eq_iff v "", q))
    | inr k ↦ rw e (trigger-kept v k)
  ]
]

-- The client of a bot once its direct message rooms are known.
abbrev pub client_in : BotConfig → ResponseGenerator → GoMap Bool → Client
client_in b g dms = record (bot_with b g).client { dm_rooms = dms }

complete-Applies :
    (b : BotConfig)
    → IsComplete b
    → (g : ResponseGenerator) (dms : GoMap Bool) (room : String) (p : RoomPolicyConfig)
    → flag dms room ≡ false
    → lookup b.room_policies room ≡ some p
    → p.enabled ≡ true
    → Applies b room p (resolve_policy (client_in b g dms) room)
unfolding resolve_policy room_policy bot_with new_client_with_api overridden base_policy
complete-Applies b (v, u, t, w, k, m, rooms) g dms room p off found on =
    let (j, (named, fits)) = lookup-RoomFits b.room_policies room p rooms found in
    let (trigger, mode) = fits on in
    rw (off, lookup-map_room_policies b.room_policies room p found, on)
      (
        refl,
        refl,
        mode_applied p.render_mode b.render_mode mode m,
        trigger_applied p.active_thread_trigger b.active_thread_trigger trigger k,
        dir_applied p.opencode_session_dir,
        refl,
        refl,
        refl,
      )

-- Where Load accepts a configuration, each of its bots resolves a room that is no direct message and
-- has an enabled policy there to a policy of a room's scope with the room's id, whose session directory
-- is the room's. Its render mode, active thread trigger, bootstrap prompt, thread default and streamed
-- output are those that the room's policy writes, word for word, and the bot's where it writes none,
-- the bot's prompt without spaces around it. This is so with either generator and whatever other rooms
-- are direct messages.
pub resolve_policy-load :
    (decode : String → Option (GoMap RoomPolicyConfig)) (env : String → String) (fuel : ℕ)
    (bots : List BotConfig)
    → load decode env fuel ≡ some (accepts bots)
    → (i : ℕ) (b : BotConfig) → get_elem? bots i ≡ some b
    → (g : ResponseGenerator) (dms : GoMap Bool) (room : String) (p : RoomPolicyConfig)
    → flag dms room ≡ false
    → lookup b.room_policies room ≡ some p
    → p.enabled ≡ true
    → Applies b room p (resolve_policy (client_in b g dms) room)
resolve_policy-load decode env fuel bots loaded i b at =
    complete-Applies b (All-get_elem? IsComplete bots i b (load-Loads decode env fuel loaded).0 at)
