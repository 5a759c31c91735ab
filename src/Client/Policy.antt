-- ===== src/Client/Policy.antt =====
-- Which policy a room has and whether a room message is for the bot: normalizeActiveThreadTrigger,
-- resolvePolicy and shouldRespondToRoomMessage of bot/client.go.
use rocketbot.GoMap.{lookup}
use rocketbot.Json.{Fields}
use rocketbot.Message.{Message}
use rocketbot.Text.{trim_space, to_lower}
use rocketbot.Renderer.{normalize_render_mode}
use rocketbot.Client.Mention.{message_mentions_username}
use rocketbot.Client.Threads.{is_active_room_thread}
use rocketbot.Client.{RoomPolicy, ResolvedPolicy, Client, flag}
use rocketbot.Prelude.{
  if◌then◌else◌, Bool-cases, is_some, String, ◌≡◌, refl, ◌⊎◌, inl, inr, Bool, true, false, not,
  ◌&&◌, ◌||◌, Option, none, some, get_or, arith, ◌==◌,
}

unfoldable pub normalize_active_thread_trigger : String → String
normalize_active_thread_trigger raw =
    if to_lower (trim_space raw) == "mention_only" then "mention_only" else "auto"

-- `base` with its scope
unfoldable pub base_policy : Client → String → String → ResolvedPolicy
base_policy c room scope = record {
  scope = scope;
  room_id = room;
  session_dir = "";
  bootstrap_prompt = c.bootstrap_prompt;
  render_mode = c.render_mode;
  active_thread_trigger = c.active_thread_trigger;
  thread_default = c.thread_default;
  streamed_output = c.streamed_output;
}

abbrev override : String → (String → String) → String → String
override v normal old = if v == "" then old else normal v

unfoldable pub overridden : RoomPolicy → ResolvedPolicy → ResolvedPolicy
overridden p base = record base {
  session_dir = override p.opencode_session_dir (λ v. v) base.session_dir;
  bootstrap_prompt = override p.bootstrap_prompt (λ v. v) base.bootstrap_prompt;
  render_mode = override p.render_mode normalize_render_mode base.render_mode;
  active_thread_trigger =
      override p.active_thread_trigger normalize_active_thread_trigger base.active_thread_trigger;
  thread_default = get_or p.thread_default base.thread_default;
  streamed_output = get_or p.streamed_output base.streamed_output;
}

unfoldable pub room_policy : Client → String → Option RoomPolicy → Option ResolvedPolicy
room_policy c room none = none
room_policy c room (some p) =
    if p.enabled then some (overridden p (base_policy c room "room")) else none

unfoldable pub resolve_policy : Client → String → Option ResolvedPolicy
resolve_policy c room =
    if flag c.dm_rooms room
    then some (base_policy c room "dm")
    else room_policy c room (lookup c.room_policies room)

unfoldable pub should_respond : Client → Message → Fields → ResolvedPolicy → Bool
should_respond c message msg_data policy =
    let mentioned = message_mentions_username msg_data c.username in
    if not (policy.scope == "room")
    then true
    else if message.thread_id == ""
    then mentioned
    else if not (is_active_room_thread c message.room_id message.thread_id)
    then mentioned
    else if policy.active_thread_trigger == "mention_only"
    then mentioned
    else true

-- What a trigger or a render mode can be.
abbrev pub IsKnownTrigger : String → Type 0
IsKnownTrigger s = (s ≡ "auto") ⊎ (s ≡ "mention_only")

abbrev pub IsRenderMode : String → Type 0
IsRenderMode s = (s ≡ "detailed") ⊎ (s ≡ "concise")

normalize_trigger-IsKnownTrigger : (s : String) → IsKnownTrigger (normalize_active_thread_trigger s)
unfolding normalize_active_thread_trigger
normalize_trigger-IsKnownTrigger s = ground arith

normalize_render_mode-IsRenderMode : (s : String) → IsRenderMode (normalize_render_mode s)
unfolding normalize_render_mode
normalize_render_mode-IsRenderMode s = ground arith

-- The settings that NewClientWithAPI normalises.
pub record IsNormal (c : Client) : Type 0 where
  pub trigger : IsKnownTrigger c.active_thread_trigger
  pub mode : IsRenderMode c.render_mode

-- A resolved policy is that of a direct message exactly where the room is one, and that of a room
-- only where an enabled policy is configured for it; its trigger and its render mode are among the
-- known ones, and it names the room.
pub record Resolves (c : Client) (room : String) (p : ResolvedPolicy) : Type 0 where
  pub names : p.room_id ≡ room
  pub trigger : IsKnownTrigger p.active_thread_trigger
  pub mode : IsRenderMode p.render_mode
  pub scope :
      ((p.scope ≡ "dm") × (flag c.dm_rooms room ≡ true))
      ⊎ ((p.scope ≡ "room")
          × (flag c.dm_rooms room ≡ false)
          × ((q : RoomPolicy) × (lookup c.room_policies room ≡ some q) × (q.enabled ≡ true)))

overridden-Resolves :
    (c : Client) (room : String) (q : RoomPolicy)
    → IsNormal c
    → flag c.dm_rooms room ≡ false
    → lookup c.room_policies room ≡ some q
    → q.enabled ≡ true
    → Resolves c room (overridden q (base_policy c room "room"))
unfolding overridden base_policy
overridden-Resolves c room q n d e on = record {
  names = refl;
  trigger = ground (arith, normalize_trigger-IsKnownTrigger q.active_thread_trigger);
  mode = ground (arith, normalize_render_mode-IsRenderMode q.render_mode);
  scope = inr (refl, d, (q, e, on));
}

dm-Resolves :
    (c : Client) (room : String)
    → IsNormal c
    → flag c.dm_rooms room ≡ true
    → Resolves c room (base_policy c room "dm")
unfolding base_policy
dm-Resolves c room n d = record {
  names = refl;
  trigger = n.trigger;
  mode = n.mode;
  scope = inl (refl, d);
}

room_policy-Resolves :
    (c : Client) (room : String) (o : Option RoomPolicy) (p : ResolvedPolicy)
    → IsNormal c
    → flag c.dm_rooms room ≡ false
    → lookup c.room_policies room ≡ o
    → room_policy c room o ≡ some p
    → Resolves c room p
unfolding room_policy
room_policy-Resolves c room none p n d e h = cc
room_policy-Resolves c room (some q) p n d e h = elim (Bool-cases q.enabled) [
  | inl on ↦
      let same : p ≡ overridden q (base_policy c room "room") = ground arith in
      rw same (overridden-Resolves c room q n d e on)
  | inr off ↦ absurd (ground arith)
]

-- For a client with normal settings, a policy that a room resolves to names the room, has a known
-- trigger and a known render mode, and has the scope of a direct message where the room is one;
-- otherwise it has a room's scope, and an enabled policy is configured for the room.
pub resolve_policy-Resolves :
    (c : Client) (room : String) (p : ResolvedPolicy)
    → IsNormal c
    → resolve_policy c room ≡ some p
    → Resolves c room p
unfolding resolve_policy
resolve_policy-Resolves c room p n h = elim (Bool-cases (flag c.dm_rooms room)) [
  | inl d ↦
      let same : p ≡ base_policy c room "dm" = ground arith in rw same (dm-Resolves c room n d)
  | inr d ↦ room_policy-Resolves c room (lookup c.room_policies room) p n d refl (ground arith)
]

-- A room resolves to a policy exactly where it is a direct message or has an enabled policy.
is_some-resolve_policy :
    (c : Client) (room : String)
    → is_some (resolve_policy c room) ≡ (
        flag c.dm_rooms room
        || elim (lookup c.room_policies room) [ none ↦ false | some q ↦ q.enabled ])
unfolding resolve_policy room_policy
is_some-resolve_policy c room = ground arith

-- Outside a room's scope every message is answered. In a room one is answered exactly where it
-- mentions the bot, or stands in an active thread whose trigger is not `mention_only`.
should_respond_lem :
    (c : Client) (m : Message) (msg_data : Fields) (p : ResolvedPolicy)
    → should_respond c m msg_data p ≡ (
        not (p.scope == "room")
        || message_mentions_username msg_data c.username
        || (is_active_room_thread c m.room_id m.thread_id
            && not (p.active_thread_trigger == "mention_only")))
unfolding should_respond is_active_room_thread
should_respond_lem c m msg_data p = ground arith
