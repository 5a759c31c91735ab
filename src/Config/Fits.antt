-- ===== src/Config/Fits.antt =====
-- The policies that a configuration gives its rooms are known ones.
use rocketbot.GoMap.{GoMap}
use rocketbot.Text.{trim_space, to_lower}
use rocketbot.Config.{
  RoomPolicyConfig, ConfigError, unknown_value, empty_room_id, no_override, room_value, Checked,
  accepts, refuses, require, known_trigger,
}
use rocketbot.Config.Rooms.{
  overrides_nothing, trimmed, check_render_mode, check_trigger, check_room, with_room, check_rooms,
  decoded_rooms, parse_room_policies_json,
}
use rocketbot.Prelude.{
  if◌then◌else◌, Bool-cases, if-intro, All, String, ◌≡◌, refl, ◌≢◌, ◌⊎◌, inl, inr, Bool, true,
  false, not, ◌||◌, Option, none, some, [], ◌∷◌, arith, ◌==◌, eq_iff,
}

module _ {ℓ} {A : Type ℓ} (P : A → Type ℓ) where
  -- What is accepted has the property.
  abbrev pub Accepts : Checked A → Type ℓ
  Accepts (accepts a) = P a
  Accepts (refuses e) = Unit

  pub require-Accepts :
      (ok : Bool) (e : ConfigError) (rest : Checked A)
      → (ok ≡ true → Accepts rest)
      → Accepts (require ok e rest)
  require-Accepts true e rest h = h refl
  require-Accepts false e rest h = tt

abbrev pub IsTrigger : String → Type 0
IsTrigger t = (t ≡ "auto") ⊎ (t ≡ "mention_only")

abbrev pub IsRenderMode : String → Type 0
IsRenderMode m = (m ≡ "detailed") ⊎ (m ≡ "concise")

-- One of two texts that a test admits.
pub one_of_two : (v s t : String) → (v == s || v == t) ≡ true → (v ≡ s) ⊎ (v ≡ t)
one_of_two v s t h = elim (Bool-cases (v == s)) [
  | inl e ↦ inl ((eq_iff v s).0 e)
  | inr e ↦ inr ((eq_iff v t).0 (ground arith))
]

pub known_trigger-Accepts : (raw : String) → Accepts IsTrigger (known_trigger raw)
unfolding known_trigger
known_trigger-Accepts raw =
    let lower = to_lower (trim_space raw) in
    let value : String = if lower == "" then "auto" else lower in
    require-Accepts IsTrigger (value == "auto" || value == "mention_only")
      (unknown_value "ACTIVE_THREAD_TRIGGER") (accepts value)
      (one_of_two value "auto" "mention_only")

-- A room has a name, and where its policy is enabled, its trigger and render mode are known or empty.
abbrev pub RoomFits : String × RoomPolicyConfig → Type 0
RoomFits (room, p) =
    (trim_space room ≢ "")
    × (p.enabled ≡ true
        → ((p.active_thread_trigger ≡ "") ⊎ IsTrigger p.active_thread_trigger)
          × ((p.render_mode ≡ "") ⊎ IsRenderMode p.render_mode))

abbrev PolicyFits : RoomPolicyConfig → Type 0
PolicyFits p =
    ((p.active_thread_trigger ≡ "") ⊎ IsTrigger p.active_thread_trigger)
    × ((p.render_mode ≡ "") ⊎ IsRenderMode p.render_mode)

check_render_mode-Accepts :
    (room : String) (p : RoomPolicyConfig)
    → (p.active_thread_trigger ≡ "") ⊎ IsTrigger p.active_thread_trigger
    → Accepts PolicyFits (check_render_mode room p)
unfolding check_render_mode
check_render_mode-Accepts room p t =
    require-Accepts PolicyFits
      (p.render_mode == "" || p.render_mode == "detailed" || p.render_mode == "concise")
      (room_value room "renderMode") (accepts p)
      (λ h. elim (Bool-cases (p.render_mode == "")) [
        | inl e ↦ (t, inl ((eq_iff p.render_mode "").0 e))
        | inr e ↦ (t, inr (one_of_two p.render_mode "detailed" "concise" (ground arith)))
      ])

check_trigger-Accepts :
    (room : String) (p : RoomPolicyConfig) → Accepts PolicyFits (check_trigger room p)
unfolding check_trigger
check_trigger-Accepts room p =
    if-intro (Accepts PolicyFits) (p.active_thread_trigger == "")
      (λ e. check_render_mode-Accepts room p (inl ((eq_iff p.active_thread_trigger "").0 e)))
      (λ n.
        with_trigger (known_trigger p.active_thread_trigger)
          (known_trigger-Accepts p.active_thread_trigger))
  where
    with_trigger :
        (c : Checked String)
        → Accepts IsTrigger c
        → Accepts PolicyFits (elim c [
          | refuses e ↦ refuses (room_value room "activeThreadTrigger")
          | accepts trigger ↦ check_render_mode room (record p { active_thread_trigger = trigger })
        ])
    with_trigger (refuses e) h = tt
    with_trigger (accepts t) h =
        check_render_mode-Accepts room (record p { active_thread_trigger = t }) (inr h)

-- A test that a value is not the given one.
pub differs : (v s : String) → not (v == s) ≡ true → v ≢ s
differs v s h e = absurd (ground (arith, eq_iff v s, e))

check_room-Accepts :
    (room : String) (p : RoomPolicyConfig) → Accepts (λ q. RoomFits (room, q)) (check_room room p)
unfolding check_room
check_room-Accepts room p =
    require-Accepts (λ q. RoomFits (room, q)) (not (trim_space room == "")) empty_room_id
      (if p.enabled
        then require (not (overrides_nothing p)) (no_override room) (check_trigger room (trimmed p))
        else accepts p)
      (λ named.
        if-intro (Accepts (λ q. RoomFits (room, q))) p.enabled
          (λ _.
            require-Accepts (λ q. RoomFits (room, q)) (not (overrides_nothing p)) (no_override room)
              (check_trigger room (trimmed p))
              (λ _.
                fit (differs (trim_space room) "" named) (check_trigger room (trimmed p))
                  (check_trigger-Accepts room (trimmed p))))
          (λ off. (differs (trim_space room) "" named, λ on. absurd (ground arith))))
  where
    fit :
        trim_space room ≢ ""
        → (c : Checked RoomPolicyConfig) → Accepts PolicyFits c
        → Accepts (λ q. RoomFits (room, q)) c
    fit n (refuses e) h = tt
    fit n (accepts q) h = (n, λ _. h)

with_room-Accepts :
    (room : String) (c : Checked RoomPolicyConfig) (later : Checked (GoMap RoomPolicyConfig))
    → Accepts (λ q. RoomFits (room, q)) c
    → Accepts (All RoomFits) later
    → Accepts (All RoomFits) (with_room room c later)
unfolding with_room
with_room-Accepts room (refuses e) later h k = tt
with_room-Accepts room (accepts p) (refuses e) h k = tt
with_room-Accepts room (accepts p) (accepts rooms) h k = (h, k)

check_rooms-Accepts : (rooms : GoMap RoomPolicyConfig) → Accepts (All RoomFits) (check_rooms rooms)
unfolding check_rooms
check_rooms-Accepts [] = tt
check_rooms-Accepts ((room, p) ∷ rooms) =
    with_room-Accepts room (check_room room p) (check_rooms rooms) (check_room-Accepts room p)
      (check_rooms-Accepts rooms)

decoded_rooms-Accepts :
    (o : Option (GoMap RoomPolicyConfig)) → Accepts (All RoomFits) (decoded_rooms o)
unfolding decoded_rooms
decoded_rooms-Accepts none = tt
decoded_rooms-Accepts (some []) = tt
decoded_rooms-Accepts (some (r ∷ rooms)) = check_rooms-Accepts (r ∷ rooms)

pub parse_rooms-Accepts :
    (decode : String → Option (GoMap RoomPolicyConfig)) (raw : String)
    → Accepts (All RoomFits) (parse_room_policies_json decode raw)
unfolding parse_room_policies_json
parse_rooms-Accepts decode raw =
    if-intro (Accepts (All RoomFits)) (raw == "") (λ _. tt)
      (λ _. decoded_rooms-Accepts (decode raw))
