-- ===== src/Config/Complete.antt =====
-- What the bots of a configuration that Load accepts have.
use rocketbot.GoMap.{GoMap}
use rocketbot.Config.{
  RoomPolicyConfig, BotConfig, unknown_value, Checked, accepts, refuses, require, known_trigger,
}
use rocketbot.Config.Rooms.{parse_room_policies_json}
use rocketbot.Config.Load.{
  is_unset, check_webhook, with_defaults, check_defaulted, check_generator, check_policies,
  check_behaviour,
}
use rocketbot.Config.Fits.{
  Accepts, require-Accepts, IsTrigger, IsRenderMode, one_of_two, known_trigger-Accepts, RoomFits,
  differs, parse_rooms-Accepts,
}
use rocketbot.Prelude.{
  if-intro, All, String, ◌≡◌, refl, ◌≢◌, ◌⊎◌, inl, inr, true, not, ◌||◌, Option, ◌==◌, eq_iff,
}

abbrev pub IsWebhookBot : BotConfig → Type 0
IsWebhookBot b =
    (b.generator_type ≡ "webhook")
    × (b.parser_type ≡ "n8n")
    × (b.webhook_url ≢ "")
    × (b.opencode_base_url ≡ "")
    × (b.opencode_auth ≡ "")
    × (b.opencode_session_dir ≡ "")
    × (b.opencode_permission_mode ≡ "")

abbrev pub IsOpenCodeBot : BotConfig → Type 0
IsOpenCodeBot b =
    (b.generator_type ≡ "opencode")
    × ((b.opencode_permission_mode ≡ "allow") ⊎ (b.opencode_permission_mode ≡ "deny"))
    × (b.parser_type ≡ "")
    × (b.webhook_url ≡ "")
    × (b.webhook_auth ≡ "")

-- The same identity and the same mode as before, and all that one generator needs, none of the other.
abbrev Settled : BotConfig → BotConfig → Type 0
Settled raw b =
    (b.slug ≡ raw.slug)
    × (b.user_id ≡ raw.user_id)
    × (b.token ≡ raw.token)
    × (IsWebhookBot b ⊎ IsOpenCodeBot b)

empty_text : (v : String) → is_unset v ≡ true → v ≡ ""
empty_text v h = (eq_iff v "").0 h

check_webhook-Accepts :
    (b : BotConfig) → b.generator_type ≡ "webhook" → Accepts (Settled b) (check_webhook b)
unfolding check_webhook
check_webhook-Accepts b g =
    let P = Settled b in
    require-Accepts P (is_unset b.opencode_base_url) _ _ (λ base.
      require-Accepts P (is_unset b.opencode_auth) _ _ (λ auth.
        require-Accepts P (is_unset b.opencode_permission_mode) _ _ (λ mode.
          require-Accepts P (is_unset b.opencode_session_dir) _ _ (λ dir.
            require-Accepts P (not (is_unset b.webhook_url)) _ _ (λ url.
              require-Accepts P (not (is_unset b.parser_type)) _ _ (λ parser.
                require-Accepts P (b.parser_type == "n8n") _ (accepts b) (λ n8n. (
                  refl,
                  refl,
                  refl,
                  inl (
                    g,
                    (eq_iff b.parser_type "n8n").0 n8n,
                    differs b.webhook_url "" url,
                    empty_text b.opencode_base_url base,
                    empty_text b.opencode_auth auth,
                    empty_text b.opencode_session_dir dir,
                    empty_text b.opencode_permission_mode mode,
                  ),
                ))))))))

check_defaulted-Accepts :
    (raw b : BotConfig)
    → b.generator_type ≡ "opencode"
    → (b.slug ≡ raw.slug)
    → (b.user_id ≡ raw.user_id)
    → (b.token ≡ raw.token)
    → Accepts (Settled raw) (check_defaulted b)
unfolding check_defaulted
check_defaulted-Accepts raw b g s u t =
    let P = Settled raw in
    require-Accepts P
      (b.opencode_permission_mode == "allow" || b.opencode_permission_mode == "deny") _ _
      (λ mode. require-Accepts P (is_unset b.parser_type) _ _ (λ parser.
        require-Accepts P (is_unset b.webhook_url) _ _ (λ url.
          require-Accepts P (is_unset b.webhook_auth) _ (accepts b) (λ auth. (
            s,
            u,
            t,
            inr (
              g,
              one_of_two b.opencode_permission_mode "allow" "deny" mode,
              empty_text b.parser_type parser,
              empty_text b.webhook_url url,
              empty_text b.webhook_auth auth,
            ),
          )))))

pub check_generator-Accepts : (b : BotConfig) → Accepts (Settled b) (check_generator b)
unfolding check_generator with_defaults
check_generator-Accepts b =
    if-intro (Accepts (Settled b)) (b.generator_type == "webhook")
      (λ e. check_webhook-Accepts b ((eq_iff b.generator_type "webhook").0 e))
      (λ _.
        if-intro (Accepts (Settled b)) (b.generator_type == "opencode")
          (λ e.
            check_defaulted-Accepts b (with_defaults b) ((eq_iff b.generator_type "opencode").0 e)
              refl refl refl)
          (λ _. tt))

-- What is settled, and known values for the behaviour.
abbrev pub Finished : BotConfig → BotConfig → Type 0
Finished raw b =
    Settled raw b
    × IsTrigger b.active_thread_trigger
    × IsRenderMode b.render_mode
    × All RoomFits b.room_policies

module _ (decode : String → Option (GoMap RoomPolicyConfig)) where
  check_policies-Accepts :
      (raw b : BotConfig) (rooms : String)
      → Settled raw b
      → IsTrigger b.active_thread_trigger
      → IsRenderMode b.render_mode
      → Accepts (Finished raw) (check_policies decode rooms b)
  unfolding check_policies
  check_policies-Accepts raw b rooms s t m =
      settled (parse_room_policies_json decode rooms) (parse_rooms-Accepts decode rooms)
    where
      settled :
          (c : Checked (GoMap RoomPolicyConfig))
          → Accepts (All RoomFits) c
          → Accepts (Finished raw) (elim c [
            | refuses e ↦ refuses e
            | accepts policies ↦ accepts (record b { room_policies = policies })
          ])
      settled (refuses e) h = tt
      settled (accepts policies) h = (s, t, m, h)

  pub check_behaviour-Accepts :
      (raw : BotConfig) (rooms : String) (c : Checked BotConfig)
      → Accepts (Settled raw) c
      → Accepts (Finished raw) (check_behaviour decode rooms c)
  unfolding check_behaviour
  check_behaviour-Accepts raw rooms (refuses e) h = tt
  check_behaviour-Accepts raw rooms (accepts b) h =
      settled (known_trigger b.active_thread_trigger)
        (known_trigger-Accepts b.active_thread_trigger)
    where
      settled :
          (c : Checked String)
          → Accepts IsTrigger c
          → Accepts (Finished raw) (elim c [
            | refuses e ↦ refuses e
            | accepts trigger ↦
                require
                  (b.render_mode == "detailed" || b.render_mode == "concise")
                  (unknown_value "RENDER_MODE")
                  (check_policies decode rooms (record b { active_thread_trigger = trigger }))
          ])
      settled (refuses e) k = tt
      settled (accepts trigger) k =
          require-Accepts (Finished raw) (b.render_mode == "detailed" || b.render_mode == "concise")
            (unknown_value "RENDER_MODE")
            (check_policies decode rooms (record b { active_thread_trigger = trigger }))
            (λ m.
              check_policies-Accepts raw (record b { active_thread_trigger = trigger }) rooms h k
                (one_of_two b.render_mode "detailed" "concise" m))
