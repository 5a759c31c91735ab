-- ===== src/Config/Load.antt =====
-- Load of config/config.go, bot by bot.
use rocketbot.GoMap.{GoMap, lookup, insert}
use rocketbot.Text.{trim_space, trim_suffix, itoa}
use rocketbot.Config.{
  RoomPolicyConfig, BotConfig, is_required, must_not_be_set, unknown_value, conflicting_slug,
  no_bots, Checked, accepts, refuses, require, known_trigger,
}
use rocketbot.Config.Slug.{validate_slug}
use rocketbot.Config.Rooms.{parse_room_policies_json}
use rocketbot.Prelude.{
  if◌then◌else◌, ℕ, zero, suc, String, ◌&◌, Bool, not, ◌&&◌, ◌||◌, Option, none, some, List, [],
  ◌∷◌, ◌==◌,
}

abbrev pub is_unset : String → Bool
is_unset v = v == ""

unfoldable pub prefix_of : ℕ → String
prefix_of i = "BOT" & itoa i & "_"

-- The values that Load reads for a bot; `v` takes a variable without its prefix.
unfoldable pub raw_config : (String → String) → BotConfig
raw_config v = record {
  slug = v "SLUG";
  url = trim_suffix (v "URL") "/";
  user_id = v "USER_ID";
  token = v "TOKEN";
  generator_type = if is_unset (v "GENERATOR_TYPE") then "webhook" else v "GENERATOR_TYPE";
  opencode_base_url = v "OPENCODE_BASE_URL";
  opencode_auth = v "OPENCODE_AUTH";
  opencode_session_dir = trim_space (v "OPENCODE_SESSION_DIR");
  opencode_permission_mode = v "OPENCODE_PERMISSION_MODE";
  webhook_url = v "WEBHOOK_URL";
  webhook_auth = v "WEBHOOK_AUTH";
  streamed_output = not (v "STREAMED_OUTPUT" == "false") && not (v "STREAMED_OUTPUT" == "0");
  parser_type = v "PARSER_TYPE";
  api_token = v "API_TOKEN";
  thread_default = v "THREAD_DEFAULT" == "true" || v "THREAD_DEFAULT" == "1";
  active_thread_trigger = v "ACTIVE_THREAD_TRIGGER";
  status_message = v "STATUS_MESSAGE";
  bootstrap_prompt = trim_space (v "BOOTSTRAP_PROMPT");
  render_mode =
      (let mode = trim_space (v "RENDER_MODE") in if is_unset mode then "detailed" else mode);
  room_policies = [];
}

unfoldable pub check_webhook : BotConfig → Checked BotConfig
check_webhook b = require (is_unset b.opencode_base_url) (must_not_be_set "OPENCODE_BASE_URL") (
    require (is_unset b.opencode_auth) (must_not_be_set "OPENCODE_AUTH") (
      require (is_unset b.opencode_permission_mode) (must_not_be_set "OPENCODE_PERMISSION_MODE") (
        require (is_unset b.opencode_session_dir) (must_not_be_set "OPENCODE_SESSION_DIR") (
          require (not (is_unset b.webhook_url)) (is_required "WEBHOOK_URL") (
            require (not (is_unset b.parser_type)) (is_required "PARSER_TYPE")
              (require (b.parser_type == "n8n") (unknown_value "PARSER_TYPE") (accepts b)))))))

unfoldable pub with_defaults : BotConfig → BotConfig
with_defaults b = record b {
  opencode_base_url =
      trim_suffix
        (if is_unset b.opencode_base_url then "http://127.0.0.1:4096" else b.opencode_base_url) "/";
  opencode_permission_mode =
      if is_unset b.opencode_permission_mode then "deny" else b.opencode_permission_mode;
}

unfoldable pub check_defaulted : BotConfig → Checked BotConfig
check_defaulted b =
    require (b.opencode_permission_mode == "allow" || b.opencode_permission_mode == "deny")
      (unknown_value "OPENCODE_PERMISSION_MODE")
      (require (is_unset b.parser_type) (must_not_be_set "PARSER_TYPE") (
        require (is_unset b.webhook_url) (must_not_be_set "WEBHOOK_URL")
          (require (is_unset b.webhook_auth) (must_not_be_set "WEBHOOK_AUTH") (accepts b))))

unfoldable pub check_generator : BotConfig → Checked BotConfig
check_generator b =
    if b.generator_type == "webhook"
    then check_webhook b
    else if b.generator_type == "opencode"
    then check_defaulted (with_defaults b)
    else refuses (unknown_value "GENERATOR_TYPE")

-- The slugs seen before have the prefix of their bot.
unfoldable pub check_slug : GoMap String → BotConfig → Checked BotConfig → Checked BotConfig
check_slug seen b rest = require (not (is_unset b.slug)) (is_required "SLUG") (
    require (validate_slug b.slug) (unknown_value "SLUG") (elim (lookup seen b.slug) [
      | some first ↦ refuses (conflicting_slug b.slug first)
      | none ↦
          require (not (is_unset b.user_id)) (is_required "USER_ID")
            (require (not (is_unset b.token)) (is_required "TOKEN") rest)
    ]))

unfoldable pub with_bot :
    BotConfig → Option (Checked (List BotConfig)) → Option (Checked (List BotConfig))
with_bot b none = none
with_bot b (some (refuses e)) = some (refuses e)
with_bot b (some (accepts bots)) = some (accepts (b ∷ bots))

unfoldable pub some_bots : Checked (List BotConfig) → Checked (List BotConfig)
some_bots (refuses e) = refuses e
some_bots (accepts []) = refuses no_bots
some_bots (accepts (b ∷ bots)) = accepts (b ∷ bots)

module _ (decode : String → Option (GoMap RoomPolicyConfig)) where
  unfoldable pub check_policies : String → BotConfig → Checked BotConfig
  check_policies rooms b = elim (parse_room_policies_json decode rooms) [
    | refuses e ↦ refuses e
    | accepts policies ↦ accepts (record b { room_policies = policies })
  ]

  -- What follows the checks of the generator.
  unfoldable pub check_behaviour : String → Checked BotConfig → Checked BotConfig
  check_behaviour rooms (refuses e) = refuses e
  check_behaviour rooms (accepts b) = elim (known_trigger b.active_thread_trigger) [
    | refuses e ↦ refuses e
    | accepts trigger ↦
        require (b.render_mode == "detailed" || b.render_mode == "concise")
          (unknown_value "RENDER_MODE")
          (check_policies rooms (record b { active_thread_trigger = trigger }))
  ]

  unfoldable pub check_bot : (String → String) → GoMap String → Checked BotConfig
  check_bot v seen =
      let b = raw_config v in
      let rooms = trim_space (v "ROOM_POLICIES_JSON") in
      check_slug seen b (check_behaviour rooms (check_generator b))

  -- The loop from the bot of number `i` on; the bots are bounded by fuel.
  unfoldable pub load_from :
      (String → String) → ℕ → ℕ → GoMap String → Option (Checked (List BotConfig))
  load_from env zero i seen = none
  load_from env (suc fuel) i seen =
      let v = λ (name : String). env (prefix_of i & name) in
      let later = load_from env fuel (suc i) (insert seen (v "SLUG") (prefix_of i)) in
      if v "URL" == ""
      then some (accepts [])
      else elim (check_bot v seen) [ refuses e ↦ some (refuses e) | accepts b ↦ with_bot b later ]

  unfoldable pub load : (String → String) → ℕ → Option (Checked (List BotConfig))
  load env fuel = elim (load_from env fuel 1 []) [ none ↦ none | some bots ↦ some (some_bots bots) ]
