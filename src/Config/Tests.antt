-- ===== src/Config/Tests.antt =====
-- The environment of one bot that answers by OpenCode.
use rocketbot.GoMap.{GoMap, lookup, insert}
use rocketbot.Text.{
  is_space, trim_left, trim_right, trim_func, trim_space, to_lower, cut_suffix, trim_suffix, itoa,
}
use rocketbot.Config.{RoomPolicyConfig, BotConfig, accepts, known_trigger}
use rocketbot.Config.Slug.{slug_from, validate_slug}
use rocketbot.Config.Slug.Words.{IsHyphenated, validate_slug_lem}
use rocketbot.Config.Rooms.{
  overrides_nothing, trimmed, check_render_mode, check_trigger, check_room, with_room, check_rooms,
  decoded_rooms, parse_room_policies_json,
}
use rocketbot.Config.Load.{
  prefix_of, raw_config, check_webhook, with_defaults, check_defaulted, check_generator, check_slug,
  with_bot, some_bots, check_policies, check_behaviour, check_bot, load_from, load,
}
use rocketbot.Config.Loaded.{IsComplete, SlugsDiffer, load-Loads}
use rocketbot.Config.Ends.{load-ends}
use rocketbot.Prelude.{
  if◌then◌else◌, All, String, ◌&◌, ◌≡◌, refl, ◌≢◌, ◌↔◌, true, false, Option, none, some, [], ◌∷◌,
  arith, ◌==◌,
}

abbrev one_bot : String → String
one_bot name =
    if name == "BOT1_URL"
    then "https://chat.example/"
    else if name == "BOT1_SLUG"
    then "my-bot-1"
    else if name == "BOT1_USER_ID"
    then "u1"
    else if name == "BOT1_TOKEN"
    then "t1"
    else if name == "BOT1_GENERATOR_TYPE"
    then "opencode"
    else ""

abbrev no_rooms_decoded : String → Option (GoMap RoomPolicyConfig)
no_rooms_decoded raw = none

abbrev the_bot : BotConfig
the_bot = record {
  slug = "my-bot-1";
  url = "https://chat.example";
  user_id = "u1";
  token = "t1";
  generator_type = "opencode";
  opencode_base_url = "http://127.0.0.1:4096";
  opencode_auth = "";
  opencode_session_dir = "";
  opencode_permission_mode = "deny";
  webhook_url = "";
  webhook_auth = "";
  streamed_output = true;
  parser_type = "";
  api_token = "";
  thread_default = false;
  active_thread_trigger = "auto";
  status_message = "";
  bootstrap_prompt = "";
  render_mode = "detailed";
  room_policies = [];
}

loaded : load no_rooms_decoded one_bot 2 ≡ some (accepts (the_bot ∷ []))
unfolding load load_from prefix_of itoa check_bot check_slug raw_config validate_slug slug_from
    lookup check_behaviour check_generator check_defaulted with_defaults known_trigger to_lower
    trim_space check_policies check_webhook some_bots with_bot check_render_mode check_room
    check_rooms check_trigger decoded_rooms overrides_nothing parse_room_policies_json trimmed
    with_room insert cut_suffix is_space trim_func trim_left trim_right trim_suffix
loaded = refl

load-Loads_example :
    All IsComplete (the_bot ∷ []) × SlugsDiffer (the_bot ∷ []) × (the_bot ∷ [] ≢ [])
load-Loads_example = load-Loads no_rooms_decoded one_bot 2 loaded

second_unset : one_bot (prefix_of 2 & "URL") ≡ ""
unfolding prefix_of itoa
second_unset = refl

load-ends_example : load no_rooms_decoded one_bot 2 ≢ none
load-ends_example = load-ends no_rooms_decoded one_bot 2 second_unset (omega arith)

validate_slug_lem_example : (validate_slug "my-bot-1" ≡ true) ↔ IsHyphenated "my-bot-1"
validate_slug_lem_example = validate_slug_lem "my-bot-1"

hyphen_last : validate_slug "bot-" ≡ false
unfolding validate_slug slug_from
hyphen_last = refl
