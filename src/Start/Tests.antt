-- ===== src/Start/Tests.antt =====
-- The start of a bot, and the API beside it.
use rocketbot.GoMap.{GoMap, lookup, insert}
use rocketbot.Text.{
  is_space, trim_left, trim_right, trim_func, trim_space, to_lower, cut_suffix, trim_suffix, itoa,
}
use rocketbot.Config.Slug.{slug_from, validate_slug}
use rocketbot.Config.Rooms.{
  overrides_nothing, trimmed, check_render_mode, check_trigger, check_room, with_room, check_rooms,
  decoded_rooms, parse_room_policies_json,
}
use rocketbot.Config.{RoomPolicyConfig, BotConfig, accepts, known_trigger}
use rocketbot.Config.Load.{
  prefix_of, raw_config, check_webhook, with_defaults, check_defaulted, check_generator, check_slug,
  with_bot, some_bots, check_policies, check_behaviour, check_bot, load_from, load,
}
use rocketbot.Start.{ResponseGenerator, open_code, Bot, bot_with, create_all, expose, no_server}
use rocketbot.Start.Given.{AllFit, create_all-load}
use rocketbot.Start.Rooms.{Applies, client_in, resolve_policy-load}
use rocketbot.Start.Served.{ServedAll, expose-load}
use rocketbot.Client.{flag}
use rocketbot.Client.Policy.{resolve_policy}
use rocketbot.Prelude.{
  Bool, false, if◌then◌else◌, String, ◌≡◌, refl, true, false, ◌||◌, Option, none, some, List, [],
  ◌∷◌, ◌==◌,
}

abbrev two_bots : String → String
two_bots name =
    if name == "BOT1_URL" || name == "BOT2_URL"
    then "https://chat.example"
    else if name == "BOT1_SLUG"
    then "a"
    else if name == "BOT2_SLUG"
    then "b"
    else if name == "BOT1_USER_ID" || name == "BOT2_USER_ID"
    then "u"
    else if name == "BOT1_TOKEN" || name == "BOT2_TOKEN"
    then "t"
    else if name == "BOT1_GENERATOR_TYPE" || name == "BOT2_GENERATOR_TYPE"
    then "opencode"
    else if name == "BOT2_API_TOKEN"
    then "secret"
    else ""

abbrev undecoded : String → Option (GoMap RoomPolicyConfig)
undecoded raw = none

abbrev bot_of : String → String → BotConfig
bot_of slug api_token = record {
  slug = slug;
  url = "https://chat.example";
  user_id = "u";
  token = "t";
  generator_type = "opencode";
  opencode_base_url = "http://127.0.0.1:4096";
  opencode_auth = "";
  opencode_session_dir = "";
  opencode_permission_mode = "deny";
  webhook_url = "";
  webhook_auth = "";
  streamed_output = true;
  parser_type = "";
  api_token = api_token;
  thread_default = false;
  active_thread_trigger = "auto";
  status_message = "";
  bootstrap_prompt = "";
  render_mode = "detailed";
  room_policies = [];
}

abbrev both : List BotConfig
both = bot_of "a" "" ∷ bot_of "b" "secret" ∷ []

loaded_both : load undecoded two_bots 3 ≡ some (accepts both)
unfolding load load_from prefix_of itoa check_bot check_slug raw_config validate_slug slug_from
    lookup check_behaviour check_generator check_defaulted with_defaults known_trigger to_lower
    trim_space check_policies check_webhook some_bots with_bot check_render_mode check_room
    check_rooms check_trigger decoded_rooms overrides_nothing parse_room_policies_json trimmed
    with_room insert cut_suffix is_space trim_func trim_left trim_right trim_suffix
loaded_both = refl

create_all-load_example :
    (clients : List Bot) × (create_all both ≡ some clients) × AllFit both clients
create_all-load_example = create_all-load undecoded two_bots 3 loaded_both

abbrev local : ResponseGenerator
local = open_code (record {
  base_url = "http://127.0.0.1:4096";
  auth = "";
  session_dir = "";
  permission_mode = "deny";
})

abbrev both_clients : List Bot
both_clients = bot_with (bot_of "a" "") local ∷ bot_with (bot_of "b" "secret") local ∷ []

expose-load_example : ServedAll (expose both both_clients no_server) both both_clients
expose-load_example = expose-load undecoded two_bots 3 both_clients loaded_both

abbrev ops : RoomPolicyConfig
ops = record {
  enabled = true;
  opencode_session_dir = "";
  bootstrap_prompt = "";
  render_mode = "concise";
  active_thread_trigger = "";
  thread_default = some true;
  streamed_output = none;
}

abbrev one_room : String → Option (GoMap RoomPolicyConfig)
one_room raw = if raw == "{ops}" then some (("ops", ops) ∷ []) else none

abbrev in_ops : String → String
in_ops name =
    if name == "BOT2_URL"
    then ""
    else if name == "BOT1_ROOM_POLICIES_JSON"
    then "{ops}"
    else two_bots name

abbrev ops_bot : BotConfig
ops_bot = record (bot_of "a" "") { room_policies = ("ops", ops) ∷ [] }

loaded_ops : load one_room in_ops 2 ≡ some (accepts (ops_bot ∷ []))
unfolding load load_from prefix_of itoa check_bot check_slug raw_config validate_slug slug_from
    lookup check_behaviour check_generator check_defaulted with_defaults known_trigger to_lower
    trim_space check_policies check_webhook some_bots with_bot check_render_mode check_room
    check_rooms check_trigger decoded_rooms overrides_nothing parse_room_policies_json trimmed
    with_room insert cut_suffix is_space trim_func trim_left trim_right trim_suffix
loaded_ops = refl

abbrev other_rooms : GoMap Bool
other_rooms = ("dm", true) ∷ []

no_dm : flag other_rooms "ops" ≡ false
unfolding lookup
no_dm = refl

named : lookup ops_bot.room_policies "ops" ≡ some ops
unfolding lookup
named = refl

resolve_policy-load_example :
    Applies ops_bot "ops" ops (resolve_policy (client_in ops_bot local other_rooms) "ops")
resolve_policy-load_example =
    resolve_policy-load one_room in_ops 2 (ops_bot ∷ []) loaded_ops 0 ops_bot refl local other_rooms
      "ops" ops no_dm named refl
