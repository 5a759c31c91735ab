-- ===== src/Start.antt =====
-- What cmd/rocketbot/main.go makes of a configuration: createBot with NewClientWithAPI of bot/client.go,
-- newGenerator, and the bots that the HTTP API serves. The texts of errors are not modelled.
pub mod Given
pub mod Served
pub mod Rooms
mod Tests
use rocketbot.GoMap.{GoMap, insert}
use rocketbot.Text.{trim_space}
use rocketbot.Renderer.{normalize_render_mode}
use rocketbot.Api.{ApiClient, new_api_client}
use rocketbot.Client.{RoomPolicy, Client}
use rocketbot.Client.Policy.{normalize_active_thread_trigger}
use rocketbot.Config.{RoomPolicyConfig, BotConfig}
use rocketbot.OpenCode.Backend.{Generator}
use rocketbot.OpenCode.Setup.{new_open_code_generator}
use rocketbot.HttpApi.{Server}
use mathlib.Core.Option
use rocketbot.Prelude.{
  if◌then◌else◌, is_some, get_elem?, String, Bool, not, ◌||◌, Option, none, some, List, [], ◌∷◌,
  map, ◌==◌,
}

-- The generators; a webhook's parser is the one of n8n.
pub data ResponseGenerator : Type 0 where
  webhook : (url auth : String) → ResponseGenerator
  open_code : Generator → ResponseGenerator

unfoldable pub new_webhook_generator : BotConfig → Option ResponseGenerator
new_webhook_generator b =
    if b.parser_type == "n8n" then some (webhook b.webhook_url b.webhook_auth) else none

unfoldable pub new_generator : BotConfig → Option ResponseGenerator
new_generator b =
    if b.generator_type == "webhook"
    then new_webhook_generator b
    else if b.generator_type == "opencode"
    then some (
        open_code (
          new_open_code_generator b.opencode_base_url b.opencode_auth b.opencode_permission_mode
            b.opencode_session_dir))
    else none

abbrev pub policy_of : RoomPolicyConfig → RoomPolicy
policy_of p = record {
  enabled = p.enabled;
  opencode_session_dir = p.opencode_session_dir;
  bootstrap_prompt = p.bootstrap_prompt;
  render_mode = p.render_mode;
  active_thread_trigger = p.active_thread_trigger;
  thread_default = p.thread_default;
  streamed_output = p.streamed_output;
}

unfoldable pub map_room_policies : GoMap RoomPolicyConfig → GoMap RoomPolicy
map_room_policies [] = []
map_room_policies ((room, p) ∷ rooms) = (room, policy_of p) ∷ map_room_policies rooms

-- The user name is fetched later.
unfoldable pub new_client_with_api :
    ApiClient → Bool → String → Bool → String → String → GoMap RoomPolicy → Client
new_client_with_api api streamed mode thread_default trigger prompt policies = record {
  user_id = api.user_id;
  username = "";
  streamed_output = streamed;
  render_mode = normalize_render_mode mode;
  active_thread_trigger = normalize_active_thread_trigger trigger;
  thread_default = thread_default;
  bootstrap_prompt = trim_space prompt;
  room_policies = policies;
  rooms = [];
  dm_rooms = [];
  active_room_threads = [];
}

pub record Bot : Type 0 where
  pub generator : ResponseGenerator
  pub api : ApiClient
  pub client : Client

unfoldable pub bot_with : BotConfig → ResponseGenerator → Bot
bot_with b generator =
    let api = new_api_client b.url b.user_id b.token in
    record {
      generator = generator;
      api = api;
      client =
          new_client_with_api api b.streamed_output b.render_mode b.thread_default
            b.active_thread_trigger b.bootstrap_prompt (map_room_policies b.room_policies);
    }

-- None where main exits.
unfoldable pub create_bot : BotConfig → Option Bot
create_bot b = Option.map (bot_with b) (new_generator b)

unfoldable pub create_all : List BotConfig → Option (List Bot)
create_all [] = some []
create_all (b ∷ bots) =
    let rest = create_all bots in
    elim (create_bot b) [ none ↦ none | some c ↦ Option.map (◌∷◌ c) rest ]

-- The bots with a token of their own are served.
unfoldable pub expose : List BotConfig → List Bot → Server → Server
expose [] clients s = s
expose (b ∷ bots) [] s = s
expose (b ∷ bots) (c ∷ clients) s = expose bots clients (
    if b.api_token == ""
    then s
    else record { bots = insert s.bots b.slug c.api; tokens = insert s.tokens b.slug b.api_token })

abbrev pub no_server : Server
no_server = record { bots = []; tokens = [] }

-- None where no API is started.
unfoldable pub start_api : String → List BotConfig → List Bot → Option Server
start_api addr bots clients =
    let s = expose bots clients no_server in
    if addr == "" || not (is_some (get_elem? s.bots 0)) then none else some s
