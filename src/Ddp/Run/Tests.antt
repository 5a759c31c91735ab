-- ===== src/Ddp/Run/Tests.antt =====
-- A client is initialised, and its session breaks once.
use rocketbot.Json.{
  ℤ, Fields, end, field, no_items, item, str, bool, obj, arr, get, struct_string, struct_bool,
}
use rocketbot.GoMap.{insert}
use rocketbot.Http.{World, answered, exchange}
use rocketbot.Api.{ApiClient, ok, request, updated}
use rocketbot.Api.History.{
  body_fields, on_success, fetch_username, status_payload, set_status_online, read_items,
  struct_items, read_all, read_subscription, dm_rooms_of, rooms_of, read_subscriptions,
  get_subscriptions,
}
use rocketbot.Client.{Client}
use rocketbot.Ddp.{Session, send_message, process_message}
use rocketbot.Ddp.Rooms.{IsTracked}
use rocketbot.Ddp.Run.{
  rooms_set, dms_set, with_subscriptions, after_status, after_username, initialize, stop_requested,
  broken, arrives, read_fails, Turn, ended, after_session, over_or, turn_over, handle_messages,
  run_session, run_with_reconnect,
}
use rocketbot.Ddp.Run.Tracked.{initialize-run}
use rocketbot.Prelude.{String, ◌≡◌, refl, true, false, Option, none, some, [], ◌∷◌}

abbrev account : Fields
account = field "username" (str "bot") (
    field "success" (bool true) (
      field "update" (arr (item (obj (field "rid" (str "d1") (field "t" (str "d") end))) no_items))
        end))

abbrev api : ApiClient
api = record { base_url = ""; user_id = "u"; token = "t" }

abbrev chat : World
chat = record { server = λ log r. answered 200 (some (obj account)); log = [] }

abbrev new_client : Client
new_client = record {
  user_id = "u";
  username = "";
  streamed_output = false;
  render_mode = "detailed";
  thread_default = false;
  active_thread_trigger = "auto";
  bootstrap_prompt = "";
  room_policies = [];
  rooms = [];
  dm_rooms = [];
  active_room_threads = [];
}

abbrev started : Client
started = record new_client {
  username = "bot";
  rooms = ("d1", true) ∷ [];
  dm_rooms = ("d1", true) ∷ [];
}

abbrev unquoted : String → String
unquoted s = s

abbrev untimed : String → Option ℤ
untimed s = none

initialised : (initialize unquoted api "" new_client chat).0 ≡ ok started
unfolding initialize after_username fetch_username on_success body_fields exchange struct_bool get
    struct_string after_status set_status_online updated with_subscriptions get_subscriptions
    read_subscriptions struct_items read_items read_all dm_rooms_of read_subscription rooms_of
    status_payload request dms_set rooms_set insert
initialised = refl

abbrev fresh : Session
fresh = record {
  client = started;
  token = "t";
  accepts = λ sent f. true;
  ids = λ n. "";
  drawn = 0;
  pending = [];
  sent = [];
  answers = [];
}

abbrev broken_turn : Turn
broken_turn = record {
  check = none;
  is_dialled = true;
  incoming =
      arrives (record { msg = "ping"; id = ""; collection = ""; fields = end })
      ∷ read_fails broken
      ∷ [];
  pause = none;
}

initialize-run_example :
    IsTracked (run_with_reconnect untimed (broken_turn ∷ broken_turn ∷ []) fresh).1.client
initialize-run_example =
    initialize-run untimed unquoted api "" new_client started chat (broken_turn ∷ broken_turn ∷ [])
      fresh initialised refl

-- A stop between two sessions is returned as an error.
stopped_between :
    (run_with_reconnect untimed
      (broken_turn ∷ record broken_turn { check = some stop_requested } ∷ [])
      fresh).0
    ≡ ended (some stop_requested)
unfolding run_with_reconnect run_session handle_messages send_message process_message turn_over
    over_or after_session
stopped_between = refl
