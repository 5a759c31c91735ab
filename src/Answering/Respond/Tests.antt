-- ===== src/Answering/Respond/Tests.antt =====
-- An answer without a stream in a thread of a room.
use rocketbot.Json.{ℤ, pos, end, field, str, bool, obj, get, struct_string, struct_obj, struct_bool}
use rocketbot.GoMap.{lookup, insert}
use rocketbot.Message.{Message}
use rocketbot.Http.{Request, Reply, answered, exchange}
use rocketbot.Api.{ApiClient, post_message, posted, posted_id, update_message, updated, request}
use rocketbot.Client.{ResolvedPolicy}
use rocketbot.Answering.Respond.{
  Generating, Answering, command_of, parse_bot_command, without, limit_of, settled, respond_plain,
  respond, prepare_message, history_for, handle_response,
}
use rocketbot.Answering.Respond.Marks.{Marks}
use rocketbot.Text.{trim_space, to_lower, cut_prefix, has_prefix, contains, fields}
use rocketbot.Answering.{should_create_thread}
use rocketbot.Answering.Streaming.{after_update, respond_once, handle_non_streaming_response}
use rocketbot.Client.Threads.{room_thread_key, mark_active_room_thread}
use rocketbot.Prelude.{String, ◌≡◌, refl, true, false, Option, none, some, List, []}

abbrev chat : List Request → Request → Reply
chat log r = answered 200 (
    some
      (obj (field "message" (obj (field "_id" (str "m9") end)) (field "success" (bool true) end))))

abbrev api : ApiClient
api = record { base_url = ""; user_id = "bot"; token = "t" }

abbrev answering : Answering
answering = record {
  client = record {
    user_id = "bot";
    username = "bot";
    streamed_output = false;
    render_mode = "detailed";
    active_thread_trigger = "auto";
    thread_default = false;
    bootstrap_prompt = "";
    room_policies = [];
    rooms = [];
    dm_rooms = [];
    active_room_threads = [];
  };
  world = record { server = chat; log = [] };
  typing = [];
}

abbrev echo : Generating
echo = record {
  reset_session = none;
  history_limit = some (λ m. pos 0);
  render_stream = none;
  stream = none;
  once = λ opts m history. some m.text;
}

abbrev in_room : ResolvedPolicy
in_room = record {
  scope = "room";
  room_id = "r";
  session_dir = "";
  bootstrap_prompt = "";
  render_mode = "detailed";
  active_thread_trigger = "auto";
  thread_default = false;
  streamed_output = false;
}

abbrev question : Message
question = record {
  id = "m1";
  text = "hello";
  room_id = "r";
  thread_id = "t1";
  preformatted_prompt = false;
  timestamp = none;
  user = record { id = "u1"; username = "ann"; name = "Ann" };
}

abbrev no_time : String → Option ℤ
no_time s = none

abbrev unsorted : List Message → List Message
unsorted ms = ms

marked :
    lookup
      (handle_response no_time unsorted api echo in_room question
        answering).client.active_room_threads
      "r:t1"
    ≡ some "m1"
unfolding handle_response lookup parse_bot_command command_of fields trim_space settled respond
    respond_plain handle_non_streaming_response respond_once post_message posted exchange
    history_for limit_of prepare_message should_create_thread update_message updated after_update
    posted_id struct_bool struct_obj struct_string get mark_active_room_thread room_thread_key
    insert contains has_prefix cut_prefix without to_lower request
marked = refl

reset_command : parse_bot_command " !RB  reset now" ≡ true
unfolding parse_bot_command command_of fields trim_space to_lower
reset_command = refl
