-- ===== src/Ddp/Tests.antt =====
-- A session of a bot with one room and one direct message room.
use rocketbot.GoMap.{lookup, insert}
use rocketbot.Json.{ℤ, Fields, end, field, Items, no_items, item, str, obj, arr, get}
use rocketbot.Client.{Client, flag}
use rocketbot.Client.Policy.{base_policy, resolve_policy, should_respond}
use rocketbot.Ddp.{
  Session, DdpMessage, send_message, subscribe, add_room, handle_user_notification, addressed,
  answer_under, on_room_data, handle_room_message, handle_changed_message, process_message,
}
use rocketbot.Ddp.Admission.{Adds, process_message-Adds}
use rocketbot.Ddp.Login.{login_frames, process_message-login}
use rocketbot.Ddp.Rooms.{IsTracked, process_message-IsTracked}
use rocketbot.Prelude.{
  length, String, ◌≡◌, refl, true, false, Option, none, some, [], ◌∷◌, ◌++◌, arith, eq_iff,
}

abbrev bot : Client
bot = record {
  user_id = "u1";
  username = "helper";
  streamed_output = true;
  render_mode = "detailed";
  thread_default = false;
  active_thread_trigger = "auto";
  bootstrap_prompt = "";
  room_policies = [];
  rooms = ("R1", true) ∷ ("D1", true) ∷ [];
  dm_rooms = ("D1", true) ∷ [];
  active_room_threads = [];
}

abbrev session : Session
session = record {
  client = bot;
  token = "tok";
  accepts = λ past f. true;
  ids = λ n. "i";
  drawn = 0;
  pending = ("0", "login") ∷ [];
  sent = [];
  answers = [];
}

abbrev no_dates : String → Option ℤ
no_dates s = none

abbrev changed : String → Items → DdpMessage
changed collection args = record {
  msg = "changed";
  id = "";
  collection = collection;
  fields = field "args" (arr args) end;
}

abbrev dm_data : Fields
dm_data = field "_id" (str "M1") (
    field "rid" (str "D1")
      (field "msg" (str "hi") (field "u" (obj (field "_id" (str "u2") end)) end)))

abbrev dm : DdpMessage
dm = changed "stream-room-messages" (item (obj dm_data) no_items)

abbrev joined : DdpMessage
joined =
    changed "stream-notify-user" (
      item (str "inserted")
        (item (obj (field "rid" (str "D2") (field "t" (str "d") end))) no_items))

answers_dm : length (process_message no_dates dm session).answers ≡ 1
unfolding process_message handle_changed_message handle_room_message on_room_data answer_under
    resolve_policy base_policy should_respond addressed get lookup
answers_dm = refl

knows_joined : flag (process_message no_dates joined session).client.dm_rooms "D2" ≡ true
unfolding process_message handle_changed_message handle_user_notification add_room subscribe
    send_message insert lookup get
knows_joined = refl

bot-IsTracked : IsTracked bot
unfolding lookup
bot-IsTracked k h = ground (arith, eq_iff "D1" k)

process_message-Adds_example : Adds session (process_message no_dates dm session)
process_message-Adds_example = process_message-Adds no_dates dm session

process_message-IsTracked_example : IsTracked (process_message no_dates joined session).client
process_message-IsTracked_example = process_message-IsTracked no_dates joined session bot-IsTracked

abbrev login_result : DdpMessage
login_result = record { msg = "result"; id = "0"; collection = ""; fields = end }

login_pending : lookup session.pending login_result.id ≡ some "login"
unfolding lookup
login_pending = refl

process_message-login_example :
    (process_message no_dates login_result session).sent ≡ session.sent ++ login_frames session
process_message-login_example =
    process_message-login no_dates login_result session (λ past f. refl) refl login_pending
