-- ===== src/Ddp.antt =====
-- The DDP session of bot/client.go: sendMessage, callMethod, subscribe, processMessage and the
-- handlers of its messages.
pub mod Admission
pub mod Rooms
pub mod Login
pub mod Run
mod Tests
use rocketbot.GoMap.{GoMap, lookup, insert, delete}
use rocketbot.Json.{
  ℤ, Fields, end, field, Items, no_items, item, str, bool, obj, get, as_string, as_obj, as_arr,
  string_at,
}
use rocketbot.Message.{Message}
use rocketbot.Message.Parse.{parse_message}
use rocketbot.Client.{ResolvedPolicy, Client, flag}
use rocketbot.Client.Mention.{strip_leading_username_mention}
use rocketbot.Client.Policy.{resolve_policy, should_respond}
use rocketbot.Prelude.{
  if◌then◌else◌, is_some, ℕ, suc, String, ◌&◌, Bool, true, false, not, ◌&&◌, ◌||◌, Option, none,
  some, get_or, List, [], ◌∷◌, ◌++◌, ◌==◌,
}

-- What a client writes to its WebSocket.
pub data Frame : Type 0 where
  connect pong : Frame
  call : (method id : String) → Items → Frame
  sub : (name id : String) → Items → Frame

-- A session: the client, its calls that wait for a result, the frames written, and the messages that
-- a goroutine was started for. The WebSocket decides which write succeeds; `ids` are the random
-- identifiers in the order in which they are drawn.
pub record Session : Type 0 where
  pub client : Client
  pub token : String
  pub accepts : List Frame → Frame → Bool
  pub ids : ℕ → String
  pub drawn : ℕ
  pub pending : GoMap String
  pub sent : List Frame
  pub answers : List (Message × ResolvedPolicy)

pub record DdpMessage : Type 0 where
  pub msg : String
  pub id : String
  pub collection : String
  pub fields : Fields

unfoldable pub send_message : Frame → Session → Bool × Session
send_message f s =
    if s.accepts s.sent f then (true, record s { sent = s.sent ++ f ∷ [] }) else (false, s)

unfoldable pub call_method : String → Items → Session → Session
call_method method params s =
    let id = s.ids s.drawn in
    let tracked = record s { pending = insert s.pending id method; drawn = suc s.drawn } in
    let (ok, s') = send_message (call method id params) tracked in
    if ok then s' else record s' { pending = delete s'.pending id }

unfoldable pub subscribe : String → Items → Session → Session
subscribe name params s =
    let (ok, s') =
      send_message (sub name (s.ids s.drawn) params) (record s { drawn = suc s.drawn }) in
    s'

abbrev pub room_params : String → Items
room_params target = item (str target) (item (bool false) no_items)

abbrev pub subscribe_room : String → Session → Session
subscribe_room rid s = subscribe "stream-room-messages" (room_params rid) s

unfoldable pub subscribe_all : GoMap Bool → Session → Session
subscribe_all [] s = s
subscribe_all ((rid, known) ∷ rest) s = subscribe_all rest (subscribe_room rid s)

-- case "connected"
unfoldable pub on_connected : Session → Session
on_connected s = call_method "login" (item (obj (field "resume" (str s.token) end)) no_items) s

unfoldable pub on_login : Session → Session
on_login s =
    let online = call_method "UserPresence:online" no_items s in
    subscribe "stream-notify-user" (room_params (s.client.user_id & "/subscriptions-changed"))
      (subscribe_all s.client.rooms online)

-- case "result": a result without a call that waits for it is ignored.
unfoldable pub on_result : String → Session → Session
on_result id s = elim (lookup s.pending id) [
  | none ↦ s
  | some method ↦
      let settled = record s { pending = delete s.pending id } in
      if method == "login" then on_login settled else settled
]

abbrev pub own_id : Client → Option String → Bool
own_id c none = false
own_id c (some id) = id == c.user_id

abbrev pub own_user : Client → Option Fields → Bool
own_user c none = false
own_user c (some u) = own_id c (as_string (get u "_id"))

abbrev pub is_own : Client → Fields → Bool
is_own c msg_data = own_user c (as_obj (get msg_data "u"))

-- An edit, or a thread's new metadata.
abbrev pub is_update : Fields → Bool
is_update msg_data =
    is_some (get msg_data "editedAt")
    || is_some (get msg_data "tcount")
    || is_some (get msg_data "tlm")

-- A room that is not known yet is kept and subscribed to.
unfoldable pub add_room : String → String → Session → Session
add_room rid type s =
    let c = s.client in
    let rooms = insert c.rooms rid true in
    let dms = if type == "d" then insert c.dm_rooms rid true else c.dm_rooms in
    if not (rid == "") && not (flag c.rooms rid)
    then subscribe_room rid (record s { client = record c { rooms = rooms; dm_rooms = dms } })
    else s

unfoldable pub handle_user_notification : Option Items → Session → Session
handle_user_notification (some (item event (item (obj payload) rest))) s =
    let name = get_or (as_string (some event)) "" in
    if name == "inserted" || name == "updated"
    then add_room (string_at payload "rid") (string_at payload "t") s
    else s
handle_user_notification _ s = s

module _ (parse_time : String → Option ℤ) where
  -- The text that is answered.
  unfoldable pub addressed : Client → ResolvedPolicy → Message → Message
  addressed c policy message =
      if policy.scope == "room"
      then record message { text = strip_leading_username_mention message.text c.username }
      else message

  unfoldable pub answer_under : Fields → Option ResolvedPolicy → Session → Session
  answer_under msg_data none s = s
  answer_under msg_data (some policy) s =
      let message = parse_message parse_time msg_data in
      if should_respond s.client message msg_data policy
      then record s { answers = s.answers ++ (addressed s.client policy message, policy) ∷ [] }
      else s

  -- handleRoomMessage, for the object that is the first argument
  unfoldable pub on_room_data : Fields → Session → Session
  on_room_data msg_data s =
      if is_own s.client msg_data || is_update msg_data
      then s
      else answer_under msg_data (resolve_policy s.client (string_at msg_data "rid")) s

  unfoldable pub handle_room_message : Option Items → Session → Session
  handle_room_message (some (item (obj msg_data) rest)) s = on_room_data msg_data s
  handle_room_message _ s = s

  unfoldable pub handle_changed_message : DdpMessage → Session → Session
  handle_changed_message m s =
      let args = as_arr (get m.fields "args") in
      if m.collection == "stream-room-messages"
      then handle_room_message args s
      else if m.collection == "stream-notify-user"
      then handle_user_notification args s
      else s

  unfoldable pub process_message : DdpMessage → Session → Session
  process_message m s =
      if m.msg == "connected"
      then on_connected s
      else if m.msg == "result"
      then on_result m.id s
      else if m.msg == "changed"
      then handle_changed_message m s
      else if m.msg == "ping"
      then (send_message pong s).1
      else s
