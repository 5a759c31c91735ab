-- ===== src/Ddp/Rooms.antt =====
-- The rooms that a session keeps and subscribes to.
use mathlib.Core.Path.{subst}
use rocketbot.Client.Policy.{resolve_policy}
use rocketbot.GoMap.{GoMap, insert, lookup-insert}
use rocketbot.Json.{
  ℤ, Fields, end, field, Items, no_items, item, str, obj, get, as_string, as_arr, string_at,
}
use rocketbot.Client.{Client, flag}
use rocketbot.Ddp.{
  pong, Session, DdpMessage, room_params, on_connected, add_room, handle_user_notification,
  answer_under, on_room_data, handle_room_message, handle_changed_message, process_message,
}
use rocketbot.Ddp.Admission.{
  send_message-Quiet, call_method-Quiet, subscribe-Quiet, on_result-Quiet,
}
use rocketbot.Prelude.{
  if◌then◌else◌, Option-cases, if-intro, String, ◌≡◌, refl, sym, inl, inr, Bool, true, not, ◌&&◌,
  ◌||◌, Option, some, get_or, arith, ◌==◌,
}

-- Every direct message room is one of the rooms.
abbrev pub IsTracked : Client → Type 0
IsTracked c = (k : String) → flag c.dm_rooms k ≡ true → flag c.rooms k ≡ true

abbrev Tracks : Session → Type 0
Tracks s = IsTracked s.client

flag-insert :
    (m : GoMap Bool) (k j : String) → flag (insert m k true) j ≡ (if k == j then true else flag m j)
flag-insert m k j = ground (arith, lookup-insert m k true j)

with_room-IsTracked :
    (c : Client) (rid type : String)
    → IsTracked c
    → IsTracked (record c {
      rooms = insert c.rooms rid true;
      dm_rooms = if type == "d" then insert c.dm_rooms rid true else c.dm_rooms;
    })
with_room-IsTracked c rid type h k =
    ground (arith, h k, flag-insert c.rooms rid k, flag-insert c.dm_rooms rid k)

add_room-IsTracked :
    (rid type : String) (s : Session) → IsTracked s.client → IsTracked (add_room rid type s).client
unfolding add_room
add_room-IsTracked rid type s h =
    let c = s.client in
    if-intro Tracks (not (rid == "") && not (flag c.rooms rid))
      (λ _.
        subst IsTracked
          (sym
            (subscribe-Quiet "stream-room-messages" (room_params rid) (record s {
              client = record c {
                rooms = insert c.rooms rid true;
                dm_rooms = if type == "d" then insert c.dm_rooms rid true else c.dm_rooms;
              };
            })).1)
          (with_room-IsTracked c rid type h))
      (λ _. h)

notification-IsTracked :
    (args : Option Items) (s : Session)
    → IsTracked s.client
    → IsTracked (handle_user_notification args s).client
unfolding handle_user_notification
notification-IsTracked (some (item event (item (obj payload) rest))) s h =
    let name = get_or (as_string (some event)) "" in
    if-intro Tracks (name == "inserted" || name == "updated")
      (λ _. add_room-IsTracked (string_at payload "rid") (string_at payload "t") s h) (λ _. h)
notification-IsTracked _ s h = h

module _ (parse_time : String → Option ℤ) where
  room_data-client :
      (msg_data : Fields) (s : Session) → (on_room_data parse_time msg_data s).client ≡ s.client
  unfolding on_room_data answer_under
  room_data-client msg_data s =
      elim (Option-cases (resolve_policy s.client (string_at msg_data "rid"))) [
        | inl e ↦ rw (e, on_room_data, answer_under) (ground arith)
        | inr (p, e) ↦ rw (e, on_room_data, answer_under) (ground arith)
      ]

  room_message-client :
      (args : Option Items) (s : Session)
      → (handle_room_message parse_time args s).client ≡ s.client
  unfolding handle_room_message
  room_message-client (some (item (obj msg_data) rest)) s = room_data-client msg_data s
  room_message-client _ s = refl

  changed-IsTracked :
      (m : DdpMessage) (s : Session)
      → IsTracked s.client
      → IsTracked (handle_changed_message parse_time m s).client
  unfolding handle_changed_message
  changed-IsTracked m s h =
      let args = as_arr (get m.fields "args") in
      if-intro Tracks (m.collection == "stream-room-messages")
        (λ _. subst IsTracked (sym (room_message-client args s)) h)
        (λ _.
          if-intro Tracks (m.collection == "stream-notify-user")
            (λ _. notification-IsTracked args s h) (λ _. h))

  -- Whatever message arrives, a session whose direct message rooms are among its rooms stays so.
  pub process_message-IsTracked :
      (m : DdpMessage) (s : Session)
      → IsTracked s.client
      → IsTracked (process_message parse_time m s).client
  unfolding process_message on_connected
  process_message-IsTracked m s h =
      if-intro Tracks (m.msg == "connected")
        (λ _.
          subst IsTracked
            (sym
              (call_method-Quiet "login" (item (obj (field "resume" (str s.token) end)) no_items)
                s).1)
            h)
        (λ _.
          if-intro Tracks (m.msg == "result")
            (λ _. subst IsTracked (sym (on_result-Quiet m.id s).1) h)
            (λ _.
              if-intro Tracks (m.msg == "changed") (λ _. changed-IsTracked m s h)
                (λ _.
                  if-intro Tracks (m.msg == "ping")
                    (λ _. subst IsTracked (sym (send_message-Quiet pong s).1) h) (λ _. h))))
