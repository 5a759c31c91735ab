-- ===== src/Ddp/Admission.antt =====
-- Which messages a session answers.
use rocketbot.GoMap.{GoMap, lookup, insert, delete}
use rocketbot.Json.{
  ℤ, Fields, end, field, Items, no_items, item, str, obj, get, as_string, as_obj, as_arr, string_at,
}
use rocketbot.Message.{Message}
use rocketbot.Message.Parse.{parse_message}
use rocketbot.Client.{ResolvedPolicy, Client, flag}
use rocketbot.Client.Mention.{strip_leading_username_mention}
use rocketbot.Client.Policy.{resolve_policy, should_respond}
use rocketbot.Ddp.{
  Frame, pong, Session, DdpMessage, send_message, call_method, subscribe, room_params,
  subscribe_room, subscribe_all, on_connected, on_login, on_result, own_user, is_own, is_update,
  addressed, answer_under, on_room_data, handle_room_message, add_room, handle_user_notification,
  handle_changed_message, process_message,
}
use rocketbot.Prelude.{
  if◌then◌else◌, Option-cases, if-intro, String, ◌&◌, ◌≡◌, refl, sym, ◌∙◌, ◌≢◌, ◌⊎◌, inl, inr, Bool,
  true, false, not, ◌&&◌, ◌||◌, Option, none, some, get_or, [], ◌∷◌, ◌++◌, arith, ◌==◌, eq_iff,
}

-- A message is answered under the policy of its room, and it is not one of the bot's own.
pub record Admits (c : Client) (message : Message) (policy : ResolvedPolicy) : Type 0 where
  pub under : resolve_policy c message.room_id ≡ some policy
  pub others : c.user_id ≢ "" → message.user.id ≢ c.user_id

-- A step starts no answer, or one that is admitted, as the last.
abbrev pub Adds : Session → Session → Type 0
Adds s s' =
    (s'.answers ≡ s.answers)
    ⊎ ((m : Message) × (p : ResolvedPolicy) × (s'.answers ≡ s.answers ++ (m, p) ∷ [])
        × Admits s.client m p)

-- What writes to the WebSocket leaves the answers and the client as they are.
abbrev pub Quiet : Session → Session → Type 0
Quiet s s' = (s'.answers ≡ s.answers) × (s'.client ≡ s.client)

pub send_message-Quiet : (f : Frame) (s : Session) → Quiet s (send_message f s).1
unfolding send_message
send_message-Quiet f s = ground arith

pub call_method-Quiet :
    (method : String) (params : Items) (s : Session) → Quiet s (call_method method params s)
unfolding call_method send_message
call_method-Quiet method params s = ground arith

pub subscribe-Quiet :
    (name : String) (params : Items) (s : Session) → Quiet s (subscribe name params s)
unfolding subscribe send_message
subscribe-Quiet name params s = ground arith

pub subscribe_all-Quiet : (rooms : GoMap Bool) (s : Session) → Quiet s (subscribe_all rooms s)
unfolding subscribe_all
subscribe_all-Quiet [] s = (refl, refl)
subscribe_all-Quiet ((rid, known) ∷ rest) s =
    let one = subscribe-Quiet "stream-room-messages" (room_params rid) s in
    let more = subscribe_all-Quiet rest (subscribe_room rid s) in (more.0 ∙ one.0, more.1 ∙ one.1)

on_login-Quiet : (s : Session) → Quiet s (on_login s)
unfolding on_login
on_login-Quiet s =
    let online = call_method "UserPresence:online" no_items s in
    let first = call_method-Quiet "UserPresence:online" no_items s in
    let all = subscribe_all-Quiet s.client.rooms online in
    let last =
      subscribe-Quiet "stream-notify-user"
        (room_params (s.client.user_id & "/subscriptions-changed"))
        (subscribe_all s.client.rooms online) in
    (last.0 ∙ all.0 ∙ first.0, last.1 ∙ all.1 ∙ first.1)

pub on_result-Quiet : (id : String) (s : Session) → Quiet s (on_result id s)
unfolding on_result
on_result-Quiet id s = elim (Option-cases (lookup s.pending id)) [
  | inl e ↦ rw (e, on_result) (refl, refl)
  | inr (method, e) ↦
      rw (e, on_result)
        (if-intro (Quiet s) (method == "login")
          (λ _. on_login-Quiet (record s { pending = delete s.pending id })) (λ _. (refl, refl)))
]

-- The author of a message that is not the bot's own.
own_user-others :
    (c : Client) (o : Option Fields)
    → own_user c o ≡ false
    → c.user_id ≢ ""
    → string_at (get_or o end) "_id" ≢ c.user_id
unfolding get
own_user-others c none h n e = n (sym e)
own_user-others c (some u) h n e = elim (Option-cases (as_string (get u "_id"))) [
  | inl f ↦ ground (arith, f)
  | inr (id, f) ↦ ground (arith, f, eq_iff id c.user_id)
]

add_room-answers : (rid type : String) (s : Session) → (add_room rid type s).answers ≡ s.answers
unfolding add_room
add_room-answers rid type s =
    let c = s.client in
    if-intro (λ (s' : Session). s'.answers ≡ s.answers) (not (rid == "") && not (flag c.rooms rid))
      (λ _.
        (subscribe-Quiet "stream-room-messages" (room_params rid) (record s {
          client = record c {
            rooms = insert c.rooms rid true;
            dm_rooms = if type == "d" then insert c.dm_rooms rid true else c.dm_rooms;
          };
        })).0)
      (λ _. refl)

notification-answers :
    (args : Option Items) (s : Session) → (handle_user_notification args s).answers ≡ s.answers
unfolding handle_user_notification
notification-answers (some (item event (item (obj payload) rest))) s =
    let name = get_or (as_string (some event)) "" in
    if-intro (λ (s' : Session). s'.answers ≡ s.answers) (name == "inserted" || name == "updated")
      (λ _. add_room-answers (string_at payload "rid") (string_at payload "t") s) (λ _. refl)
notification-answers _ s = refl

module _ (parse_time : String → Option ℤ) where
  answer_under-Adds :
      (msg_data : Fields) (o : Option ResolvedPolicy) (s : Session)
      → is_own s.client msg_data ≡ false
      → resolve_policy s.client (string_at msg_data "rid") ≡ o
      → Adds s (answer_under parse_time msg_data o s)
  unfolding answer_under addressed parse_message
  answer_under-Adds msg_data none s own under = inl refl
  answer_under-Adds msg_data (some policy) s own under =
      let message = parse_message parse_time msg_data in
      if-intro (Adds s) (should_respond s.client message msg_data policy)
        (λ _.
          if-intro (λ m. Adds s (record s { answers = s.answers ++ (m, policy) ∷ [] }))
            (policy.scope == "room")
            (λ _. inr (
              record message {
                text = strip_leading_username_mention message.text s.client.username;
              },
              policy,
              refl,
              record {
                under = under;
                others = own_user-others s.client (as_obj (get msg_data "u")) own;
              },
            ))
            (λ _. inr (
              message,
              policy,
              refl,
              record {
                under = under;
                others = own_user-others s.client (as_obj (get msg_data "u")) own;
              },
            )))
        (λ _. inl refl)

  on_room_data-Adds :
      (msg_data : Fields) (s : Session) → Adds s (on_room_data parse_time msg_data s)
  unfolding on_room_data
  on_room_data-Adds msg_data s =
      if-intro (Adds s) (is_own s.client msg_data || is_update msg_data) (λ _. inl refl)
        (λ e.
          answer_under-Adds msg_data (resolve_policy s.client (string_at msg_data "rid")) s
            (ground arith) refl)

  handle_room_message-Adds :
      (args : Option Items) (s : Session) → Adds s (handle_room_message parse_time args s)
  unfolding handle_room_message
  handle_room_message-Adds (some (item (obj msg_data) rest)) s = on_room_data-Adds msg_data s
  handle_room_message-Adds _ s = inl refl

  changed-Adds : (m : DdpMessage) (s : Session) → Adds s (handle_changed_message parse_time m s)
  unfolding handle_changed_message
  changed-Adds m s =
      let args = as_arr (get m.fields "args") in
      if-intro (Adds s) (m.collection == "stream-room-messages")
        (λ _. handle_room_message-Adds args s)
        (λ _.
          if-intro (Adds s) (m.collection == "stream-notify-user")
            (λ _. inl (notification-answers args s)) (λ _. inl refl))

  -- Whatever message arrives, a session starts no answer, or one: to a message of a room whose policy
  -- resolves to the one that it is answered under, and by another user than the bot.
  pub process_message-Adds :
      (m : DdpMessage) (s : Session) → Adds s (process_message parse_time m s)
  unfolding process_message on_connected
  process_message-Adds m s =
      if-intro (Adds s) (m.msg == "connected")
        (λ _.
          inl
            (call_method-Quiet "login" (item (obj (field "resume" (str s.token) end)) no_items)
              s).0)
        (λ _.
          if-intro (Adds s) (m.msg == "result") (λ _. inl (on_result-Quiet m.id s).0)
            (λ _.
              if-intro (Adds s) (m.msg == "changed") (λ _. changed-Adds m s)
                (λ _.
                  if-intro (Adds s) (m.msg == "ping") (λ _. inl (send_message-Quiet pong s).0)
                    (λ _. inl refl))))
