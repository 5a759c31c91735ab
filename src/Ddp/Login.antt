-- ===== src/Ddp/Login.antt =====
-- What a session writes once it is logged in.
use mathlib.Core.List.{append-nil, append_assoc}
use rocketbot.GoMap.{GoMap, lookup, insert, delete}
use rocketbot.Json.{ℤ, Items, no_items}
use rocketbot.Ddp.{
  Frame, call, sub, Session, DdpMessage, send_message, call_method, subscribe, room_params,
  subscribe_all, on_login, on_result, process_message,
}
use rocketbot.Prelude.{
  length, ℕ, suc, ◌+◌, String, ◌&◌, ◌≡◌, sym, ap, ◌∙◌, ap₂, Bool, true, Option, some, List, [], ◌∷◌,
  ◌++◌, arith,
}

-- Every write succeeds.
abbrev pub IsOpen : Session → Type 0
IsOpen s = (past : List Frame) (f : Frame) → s.accepts past f ≡ true

-- The subscriptions to rooms, with the identifiers from a place on.
unfoldable pub room_subs : GoMap Bool → (ℕ → String) → ℕ → List Frame
room_subs [] ids n = []
room_subs ((rid, known) ∷ rest) ids n =
    sub "stream-room-messages" (ids n) (room_params rid) ∷ room_subs rest ids (suc n)

-- A session after it has drawn identifiers and written frames.
abbrev wrote : Session → ℕ → List Frame → Session
wrote s n fs = record s { drawn = s.drawn + n; sent = s.sent ++ fs }

wrote-wrote :
    (s : Session) (n m : ℕ) (fs gs : List Frame)
    → wrote (wrote s n fs) m gs ≡ wrote s (n + m) (fs ++ gs)
wrote-wrote s n m fs gs =
    ap₂ (λ d sent. record s { drawn = d; sent = sent }) (omega arith) (append_assoc s.sent fs gs)

subscribe-open :
    (name : String) (params : Items) (s : Session)
    → IsOpen s
    → subscribe name params s ≡ wrote s 1 (sub name (s.ids s.drawn) params ∷ [])
unfolding subscribe send_message
subscribe-open name params s h =
    rw (h s.sent (sub name (s.ids s.drawn) params), subscribe, send_message)
      (ap (λ d. record s { drawn = d; sent = s.sent ++ sub name (s.ids s.drawn) params ∷ [] })
        (omega arith))

call_method-open :
    (method : String) (params : Items) (s : Session)
    → IsOpen s
    → call_method method params s ≡ record (wrote s 1 (call method (s.ids s.drawn) params ∷ [])) {
      pending = insert s.pending (s.ids s.drawn) method;
    }
unfolding call_method send_message
call_method-open method params s h =
    rw (h s.sent (call method (s.ids s.drawn) params), call_method, send_message)
      (ap
        (λ d. record s {
          pending = insert s.pending (s.ids s.drawn) method;
          drawn = d;
          sent = s.sent ++ call method (s.ids s.drawn) params ∷ [];
        })
        (omega arith))

subscribe_all-open :
    (rooms : GoMap Bool) (s : Session)
    → IsOpen s
    → subscribe_all rooms s ≡ wrote s (length rooms) (room_subs rooms s.ids s.drawn)
unfolding subscribe_all room_subs
subscribe_all-open [] s h =
    ap₂ (λ d sent. record s { drawn = d; sent = sent }) (omega arith) (sym (append-nil s.sent))
subscribe_all-open ((rid, known) ∷ rest) s h =
    let one = sub "stream-room-messages" (s.ids s.drawn) (room_params rid) in
    ap (subscribe_all rest) (subscribe-open "stream-room-messages" (room_params rid) s h)
    ∙ subscribe_all-open rest (wrote s 1 (one ∷ [])) h
    ∙ wrote-wrote s 1 (length rest) (one ∷ []) (room_subs rest s.ids (s.drawn + 1))
    ∙ ap₂ (wrote s) (omega arith) (ap (λ n. one ∷ room_subs rest s.ids n) (omega arith))

-- What is written after a login.
unfoldable pub login_frames : Session → List Frame
login_frames s =
    call "UserPresence:online" (s.ids s.drawn) no_items
    ∷ (room_subs s.client.rooms s.ids (s.drawn + 1)
        ++ sub "stream-notify-user" (s.ids (s.drawn + 1 + length s.client.rooms))
            (room_params (s.client.user_id & "/subscriptions-changed"))
          ∷ [])

on_login-sent : (s : Session) → IsOpen s → (on_login s).sent ≡ s.sent ++ login_frames s
unfolding on_login login_frames
on_login-sent s h =
    let rooms = s.client.rooms in
    let user = room_params (s.client.user_id & "/subscriptions-changed") in
    let online = record (wrote s 1 (call "UserPresence:online" (s.ids s.drawn) no_items ∷ [])) {
      pending = insert s.pending (s.ids s.drawn) "UserPresence:online";
    } in
    let all = wrote online (length rooms) (room_subs rooms s.ids (s.drawn + 1)) in
    ap (λ o. (subscribe "stream-notify-user" user (subscribe_all rooms o)).sent)
      (call_method-open "UserPresence:online" no_items s h)
    ∙ ap (λ o. (subscribe "stream-notify-user" user o).sent) (subscribe_all-open rooms online h)
    ∙ ap (λ (o : Session). o.sent) (subscribe-open "stream-notify-user" user all h)
    ∙ append_assoc online.sent (room_subs rooms s.ids (s.drawn + 1))
        (sub "stream-notify-user" (s.ids all.drawn) user ∷ [])
    ∙ append_assoc s.sent (call "UserPresence:online" (s.ids s.drawn) no_items ∷ []) (
        room_subs rooms s.ids (s.drawn + 1) ++ sub "stream-notify-user" (s.ids all.drawn) user ∷ [])

-- Where every write succeeds, the result of a login that a session waits for makes it report the bot
-- as online, then subscribe to each room that it keeps, once and in the order of the map, then to the
-- changes of its subscriptions, and nothing else.
pub process_message-login :
    (parse_time : String → Option ℤ) (m : DdpMessage) (s : Session)
    → IsOpen s
    → m.msg ≡ "result"
    → lookup s.pending m.id ≡ some "login"
    → (process_message parse_time m s).sent ≡ s.sent ++ login_frames s
unfolding process_message on_result login_frames
process_message-login parse_time m s h e p =
    rw (e, p, process_message, on_result)
      (on_login-sent (record s { pending = delete s.pending m.id }) h)
