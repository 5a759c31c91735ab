-- ===== src/Ddp/Run/Tracked.antt =====
-- A client's direct message rooms are among its rooms from its start on.
use mathlib.Core.Path.{subst}
use rocketbot.Json.{ℤ, Fields, struct_bool, ◌>>=◌}
use rocketbot.GoMap.{GoMap, lookup, insert, lookup-insert}
use rocketbot.Http.{World}
use rocketbot.Api.{ApiClient, Result, ok, err}
use rocketbot.Api.History.{
  on_success, fetch_username, set_status_online, struct_items, read_all, read_subscription,
  dm_rooms_of, rooms_of, read_subscriptions, get_subscriptions,
}
use rocketbot.Client.{Client, flag}
use rocketbot.Ddp.{connect, pong, Session, send_message, process_message}
use rocketbot.Ddp.Admission.{send_message-Quiet}
use rocketbot.Ddp.Rooms.{IsTracked, process_message-IsTracked}
use rocketbot.Ddp.Run.{
  rooms_set, dms_set, with_subscriptions, after_status, after_username, initialize, Halt, Ending,
  Incoming, arrives, read_fails, Turn, RunEnd, after_session, over_or, turn_over, handle_messages,
  run_session, run_with_reconnect,
}
use rocketbot.Prelude.{
  if◌then◌else◌, Bool-cases, Option-cases, if-intro, All, String, ◌≡◌, sym, ap, ◌∙◌, inl, inr, Bool,
  true, not, Option, none, some, List, [], ◌∷◌, arith, ◌==◌, eq_iff, eq_refl,
}

-- The keys that a map gives a true value are among the rooms.
abbrev EntriesIn : GoMap Bool → GoMap Bool → Type 0
EntriesIn rooms m = All (λ (e : String × Bool). flag rooms e.0 ≡ true) m

flag-insert :
    (m : GoMap Bool) (k j : String) → flag (insert m k true) j ≡ (if k == j then true else flag m j)
flag-insert m k j = ground (arith, lookup-insert m k true j)

insert-EntriesIn :
    (rooms m : GoMap Bool) (k : String)
    → flag rooms k ≡ true
    → EntriesIn rooms m
    → EntriesIn rooms (insert m k true)
unfolding insert
insert-EntriesIn rooms [] k h e = (h, tt)
insert-EntriesIn rooms ((j, v) ∷ m) k h (f, e) =
    if-intro (EntriesIn rooms) (j == k) (λ _. (h, e)) (λ _. (f, insert-EntriesIn rooms m k h e))

flag-EntriesIn :
    (rooms m : GoMap Bool) (k : String) → EntriesIn rooms m → flag m k ≡ true → flag rooms k ≡ true
unfolding lookup
flag-EntriesIn rooms [] k e h = absurd (ground arith)
flag-EntriesIn rooms ((j, v) ∷ m) k (f, e) h = elim (Bool-cases (j == k)) [
  | inl q ↦ ap (flag rooms) (sym ((eq_iff j k).0 q)) ∙ f
  | inr q ↦ flag-EntriesIn rooms m k e (ground arith)
]

dms_set-EntriesIn :
    (rooms dms m : GoMap Bool)
    → EntriesIn rooms dms
    → EntriesIn rooms m
    → EntriesIn rooms (dms_set dms m)
unfolding dms_set
dms_set-EntriesIn rooms [] m d e = e
dms_set-EntriesIn rooms ((rid, is_dm) ∷ dms) m (f, d) e =
    dms_set-EntriesIn rooms dms (if is_dm then insert m rid true else m) d
      (if-intro (EntriesIn rooms) is_dm (λ _. insert-EntriesIn rooms m rid f e) (λ _. e))

abbrev RoomsIn : GoMap Bool → List String → Type 0
RoomsIn rooms rids = All (λ rid. flag rooms rid ≡ true) rids

rooms_set-keeps :
    (rids : List String) (m : GoMap Bool) (k : String)
    → flag m k ≡ true
    → flag (rooms_set rids m) k ≡ true
unfolding rooms_set
rooms_set-keeps [] m k h = h
rooms_set-keeps (rid ∷ rids) m k h =
    rooms_set-keeps rids (insert m rid true) k (ground (arith, flag-insert m rid k, h))

rooms_set-RoomsIn : (rids : List String) (m : GoMap Bool) → RoomsIn (rooms_set rids m) rids
unfolding rooms_set
rooms_set-RoomsIn [] m = tt
rooms_set-RoomsIn (rid ∷ rids) m = (
  rooms_set-keeps rids (insert m rid true) rid (ground (arith, flag-insert m rid rid, eq_refl rid)),
  rooms_set-RoomsIn rids (insert m rid true),
)

-- The direct message rooms that a reply lists are rooms that it lists.
dm_rooms_of-EntriesIn :
    (rooms : GoMap Bool) (subs : List (String × String)) (m : GoMap Bool)
    → RoomsIn rooms (rooms_of subs)
    → EntriesIn rooms m
    → EntriesIn rooms (dm_rooms_of subs m)
unfolding dm_rooms_of rooms_of
dm_rooms_of-EntriesIn rooms [] m r e = e
dm_rooms_of-EntriesIn rooms ((rid, t) ∷ subs) m (f, r) e =
    dm_rooms_of-EntriesIn rooms subs (if t == "d" then insert m rid true else m) r
      (if-intro (EntriesIn rooms) (t == "d") (λ _. insert-EntriesIn rooms m rid f e) (λ _. e))

abbrev Listed : Option (List String × GoMap Bool) → Type 0
Listed none = Unit
Listed (some (rids, dms)) = (rooms : GoMap Bool) → RoomsIn rooms rids → EntriesIn rooms dms

bind-Listed :
    {A : Type 0} (o : Option A) (f : A → Option (List String × GoMap Bool))
    → ((x : A) → Listed (f x))
    → Listed (o >>= f)
bind-Listed none f h = tt
bind-Listed (some x) f h = h x

read_subscriptions-Listed : (m : Fields) → Listed (read_subscriptions m)
unfolding read_subscriptions
read_subscriptions-Listed m = bind-Listed (struct_items m "update") _ (λ items.
    bind-Listed (read_all read_subscription items) _
      (λ subs rooms r. dm_rooms_of-EntriesIn rooms subs [] r tt))

abbrev ListedOk : Result (List String × GoMap Bool) → Type 0
ListedOk (err e) = Unit
ListedOk (ok r) = Listed (some r)

on_success-ListedOk : (r : Result Fields) → ListedOk (on_success read_subscriptions r)
unfolding on_success
on_success-ListedOk (err e) = tt
on_success-ListedOk (ok m) = elim (Option-cases (struct_bool m "success")) [
  | inl e ↦ rw (e, on_success) tt
  | inr (success, e) ↦ elim (Option-cases (read_subscriptions m)) [
    | inl f ↦ rw (e, f, on_success) tt
    | inr (r, f) ↦
        rw (e, f, on_success)
          (if-intro ListedOk success (λ _. subst Listed f (read_subscriptions-Listed m)) (λ _. tt))
  ]
]

-- A client that is given has its direct message rooms among its rooms.
abbrev pub GivesTracked : Result Client → Type 0
GivesTracked (err e) = Unit
GivesTracked (ok c) = IsTracked c

with_subscriptions-GivesTracked :
    (c : Client) (r : Result (List String × GoMap Bool))
    → ListedOk r
    → GivesTracked (with_subscriptions c r)
unfolding with_subscriptions
with_subscriptions-GivesTracked c (err e) h = tt
with_subscriptions-GivesTracked c (ok (rids, dms)) h =
    let rooms = rooms_set rids [] in
    λ k f.
      flag-EntriesIn rooms (dms_set dms []) k
        (dms_set-EntriesIn rooms dms [] (h rooms (rooms_set-RoomsIn rids [])) tt) f

after_status-GivesTracked :
    (a : ApiClient) (c : Client) (r : Result (Unit {0})) (w : World)
    → GivesTracked (after_status a c r w).0
unfolding after_status get_subscriptions
after_status-GivesTracked a c (err e) w = tt
after_status-GivesTracked a c (ok u) w =
    with_subscriptions-GivesTracked c (get_subscriptions a w).0 (on_success-ListedOk _)

after_username-GivesTracked :
    (quote : String → String) (a : ApiClient) (status : String) (c : Client) (r : Result String)
    (w : World)
    → GivesTracked (after_username quote a status c r w).0
unfolding after_username
after_username-GivesTracked quote a status c (err e) w = tt
after_username-GivesTracked quote a status c (ok name) w =
    after_status-GivesTracked a (record c { username = name })
      (set_status_online quote a status w).0 (set_status_online quote a status w).1

initialize-GivesTracked :
    (quote : String → String) (a : ApiClient) (status : String) (c : Client) (w : World)
    → GivesTracked (initialize quote a status c w).0
unfolding initialize
initialize-GivesTracked quote a status c w =
    after_username-GivesTracked quote a status c (fetch_username a w).0 (fetch_username a w).1

over_or-IsTracked :
    (o : Option (Option Halt)) (s : Session) (later : RunEnd × Session)
    → IsTracked s.client
    → IsTracked later.1.client
    → IsTracked (over_or o s later).1.client
unfolding over_or
over_or-IsTracked none s later h k = k
over_or-IsTracked (some r) s later h k = h

turn_over-IsTracked :
    (check pause : Option Halt) (s : Session) (e : Option Ending) (s' : Session)
    (later : RunEnd × Session)
    → IsTracked s.client
    → IsTracked s'.client
    → IsTracked later.1.client
    → IsTracked (turn_over check pause s e s' later).1.client
unfolding turn_over
turn_over-IsTracked (some x) pause s e s' later h h' k = h
turn_over-IsTracked none pause s none s' later h h' k = h'
turn_over-IsTracked none pause s (some e) s' later h h' k =
    over_or-IsTracked (after_session e pause) s' later h' k

module _ (parse_time : String → Option ℤ) where
  handle_messages-IsTracked :
      (incoming : List Incoming) (s : Session)
      → IsTracked s.client
      → IsTracked (handle_messages parse_time incoming s).1.client
  unfolding handle_messages
  handle_messages-IsTracked [] s h = h
  handle_messages-IsTracked (read_fails e ∷ rest) s h = h
  handle_messages-IsTracked (arrives m ∷ rest) s h =
      handle_messages-IsTracked rest
        (if m.msg == "ping" then (send_message pong s).1 else process_message parse_time m s)
        (if-intro (λ (x : Session). IsTracked x.client) (m.msg == "ping")
          (λ _. subst IsTracked (sym (send_message-Quiet pong s).1) h)
          (λ _. process_message-IsTracked parse_time m s h))

  run_session-IsTracked :
      (is_dialled : Bool) (incoming : List Incoming) (s : Session)
      → IsTracked s.client
      → IsTracked (run_session parse_time is_dialled incoming s).1.client
  unfolding run_session
  run_session-IsTracked is_dialled incoming s h =
      let P : Option Ending × Session → Type 0 = λ x. IsTracked x.1.client in
      let begun = record s { pending = [] } in
      let kept = subst IsTracked (sym (send_message-Quiet connect begun).1) h in
      if-intro P (not is_dialled) (λ _. h)
        (λ _.
          if-intro P (send_message connect begun).0
            (λ _. handle_messages-IsTracked incoming (send_message connect begun).1 kept)
            (λ _. kept))

  run-IsTracked :
      (turns : List Turn) (s : Session)
      → IsTracked s.client
      → IsTracked (run_with_reconnect parse_time turns s).1.client
  unfolding run_with_reconnect
  run-IsTracked [] s h = h
  run-IsTracked (t ∷ turns) s h =
      let r = run_session parse_time t.is_dialled t.incoming s in
      let h' = run_session-IsTracked t.is_dialled t.incoming s h in
      turn_over-IsTracked t.check t.pause s r.0 r.1 (run_with_reconnect parse_time turns r.1) h h'
        (run-IsTracked turns r.1 h')

  -- Where a client is initialised, then through every session and every reconnection, whatever arrives
  -- and whatever fails, each of its direct message rooms is one of its rooms.
  pub initialize-run :
      (quote : String → String) (a : ApiClient) (status : String) (c c' : Client) (w : World)
      (turns : List Turn) (s : Session)
      → (initialize quote a status c w).0 ≡ ok c'
      → s.client ≡ c'
      → IsTracked (run_with_reconnect parse_time turns s).1.client
  initialize-run quote a status c c' w turns s h e =
      run-IsTracked turns s (
        subst IsTracked (sym e) (subst GivesTracked h (initialize-GivesTracked quote a status c w)))
