-- ===== src/Ddp/Run.antt =====
-- The life of a client in bot/client.go: initialize, runSession, handleMessages and runWithReconnect.
-- What arrives, which channel a select takes, and how long a session or a pause lasts are readings of
-- the environment; the lengths of the pauses are those of a package for back-off.
pub mod Tracked
mod Tests
use rocketbot.Json.{ℤ}
use rocketbot.GoMap.{GoMap, insert}
use rocketbot.Http.{World}
use rocketbot.Api.{ApiClient, Result, ok, err}
use rocketbot.Api.History.{fetch_username, set_status_online, get_subscriptions}
use rocketbot.Client.{Client}
use rocketbot.Ddp.{connect, pong, Session, DdpMessage, send_message, process_message}
use rocketbot.Prelude.{
  if◌then◌else◌, String, Bool, true, not, Option, none, some, List, [], ◌∷◌, ◌==◌,
}

unfoldable pub rooms_set : List String → GoMap Bool → GoMap Bool
rooms_set [] m = m
rooms_set (rid ∷ rids) m = rooms_set rids (insert m rid true)

unfoldable pub dms_set : GoMap Bool → GoMap Bool → GoMap Bool
dms_set [] m = m
dms_set ((rid, is_dm) ∷ rest) m = dms_set rest (if is_dm then insert m rid true else m)

unfoldable pub with_subscriptions : Client → Result (List String × GoMap Bool) → Result Client
with_subscriptions c (err e) = err e
with_subscriptions c (ok (rooms, dms)) =
    ok (record c { rooms = rooms_set rooms []; dm_rooms = dms_set dms [] })

unfoldable pub after_status : ApiClient → Client → Result (Unit {0}) → World → Result Client × World
after_status a c (err e) w = (err e, w)
after_status a c (ok u) w = let (r, w') = get_subscriptions a w in (with_subscriptions c r, w')

unfoldable pub after_username :
    (String → String) → ApiClient → String → Client → Result String → World → Result Client × World
after_username quote a status c (err e) w = (err e, w)
after_username quote a status c (ok name) w =
    let (r, w') = set_status_online quote a status w in
    after_status a (record c { username = name }) r w'

unfoldable pub initialize :
    (String → String) → ApiClient → String → Client → World → Result Client × World
initialize quote a status c w =
    let (r, w') = fetch_username a w in after_username quote a status c r w'

-- Stop was called, or the context is done.
pub data Halt : Type 0 where
  stop_requested context_done : Halt

-- Why a session ends.
pub data Ending : Type 0 where
  halted : Halt → Ending
  broken : Ending

-- A failed read tells which of the select's cases is taken then.
pub data Incoming : Type 0 where
  arrives : DdpMessage → Incoming
  read_fails : Ending → Incoming

-- One turn of the loop of runWithReconnect: what checkForStop finds, whether the WebSocket is dialled,
-- what arrives, and what cuts the pause after a broken session short.
pub record Turn : Type 0 where
  pub check : Option Halt
  pub is_dialled : Bool
  pub incoming : List Incoming
  pub pause : Option Halt

-- How runWithReconnect ends, none for no error, or that it still runs.
pub data RunEnd : Type 0 where
  ended : Option Halt → RunEnd
  runs : RunEnd

-- A context's error is returned, and a stop is none.
unfoldable pub error_of : Halt → Option Halt
error_of stop_requested = none
error_of context_done = some context_done

-- Whether the loop is over after a session, and with which error.
unfoldable pub after_session : Ending → Option Halt → Option (Option Halt)
after_session (halted h) pause = some (error_of h)
after_session broken none = none
after_session broken (some h) = some (error_of h)

unfoldable pub over_or : Option (Option Halt) → Session → RunEnd × Session → RunEnd × Session
over_or none s later = later
over_or (some r) s later = (ended r, s)

-- The end of a turn, before whose session the state is `s`, and `s'` after it. An error of checkForStop is
-- returned as it is, that of a stop too.
unfoldable pub turn_over :
    Option Halt
    → Option Halt
    → Session
    → Option Ending
    → Session
    → RunEnd × Session
    → RunEnd × Session
turn_over (some h) pause s e s' later = (ended (some h), s)
turn_over none pause s none s' later = (runs, s')
turn_over none pause s (some e) s' later = over_or (after_session e pause) s' later

module _ (parse_time : String → Option ℤ) where
  unfoldable pub handle_messages : List Incoming → Session → Option Ending × Session
  handle_messages [] s = (none, s)
  handle_messages (read_fails e ∷ rest) s = (some e, s)
  handle_messages (arrives m ∷ rest) s =
      handle_messages rest
        (if m.msg == "ping" then (send_message pong s).1 else process_message parse_time m s)

  unfoldable pub run_session : Bool → List Incoming → Session → Option Ending × Session
  run_session is_dialled incoming s =
      let (is_sent, s') = send_message connect (record s { pending = [] }) in
      let heard = handle_messages incoming s' in
      if not is_dialled then (some broken, s) else if is_sent then heard else (some broken, s')

  unfoldable pub run_with_reconnect : List Turn → Session → RunEnd × Session
  run_with_reconnect [] s = (runs, s)
  run_with_reconnect (t ∷ turns) s =
      let (e, s') = run_session t.is_dialled t.incoming s in
      let later = run_with_reconnect turns s' in turn_over t.check t.pause s e s' later
