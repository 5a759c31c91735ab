-- ===== src/Answering/Streaming.antt =====
-- handleNonStreamingResponse and handleStreamingResponse of bot/client.go.
pub mod Shown
pub mod Whole
use rocketbot.Message.{Message}
use rocketbot.Http.{World}
use rocketbot.Api.{ApiClient, Result, ok, err, post_message, update_message}
use rocketbot.Answering.{Outcome, returned, waiting, seconds, notice_text, notice_due, reply_thread}
use rocketbot.Prelude.{
  if◌then◌else◌, ℕ, ◌+◌, ◌-◌, String, ◌&◌, Bool, true, false, not, ◌&&◌, Option, none, some, List,
  [], ◌∷◌, ◌==◌,
}

-- The response is none where GenerateResponse fails.
unfoldable pub after_update : Result (Unit {0}) → Bool
after_update (ok u) = true
after_update (err e) = false

unfoldable pub respond_once :
    ApiClient → String → Option String → Result String → World → Bool × World
respond_once a room response (err e) w = (false, w)
respond_once a room none (ok id) w = (false, w)
respond_once a room (some response) (ok id) w =
    let (r, w') = update_message a room id response w in (after_update r, w')

unfoldable pub handle_non_streaming_response :
    ApiClient → Message → Bool → Option String → World → Bool × World
handle_non_streaming_response a message thread_default response w =
    let (r, w') = post_message a message.room_id "..." (reply_thread message thread_default) w in
    respond_once a message.room_id response r w'

pub record StreamLoop : Type 0 where
  pub buffer : String
  pub last_sent : String
  pub last_chunk_at : ℕ
  pub next_notice_at : ℕ

pub data StreamInput : Type 0 where
  chunk : String → StreamInput
  closed : StreamInput
  tick : StreamInput
  cancelled : StreamInput

abbrev pub start_stream : ℕ → StreamLoop
start_stream now = record {
  buffer = "";
  last_sent = "";
  last_chunk_at = now;
  next_notice_at = now + seconds 10;
}

abbrev pub buffered : StreamLoop → String → ℕ → StreamLoop
buffered l text now = record l {
  buffer = l.buffer & text;
  last_chunk_at = now;
  next_notice_at = now + seconds 10;
}

-- An error of an update is logged, and the next tick tries again.
unfoldable pub ticked : Result (Unit {0}) → StreamLoop → StreamLoop → StreamLoop
ticked (ok u) changed l = changed
ticked (err e) changed l = l

unfoldable pub send_tick :
    ApiClient → String → String → String → StreamLoop → StreamLoop → World → StreamLoop × World
send_tick a room id text changed l w =
    let (r, w') = update_message a room id text w in (ticked r changed l, w')

unfoldable pub on_tick : ApiClient → String → String → ℕ → StreamLoop → World → StreamLoop × World
on_tick a room id now l w =
    let notice = notice_text (now - l.last_chunk_at) in
    if l.buffer == "" && notice_due l.last_chunk_at l.next_notice_at now
    then send_tick a room id notice
        (record l { last_sent = notice; next_notice_at = now + seconds 20 }) l w
    else if not (l.buffer == l.last_sent) && not (l.buffer == "")
    then send_tick a room id l.buffer (record l { last_sent = l.buffer }) l w
    else (l, w)

abbrev no_response_text : String
no_response_text = "_No response produced._"

unfoldable pub finish : ApiClient → String → String → StreamLoop → World → Bool × World
finish a room id l w =
    if l.buffer == "" && not (l.last_sent == "")
    then (let (r, w') = update_message a room id no_response_text w in (false, w'))
    else if not (l.buffer == l.last_sent) && not (l.buffer == "")
    then (let (r, w') = update_message a room id l.buffer w in (after_update r, w'))
    else (l.buffer == l.last_sent && not (l.buffer == ""), w)

unfoldable pub stream_loop :
    ApiClient → String → String → StreamLoop → List (ℕ × StreamInput) → World → Outcome × World
stream_loop a room id l [] w = (waiting, w)
stream_loop a room id l ((now, chunk text) ∷ rest) w =
    stream_loop a room id (buffered l text now) rest w
stream_loop a room id l ((now, closed) ∷ rest) w =
    let (b, w') = finish a room id l w in (returned b, w')
stream_loop a room id l ((now, tick) ∷ rest) w =
    let (l', w') = on_tick a room id now l w in stream_loop a room id l' rest w'
stream_loop a room id l ((now, cancelled) ∷ rest) w = (returned false, w)

-- `started` is whether GenerateResponseStream gives a stream.
unfoldable pub stream_after_post :
    ApiClient → String → Bool → ℕ → List (ℕ × StreamInput) → Result String → World → Outcome × World
stream_after_post a room started now inputs (err e) w = (returned false, w)
stream_after_post a room started now inputs (ok id) w =
    let streamed = stream_loop a room id (start_stream now) inputs w in
    if started then streamed else (returned false, w)

unfoldable pub handle_streaming_response :
    ApiClient → Message → Bool → Bool → ℕ → List (ℕ × StreamInput) → World → Outcome × World
handle_streaming_response a message thread_default started now inputs w =
    let (r, w') = post_message a message.room_id "..." (reply_thread message thread_default) w in
    stream_after_post a message.room_id started now inputs r w'
