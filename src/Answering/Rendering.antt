-- ===== src/Answering/Rendering.antt =====
-- handleRenderStreamingResponse of bot/client.go: a posted message that follows a stream of events.
pub mod Shown
pub mod Returns
pub mod Whole
use rocketbot.Message.{Message, RenderEvent}
use rocketbot.Text.{trim_space, has_suffix, trim_suffix}
use rocketbot.Http.{World}
use rocketbot.Api.{ApiClient, Result, ok, err, post_message, update_message}
use rocketbot.Renderer.{Renderer, new_renderer, apply, render}
use rocketbot.Answering.{
  Outcome, returned, waiting, panicked, seconds, notice_text, notice_due, reply_thread,
}
use rocketbot.Prelude.{
  if◌then◌else◌, ℕ, ◌+◌, ◌-◌, String, ◌&◌, Bool, true, false, not, ◌&&◌, ◌||◌, none, some, List, [],
  ◌∷◌, ◌==◌,
}

unfoldable pub render_has_placeholder : String → Bool
render_has_placeholder rendered =
    let trimmed = trim_space rendered in trimmed == "..." || has_suffix trimmed "\n\n..."

unfoldable pub render_replace_placeholder : String → String → String
render_replace_placeholder rendered replacement =
    let trimmed = trim_space rendered in
    if trimmed == "..."
    then replacement
    else if has_suffix trimmed "\n\n..."
    then trim_suffix trimmed "\n\n..." & "\n\n" & replacement
    else rendered

pub record RenderLoop : Type 0 where
  pub renderer : Renderer
  pub last_sent : String
  pub dirty : Bool
  pub last_progress_at : ℕ
  pub next_notice_at : ℕ

pub data RenderInput : Type 0 where
  event : RenderEvent → RenderInput
  closed : RenderInput
  tick : RenderInput
  cancelled : RenderInput

unfoldable pub flush_due : RenderLoop → ℕ → Bool
flush_due l now =
    render_has_placeholder (render l.renderer) && notice_due l.last_progress_at l.next_notice_at now

-- The text that a flush at a time would send.
unfoldable pub current_text : RenderLoop → ℕ → String
current_text l now =
    let base = render l.renderer in
    let current =
      if flush_due l now
      then render_replace_placeholder base (notice_text (now - l.last_progress_at))
      else base in
    if current == "" then "..." else current

abbrev pub noticed : RenderLoop → ℕ → RenderLoop
noticed l now = record l {
  next_notice_at = if flush_due l now then now + seconds 20 else l.next_notice_at;
}

-- The end of a flush, by the outcome of the update.
unfoldable pub flushed : Result (Unit {0}) → String → RenderLoop → Bool × RenderLoop
flushed (err e) current l = (false, l)
flushed (ok u) current l = (true, record l { last_sent = current; dirty = false })

abbrev pub Flush : Type 0
Flush = Bool × RenderLoop × World

unfoldable pub send_flush : ApiClient → String → String → String → RenderLoop → World → Flush
send_flush a room id current l w =
    let (r, w') = update_message a room id current w in
    let (sent, l') = flushed r current l in (sent, l', w')

-- Whether the flush goes on, the state after it, and the server's.
unfoldable pub flush : ApiClient → String → String → Bool → ℕ → RenderLoop → World → Flush
flush a room id force now l w =
    if not l.dirty && not force && not (flush_due l now)
    then (true, l, w)
    else if not force && current_text l now == l.last_sent
    then (true, record (noticed l now) { dirty = false }, w)
    else send_flush a room id (current_text l now) (noticed l now) w

unfoldable pub progressed : RenderLoop → Renderer → Bool → ℕ → RenderLoop
progressed l r changed now =
    if changed
    then record l {
      renderer = r;
      dirty = true;
      last_progress_at = now;
      next_notice_at = now + seconds 10;
    }
    else record l { renderer = r }

abbrev pub Run : Type 0
Run = Outcome × RenderLoop × World

unfoldable pub render_loop :
    ApiClient → String → String → RenderLoop → List (ℕ × RenderInput) → World → Run
render_loop a room id l [] w = (waiting, l, w)
render_loop a room id l ((now, event ev) ∷ rest) w = elim (apply l.renderer ev) [
  | none ↦ (panicked, l, w)
  | some (r, changed) ↦ render_loop a room id (progressed l r changed now) rest w
]
render_loop a room id l ((now, closed) ∷ rest) w =
    let (goes_on, l', w') = flush a room id true now l w in (returned goes_on, l', w')
render_loop a room id l ((now, tick) ∷ rest) w =
    let (goes_on, l', w') = flush a room id false now l w in
    let later = render_loop a room id l' rest w' in
    if goes_on then later else (returned false, l', w')
render_loop a room id l ((now, cancelled) ∷ rest) w = (returned false, l, w)

unfoldable pub start_loop : String → ℕ → RenderLoop
start_loop mode now = record {
  renderer = new_renderer mode;
  last_sent = "...";
  dirty = false;
  last_progress_at = now;
  next_notice_at = now + seconds 10;
}

-- `started` is whether GenerateRenderStream gives a stream.
unfoldable pub after_post :
    ApiClient
    → String
    → Bool
    → RenderLoop
    → List (ℕ × RenderInput)
    → Result String
    → World
    → Outcome × World
after_post a room started l inputs (err e) w = (returned false, w)
after_post a room started l inputs (ok id) w =
    let (o, l', w') = render_loop a room id l inputs w in
    if started then (o, w') else (returned false, w)

unfoldable pub handle_render_streaming_response :
    ApiClient
    → Message
    → String
    → Bool
    → Bool
    → ℕ
    → List (ℕ × RenderInput)
    → World
    → Outcome × World
handle_render_streaming_response a message render_mode thread_default started now inputs w =
    let (r, w') = post_message a message.room_id "..." (reply_thread message thread_default) w in
    after_post a message.room_id started (start_loop render_mode now) inputs r w'
