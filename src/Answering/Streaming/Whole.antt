-- ===== src/Answering/Streaming/Whole.antt =====
-- What a message shows once it is answered without structured events.
use mathlib.Core.Path.{subst}
use text.Mathlib.TextLemmas.{nil-append}
use rocketbot.Message.{Message}
use rocketbot.Http.{World}
use rocketbot.Api.{ApiClient, Result, ok, err, post_message, update_message}
use rocketbot.Answering.{Outcome, returned, reply_thread, Shows, posted_as, changed_to}
use rocketbot.Answering.Streaming.{
  after_update, respond_once, handle_non_streaming_response, StreamInput, start_stream, stream_loop,
  stream_after_post, handle_streaming_response,
}
use rocketbot.Answering.Streaming.Shown.{
  chunks, ends, after_update-ok, stream_loop-Shows, stream_loop-Returns,
}
use rocketbot.Prelude.{
  Bool-cases, ℕ, String, ◌≡◌, refl, ap, ◌≢◌, inl, inr, Bool, true, false, Option, none, some, List,
  arith,
}

module _ (a : ApiClient) (room : String) (started : Bool) (now : ℕ)
    (inputs : List (ℕ × StreamInput)) where
  stream_after_post-Shows :
      (r : Result String) (w w' : World)
      → ((id : String) → r ≡ ok id → Shows a room id "..." w)
      → stream_after_post a room started now inputs r w ≡ (returned true, w')
      → (id : String) × (chunks inputs ≢ "") × Shows a room id (chunks inputs) w'
  unfolding stream_after_post
  stream_after_post-Shows (err e) w w' h e' = absurd (ground (arith, ap (λ p. p.0) e'))
  stream_after_post-Shows (ok id) w w' h e' = elim (Bool-cases started) [
    | inr s ↦ absurd (ground (arith, ap (λ p. p.0) e'))
    | inl s ↦
        let same : stream_loop a room id (start_stream now) inputs w ≡ (returned true, w') =
          ground arith in
        let (n, shows) =
          stream_loop-Shows a room id (start_stream now) inputs w w' (h id refl) same in
        (
          id,
          subst (λ t. t ≢ "") (nil-append (chunks inputs)) n,
          subst (λ t. Shows a room id t w') (nil-append (chunks inputs)) shows,
        )
  ]

  stream_after_post-Returns :
      (r : Result String) (w : World)
      → ends inputs ≡ true
      → (b : Bool) × ((stream_after_post a room started now inputs r w).0 ≡ returned b)
  unfolding stream_after_post
  stream_after_post-Returns (err e) w h = (false, refl)
  stream_after_post-Returns (ok id) w h = elim (Bool-cases started) [
    | inr s ↦ rw (s, stream_after_post) (false, refl)
    | inl s ↦
        rw (s, stream_after_post) (stream_loop-Returns a room id (start_stream now) inputs w h)
  ]

module _ (a : ApiClient) (message : Message) (thread_default started : Bool) (now : ℕ)
    (inputs : List (ℕ × StreamInput)) (w : World) where
  abbrev pub streamed : Outcome × World
  streamed = handle_streaming_response a message thread_default started now inputs w

  -- Where the handler returns true, the chunks before the closing of the stream make a text that is
  -- not empty, and the message that it posted shows this text.
  pub handle_streaming-Shows :
      (w' : World)
      → streamed ≡ (returned true, w')
      → (id : String) × (chunks inputs ≢ "") × Shows a message.room_id id (chunks inputs) w'
  unfolding handle_streaming_response
  handle_streaming-Shows w' e =
      let thread = reply_thread message thread_default in
      stream_after_post-Shows a message.room_id started now inputs
        (post_message a message.room_id "..." thread w).0
        (post_message a message.room_id "..." thread w).1 w' (λ id p. posted_as "..." thread w p) e

  -- The handler returns whenever the stream closes or the context is cancelled.
  pub handle_streaming-Returns : ends inputs ≡ true → (b : Bool) × (streamed.0 ≡ returned b)
  unfolding handle_streaming_response
  handle_streaming-Returns h =
      let thread = reply_thread message thread_default in
      stream_after_post-Returns a message.room_id started now inputs
        (post_message a message.room_id "..." thread w).0
        (post_message a message.room_id "..." thread w).1 h

respond_once-Shows :
    (a : ApiClient) (room : String) (response : Option String) (r : Result String) (w : World)
    → ((id : String) → r ≡ ok id → Shows a room id "..." w)
    → (respond_once a room response r w).0 ≡ true
    → (id text : String) × (response ≡ some text)
      × Shows a room id text (respond_once a room response r w).1
unfolding respond_once after_update
respond_once-Shows a room response (err e) w h p = absurd (ground arith)
respond_once-Shows a room none (ok id) w h p = absurd (ground arith)
respond_once-Shows a room (some text) (ok id) w h p = (
  id,
  text,
  refl,
  changed_to text w (h id refl) (after_update-ok a room id (update_message a room id text w).0 p),
)

-- Where the handler without a stream returns true, there is a response, and the message that it
-- posted shows it.
pub handle_non_streaming-Shows :
    (a : ApiClient) (message : Message) (thread_default : Bool) (response : Option String)
    (w : World)
    → (handle_non_streaming_response a message thread_default response w).0 ≡ true
    → (id text : String) × (response ≡ some text)
      × Shows a message.room_id id text
          (handle_non_streaming_response a message thread_default response w).1
unfolding handle_non_streaming_response
handle_non_streaming-Shows a message thread_default response w p =
    let thread = reply_thread message thread_default in
    respond_once-Shows a message.room_id response (post_message a message.room_id "..." thread w).0
      (post_message a message.room_id "..." thread w).1 (λ id q. posted_as "..." thread w q) p
