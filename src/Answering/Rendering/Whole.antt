-- ===== src/Answering/Rendering/Whole.antt =====
-- handleRenderStreamingResponse as a whole.
use mathlib.Core.Path.{subst}
use rocketbot.Message.{Message}
use rocketbot.Http.{World, exchange}
use rocketbot.Api.{ApiClient, Result, ok, err, post_request, post_message}
use rocketbot.Renderer.{Renderer, new_renderer, render}
use rocketbot.Renderer.Index.{new_renderer-IsIndexed, apply_all}
use rocketbot.Answering.{Outcome, returned, reply_thread, Shows, posted_as}
use rocketbot.Answering.Rendering.{
  RenderInput, Run, render_loop, start_loop, after_post, handle_render_streaming_response,
}
use rocketbot.Answering.Rendering.Shown.{events_of, IsSent, render_loop-Ends}
use rocketbot.Answering.Rendering.Returns.{ends, ticks, render_loop-Returns, render_loop-log}
use rocketbot.Prelude.{
  Bool-cases, length, length-append, ℕ, ◌+◌, ◌≤◌, String, ◌≡◌, refl, sym, ap, ◌∙◌, inl, inr, Bool,
  true, false, some, List, [], ◌∷◌, arith,
}

-- The message of a reply shows a text that is sent for the rendering of all events before the stream
-- closed.
abbrev pub Delivered : ApiClient → String → String → List (ℕ × RenderInput) → World → Type 0
Delivered a room mode inputs w =
    (id text : String) × (r : Renderer) × (apply_all (new_renderer mode) (events_of inputs)
      ≡ some r)
    × IsSent (render r) text
    × Shows a room id text w

abbrev ended : ApiClient → String → String → String → ℕ → List (ℕ × RenderInput) → World → Run
ended a room id mode now inputs w = render_loop a room id (start_loop mode now) inputs w

module _ (a : ApiClient) (room mode : String) (started : Bool) (now : ℕ)
    (inputs : List (ℕ × RenderInput)) where
  after_post-loop :
      (id : String) (w : World)
      → started ≡ true
      → after_post a room started (start_loop mode now) inputs (ok id) w
        ≡ ((ended a room id mode now inputs w).0, (ended a room id mode now inputs w).2)
  unfolding after_post
  after_post-loop id w s = rw (s, after_post) refl

  after_post-Delivered :
      (r : Result String) (w w' : World)
      → ((id : String) → r ≡ ok id → Shows a room id "..." w)
      → after_post a room started (start_loop mode now) inputs r w ≡ (returned true, w')
      → Delivered a room mode inputs w'
  unfolding after_post start_loop
  after_post-Delivered (err e) w w' h e' = absurd (ground (arith, ap (λ p. p.0) e'))
  after_post-Delivered (ok id) w w' h e' = elim (Bool-cases started) [
    | inr s ↦ absurd (ground (arith, ap (λ p. p.0) e'))
    | inl s ↦
        let same = sym (after_post-loop id w s) ∙ e' in
        let (shown, final) =
          render_loop-Ends a room id (start_loop mode now) inputs w (h id refl) in
        let (applied, last) = final (ap (λ p. p.0) same) in
        (
          id,
          (ended a room id mode now inputs w).1.last_sent,
          (ended a room id mode now inputs w).1.renderer,
          applied,
          last,
          subst (λ v. Shows a room id (ended a room id mode now inputs w).1.last_sent v)
              (ap (λ p. p.1) same) shown,
        )
  ]

  after_post-Returns :
      (r : Result String) (w : World)
      → ends inputs ≡ true
      → (b : Bool) × ((after_post a room started (start_loop mode now) inputs r w).0 ≡ returned b)
  unfolding after_post start_loop
  after_post-Returns (err e) w h = (false, refl)
  after_post-Returns (ok id) w h = elim (Bool-cases started) [
    | inr s ↦ rw (s, after_post) (false, refl)
    | inl s ↦
        rw (s, after_post)
          (render_loop-Returns a room id (start_loop mode now) inputs w
            (new_renderer-IsIndexed mode) h)
  ]

  after_post-log :
      (r : Result String) (w : World)
      → length (after_post a room started (start_loop mode now) inputs r w).1.log
        ≤ length w.log + ticks inputs + 1
  unfolding after_post
  after_post-log (err e) w = omega arith
  after_post-log (ok id) w = elim (Bool-cases started) [
    | inr s ↦ rw (s, after_post) (omega arith)
    | inl s ↦ rw (s, after_post) (render_loop-log a room id (start_loop mode now) inputs w)
  ]

module _ (a : ApiClient) (message : Message) (mode : String) (thread_default started : Bool)
    (now : ℕ) (inputs : List (ℕ × RenderInput)) (w : World) where
  abbrev pub handled : Outcome × World
  handled = handle_render_streaming_response a message mode thread_default started now inputs w

  -- Where the handler returns true, it has applied every event up to the closing of the stream, and
  -- the message that it posted shows the rendering of them all; only where the placeholder is in that
  -- rendering, it may show the rendering with a notice in the placeholder's stead.
  pub handle_render-Delivered :
      (w' : World) → handled ≡ (returned true, w') → Delivered a message.room_id mode inputs w'
  unfolding handle_render_streaming_response
  handle_render-Delivered w' e =
      let text_thread = reply_thread message thread_default in
      after_post-Delivered a message.room_id mode started now inputs
        (post_message a message.room_id "..." text_thread w).0
        (post_message a message.room_id "..." text_thread w).1 w'
        (λ id p. posted_as "..." text_thread w p) e

  -- The handler returns, without a panic, whenever the stream closes or the context is cancelled.
  pub handle_render-Returns : ends inputs ≡ true → (b : Bool) × (handled.0 ≡ returned b)
  unfolding handle_render_streaming_response
  handle_render-Returns h =
      let text_thread = reply_thread message thread_default in
      after_post-Returns a message.room_id mode started now inputs
        (post_message a message.room_id "..." text_thread w).0
        (post_message a message.room_id "..." text_thread w).1 h

  -- The handler makes at most two requests more than the ticks of its timer.
  pub handle_render-log : length handled.1.log ≤ length w.log + ticks inputs + 2
  unfolding handle_render_streaming_response post_message exchange
  handle_render-log =
      let text_thread = reply_thread message thread_default in
      omega (
        arith,
        after_post-log a message.room_id mode started now inputs
            (post_message a message.room_id "..." text_thread w).0
            (post_message a message.room_id "..." text_thread w).1,
        length-append w.log (post_request a message.room_id "..." text_thread ∷ []),
      )
