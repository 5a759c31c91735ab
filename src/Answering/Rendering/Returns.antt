-- ===== src/Answering/Rendering/Returns.antt =====
-- That the loop of handleRenderStreamingResponse returns, what it has shown then, and how many
-- requests it makes.
use mathlib.Core.Path.{subst}
use rocketbot.Http.{World, exchange}
use rocketbot.Api.{ApiClient, update_request, update_message}
use rocketbot.Renderer.{apply}
use rocketbot.Renderer.Index.{IsIndexed, apply_as-IsIndexed}
use rocketbot.Answering.{returned, Result-cases}
use rocketbot.Answering.Rendering.{
  RenderLoop, RenderInput, event, closed, tick, cancelled, flush_due, current_text, noticed,
  flushed, Flush, send_flush, flush, progressed, Run, render_loop,
}
use rocketbot.Answering.Rendering.Shown.{progressed-kept}
use rocketbot.Prelude.{
  Bool-cases, Option-cases, if-intro, length, length-append, ℕ, suc, ◌+◌, ◌≤◌, String, ◌≡◌, refl,
  sym, inl, inr, Bool, true, false, not, ◌&&◌, List, [], ◌∷◌, arith, ◌==◌,
}

-- Whether the stream closes or the context is cancelled.
unfoldable pub ends : List (ℕ × RenderInput) → Bool
ends [] = false
ends ((now, closed) ∷ rest) = true
ends ((now, cancelled) ∷ rest) = true
ends ((now, _) ∷ rest) = ends rest

unfoldable pub ticks : List (ℕ × RenderInput) → ℕ
ticks [] = 0
ticks ((now, tick) ∷ rest) = suc (ticks rest)
ticks ((now, _) ∷ rest) = ticks rest

abbrev Returns : Run → Type 0
Returns run = (b : Bool) × (run.0 ≡ returned b)

send_flush-renderer :
    (a : ApiClient) (room id current : String) (l : RenderLoop) (w : World)
    → (send_flush a room id current l w).1.renderer ≡ l.renderer
unfolding send_flush flushed
send_flush-renderer a room id current l w =
    elim (Result-cases (update_message a room id current w).0) [
      | inl (u, e) ↦ rw (e, send_flush, flushed) refl
      | inr (f, e) ↦ rw (e, send_flush, flushed) refl
    ]

abbrev KeepsRenderer : RenderLoop → Flush → Type 0
KeepsRenderer l f = f.1.renderer ≡ l.renderer

flush-renderer :
    (a : ApiClient) (room id : String) (force : Bool) (now : ℕ) (l : RenderLoop) (w : World)
    → (flush a room id force now l w).1.renderer ≡ l.renderer
unfolding flush
flush-renderer a room id force now l w =
    if-intro (KeepsRenderer l) (not l.dirty && not force && not (flush_due l now)) (λ _. refl)
      (λ _.
        if-intro (KeepsRenderer l) (not force && current_text l now == l.last_sent) (λ _. refl)
          (λ _. send_flush-renderer a room id (current_text l now) (noticed l now) w))

module _ (a : ApiClient) (room id : String) where
  pub render_loop-Returns :
      (l : RenderLoop) (inputs : List (ℕ × RenderInput)) (w : World)
      → IsIndexed l.renderer
      → ends inputs ≡ true
      → Returns (render_loop a room id l inputs w)
  unfolding render_loop ends
  render_loop-Returns l [] w i h = absurd (ground arith)
  render_loop-Returns l ((now, event ev) ∷ rest) w i h =
      let kept = apply_as-IsIndexed ev.type l.renderer ev i in
      elim (Option-cases (apply l.renderer ev)) [
        | inl e ↦ absurd (rw e at kept)
        | inr ((r, changed), e) ↦
            rw (e, render_loop)
              (render_loop-Returns (progressed l r changed now) rest w
                (subst IsIndexed (sym (progressed-kept l r changed now).0) (rw e at kept)) h)
      ]
  render_loop-Returns l ((now, closed) ∷ rest) w i h = ((flush a room id true now l w).0, refl)
  render_loop-Returns l ((now, tick) ∷ rest) w i h =
      elim (Bool-cases (flush a room id false now l w).0) [
        | inl e ↦
            rw (e, render_loop)
              (render_loop-Returns (flush a room id false now l w).1 rest
                (flush a room id false now l w).2
                (subst IsIndexed (sym (flush-renderer a room id false now l w)) i) h)
        | inr e ↦ rw (e, render_loop) (false, refl)
      ]
  render_loop-Returns l ((now, cancelled) ∷ rest) w i h = (false, refl)

-- One flush makes one request at most.
send_flush-log :
    (a : ApiClient) (room id current : String) (l : RenderLoop) (w : World)
    → length (send_flush a room id current l w).2.log ≤ length w.log + 1
unfolding send_flush update_message exchange
send_flush-log a room id current l w =
    omega (arith, length-append w.log (update_request a room id current ∷ []))

abbrev OneMore : World → Flush → Type 0
OneMore w f = length f.2.log ≤ length w.log + 1

flush-log :
    (a : ApiClient) (room id : String) (force : Bool) (now : ℕ) (l : RenderLoop) (w : World)
    → OneMore w (flush a room id force now l w)
unfolding flush
flush-log a room id force now l w =
    if-intro (OneMore w) (not l.dirty && not force && not (flush_due l now)) (λ _. omega arith)
      (λ _.
        if-intro (OneMore w) (not force && current_text l now == l.last_sent) (λ _. omega arith)
          (λ _. send_flush-log a room id (current_text l now) (noticed l now) w))

pub render_loop-log :
    (a : ApiClient) (room id : String) (l : RenderLoop) (inputs : List (ℕ × RenderInput))
    (w : World)
    → length (render_loop a room id l inputs w).2.log ≤ length w.log + ticks inputs + 1
unfolding render_loop ticks
render_loop-log a room id l [] w = omega arith
render_loop-log a room id l ((now, event ev) ∷ rest) w = elim (Option-cases (apply l.renderer ev)) [
  | inl e ↦ rw (e, render_loop) (omega arith)
  | inr ((r, changed), e) ↦
      rw (e, render_loop) (render_loop-log a room id (progressed l r changed now) rest w)
]
render_loop-log a room id l ((now, closed) ∷ rest) w =
    omega (arith, flush-log a room id true now l w)
render_loop-log a room id l ((now, tick) ∷ rest) w =
    let one = flush-log a room id false now l w in
    elim (Bool-cases (flush a room id false now l w).0) [
      | inl e ↦
          rw (e, render_loop)
            (omega (
              arith,
              render_loop-log a room id (flush a room id false now l w).1 rest
                  (flush a room id false now l w).2,
            ))
      | inr e ↦ rw (e, render_loop) (omega arith)
    ]
render_loop-log a room id l ((now, cancelled) ∷ rest) w = omega arith
