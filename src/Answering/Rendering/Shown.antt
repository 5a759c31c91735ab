-- ===== src/Answering/Rendering/Shown.antt =====
-- What the message of a reply shows while and after the loop runs.
use Prim.Native.String
use mathlib.Core.Path.{subst}
use text.Mathlib.TextLemmas.{length-append as text_length-append, append-ne-nil_of_right_ne-nil}
use rocketbot.Text.{trim_space, has_suffix, trim_suffix, itoa}
use rocketbot.Renderer.Index.{apply_all}
use rocketbot.Renderer.{Renderer, apply, header, render}
use rocketbot.Message.{RenderEvent}
use rocketbot.Http.{World}
use rocketbot.Api.{ApiClient, update_message}
use rocketbot.Answering.{returned, rounded, notice_text, Shows, changed_to, kept_as, Result-cases}
use rocketbot.Answering.Rendering.{
  render_has_placeholder, render_replace_placeholder, RenderLoop, RenderInput, event, closed, tick,
  cancelled, flush_due, current_text, noticed, flushed, Flush, send_flush, flush, progressed, Run,
  render_loop,
}
use rocketbot.Prelude.{
  if◌then◌else◌, Bool-cases, Option-cases, if-intro, ℕ, String, ◌&◌, ◌≡◌, refl, sym, ap, ◌∙◌, ◌≢◌,
  ◌⊎◌, ◌-◌, inl, inr, Bool, true, false, not, ◌&&◌, some, List, [], ◌∷◌, arith, ◌==◌, eq_iff,
}

-- The events before the stream closes.
unfoldable pub events_of : List (ℕ × RenderInput) → List RenderEvent
events_of [] = []
events_of ((now, event ev) ∷ rest) = ev ∷ events_of rest
events_of ((now, closed) ∷ rest) = []
events_of ((now, _) ∷ rest) = events_of rest

module _ (a : ApiClient) (room id : String) where
  -- After a flush the text kept as the last one sent is shown, and the renderer is the same.
  abbrev IsFlushed : RenderLoop → Flush → Type 0
  IsFlushed l (goes_on, l', w') = Shows a room id l'.last_sent w' × (l'.renderer ≡ l.renderer)

  send_flush-IsFlushed :
      (current : String) (l : RenderLoop) (w : World)
      → Shows a room id l.last_sent w
      → IsFlushed l (send_flush a room id current l w)
  unfolding send_flush flushed
  send_flush-IsFlushed current l w h = elim (Result-cases (update_message a room id current w).0) [
    | inl (u, e) ↦ rw (e, send_flush, flushed) (changed_to current w h e, refl)
    | inr (f, e) ↦ rw (e, send_flush, flushed) (kept_as current w f h e, refl)
  ]

  flush-IsFlushed :
      (force : Bool) (now : ℕ) (l : RenderLoop) (w : World)
      → Shows a room id l.last_sent w
      → IsFlushed l (flush a room id force now l w)
  unfolding flush
  flush-IsFlushed force now l w h =
      if-intro (IsFlushed l) (not l.dirty && not force && not (flush_due l now)) (λ _. (h, refl))
        (λ _.
          if-intro (IsFlushed l) (not force && current_text l now == l.last_sent) (λ _. (h, refl))
            (λ _. send_flush-IsFlushed (current_text l now) (noticed l now) w h))

  -- A forced flush that goes on has sent the current text.
  send_flush-last_sent :
      (current : String) (l : RenderLoop) (w : World)
      → (send_flush a room id current l w).0 ≡ true
      → (send_flush a room id current l w).1.last_sent ≡ current
  unfolding send_flush flushed
  send_flush-last_sent current l w h = elim (Result-cases (update_message a room id current w).0) [
    | inl (u, e) ↦ rw (e, send_flush, flushed) refl
    | inr (f, e) ↦ absurd (ground (arith, e))
  ]

  flush_forced :
      (now : ℕ) (l : RenderLoop) (w : World)
      → flush a room id true now l w ≡ send_flush a room id (current_text l now) (noticed l now) w
  unfolding flush
  flush_forced now l w = ground arith

body-nonempty : (t : String) → (if t == "" then "..." else t) ≢ ""
body-nonempty t =
    if-intro (λ x. x ≢ "") (t == "") (λ _ e. omega (arith, ap String.count e))
      (λ h e. ground (arith, eq_iff t ""))

newline-nonempty : (s t : String) → s & "\n" & t ≢ ""
newline-nonempty s t e =
    omega (arith, ap String.count e, text_length-append s ("\n" & t), text_length-append "\n" t)

render-nonempty : (r : Renderer) → render r ≢ ""
unfolding render
render-nonempty r =
    if-intro (λ x. x ≢ "") (header r == "") (λ _. body-nonempty (trim_space r.answer))
      (λ _.
        newline-nonempty (header r)
          (if trim_space r.answer == "" then "..." else trim_space r.answer))

notice-nonempty : (n : ℕ) → notice_text n ≢ ""
unfolding notice_text
notice-nonempty n e =
    let size = text_length-append "_Still working... (" (itoa (rounded n) & "s)_") in
    omega (arith, size, ap String.count e)

replaced-nonempty :
    (s : String) (n : ℕ) → s ≢ "" → render_replace_placeholder s (notice_text n) ≢ ""
unfolding render_replace_placeholder
replaced-nonempty s n h =
    if-intro (λ t. t ≢ "") (trim_space s == "...") (λ _. notice-nonempty n)
      (λ _.
        if-intro (λ t. t ≢ "") (has_suffix (trim_space s) "\n\n...")
          (λ _.
            append-ne-nil_of_right_ne-nil (trim_suffix (trim_space s) "\n\n...")
              (append-ne-nil_of_right_ne-nil "\n\n" (notice-nonempty n)))
          (λ _. h))

-- A text that is sent for a rendering: the rendering, or where the placeholder is in it, the rendering
-- with a notice in its place.
abbrev pub IsSent : String → String → Type 0
IsSent rendered text =
    (text ≡ rendered)
    ⊎ ((render_has_placeholder rendered ≡ true)
        × (n : ℕ) × (text ≡ render_replace_placeholder rendered (notice_text n)))

some_text : (P : String → Type 0) (s : String) → s ≢ "" → P s → P (if s == "" then "..." else s)
some_text P s h p = if-intro P (s == "") (λ e. absurd (h (ground (arith, eq_iff s "")))) (λ _. p)

current_text-IsSent : (l : RenderLoop) (now : ℕ) → IsSent (render l.renderer) (current_text l now)
unfolding current_text flush_due
current_text-IsSent l now =
    let r = render l.renderer in
    let n = now - l.last_progress_at in
    let full = render-nonempty l.renderer in
    elim (Bool-cases (flush_due l now)) [
      | inl e ↦ rw e (
          some_text (IsSent r) (render_replace_placeholder r (notice_text n))
            (replaced-nonempty r n full) (inr (ground (arith, e), n, refl)))
      | inr e ↦ rw e (some_text (IsSent r) r full (inl refl))
    ]

-- What is known when the loop ends: the message shows the text that was kept, and where the loop
-- returned true, it has applied every event up to the closing of the stream, and the message shows
-- a text that is sent for the rendering of them all.
abbrev pub Ends : ApiClient → String → String → Renderer → List (ℕ × RenderInput) → Run → Type 0
Ends a room id r inputs (o, l', w') =
    Shows a room id l'.last_sent w'
    × (o ≡ returned true
        → (apply_all r (events_of inputs) ≡ some l'.renderer)
          × IsSent (render l'.renderer) l'.last_sent)

pub progressed-kept :
    (l : RenderLoop) (r : Renderer) (changed : Bool) (now : ℕ)
    → ((progressed l r changed now).renderer ≡ r)
      × ((progressed l r changed now).last_sent ≡ l.last_sent)
unfolding progressed
progressed-kept l r true now = (refl, refl)
progressed-kept l r false now = (refl, refl)

module _ (a : ApiClient) (room id : String) where
  closed-Ends :
      (l : RenderLoop) (now : ℕ) (w : World)
      → Shows a room id l.last_sent w
      → (flush a room id true now l w).0 ≡ true
      → IsSent
          (render (flush a room id true now l w).1.renderer)
          (flush a room id true now l w).1.last_sent
  closed-Ends l now w h e =
      let (shown, same) = flush-IsFlushed a room id true now l w h in
      let forced = flush_forced a room id now l w in
      let sent =
        ap (λ f. f.1.last_sent) forced
        ∙ send_flush-last_sent a room id (current_text l now) (noticed l now) w
            (sym (ap (λ f. f.0) forced) ∙ e) in
      subst (λ t. IsSent (render (flush a room id true now l w).1.renderer) t) (sym sent)
        (subst (λ r. IsSent (render r) (current_text l now)) (sym same) (current_text-IsSent l now))

  pub render_loop-Ends :
      (l : RenderLoop) (inputs : List (ℕ × RenderInput)) (w : World)
      → Shows a room id l.last_sent w
      → Ends a room id l.renderer inputs (render_loop a room id l inputs w)
  unfolding render_loop events_of apply_all
  render_loop-Ends l [] w h = (h, λ e. absurd (ground arith))
  render_loop-Ends l ((now, event ev) ∷ rest) w h = elim (Option-cases (apply l.renderer ev)) [
    | inl e ↦ rw (e, render_loop) (h, λ f. absurd (ground arith))
    | inr ((r, changed), e) ↦
        let (same, sent) = progressed-kept l r changed now in
        let ends =
          render_loop-Ends (progressed l r changed now) rest w
            (subst (λ s. Shows a room id s w) (sym sent) h) in
        rw (e, render_loop, apply_all)
          (subst
            (λ r'.
              Ends a room id r' rest (render_loop a room id (progressed l r changed now) rest w))
            same ends)
  ]
  render_loop-Ends l ((now, closed) ∷ rest) w h =
      let (shown, same) = flush-IsFlushed a room id true now l w h in
      (shown, λ e. (ap some (sym same), closed-Ends l now w h (ground arith)))
  render_loop-Ends l ((now, tick) ∷ rest) w h =
      let (shown, same) = flush-IsFlushed a room id false now l w h in
      elim (Bool-cases (flush a room id false now l w).0) [
        | inl e ↦
            rw (e, render_loop)
              (subst
                (λ r. Ends a room id r rest (
                  render_loop a room id (flush a room id false now l w).1 rest
                    (flush a room id false now l w).2))
                same
                (render_loop-Ends (flush a room id false now l w).1 rest
                  (flush a room id false now l w).2 shown))
        | inr e ↦ rw (e, render_loop) (shown, λ f. absurd (ground arith))
      ]
  render_loop-Ends l ((now, cancelled) ∷ rest) w h = (h, λ e. absurd (ground arith))
