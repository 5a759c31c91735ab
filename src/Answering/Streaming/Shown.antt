-- ===== src/Answering/Streaming/Shown.antt =====
-- What the message of a reply shows while and after the loop of handleStreamingResponse runs.
use Prim.Native.String
use text.Mathlib.TextLemmas.{length-append as text_length-append, append-nil, append_assoc}
use mathlib.Core.Path.{subst}
use rocketbot.Text.{itoa}
use rocketbot.Http.{World}
use rocketbot.Api.{ApiClient, Result, ok, err, update_message}
use rocketbot.Answering.{
  returned, seconds, rounded, notice_text, notice_due, Shows, changed_to, kept_as, Result-cases,
}
use rocketbot.Answering.Streaming.{
  after_update, StreamLoop, StreamInput, chunk, closed, tick, cancelled, buffered, ticked,
  send_tick, on_tick, finish, stream_loop,
}
use rocketbot.Prelude.{
  if◌then◌else◌, if-intro, ℕ, ◌+◌, ◌-◌, String, ◌&◌, ◌≡◌, refl, sym, ap, ◌∙◌, ◌≢◌, inl, inr, Bool,
  true, false, not, ◌&&◌, List, [], ◌∷◌, arith, ◌==◌, eq_iff,
}

-- The text of the chunks before the stream closes.
unfoldable pub chunks : List (ℕ × StreamInput) → String
chunks [] = ""
chunks ((now, chunk text) ∷ rest) = text & chunks rest
chunks ((now, closed) ∷ rest) = ""
chunks ((now, _) ∷ rest) = chunks rest

unfoldable pub ends : List (ℕ × StreamInput) → Bool
ends [] = false
ends ((now, closed) ∷ rest) = true
ends ((now, cancelled) ∷ rest) = true
ends ((now, _) ∷ rest) = ends rest

-- The text that is shown: the placeholder until something is sent.
abbrev pub shown : StreamLoop → String
shown l = if l.last_sent == "" then "..." else l.last_sent

notice_text-nonempty : (n : ℕ) → notice_text n ≢ ""
unfolding notice_text
notice_text-nonempty n e =
    omega (
      arith,
      ap String.count e,
      text_length-append "_Still working... (" (itoa (rounded n) & "s)_"),
    )

shown-sent : (text : String) → text ≢ "" → (if text == "" then "..." else text) ≡ text
shown-sent text n = ground (arith, eq_iff text "")

module _ (a : ApiClient) (room id : String) where
  abbrev IsShown : StreamLoop × World → Type 0
  IsShown (l, w) = Shows a room id (shown l) w

  send_tick-IsShown :
      (text : String) (changed l : StreamLoop) (w : World)
      → text ≢ ""
      → changed.last_sent ≡ text
      → IsShown (l, w)
      → IsShown (send_tick a room id text changed l w)
  unfolding send_tick ticked
  send_tick-IsShown text changed l w n c h =
      elim (Result-cases (update_message a room id text w).0) [
        | inl (u, e) ↦
            rw (e, send_tick, ticked)
              (subst (λ t. Shows a room id t (update_message a room id text w).1)
                (sym (ap (λ t. if t == "" then "..." else t) c ∙ shown-sent text n))
                (changed_to text w h e))
        | inr (f, e) ↦ rw (e, send_tick, ticked) (kept_as text w f h e)
      ]

  on_tick-IsShown :
      (now : ℕ) (l : StreamLoop) (w : World) → IsShown (l, w) → IsShown (on_tick a room id now l w)
  unfolding on_tick
  on_tick-IsShown now l w h =
      let notice = notice_text (now - l.last_chunk_at) in
      if-intro IsShown (l.buffer == "" && notice_due l.last_chunk_at l.next_notice_at now)
        (λ _.
          send_tick-IsShown notice
            (record l { last_sent = notice; next_notice_at = now + seconds 20 }) l w
            (notice_text-nonempty (now - l.last_chunk_at)) refl h)
        (λ _.
          if-intro IsShown (not (l.buffer == l.last_sent) && not (l.buffer == ""))
            (λ e.
              send_tick-IsShown l.buffer (record l { last_sent = l.buffer }) l w
                (ground (arith, eq_iff l.buffer "")) refl h)
            (λ _. h))

  send_tick-buffer :
      (text : String) (changed l : StreamLoop) (w : World)
      → changed.buffer ≡ l.buffer
      → (send_tick a room id text changed l w).0.buffer ≡ l.buffer
  unfolding send_tick ticked
  send_tick-buffer text changed l w c = elim (Result-cases (update_message a room id text w).0) [
    | inl (u, e) ↦ rw (e, send_tick, ticked) c
    | inr (f, e) ↦ rw (e, send_tick, ticked) refl
  ]

  abbrev KeepsBuffer : StreamLoop → StreamLoop × World → Type 0
  KeepsBuffer l p = p.0.buffer ≡ l.buffer

  on_tick-buffer :
      (now : ℕ) (l : StreamLoop) (w : World) → KeepsBuffer l (on_tick a room id now l w)
  unfolding on_tick
  on_tick-buffer now l w =
      let notice = notice_text (now - l.last_chunk_at) in
      if-intro (KeepsBuffer l) (l.buffer == "" && notice_due l.last_chunk_at l.next_notice_at now)
        (λ _.
          send_tick-buffer notice
            (record l { last_sent = notice; next_notice_at = now + seconds 20 }) l w refl)
        (λ _.
          if-intro (KeepsBuffer l) (not (l.buffer == l.last_sent) && not (l.buffer == ""))
            (λ e. send_tick-buffer l.buffer (record l { last_sent = l.buffer }) l w refl)
            (λ _. refl))

  -- Where the end of a stream is reported as sent, a text that is not empty is shown.
  abbrev ShowsText : String → Bool × World → Type 0
  ShowsText text (b, w) = b ≡ true → (text ≢ "") × Shows a room id text w

  pub after_update-ok : (r : Result (Unit {0})) → after_update r ≡ true → r ≡ ok tt
  unfolding after_update
  after_update-ok (ok u) h = refl
  after_update-ok (err e) h = absurd (ground arith)

  finish-ShowsText :
      (l : StreamLoop) (w : World) → IsShown (l, w) → ShowsText l.buffer (finish a room id l w)
  unfolding finish
  finish-ShowsText l w h =
      if-intro (ShowsText l.buffer) (l.buffer == "" && not (l.last_sent == ""))
        (λ _ e. absurd (ground arith))
        (λ _.
          if-intro (ShowsText l.buffer) (not (l.buffer == l.last_sent) && not (l.buffer == ""))
            (λ n e. (
              ground (arith, eq_iff l.buffer ""),
              changed_to l.buffer w h (after_update-ok (update_message a room id l.buffer w).0 e),
            ))
            (λ _ e.
              let n : l.buffer ≢ "" = ground (arith, eq_iff l.buffer "") in
              let same : l.last_sent ≡ l.buffer = ground (arith, eq_iff l.buffer l.last_sent) in
              (
                n,
                subst (λ t. Shows a room id t w)
                    (ap (λ t. if t == "" then "..." else t) same ∙ shown-sent l.buffer n) h,
              )))

  pub stream_loop-Shows :
      (l : StreamLoop) (inputs : List (ℕ × StreamInput)) (w w' : World)
      → IsShown (l, w)
      → stream_loop a room id l inputs w ≡ (returned true, w')
      → (l.buffer & chunks inputs ≢ "") × Shows a room id (l.buffer & chunks inputs) w'
  unfolding stream_loop chunks
  stream_loop-Shows l [] w w' h e = absurd (ground (arith, ap (λ p. p.0) e))
  stream_loop-Shows l ((now, chunk text) ∷ rest) w w' h e =
      subst (λ t. (t ≢ "") × Shows a room id t w') (append_assoc l.buffer text (chunks rest))
        (stream_loop-Shows (buffered l text now) rest w w' h e)
  stream_loop-Shows l ((now, closed) ∷ rest) w w' h e =
      subst (λ t. (t ≢ "") × Shows a room id t w') (sym (append-nil l.buffer))
        (subst (λ v. (l.buffer ≢ "") × Shows a room id l.buffer v) (ap (λ p. p.1) e)
          (finish-ShowsText l w h (ground (arith, ap (λ p. p.0) e))))
  stream_loop-Shows l ((now, tick) ∷ rest) w w' h e =
      subst (λ b. (b & chunks rest ≢ "") × Shows a room id (b & chunks rest) w')
        (on_tick-buffer now l w)
        (stream_loop-Shows (on_tick a room id now l w).0 rest (on_tick a room id now l w).1 w'
          (on_tick-IsShown now l w h) e)
  stream_loop-Shows l ((now, cancelled) ∷ rest) w w' h e = absurd (ground (arith, ap (λ p. p.0) e))

  pub stream_loop-Returns :
      (l : StreamLoop) (inputs : List (ℕ × StreamInput)) (w : World)
      → ends inputs ≡ true
      → (b : Bool) × ((stream_loop a room id l inputs w).0 ≡ returned b)
  unfolding stream_loop ends
  stream_loop-Returns l [] w h = absurd (ground arith)
  stream_loop-Returns l ((now, chunk text) ∷ rest) w h =
      stream_loop-Returns (buffered l text now) rest w h
  stream_loop-Returns l ((now, closed) ∷ rest) w h = ((finish a room id l w).0, refl)
  stream_loop-Returns l ((now, tick) ∷ rest) w h =
      stream_loop-Returns (on_tick a room id now l w).0 rest (on_tick a room id now l w).1 h
  stream_loop-Returns l ((now, cancelled) ∷ rest) w h = (false, refl)
