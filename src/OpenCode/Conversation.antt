-- ===== src/OpenCode/Conversation.antt =====
-- openCodeConversation of bot/opencode_generator.go: the session of a conversation and the run that is
-- active in it. Each operation holds its lock throughout, so a run of several goroutines is a sequence
-- of these operations.
use rocketbot.Prelude.{
  nat_eq, if◌then◌else◌, if-intro, All, ℕ, ◌+◌, ◌%◌, ◌^◌, String, ◌≡◌, refl, ◌≢◌, Option, none,
  some, List, [], ◌∷◌, ◌++◌, ap, ap₂, ◌∙◌, ◌⊎◌, inl, inr, arith, ◌==◌,
}

-- What goroutines do to a conversation, short of starting a run.
pub data Operation : Type 0 where
  sets_session : String → Operation
  clears_session : String → Operation
  clears_run : ℕ → Operation
  cancels : Operation

abbrev pub IsForeign : ℕ → Operation → Type 0
IsForeign n (clears_run m) = m ≢ n
IsForeign n _ = Unit

next_number-ne : (n : ℕ) → (n % 2 ^ 64 + 1) % 2 ^ 64 ≢ n % 2 ^ 64
next_number-ne n e = omega arith

module _ {ℓ} (Cancel : Type ℓ) where
  pub record Conversation : Type ℓ where
    pub session_id : String
    pub active_cancel : Option Cancel
    pub active_cancel_n : ℕ

module _ {ℓ} {Cancel : Type ℓ} where
  unfoldable pub set_session_id : String → Conversation Cancel → Conversation Cancel
  set_session_id id c = record c { session_id = id }

  unfoldable pub clear_session_id_if_match : String → Conversation Cancel → Conversation Cancel
  clear_session_id_if_match id c = if c.session_id == id then record c { session_id = "" } else c

  -- The counter is a uint64; the number that is returned is the run's.
  unfoldable pub set_active_cancel : Cancel → Conversation Cancel → ℕ × Conversation Cancel
  set_active_cancel cancel c =
      let n = (c.active_cancel_n + 1) % 2 ^ 64 in
      (n, record c { active_cancel = some cancel; active_cancel_n = n })

  unfoldable pub clear_active_cancel : ℕ → Conversation Cancel → Conversation Cancel
  clear_active_cancel seq c =
      if nat_eq c.active_cancel_n seq then record c { active_cancel = none } else c

  -- The function that is called, if there is one.
  unfoldable pub cancel_active : Conversation Cancel → Option Cancel × Conversation Cancel
  cancel_active c = (c.active_cancel, record c { active_cancel = none })

  -- The function that an operation calls, if it calls one.
  unfoldable pub step : Operation → Conversation Cancel → Option Cancel × Conversation Cancel
  step (sets_session id) c = (none, set_session_id id c)
  step (clears_session id) c = (none, clear_session_id_if_match id c)
  step (clears_run n) c = (none, clear_active_cancel n c)
  step cancels c = cancel_active c

  abbrev called : Option Cancel → List Cancel → List Cancel
  called none later = later
  called (some cancel) later = cancel ∷ later

  -- The functions that are called, in their order.
  unfoldable pub steps : List Operation → Conversation Cancel → List Cancel × Conversation Cancel
  steps [] c = ([], c)
  steps (o ∷ os) c =
      let (now, c') = step o c in let (later, c'') = steps os c' in (called now later, c'')

  -- The run of a number is active.
  abbrev IsActive : Cancel → ℕ → Conversation Cancel → Type ℓ
  IsActive cancel n c = (c.active_cancel ≡ some cancel) × (c.active_cancel_n ≡ n)

  -- No run is active.
  abbrev IsIdle : Conversation Cancel → Type ℓ
  IsIdle c = c.active_cancel ≡ none

  step-IsIdle :
      (o : Operation) (c : Conversation Cancel)
      → IsIdle c
      → ((step o c).0 ≡ none) × IsIdle (step o c).1
  unfolding step set_session_id clear_session_id_if_match clear_active_cancel cancel_active
  step-IsIdle (sets_session id) c h = (refl, h)
  step-IsIdle (clears_session id) c h =
      (refl, if-intro IsIdle (c.session_id == id) (λ _. h) (λ _. h))
  step-IsIdle (clears_run m) c h =
      (refl, if-intro IsIdle (nat_eq c.active_cancel_n m) (λ _. refl) (λ _. h))
  step-IsIdle cancels c h = (h, refl)

  steps-IsIdle : (os : List Operation) (c : Conversation Cancel) → IsIdle c → (steps os c).0 ≡ []
  unfolding steps
  steps-IsIdle [] c h = refl
  steps-IsIdle (o ∷ os) c h =
      let (quiet, idle) = step-IsIdle o c h in
      ap (λ f. called f (steps os (step o c).1).0) quiet ∙ steps-IsIdle os (step o c).1 idle

  step_cancels :
      (cancel : Cancel) (n : ℕ) (c : Conversation Cancel)
      → IsActive cancel n c
      → ((step cancels c).0 ≡ some cancel) × IsIdle (step cancels c).1
  unfolding step cancel_active
  step_cancels cancel n c h = (h.0, refl)

  -- A step of another goroutine leaves the run active, or calls its function and leaves none.
  step-IsActive :
      (cancel : Cancel) (n : ℕ) (o : Operation) (c : Conversation Cancel)
      → IsForeign n o
      → IsActive cancel n c
      → (((step o c).0 ≡ none) × IsActive cancel n (step o c).1)
        ⊎ (((step o c).0 ≡ some cancel) × IsIdle (step o c).1)
  unfolding step set_session_id clear_session_id_if_match clear_active_cancel cancel_active
  step-IsActive cancel n (sets_session id) c f h = inl (refl, h)
  step-IsActive cancel n (clears_session id) c f h =
      inl (refl, if-intro (IsActive cancel n) (c.session_id == id) (λ _. h) (λ _. h))
  step-IsActive cancel n (clears_run m) c f h = inl (
    refl,
    if-intro (IsActive cancel n) (nat_eq c.active_cancel_n m)
        (λ e. absurd (f (ground (arith, h.1)))) (λ _. h),
  )
  step-IsActive cancel n cancels c f h = inr (step_cancels cancel n c h)

  -- Before a cancellation, whatever stands between, the function is called once.
  steps-IsActive :
      (cancel : Cancel) (n : ℕ) (before after : List Operation) (c : Conversation Cancel)
      → All (IsForeign n) before
      → IsActive cancel n c
      → (steps (before ++ cancels ∷ after) c).0 ≡ cancel ∷ []
  unfolding steps
  steps-IsActive cancel n [] after c f h =
      let (loud, idle) = step_cancels cancel n c h in
      ap₂ called loud (steps-IsIdle after (step cancels c).1 idle)
  steps-IsActive cancel n (o ∷ before) after c (f, fs) h = elim (step-IsActive cancel n o c f h) [
    | inl (quiet, active) ↦
        ap (λ f. called f (steps (before ++ cancels ∷ after) (step o c).1).0) quiet
        ∙ steps-IsActive cancel n before after (step o c).1 fs active
    | inr (loud, idle) ↦
        ap₂ called loud (steps-IsIdle (before ++ cancels ∷ after) (step o c).1 idle)
  ]

  -- After a run is started, if other goroutines set or clear sessions, end runs of other numbers and
  -- cancel, but start no run, and the run itself does not end before a cancellation, then its function is
  -- called exactly once, and no other, by the first cancellation, whatever comes after it.
  pub cancel_active-steps :
      (cancel : Cancel) (c : Conversation Cancel) (before after : List Operation)
      → All (IsForeign (set_active_cancel cancel c).0) before
      → (steps (before ++ cancels ∷ after) (set_active_cancel cancel c).1).0 ≡ cancel ∷ []
  unfolding set_active_cancel
  cancel_active-steps cancel c before after f =
      steps-IsActive cancel (set_active_cancel cancel c).0 before after
        (set_active_cancel cancel c).1 f (refl, refl)

  -- A run started later has another number, so the end of the run before it leaves it active.
  pub clear-set_active_cancel :
      (first second : Cancel) (c : Conversation Cancel)
      → let (n, c') = set_active_cancel first c in
        (cancel_active (clear_active_cancel n (set_active_cancel second c').1)).0 ≡ some second
  unfolding cancel_active set_active_cancel clear_active_cancel
  clear-set_active_cancel first second c =
      let n = (c.active_cancel_n + 1) % 2 ^ 64 in
      if-intro (λ (d : Conversation Cancel). d.active_cancel ≡ some second)
        (nat_eq ((n + 1) % 2 ^ 64) n)
        (λ e. absurd (next_number-ne (c.active_cancel_n + 1) (ground arith))) (λ _. refl)
