-- ===== src/OpenCode/Session/Retry.antt =====
-- What GenerateRenderStream leaves of the lock: nothing after an error, and nothing for a retry.
use mathlib.Core.Path.{subst}
use rocketbot.Message.{Message, GenerationOptions}
use rocketbot.Json.{Value}
use rocketbot.OpenCode.Backend.{
  Generator, Backend, exchange_call, OpenError, Attempt, gives, fails,
  is_stale_session_prompt_error, created, create_call, create_session,
}
use rocketbot.OpenCode.Conversation.{Conversation, set_session_id, clear_session_id_if_match}
use rocketbot.OpenCode.Prompt.{title_for_message, build_prompt}
use rocketbot.OpenCode.Session.{
  GenState, Timing, unlock_conv, lock_conv, retried, keep_session, post_prompt_with_stream,
  retry_in, retry, after_first, generate_in, generate_render_stream,
}
use rocketbot.OpenCode.Session.Lock.{
  IsConsistent, IsFree, unlock_conv-IsFree, Unlocked, Unlocked-refl, Unlocked-trans,
  unlock_conv-Unlocked, Tried, locked-exchange, post-Tried,
}
use rocketbot.Prelude.{
  if-intro, ℕ, String, ◌≡◌, refl, sym, ap, ◌∙◌, ◌≢◌, Bool, true, false, Option, List, arith, ◌==◌,
  eq_iff,
}

-- The lock is free where the result is an error.
abbrev pub Frees : Attempt ℕ × GenState → Type 0
Frees (gives seq, s) = Unit
Frees (fails e, s) = s.backend.locked ≡ false

retried-Frees :
    (session : String) (start : GenState) (r : Attempt ℕ × GenState)
    → Tried start r
    → Frees (retried session r)
unfolding retried
retried-Frees session start (gives seq, s) h = tt
retried-Frees session start (fails e, s) h =
    if-intro (λ (x : GenState). (unlock_conv x).backend.locked ≡ false)
      (is_stale_session_prompt_error e)
      (λ _. unlock_conv-IsFree (record s { conv = clear_session_id_if_match session s.conv }) h.0)
      (λ _. unlock_conv-IsFree s h.0)

retried-Unlocked :
    (session : String) (start : GenState) (r : Attempt ℕ × GenState)
    → Tried start r
    → IsFree start
    → Unlocked start.backend (retried session r).1.backend
unfolding retried
retried-Unlocked session start (gives seq, s) h f = h.1 f
retried-Unlocked session start (fails e, s) h f =
    if-intro (λ (x : GenState). Unlocked start.backend (unlock_conv x).backend)
      (is_stale_session_prompt_error e)
      (λ _.
        unlock_conv-Unlocked start.backend
          (record s { conv = clear_session_id_if_match session s.conv }) (h.1 f))
      (λ _. unlock_conv-Unlocked start.backend s (h.1 f))

module _ (decode : String → Option Value) (g : Generator) (opts : GenerationOptions) where
  module _ (t : Timing) (message : Message) (history : List Message) where
    retry_in-Frees :
        (c : Attempt String) (s : GenState)
        → IsConsistent s
        → Frees (retry_in decode g opts t message history c s)
    unfolding retry_in
    retry_in-Frees (fails e) s h = unlock_conv-IsFree s h
    retry_in-Frees (gives session) s h =
        let s' = record s { conv = set_session_id session s.conv } in
        let prompt = build_prompt opts message history true in
        retried-Frees session s' (post_prompt_with_stream decode g opts t session prompt s')
          (post-Tried decode g opts t session prompt s' h)

    retry_in-Unlocked :
        (b : Backend) (c : Attempt String) (s : GenState)
        → IsConsistent s
        → Unlocked b s.backend
        → Unlocked b (retry_in decode g opts t message history c s).1.backend
    unfolding retry_in
    retry_in-Unlocked b (fails e) s h u = unlock_conv-Unlocked b s u
    retry_in-Unlocked b (gives session) s h u =
        let s' = record s { conv = set_session_id session s.conv } in
        let prompt = build_prompt opts message history true in
        let last = post_prompt_with_stream decode g opts t session prompt s' in
        Unlocked-trans b s.backend (retried session last).1.backend u
          (retried-Unlocked session s' last (post-Tried decode g opts t session prompt s' h) u.0)

    retry-Frees : (s : GenState) → IsConsistent s → Frees (retry decode g opts t message history s)
    unfolding retry create_session
    retry-Frees s h =
        let asked = create_call decode g opts (title_for_message message.text) in
        retry_in-Frees (created decode g opts (exchange_call asked s.backend).0)
          (record s { backend = (exchange_call asked s.backend).1 })
          (locked-exchange asked s.backend ∙ h)

    -- From a free lock on, a retry makes every request without it.
    retry-Unlocked :
        (s : GenState)
        → IsConsistent s
        → IsFree s
        → let asked = create_call decode g opts (title_for_message message.text) in
          Unlocked
            (exchange_call asked s.backend).1
            (retry decode g opts t message history s).1.backend
    unfolding retry create_session
    retry-Unlocked s h f =
        let asked = create_call decode g opts (title_for_message message.text) in
        let b = (exchange_call asked s.backend).1 in
        retry_in-Unlocked b (created decode g opts (exchange_call asked s.backend).0)
          (record s { backend = b }) (locked-exchange asked s.backend ∙ h)
          (Unlocked-refl b (locked-exchange asked s.backend ∙ f))

    after_first-Frees :
        (session : String) (start : GenState) (r : Attempt ℕ × GenState)
        → Tried start r
        → Frees (after_first decode g opts t message history session r)
    unfolding after_first
    after_first-Frees session start (gives seq, s) h = tt
    after_first-Frees session start (fails e, s) h =
        if-intro Frees (is_stale_session_prompt_error e)
          (λ _. retry-Frees (record s { conv = clear_session_id_if_match session s.conv }) h.0)
          (λ _. unlock_conv-IsFree s h.0)

  module _ (t t' : Timing) (message : Message) (history : List Message) where
    generate_in-Frees :
        (include_history : Bool) (c : Attempt String) (s : GenState)
        → IsConsistent s
        → Frees (generate_in decode g opts t t' message history include_history c s)
    unfolding generate_in
    generate_in-Frees include_history (fails e) s h = unlock_conv-IsFree s h
    generate_in-Frees include_history (gives session) s h =
        let prompt = build_prompt opts message history include_history in
        after_first-Frees t' message history session s
          (post_prompt_with_stream decode g opts t session prompt s)
          (post-Tried decode g opts t session prompt s h)

    keep_session-IsConsistent :
        (c : Attempt String) (s : GenState) → IsConsistent s → IsConsistent (keep_session c s)
    unfolding keep_session
    keep_session-IsConsistent (gives session) s h = h
    keep_session-IsConsistent (fails e) s h = h

    -- Wherever GenerateRenderStream ends with an error, and however its streams run beside the
    -- prompts, the lock of the conversation is free again.
    pub generate-Frees :
        (b : Backend) (conv : Conversation String)
        → Frees (generate_render_stream decode g opts t t' message history b conv)
    unfolding generate_render_stream create_session
    generate-Frees b conv =
        let s = lock_conv b conv in
        let asked = create_call decode g opts (title_for_message message.text) in
        let c = created decode g opts (exchange_call asked s.backend).0 in
        let s' = record s { backend = (exchange_call asked s.backend).1 } in
        if-intro Frees (conv.session_id == "")
          (λ _.
            generate_in-Frees true c (keep_session c s')
              (keep_session-IsConsistent c s' (locked-exchange asked s.backend)))
          (λ _. generate_in-Frees false (gives conv.session_id) s refl)

    generate_kept :
        (b : Backend) (conv : Conversation String)
        → conv.session_id == "" ≡ false
        → generate_render_stream decode g opts t t' message history b conv
          ≡ after_first decode g opts t' message history conv.session_id (
              post_prompt_with_stream decode g opts t conv.session_id
                (build_prompt opts message history false)
                (lock_conv b conv))
    unfolding generate_render_stream generate_in
    generate_kept b conv h = rw (h, generate_render_stream, generate_in) refl

    -- Where the server refuses a prompt because the session that the conversation keeps is stale, the
    -- lock is free before the retry begins, and the retry makes every request without it: the session
    -- that it creates, and all that follow.
    pub generate-Unlocked :
        (b : Backend) (conv : Conversation String) (e : OpenError) (s : GenState)
        → conv.session_id ≢ ""
        → post_prompt_with_stream decode g opts t conv.session_id
            (build_prompt opts message history false)
            (lock_conv b conv)
          ≡ (fails e, s)
        → is_stale_session_prompt_error e ≡ true
        → (s.backend.locked ≡ false)
          × Unlocked
              (exchange_call
                (create_call decode g opts (title_for_message message.text))
                s.backend).1
              (generate_render_stream decode g opts t t' message history b conv).1.backend
    unfolding after_first
    generate-Unlocked b conv e s n first stale =
        let prompt = build_prompt opts message history false in
        let (c, unlocked, free) =
          subst (Tried (lock_conv b conv)) first
            (post-Tried decode g opts t conv.session_id prompt (lock_conv b conv) refl) in
        let kept : conv.session_id == "" ≡ false = ground (arith, eq_iff conv.session_id "") in
        let s' = record s { conv = clear_session_id_if_match conv.session_id s.conv } in
        let same : generate_render_stream decode g opts t t' message history b conv
            ≡ retry decode g opts t' message history s' =
          generate_kept b conv kept
          ∙ ap (after_first decode g opts t' message history conv.session_id) first
          ∙ rw (stale, after_first) refl in
        (
          free stale,
          subst
              (λ (r : Attempt ℕ × GenState).
                Unlocked
                  (exchange_call (create_call decode g opts (title_for_message message.text))
                    s.backend).1
                  r.1.backend)
              (sym same) (retry-Unlocked t' message history s' c (free stale)),
        )
