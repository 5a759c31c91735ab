-- ===== src/OpenCode/Session/Kept.antt =====
-- Where a stream is given, its prompt went to the session that the conversation keeps.
use mathlib.Core.Path.{subst}
use rocketbot.OpenCode.Event.{as_map}
use rocketbot.Message.{Message, GenerationOptions}
use rocketbot.Json.{Value, struct_string, ◌>>=◌}
use rocketbot.OpenCode.Backend.{
  Generator, Answer, no_answer, answer, Entry, Backend, exchange_call, Attempt, gives, fails,
  open_call, is_success, is_stale_session_prompt_error, accepted, created_id, created, create_call,
  create_session, open_event_stream, prompt_call, prompt_async,
}
use rocketbot.OpenCode.Conversation.{
  Conversation, set_session_id, clear_session_id_if_match, set_active_cancel, clear_active_cancel,
}
use rocketbot.OpenCode.Prompt.{title_for_message, build_prompt}
use rocketbot.OpenCode.Session.{
  GenState, Timing, unlock_conv, end_stream, lock_conv, retried, keep_session, after_prompt,
  after_open, post_prompt_with_stream, retry_in, retry, after_first, generate_in,
  generate_render_stream,
}
use rocketbot.Prelude.{
  if◌then◌else◌, Option-cases, if-intro, ℕ, String, ◌≡◌, refl, sym, ap, ◌∙◌, ◌≢◌, inl, inr, Bool,
  true, false, Option, List, [], ◌∷◌, ◌++◌, arith, ◌==◌, eq_iff,
}

unlock_conv-conv : (s : GenState) → (unlock_conv s).conv ≡ s.conv
unfolding unlock_conv
unlock_conv-conv s = ground arith

end_stream-session : (n : ℕ) (s : GenState) → (end_stream n s).conv.session_id ≡ s.conv.session_id
unfolding end_stream clear_active_cancel
end_stream-session n s = ground arith

abbrev IdGiven : Attempt String → Type 0
IdGiven (fails e) = Unit
IdGiven (gives id) = id ≢ ""

module _ (decode : String → Option Value) (g : Generator) (opts : GenerationOptions) where
  created_id-IdGiven : (v : Option Value) → IdGiven (created_id decode g opts v)
  unfolding created_id
  created_id-IdGiven v = elim (Option-cases (as_map v >>= λ m. struct_string m "id")) [
    | inl e ↦ rw (e, created_id) tt
    | inr (id, e) ↦
        rw (e, created_id)
          (if-intro IdGiven (id == "") (λ _. tt) (λ n h. ground (arith, eq_iff id "")))
  ]

  created-IdGiven : (a : Answer) → IdGiven (created decode g opts a)
  unfolding created
  created-IdGiven no_answer = tt
  created-IdGiven (answer status body) =
      if-intro IdGiven (is_success status) (λ _. created_id-IdGiven (decode body)) (λ _. tt)

  -- The last request is the prompt to a session that is not empty, and the conversation keeps it.
  abbrev pub PromptedIn : GenState → Type 0
  PromptedIn s =
      (s.conv.session_id ≢ "")
      × (prompt : String) × (before : List Entry) × (locked : Bool) × (s.backend.log
          ≡ before
            ++ record { call = prompt_call decode g opts s.conv.session_id prompt; locked = locked }
              ∷ [])

  abbrev pub Keeps : Attempt ℕ × GenState → Type 0
  Keeps (fails e, s) = Unit
  Keeps (gives seq, s) = PromptedIn s

  after_prompt-Keeps :
      (t : Timing) (seq : ℕ) (p : Attempt (Unit {0})) (s : GenState)
      → PromptedIn s
      → Keeps (after_prompt decode g opts t seq p s)
  unfolding after_prompt
  after_prompt-Keeps t seq (gives u) s h = h
  after_prompt-Keeps t seq (fails e) s h = tt

  after_open-Keeps :
      (t : Timing) (session prompt : String) (o : Attempt (Unit {0})) (s : GenState)
      → session ≢ ""
      → s.conv.session_id ≡ session
      → Keeps (after_open decode g opts t session prompt o s)
  unfolding after_open prompt_async exchange_call set_active_cancel
  after_open-Keeps t session prompt (fails e) s n h = tt
  after_open-Keeps t session prompt (gives u) s n h =
      let (seq, conv) = set_active_cancel session s.conv in
      let s1 = record s { conv = conv } in
      let s2 : GenState = if t.closes_early then end_stream seq s1 else s1 in
      let kept : s2.conv.session_id ≡ session =
        if-intro (λ (x : GenState). x.conv.session_id ≡ session) t.closes_early
          (λ _. end_stream-session seq s1 ∙ h) (λ _. h) in
      let asked = prompt_call decode g opts session prompt in
      after_prompt-Keeps t seq (accepted "prompt_async" (exchange_call asked s2.backend).0)
        (record s2 { backend = (exchange_call asked s2.backend).1 })
        (
          subst (λ id. id ≢ "") (sym kept) n,
          prompt,
          s2.backend.log,
          s2.backend.locked,
          ap
              (λ id.
                s2.backend.log
                ++ record { call = prompt_call decode g opts id prompt; locked = s2.backend.locked }
                  ∷ [])
              (sym kept),
        )

  post-Keeps :
      (t : Timing) (session prompt : String) (s : GenState)
      → session ≢ ""
      → s.conv.session_id ≡ session
      → Keeps (post_prompt_with_stream decode g opts t session prompt s)
  unfolding post_prompt_with_stream open_event_stream
  post-Keeps t session prompt s n h =
      let events = open_call g opts "GET" "/event" [] "" in
      after_open-Keeps t session prompt (accepted "event stream" (exchange_call events s.backend).0)
        (record s { backend = (exchange_call events s.backend).1 }) n h

  retried-Keeps :
      (session : String) (r : Attempt ℕ × GenState) → Keeps r → Keeps (retried session r)
  unfolding retried
  retried-Keeps session (gives seq, s) h = h
  retried-Keeps session (fails e, s) h = tt

  retry_in-Keeps :
      (t : Timing) (message : Message) (history : List Message) (c : Attempt String) (s : GenState)
      → IdGiven c
      → Keeps (retry_in decode g opts t message history c s)
  unfolding retry_in set_session_id
  retry_in-Keeps t message history (fails e) s n = tt
  retry_in-Keeps t message history (gives session) s n =
      let s' = record s { conv = set_session_id session s.conv } in
      let prompt = build_prompt opts message history true in
      retried-Keeps session (post_prompt_with_stream decode g opts t session prompt s')
        (post-Keeps t session prompt s' n refl)

  retry-Keeps :
      (t : Timing) (message : Message) (history : List Message) (s : GenState)
      → Keeps (retry decode g opts t message history s)
  unfolding retry create_session
  retry-Keeps t message history s =
      let asked = create_call decode g opts (title_for_message message.text) in
      retry_in-Keeps t message history (created decode g opts (exchange_call asked s.backend).0)
        (record s { backend = (exchange_call asked s.backend).1 })
        (created-IdGiven (exchange_call asked s.backend).0)

  after_first-Keeps :
      (t : Timing) (message : Message) (history : List Message) (session : String)
      (r : Attempt ℕ × GenState)
      → Keeps r
      → Keeps (after_first decode g opts t message history session r)
  unfolding after_first
  after_first-Keeps t message history session (gives seq, s) h = h
  after_first-Keeps t message history session (fails e, s) h =
      if-intro Keeps (is_stale_session_prompt_error e)
        (λ _.
          retry-Keeps t message history
            (record s { conv = clear_session_id_if_match session s.conv }))
        (λ _. tt)

  module _ (t t' : Timing) (message : Message) (history : List Message) where
    created_first-Keeps :
        (c : Attempt String) (s : GenState)
        → IdGiven c
        → Keeps (generate_in decode g opts t t' message history true c (keep_session c s))
    unfolding generate_in keep_session set_session_id
    created_first-Keeps (fails e) s n = tt
    created_first-Keeps (gives session) s n =
        let s' = record s { conv = set_session_id session s.conv } in
        let prompt = build_prompt opts message history true in
        after_first-Keeps t' message history session
          (post_prompt_with_stream decode g opts t session prompt s')
          (post-Keeps t session prompt s' n refl)

    -- Where GenerateRenderStream gives a stream, its last request is the prompt to the session that the
    -- conversation keeps then, and that session's id is not empty.
    pub generate-Keeps :
        (b : Backend) (conv : Conversation String)
        → Keeps (generate_render_stream decode g opts t t' message history b conv)
    unfolding generate_render_stream generate_in create_session
    generate-Keeps b conv =
        let s = lock_conv b conv in
        let asked = create_call decode g opts (title_for_message message.text) in
        let c = created decode g opts (exchange_call asked s.backend).0 in
        let prompt = build_prompt opts message history false in
        if-intro Keeps (conv.session_id == "")
          (λ _.
            created_first-Keeps c (record s { backend = (exchange_call asked s.backend).1 })
              (created-IdGiven (exchange_call asked s.backend).0))
          (λ n.
            after_first-Keeps t' message history conv.session_id
              (post_prompt_with_stream decode g opts t conv.session_id prompt s)
              (post-Keeps t conv.session_id prompt s
                (λ h. ground (arith, eq_iff conv.session_id "")) refl))
