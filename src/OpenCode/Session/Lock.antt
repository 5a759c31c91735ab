-- ===== src/OpenCode/Session/Lock.antt =====
-- The lock of a conversation: it is released on every error, and a retry runs without it.
use mathlib.Core.List.{append-nil, append_assoc}
use rocketbot.OpenCode.Conversation.{set_active_cancel}
use rocketbot.Message.{GenerationOptions}
use rocketbot.Json.{Value}
use rocketbot.OpenCode.Backend.{
  Generator, Call, Answer, no_answer, answer, Entry, Backend, exchange_call, Attempt, gives, fails,
  open_call, is_success, is_stale_session_prompt_error, accepted, open_event_stream, prompt_call,
  prompt_async,
}
use rocketbot.OpenCode.Session.{
  GenState, Timing, unlock_conv, end_stream, after_prompt, after_open, post_prompt_with_stream,
}
use rocketbot.Prelude.{
  if◌then◌else◌, if-intro, All, All-append, ℕ, String, ◌≡◌, refl, sym, ap, ◌∙◌, true, false, not,
  Option, List, [], ◌∷◌, ◌++◌, arith,
}

-- The caller holds the lock as long as it has not given it up.
abbrev pub IsConsistent : GenState → Type 0
IsConsistent s = s.backend.locked ≡ not s.released

abbrev pub IsFree : GenState → Type 0
IsFree s = s.backend.locked ≡ false

pub unlock_conv-IsFree : (s : GenState) → IsConsistent s → IsFree (unlock_conv s)
unfolding unlock_conv
unlock_conv-IsFree s h = ground arith

pub unlock_conv-IsConsistent : (s : GenState) → IsConsistent s → IsConsistent (unlock_conv s)
unfolding unlock_conv
unlock_conv-IsConsistent s h = ground arith

end_stream-IsConsistent : (n : ℕ) (s : GenState) → IsConsistent s → IsConsistent (end_stream n s)
unfolding end_stream
end_stream-IsConsistent n s h = unlock_conv-IsConsistent s h

end_stream-IsFree : (n : ℕ) (s : GenState) → IsConsistent s → IsFree (end_stream n s)
unfolding end_stream
end_stream-IsFree n s h = unlock_conv-IsFree s h

-- What follows a state: requests that are made without the lock, which stays free.
abbrev pub Unlocked : Backend → Backend → Type 0
Unlocked b b' =
    (b'.locked ≡ false)
    × (new : List Entry) × (b'.log ≡ b.log ++ new)
    × All (λ (e : Entry). e.locked ≡ false) new

pub Unlocked-refl : (b : Backend) → b.locked ≡ false → Unlocked b b
Unlocked-refl b h = (h, [], sym (append-nil b.log), tt)

pub Unlocked-trans : (b b' b'' : Backend) → Unlocked b b' → Unlocked b' b'' → Unlocked b b''
Unlocked-trans b b' b'' (h, new, e, a) (h', new', e', a') = (
  h',
  new ++ new',
  e' ∙ ap (λ l. l ++ new') e ∙ append_assoc b.log new new',
  All-append (λ (x : Entry). x.locked ≡ false) new new' a a',
)

pub exchange_call-Unlocked :
    (c : Call) (b : Backend) → b.locked ≡ false → Unlocked b (exchange_call c b).1
unfolding exchange_call
exchange_call-Unlocked c b h = (h, record { call = c; locked = b.locked } ∷ [], refl, (h, tt))

pub unlock_conv-Unlocked :
    (b : Backend) (s : GenState) → Unlocked b s.backend → Unlocked b (unlock_conv s).backend
unfolding unlock_conv
unlock_conv-Unlocked b s (h, new, e, a) =
    if-intro (λ (x : GenState). Unlocked b x.backend) s.released (λ _. (h, new, e, a))
      (λ _. (refl, new, e, a))

end_stream-Unlocked :
    (n : ℕ) (b : Backend) (s : GenState)
    → Unlocked b s.backend
    → Unlocked b (end_stream n s).backend
unfolding end_stream
end_stream-Unlocked n b s h = unlock_conv-Unlocked b s h

-- Only a prompt is refused for a stale session.
abbrev StaleFree : {A : Type 0} → Attempt A → Type 0
StaleFree (gives x) = Unit
StaleFree (fails e) = is_stale_session_prompt_error e ≡ false

event_stream-StaleFree : (a : Answer) → StaleFree (accepted "event stream" a)
unfolding accepted is_stale_session_prompt_error
event_stream-StaleFree no_answer = refl
event_stream-StaleFree (answer status body) =
    if-intro StaleFree (is_success status) (λ _. tt) (λ _. refl)

-- What is known of a try: the state is consistent, and free where a stale session is the error; from a
-- free state on, its requests are made without the lock.
abbrev pub Tried : {A : Type 0} → GenState → Attempt A × GenState → Type 0
Tried s (gives x, s') = IsConsistent s' × (IsFree s → Unlocked s.backend s'.backend)
Tried s (fails e, s') =
    IsConsistent s'
    × (IsFree s → Unlocked s.backend s'.backend)
    × (is_stale_session_prompt_error e ≡ true → IsFree s')

pub locked-exchange : (c : Call) (b : Backend) → (exchange_call c b).1.locked ≡ b.locked
unfolding exchange_call
locked-exchange c b = refl

module _ (decode : String → Option Value) (g : Generator) (opts : GenerationOptions) where
  after_prompt-Tried :
      (t : Timing) (seq : ℕ) (p : Attempt (Unit {0})) (start s : GenState)
      → IsConsistent s
      → (IsFree start → Unlocked start.backend s.backend)
      → Tried start (after_prompt decode g opts t seq p s)
  unfolding after_prompt
  after_prompt-Tried t seq (gives u) start s c h = (c, h)
  after_prompt-Tried t seq (fails e) start s c h =
      if-intro
        (λ (x : GenState).
          IsConsistent x
          × (IsFree start → Unlocked start.backend x.backend)
          × (is_stale_session_prompt_error e ≡ true → IsFree x))
        t.ends_in_time
        (λ _. (
          end_stream-IsConsistent seq s c,
          λ f. end_stream-Unlocked seq start.backend s (h f),
          λ _. end_stream-IsFree seq s c,
        ))
        (λ _. (
          unlock_conv-IsConsistent s c,
          λ f. unlock_conv-Unlocked start.backend s (h f),
          λ _. unlock_conv-IsFree s c,
        ))

  -- A stream that closes before the answer of the prompt gives the lock up.
  early-end :
      (t : Timing) (seq : ℕ) (start s : GenState)
      → IsConsistent s
      → (IsFree start → Unlocked start.backend s.backend)
      → let s' = if t.closes_early then end_stream seq s else s in
        IsConsistent s' × (IsFree start → Unlocked start.backend s'.backend)
  early-end t seq start s c h =
      if-intro
        (λ (x : GenState). IsConsistent x × (IsFree start → Unlocked start.backend x.backend))
        t.closes_early
        (λ _. (end_stream-IsConsistent seq s c, λ f. end_stream-Unlocked seq start.backend s (h f)))
        (λ _. (c, h))

  after_open-Tried :
      (t : Timing) (session prompt : String) (o : Attempt (Unit {0})) (start s : GenState)
      → StaleFree o
      → IsConsistent s
      → (IsFree start → Unlocked start.backend s.backend)
      → Tried start (after_open decode g opts t session prompt o s)
  unfolding after_open prompt_async
  after_open-Tried t session prompt (fails e) start s f c h = (c, h, λ k. absurd (ground arith))
  after_open-Tried t session prompt (gives u) start s f c h =
      let (seq, conv) = set_active_cancel session s.conv in
      let s1 = record s { conv = conv } in
      let s2 : GenState = if t.closes_early then end_stream seq s1 else s1 in
      let (c2, h2) = early-end t seq start s1 c h in
      let asked = prompt_call decode g opts session prompt in
      after_prompt-Tried t seq (accepted "prompt_async" (exchange_call asked s2.backend).0) start
        (record s2 { backend = (exchange_call asked s2.backend).1 })
        (locked-exchange asked s2.backend ∙ c2)
        (λ free.
          Unlocked-trans start.backend s2.backend (exchange_call asked s2.backend).1 (h2 free)
            (exchange_call-Unlocked asked s2.backend (h2 free).0))

  pub post-Tried :
      (t : Timing) (session prompt : String) (s : GenState)
      → IsConsistent s
      → Tried s (post_prompt_with_stream decode g opts t session prompt s)
  unfolding post_prompt_with_stream open_event_stream
  post-Tried t session prompt s c =
      let events = open_call g opts "GET" "/event" [] "" in
      after_open-Tried t session prompt (accepted "event stream" (exchange_call events s.backend).0)
        s (record s { backend = (exchange_call events s.backend).1 })
        (event_stream-StaleFree (exchange_call events s.backend).0)
        (locked-exchange events s.backend ∙ c)
        (λ free. exchange_call-Unlocked events s.backend free)
