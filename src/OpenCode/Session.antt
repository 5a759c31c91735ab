-- ===== src/OpenCode/Session.antt =====
-- GenerateRenderStream of bot/opencode_generator.go, up to the stream that it returns: the session of
-- the conversation, the lock that serialises its prompts, and the retry on a stale session. The stream
-- itself is consumed by a goroutine; how it runs beside the prompt is the environment's choice.
pub mod Lock
pub mod Retry
pub mod Kept
mod Tests
use rocketbot.Message.{Message, GenerationOptions}
use rocketbot.Json.{Value}
use rocketbot.OpenCode.Backend.{
  Generator, Backend, Attempt, gives, fails, is_stale_session_prompt_error, create_session,
  open_event_stream, prompt_async,
}
use rocketbot.OpenCode.Conversation.{
  Conversation, set_session_id, clear_session_id_if_match, set_active_cancel, clear_active_cancel,
}
use rocketbot.OpenCode.Prompt.{title_for_message, build_prompt}
use rocketbot.Prelude.{if◌then◌else◌, ℕ, String, Bool, true, false, Option, List, ◌==◌}

-- `released` tells whether the sync.Once of the lock's release was used. The function that cancels a
-- run is told by its session.
pub record GenState : Type 0 where
  pub backend : Backend
  pub released : Bool
  pub conv : Conversation String

-- Whether a stream that was opened closes before its prompt is answered, and whether, once its prompt
-- is refused, its goroutine is over within two seconds.
pub record Timing : Type 0 where
  pub closes_early : Bool
  pub ends_in_time : Bool

unfoldable pub unlock_conv : GenState → GenState
unlock_conv s =
    if s.released
    then s
    else record s { released = true; backend = record s.backend { locked = false } }

-- The deferred calls of the goroutine: the lock is released and the run's number cleared.
unfoldable pub end_stream : ℕ → GenState → GenState
end_stream seq s = record (unlock_conv s) { conv = clear_active_cancel seq s.conv }

-- Whether the caller holds the lock now: it took it at the start and gives it up once.
abbrev pub lock_conv : Backend → Conversation String → GenState
lock_conv b conv = record { backend = record b { locked = true }; released = false; conv = conv }

-- The last try, in a session that was created for it.
unfoldable pub retried : String → Attempt ℕ × GenState → Attempt ℕ × GenState
retried session (gives seq, s) = (gives seq, s)
retried session (fails e, s) = (
  fails e,
  unlock_conv (
      if is_stale_session_prompt_error e
      then record s { conv = clear_session_id_if_match session s.conv }
      else s),
)

-- The session of the conversation, or one that is created and kept.
unfoldable pub keep_session : Attempt String → GenState → GenState
keep_session (fails e) s = s
keep_session (gives session) s = record s { conv = set_session_id session s.conv }

module _ (decode : String → Option Value) (g : Generator) (opts : GenerationOptions) where
  -- After the prompt is answered. A stream is told by the number of its run.
  unfoldable pub after_prompt : Timing → ℕ → Attempt (Unit {0}) → GenState → Attempt ℕ × GenState
  after_prompt t seq (gives u) s = (gives seq, s)
  after_prompt t seq (fails e) s =
      (fails e, if t.ends_in_time then end_stream seq s else unlock_conv s)

  unfoldable pub after_open :
      Timing → String → String → Attempt (Unit {0}) → GenState → Attempt ℕ × GenState
  after_open t session prompt (fails e) s = (fails e, s)
  after_open t session prompt (gives u) s =
      let (seq, conv) = set_active_cancel session s.conv in
      let s1 = record s { conv = conv } in
      let s2 = if t.closes_early then end_stream seq s1 else s1 in
      let (p, b) = prompt_async decode g opts session prompt s2.backend in
      after_prompt t seq p (record s2 { backend = b })

  unfoldable pub post_prompt_with_stream :
      Timing → String → String → GenState → Attempt ℕ × GenState
  post_prompt_with_stream t session prompt s =
      let (o, b) = open_event_stream decode g opts s.backend in
      after_open t session prompt o (record s { backend = b })

  unfoldable pub retry_in :
      Timing → Message → List Message → Attempt String → GenState → Attempt ℕ × GenState
  retry_in t message history (fails e) s = (fails e, unlock_conv s)
  retry_in t message history (gives session) s = retried session (
      post_prompt_with_stream t session (build_prompt opts message history true)
        (record s { conv = set_session_id session s.conv }))

  unfoldable pub retry : Timing → Message → List Message → GenState → Attempt ℕ × GenState
  retry t message history s =
      let (c, b) = create_session decode g opts (title_for_message message.text) s.backend in
      retry_in t message history c (record s { backend = b })

  -- The first try is over; the second timing is that of a retry.
  unfoldable pub after_first :
      Timing → Message → List Message → String → Attempt ℕ × GenState → Attempt ℕ × GenState
  after_first t message history session (gives seq, s) = (gives seq, s)
  after_first t message history session (fails e, s) =
      if is_stale_session_prompt_error e
      then retry t message history (record s { conv = clear_session_id_if_match session s.conv })
      else (fails e, unlock_conv s)

  unfoldable pub generate_in :
      Timing
      → Timing
      → Message
      → List Message
      → Bool
      → Attempt String
      → GenState
      → Attempt ℕ × GenState
  generate_in t t' message history include_history (fails e) s = (fails e, unlock_conv s)
  generate_in t t' message history include_history (gives session) s =
      after_first t' message history session
        (post_prompt_with_stream t session (build_prompt opts message history include_history) s)

  unfoldable pub generate_render_stream :
      Timing
      → Timing
      → Message
      → List Message
      → Backend
      → Conversation String
      → Attempt ℕ × GenState
  generate_render_stream t t' message history b conv =
      let s = lock_conv b conv in
      let (c, b') = create_session decode g opts (title_for_message message.text) s.backend in
      if conv.session_id == ""
      then generate_in t t' message history true c (keep_session c (record s { backend = b' }))
      else generate_in t t' message history false (gives conv.session_id) s
