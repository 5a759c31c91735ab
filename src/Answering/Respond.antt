-- ===== src/Answering/Respond.antt =====
-- handleResponse of bot/client.go, with prepareMessageForGenerator, parseBotCommand and
-- handleBotCommand. What a generator does is an environment: whether a reset succeeds, its limit of
-- history, and what it gives for a message and its history.
pub mod Marks
mod Tests
use mathlib.Core.Option
use rocketbot.Json.{ℤ, pos, negsuc}
use rocketbot.Message.{Message, GenerationOptions}
use rocketbot.Text.{trim_space, to_lower, fields}
use rocketbot.Http.{World}
use rocketbot.Api.{ApiClient, post_message}
use rocketbot.Api.History.{fetch_history, fetch_thread_history}
use rocketbot.Client.{ResolvedPolicy, Client}
use rocketbot.Client.Threads.{get_active_room_thread_state, mark_active_room_thread}
use rocketbot.Client.Missed.{
  collect_missed_thread_messages, synthesize_missed_thread_messages_prompt,
}
use rocketbot.Answering.{Outcome, returned, waiting, panicked, reply_thread}
use rocketbot.Answering.Rendering.{RenderInput, handle_render_streaming_response}
use rocketbot.Answering.Streaming.{
  handle_non_streaming_response, StreamInput, handle_streaming_response,
}
use rocketbot.Prelude.{
  nat_eq, if◌then◌else◌, ℕ, String, Bool, true, false, not, ◌&&◌, ◌||◌, Option, none, some, List,
  [], ◌∷◌, ◌++◌, ◌==◌,
}

-- What a call of the generator gives: whether it starts, the time then, and the inputs of the loop.
pub record Started {ℓ} (Input : Type ℓ) : Type ℓ where
  pub started : Bool
  pub now : ℕ
  pub inputs : List (ℕ × Input)

-- A generator, by the interfaces that it has.
pub record Generating : Type 0 where
  pub reset_session : Option (Message → Bool)
  pub history_limit : Option (Message → ℤ)
  pub render_stream : Option (GenerationOptions → Message → List Message → Started RenderInput)
  pub stream : Option (GenerationOptions → Message → List Message → Started StreamInput)
  pub once : GenerationOptions → Message → List Message → Option String

-- The client, the server, and the typing indicators that were sent.
pub record Answering : Type 0 where
  pub client : Client
  pub world : World
  pub typing : List Bool

-- The only command is the reset.
unfoldable pub command_of : List String → Bool
command_of (name ∷ command ∷ rest) = to_lower name == "!rb" && to_lower command == "reset"
command_of _ = false

unfoldable pub parse_bot_command : String → Bool
parse_bot_command text = command_of (fields (trim_space text))

unfoldable pub reset_answer : Option (Message → Bool) → Message → String
reset_answer none message = "Session reset is not supported for this bot."
reset_answer (some reset) message =
    if reset message then "Session reset. Starting fresh." else "Reset failed. Please try again."

unfoldable pub handle_bot_command : ApiClient → Generating → Message → World → World
handle_bot_command a g message w =
    (post_message a message.room_id (reset_answer g.reset_session message) message.thread_id w).1

unfoldable pub without : String → List Message → List Message
without id [] = []
without id (m ∷ ms) = let rest = without id ms in if m.id == id then rest else m ∷ rest

-- The limit of history: one that is negative leaves the default.
unfoldable pub limit_of : Option (Message → ℤ) → Message → ℕ
limit_of none message = 10
limit_of (some limit) message = elim (limit message) [ pos n ↦ n | negsuc n ↦ 10 ]

abbrev pub options_of : ResolvedPolicy → GenerationOptions
options_of policy = record {
  scope = policy.scope;
  room_id = policy.room_id;
  session_dir = policy.session_dir;
  bootstrap_prompt = policy.bootstrap_prompt;
}

-- The message with the messages that were missed, if there are any.
unfoldable pub synthesized : Message → List Message → Message
synthesized message [] = message
synthesized message (m ∷ missed) = record message {
  text = synthesize_missed_thread_messages_prompt (m ∷ missed);
  preformatted_prompt = true;
}

-- After the handler of a mode: the thread becomes active where a room's answer was given in it, and the
-- typing indicator is taken back unless the handler still waits.
unfoldable pub settled : ResolvedPolicy → Message → String → Outcome → Answering → Answering
settled policy message thread (returned delivered) s = record s {
  client =
      if delivered && policy.scope == "room" && not (thread == "")
      then mark_active_room_thread s.client message.room_id thread message.id
      else s.client;
  typing = s.typing ++ false ∷ [];
}
settled policy message thread waiting s = s
settled policy message thread panicked s = record s { typing = s.typing ++ false ∷ [] }

abbrev pub Rendering : Type 0
Rendering = GenerationOptions → Message → List Message → Started RenderInput

abbrev pub Streaming : Type 0
Streaming = GenerationOptions → Message → List Message → Started StreamInput

-- Each mode, or what is done where the generator has it not.
unfoldable pub respond_render :
    ApiClient
    → ResolvedPolicy
    → Message
    → List Message
    → World
    → Option Rendering
    → Outcome × World
    → Outcome × World
respond_render a policy message history w none otherwise = otherwise
respond_render a policy message history w (some render) otherwise =
    let r = render (options_of policy) message history in
    handle_render_streaming_response a message policy.render_mode policy.thread_default r.started
      r.now r.inputs w

unfoldable pub respond_stream :
    ApiClient
    → ResolvedPolicy
    → Message
    → List Message
    → World
    → Option Streaming
    → Outcome × World
    → Outcome × World
respond_stream a policy message history w none otherwise = otherwise
respond_stream a policy message history w (some stream) otherwise =
    let r = stream (options_of policy) message history in
    handle_streaming_response a message policy.thread_default r.started r.now r.inputs w

unfoldable pub respond_plain :
    ApiClient → Generating → ResolvedPolicy → Message → List Message → World → Outcome × World
respond_plain a g policy message history w =
    let r =
      handle_non_streaming_response a message policy.thread_default
        (g.once (options_of policy) message history) w in
    (returned r.0, r.1)

-- By the first mode that the policy and the generator allow.
unfoldable pub respond :
    ApiClient → Generating → ResolvedPolicy → Message → List Message → World → Outcome × World
respond a g policy message history w =
    let plain = respond_plain a g policy message history w in
    if not policy.streamed_output
    then plain
    else respond_render a policy message history w g.render_stream
        (respond_stream a policy message history w g.stream plain)

module _ (parse_time : String → Option ℤ) (sort : List Message → List Message) (a : ApiClient) where
  unfoldable pub prepare_message : Client → Message → ResolvedPolicy → World → Message × World
  prepare_message c message policy w =
      if not (policy.scope == "room")
        || message.thread_id == ""
        || not (policy.active_thread_trigger == "mention_only")
      then (message, w)
      else elim (get_active_room_thread_state c message.room_id message.thread_id) [
        | none ↦ (message, w)
        | some last ↦
            let (history, w') = fetch_thread_history parse_time sort a message.thread_id 100 w in
            (synthesized message (collect_missed_thread_messages history last a.user_id), w')
      ]

  -- The history that the generator asks for; `thread` is empty outside of a thread.
  unfoldable pub history_for : Message → String → ℕ → World → List Message × World
  history_for message thread limit w =
      if nat_eq limit 0
      then ([], w)
      else if thread == ""
      then fetch_history parse_time sort a message.room_id limit w
      else fetch_thread_history parse_time sort a thread limit w

  unfoldable pub handle_response : Generating → ResolvedPolicy → Message → Answering → Answering
  handle_response g policy message s =
      let thread = reply_thread message policy.thread_default in
      let (asked, w1) =
        prepare_message s.client (record message { thread_id = thread }) policy s.world in
      let (history, w2) = history_for message thread (limit_of g.history_limit asked) w1 in
      let (o, w3) = respond a g policy asked (without message.id history) w2 in
      if parse_bot_command message.text
      then record s { world = handle_bot_command a g message s.world }
      else settled policy message thread o (record s { world = w3; typing = s.typing ++ true ∷ [] })
