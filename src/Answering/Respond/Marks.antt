-- ===== src/Answering/Respond/Marks.antt =====
-- A thread becomes active only where its answer is shown.
use rocketbot.Json.{ℤ}
use rocketbot.Message.{Message, GenerationOptions}
use rocketbot.Http.{World}
use rocketbot.Api.{ApiClient}
use rocketbot.Client.{ResolvedPolicy, Client}
use rocketbot.Client.Threads.{mark_active_room_thread}
use rocketbot.Answering.{Outcome, returned, reply_thread, Shows}
use rocketbot.Answering.Rendering.{RenderInput}
use rocketbot.Answering.Rendering.Whole.{Delivered}
use rocketbot.Answering.Streaming.{StreamInput}
use rocketbot.Answering.Streaming.Shown.{chunks}
use rocketbot.Answering.Respond.{
  Started, Generating, Answering, parse_bot_command, handle_bot_command, without, limit_of,
  options_of, Rendering, Streaming, prepare_message, history_for,
}
use rocketbot.Prelude.{String, ◌≡◌, ◌≢◌, ◌⊎◌, true, false, Option, some, List}

module _ (a : ApiClient) (g : Generating) (policy : ResolvedPolicy) (asked : Message)
    (history : List Message) where
  abbrev Rendered : World → Type 0
  Rendered w =
      (render : GenerationOptions → Message → List Message → Started RenderInput) × (g.render_stream
        ≡ some render)
      × Delivered a asked.room_id policy.render_mode
          (render (options_of policy) asked history).inputs w

  abbrev Streamed : World → Type 0
  Streamed w =
      (stream : GenerationOptions → Message → List Message → Started StreamInput) × (g.stream
        ≡ some stream)
      × (id : String) × Shows a asked.room_id id
          (chunks (stream (options_of policy) asked history).inputs) w

  abbrev Said : World → Type 0
  Said w =
      (id text : String) × (g.once (options_of policy) asked history ≡ some text)
      × Shows a asked.room_id id text w

  -- The room shows what the generator gave, in one of the modes.
  abbrev pub IsAnswered : World → Type 0
  IsAnswered w = Rendered w ⊎ (Streamed w ⊎ Said w)

  abbrev Answers : Outcome × World → Type 0
  Answers (returned true, w) = IsAnswered w
  Answers _ = Unit

module _ (parse_time : String → Option ℤ) (sort : List Message → List Message) (a : ApiClient)
    (g : Generating) (policy : ResolvedPolicy) (message : Message) (s : Answering) where
  abbrev thread_of : String
  thread_of = reply_thread message policy.thread_default

  -- The message as the generator gets it, and its history.
  abbrev pub asked_for : Message
  asked_for =
      (prepare_message parse_time sort a s.client (record message { thread_id = thread_of }) policy
        s.world).0

  abbrev pub history_of : List Message
  history_of =
      let w1 =
        (prepare_message parse_time sort a s.client (record message { thread_id = thread_of })
          policy s.world).1 in
      without message.id
        (history_for parse_time sort a message thread_of (limit_of g.history_limit asked_for) w1).0

  -- What an answer that is no command makes of the client.
  abbrev MarksShown : Answering → Type 0
  MarksShown s' =
      (s'.client ≡ s.client)
      ⊎ ((policy.scope ≡ "room")
          × (thread_of ≢ "")
          × (s'.client ≡ mark_active_room_thread s.client message.room_id thread_of message.id)
          × IsAnswered a g policy asked_for history_of s'.world)

  -- A command or an answer.
  abbrev pub Marks : Answering → Type 0
  Marks s' =
      ((parse_bot_command message.text ≡ true)
        × (s' ≡ record s { world = handle_bot_command a g message s.world }))
      ⊎ ((parse_bot_command message.text ≡ false) × MarksShown s')
