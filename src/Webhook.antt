-- ===== src/Webhook.antt =====
-- The webhook generator: bot/webhook_generator.go, bot/n8n_parser.go and bot/stream_parser.go. The
-- decoder of a line and the JSON of a time are parameters. A scanner's error ends the lines.
pub mod Chunks
pub mod RoundTrip
mod Tests
use mathlib.Core.Option
use rocketbot.Json.{ℤ, Fields, Value, get, as_string, string_at, ◌>>=◌}
use rocketbot.Http.{quoted}
use rocketbot.Message.{MessageUser, Message, GenerationOptions}
use rocketbot.Text.{trim_space, join}
use rocketbot.OpenCode.Event.{as_map}
use rocketbot.OpenCode.Plain.{next_reading, drop_reading}
use rocketbot.Prelude.{
  nat_eq, if◌then◌else◌, ℕ, String, ◌&◌, Bool, ◌&&◌, Option, none, some, List, [], ◌∷◌, map, ◌==◌,
}

pub data StreamEventType : Type 0 where
  message_chunk message : StreamEventType

pub record StreamEvent : Type 0 where
  pub type : StreamEventType
  pub content : String

-- One pass of the parser's loop: its line, whether the context is done then, and whether the event of
-- the line is taken.
pub record Pass : Type 0 where
  pub line : String
  pub is_done : Bool
  pub is_taken : Bool

-- The event of a line's type, and the message accumulated after it.
unfoldable pub on_line : String → Fields → String → Option StreamEvent × String
on_line type m full =
    let content = string_at m "content" in
    if type == "begin"
    then (none, "")
    else if type == "item"
    then (
      if content == "" then none else some (record { type = message_chunk; content = content }),
      full & content,
    )
    else if type == "end"
    then (if full == "" then none else some (record { type = message; content = full }), full)
    else (none, full)

unfoldable pub on_data : Option Fields → String → Option StreamEvent × String
on_data none full = (none, full)
on_data (some m) full = elim (as_string (get m "type")) [
  | none ↦ (none, full)
  | some type ↦ on_line type m full
]

-- The payload of GenerateResponseStream, with keys in the order of json.Marshal.
unfoldable pub user_payload : MessageUser → String
user_payload u =
    "{\"id\":"
    & quoted u.id
    & ",\"name\":"
    & quoted u.name
    & ",\"username\":"
    & quoted u.username
    & "}"

unfoldable pub options_payload : GenerationOptions → String
options_payload o =
    if o.scope == "" && o.room_id == "" && o.session_dir == "" && o.bootstrap_prompt == ""
    then ""
    else ",\"options\":{\"bootstrapPrompt\":"
      & quoted o.bootstrap_prompt
      & ",\"roomId\":"
      & quoted o.room_id
      & ",\"scope\":"
      & quoted o.scope
      & ",\"sessionDir\":"
      & quoted o.session_dir
      & "}"

unfoldable pub reply_payload : String → Option String → String
reply_payload key none = ""
reply_payload key (some v) = ",\"" & key & "\":" & quoted v

-- The reply's message and room from the context, and the options.
pub record Context : Type 0 where
  pub reply_message_id : Option String
  pub reply_room_id : Option String
  pub options : GenerationOptions

pub record HookCall : Type 0 where
  pub url : String
  pub authorization : String
  pub body : String

pub data HookReply : Type 0 where
  no_reply : HookReply
  replied : ℕ → List Pass → HookReply

pub data HookError : Type 0 where
  bad_payload : HookError
  not_sent : HookError
  unexpected_status : ℕ → HookError

pub data Hooked {ℓ} (A : Type ℓ) : Type ℓ where
  streams : A → Hooked A
  breaks : HookError → Hooked A

-- The texts of the chunks that are taken; each reading tells whether the next one is.
unfoldable pub text_chunks : List Bool → List StreamEvent → List String
text_chunks taken [] = []
text_chunks taken (ev ∷ evs) =
    let sent = text_chunks (drop_reading taken) evs in
    let skipped = text_chunks taken evs in
    elim ev.type [
      | message ↦ skipped
      | message_chunk ↦ (if next_reading taken then ev.content ∷ sent else [])
    ]

unfoldable pub join_chunks : List String → String
join_chunks [] = ""
join_chunks (c ∷ cs) = c & join_chunks cs

unfoldable pub sent_before : Bool → Option StreamEvent → List StreamEvent → List StreamEvent
sent_before is_taken none later = later
sent_before is_taken (some e) later = if is_taken then e ∷ later else []

abbrev hook_call : String → String → String → HookCall
hook_call url auth body = record { url = url; authorization = auth; body = body }

module _ (decode : String → Option Value) where
  unfoldable pub data_of : String → Option Fields
  data_of line = if trim_space line == "" then none else as_map (decode line)

  -- Parse, from a message that is accumulated.
  unfoldable pub parse_from : String → List Pass → List StreamEvent
  parse_from full [] = []
  parse_from full (p ∷ passes) =
      let (ev, after) = on_data (data_of p.line) full in
      let later = parse_from after passes in
      if p.is_done then [] else sent_before p.is_taken ev later

  unfoldable pub parse : List Pass → List StreamEvent
  parse passes = parse_from "" passes

  unfoldable pub streamed : List Bool → HookReply → Hooked (List String)
  streamed taken no_reply = breaks not_sent
  streamed taken (replied status passes) =
      if nat_eq status 200
      then streams (text_chunks taken (parse passes))
      else breaks (unexpected_status status)

module _ (time_json : Option ℤ → Option String) where
  unfoldable pub message_payload : Message → Option String
  message_payload m =
      Option.map
        (λ time.
          "{\"id\":"
          & quoted m.id
          & ",\"roomId\":"
          & quoted m.room_id
          & ",\"text\":"
          & quoted m.text
          & ",\"timestamp\":"
          & time
          & ",\"user\":"
          & user_payload m.user
          & "}")
        (time_json m.timestamp)

  unfoldable pub history_payload : List Message → Option (List String)
  history_payload [] = some []
  history_payload (m ∷ ms) = message_payload m >>= λ p. history_payload ms >>= λ ps. some (p ∷ ps)

  unfoldable pub payload : Context → Message → List Message → Option String
  payload c m history = history_payload history >>= λ hs. message_payload m >>= λ p. some (
      "{\"history\":["
      & join hs ","
      & "],\"message\":"
      & p
      & options_payload c.options
      & reply_payload "replyMessageId" c.reply_message_id
      & reply_payload "replyRoomId" c.reply_room_id
      & "}")

  -- The request that is made, if one is, and what comes of it.
  unfoldable pub generate_webhook_stream :
      (String → Option Value)
      → (url auth : String) → (HookCall → HookReply)
      → List Bool
      → Context
      → Message
      → List Message
      → Option HookCall × Hooked (List String)
  generate_webhook_stream decode url auth server taken c m history = elim (payload c m history) [
    | none ↦ (none, breaks bad_payload)
    | some body ↦
        (some (hook_call url auth body), streamed decode taken (server (hook_call url auth body)))
  ]

unfoldable pub generate_webhook : Hooked (List String) → Hooked String
generate_webhook (breaks e) = breaks e
generate_webhook (streams cs) = streams (join_chunks cs)
