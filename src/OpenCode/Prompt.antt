-- ===== src/OpenCode/Prompt.antt =====
-- titleForMessage, buildPrompt and openCodeConversationKey of bot/opencode_generator.go.
pub mod Keys
mod Tests
use Prim.Native.String.{len}
use rocketbot.Message.{Message, GenerationOptions}
use rocketbot.Text.{trim_space}
use rocketbot.Text.Escape.{cut_bytes}
use rocketbot.Prelude.{ltb, if◌then◌else◌, String, ◌&◌, Bool, List, [], ◌∷◌, ◌==◌}

-- The cut may fall inside a code point; the title is then what json.Marshal makes of its bytes.
unfoldable pub title_for_message : String → String
title_for_message text =
    let trimmed = trim_space text in
    if trimmed == ""
    then "rocketbot"
    else if ltb 60 (len trimmed)
    then cut_bytes 60 trimmed
    else trimmed

abbrev history_line : Message → String
history_line m =
    "- "
    & (if m.user.username == "" then "user" else m.user.username)
    & ": "
    & trim_space m.text
    & "\n"

unfoldable pub history_lines : List Message → String
history_lines [] = ""
history_lines (m ∷ ms) = history_line m & history_lines ms

unfoldable pub history_part : List Message → String
history_part [] = ""
history_part (m ∷ ms) = "Conversation history (oldest first):\n" & history_lines (m ∷ ms) & "\n"

unfoldable pub message_part : Message → String
message_part message =
    if message.preformatted_prompt
    then trim_space message.text
    else (if message.user.username == "" then "User: " else message.user.username & ": ")
      & trim_space message.text

abbrev bootstrap_part : String → String
bootstrap_part prompt = if prompt == "" then "" else prompt & "\n\n"

unfoldable pub build_prompt : GenerationOptions → Message → List Message → Bool → String
build_prompt opts message history include_history =
    if include_history
    then bootstrap_part opts.bootstrap_prompt & history_part history & message_part message
    else message_part message

unfoldable pub conversation_key : Message → String
conversation_key m =
    if m.thread_id == "" then "room:" & m.room_id else "thread:" & m.room_id & ":" & m.thread_id
