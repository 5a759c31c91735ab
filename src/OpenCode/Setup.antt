-- ===== src/OpenCode/Setup.antt =====
-- NewOpenCodeGenerator, conversation, hasSession and HistoryLimit of bot/opencode_generator.go.
use rocketbot.GoMap.{GoMap, lookup, insert}
use rocketbot.Message.{Message}
use rocketbot.Text.{trim_space, trim_suffix}
use rocketbot.OpenCode.Backend.{Generator}
use rocketbot.OpenCode.Conversation.{Conversation}
use rocketbot.OpenCode.Prompt.{conversation_key}
use rocketbot.Prelude.{if◌then◌else◌, ℕ, String, Bool, not, none, some, ◌==◌}

unfoldable pub new_open_code_generator : String → String → String → String → Generator
new_open_code_generator base_url auth permission_mode session_dir =
    let base = trim_space base_url in
    let mode = trim_space permission_mode in
    record {
      base_url = trim_suffix (if base == "" then "http://127.0.0.1:4096" else base) "/";
      auth = auth;
      session_dir = trim_space session_dir;
      permission_mode = if mode == "allow" then mode else "deny";
    }

abbrev pub Conversations : Type 0
Conversations = GoMap (Conversation String)

abbrev new_conversation : Conversation String
new_conversation = record { session_id = ""; active_cancel = none; active_cancel_n = 0 }

-- The conversation of a key; a new one is kept. The lock is held throughout.
unfoldable pub conversation : String → Conversations → Conversation String × Conversations
conversation key cs = elim (lookup cs key) [
  | some c ↦ (c, cs)
  | none ↦ (new_conversation, insert cs key new_conversation)
]

unfoldable pub has_session : Message → Conversations → Bool × Conversations
has_session message cs =
    let (c, cs') = conversation (conversation_key message) cs in (not (c.session_id == ""), cs')

unfoldable pub history_limit : Message → Conversations → ℕ × Conversations
history_limit message cs =
    let (known, cs') = has_session message cs in (if known then 0 else 10, cs')
