-- ===== src/OpenCode.antt =====
-- bot/opencode_generator.go: the generator that answers by an OpenCode server. The modules below
-- have the data of its events, the loop over its event stream, and the sessions.
pub mod Plain
pub mod Setup
pub mod Event
pub mod Conversation
pub mod Backend
pub mod Prompt
pub mod Session
pub mod Tree
pub mod Stream
pub mod Loop
pub mod Roles
pub mod Announced
pub mod Replay
mod Tests
