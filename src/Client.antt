-- ===== src/Client.antt =====
-- bot/client.go: the state of a bot's client, and which parts of it the modules below model.
pub mod Mention
pub mod Threads
pub mod Policy
pub mod Missed
mod Tests
use rocketbot.GoMap.{GoMap, lookup}
use rocketbot.Prelude.{String, Bool, false, Option, get_or}

pub record RoomPolicy : Type 0 where
  pub enabled : Bool
  pub opencode_session_dir : String
  pub bootstrap_prompt : String
  pub render_mode : String
  pub active_thread_trigger : String
  pub thread_default : Option Bool
  pub streamed_output : Option Bool

pub record ResolvedPolicy : Type 0 where
  pub scope : String
  pub room_id : String
  pub session_dir : String
  pub bootstrap_prompt : String
  pub render_mode : String
  pub active_thread_trigger : String
  pub thread_default : Bool
  pub streamed_output : Bool

-- The fields of Client that its handlers read and write; `user_id` is that of its APIClient. A key
-- of `active_room_threads` has the id of the message ingested last.
pub record Client : Type 0 where
  pub user_id : String
  pub username : String
  pub streamed_output : Bool
  pub render_mode : String
  pub thread_default : Bool
  pub active_thread_trigger : String
  pub bootstrap_prompt : String
  pub room_policies : GoMap RoomPolicy
  pub rooms : GoMap Bool
  pub dm_rooms : GoMap Bool
  pub active_room_threads : GoMap String

-- m[k] on a map[string]bool
abbrev pub flag : GoMap Bool → String → Bool
flag m k = get_or (lookup m k) false
