-- ===== src/Config.antt =====
-- config/config.go: the bots that the environment configures. The environment is a function from the
-- name of a variable to its value, empty where it is not set.
pub mod Slug
pub mod Rooms
pub mod Load
pub mod Fits
pub mod Complete
pub mod Loaded
pub mod Ends
mod Tests
use rocketbot.GoMap.{GoMap}
use rocketbot.Json.{ℤ, pos, negsuc}
use rocketbot.Text.{trim_space, to_lower, itoa}
use rocketbot.Prelude.{
  if◌then◌else◌, length, get_elem?, ℕ, ◌+◌, String, ◌&◌, Bool, ◌||◌, Option, none, some, List, ◌==◌,
}

pub record RoomPolicyConfig : Type 0 where
  pub enabled : Bool
  pub opencode_session_dir : String
  pub bootstrap_prompt : String
  pub render_mode : String
  pub active_thread_trigger : String
  pub thread_default : Option Bool
  pub streamed_output : Option Bool

pub record BotConfig : Type 0 where
  pub slug : String
  pub url : String
  pub user_id : String
  pub token : String
  pub generator_type : String
  pub opencode_base_url : String
  pub opencode_auth : String
  pub opencode_session_dir : String
  pub opencode_permission_mode : String
  pub webhook_url : String
  pub webhook_auth : String
  pub streamed_output : Bool
  pub parser_type : String
  pub api_token : String
  pub thread_default : Bool
  pub active_thread_trigger : String
  pub status_message : String
  pub bootstrap_prompt : String
  pub render_mode : String
  pub room_policies : GoMap RoomPolicyConfig

-- An error names the variable, without its prefix, or the room that is at fault.
pub data ConfigError : Type 0 where
  is_required : String → ConfigError
  must_not_be_set : String → ConfigError
  unknown_value : String → ConfigError
  conflicting_slug : (slug first : String) → ConfigError
  invalid_json : ConfigError
  no_rooms : ConfigError
  empty_room_id : ConfigError
  no_override : (room : String) → ConfigError
  room_value : (room name : String) → ConfigError
  no_bots : ConfigError
  out_of_range : ConfigError

pub data Checked {ℓ} (A : Type ℓ) : Type ℓ where
  accepts : A → Checked A
  refuses : ConfigError → Checked A

-- A guard of a handler that returns early.
abbrev pub require {ℓ} : {A : Type ℓ} → Bool → ConfigError → Checked A → Checked A
require ok e rest = if ok then rest else refuses e

-- normalizeActiveThreadTrigger
unfoldable pub known_trigger : String → Checked String
known_trigger raw =
    let lower = to_lower (trim_space raw) in
    let value = if lower == "" then "auto" else lower in
    require (value == "auto" || value == "mention_only") (unknown_value "ACTIVE_THREAD_TRIGGER")
      (accepts value)

-- The methods of Config
unfoldable pub count : List BotConfig → ℕ
count bots = length bots

unfoldable pub get_bot : List BotConfig → ℤ → Checked BotConfig
get_bot bots (negsuc i) = refuses out_of_range
get_bot bots (pos i) = elim (get_elem? bots i) [ none ↦ refuses out_of_range | some b ↦ accepts b ]

unfoldable pub bot_name : ℕ → String
bot_name index = "BOT" & itoa (index + 1)
