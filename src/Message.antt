-- ===== src/Message.antt =====
-- The data that the components exchange: bot/generator.go and bot/render_event.go.
pub mod Parse
use rocketbot.Json.{ℤ}
use rocketbot.Prelude.{String, Bool, Option, none}

pub record MessageUser : Type 0 where
  pub id : String
  pub username : String
  pub name : String

-- A timestamp is its count of nanoseconds since the epoch; the zero Time is `none`.
pub record Message : Type 0 where
  pub id : String
  pub text : String
  pub room_id : String
  pub thread_id : String
  pub preformatted_prompt : Bool
  pub timestamp : Option ℤ
  pub user : MessageUser

pub record GenerationOptions : Type 0 where
  pub scope : String
  pub room_id : String
  pub session_dir : String
  pub bootstrap_prompt : String

pub data RenderEventType : Type 0 where
  text_delta text_set : RenderEventType
  tool_start tool_update tool_finish tool_error : RenderEventType
  done : RenderEventType

pub record RenderEvent : Type 0 where
  pub type : RenderEventType
  pub message_id : String
  pub part_id : String
  pub call_id : String
  pub tool_name : String
  pub status : String
  pub title : String
  pub text : String
  pub command : String
  pub path : String
  pub pattern : String
  pub query : String
  pub exit_code : Option ℤ
  pub err_text : String

-- The zero event, as in RenderEvent{Type: t}.
abbrev pub event_of : RenderEventType → RenderEvent
event_of t = record {
  type = t;
  message_id = "";
  part_id = "";
  call_id = "";
  tool_name = "";
  status = "";
  title = "";
  text = "";
  command = "";
  path = "";
  pattern = "";
  query = "";
  exit_code = none;
  err_text = "";
}
