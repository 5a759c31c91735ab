-- ===== src/OpenCode/Event.antt =====
-- What the generator reads out of an event's decoded payload: eventTypeAndSessionID,
-- assistantMessageIDFromMessageUpdated, textPartFromEvent, toolPartUpdateFromEvent and
-- permissionRequestIDFromAsked of bot/opencode_generator.go.
use Prim.Native.String.{len}
use rocketbot.Json.{
  ℤ, Value, null, obj, Fields, end, get, as_string, as_bool, as_num, as_obj, string_at,
  struct_string, struct_obj, ◌>>=◌,
}
use rocketbot.Prelude.{
  nat_eq, if◌then◌else◌, ℕ, String, Bool, true, false, not, ◌&&◌, ◌||◌, Option, none, some, get_or,
  ◌==◌,
}

-- json.Unmarshal of a decoded value into a map[string]any; null leaves the map nil.
unfoldable pub as_map : Option Value → Option Fields
as_map (some (obj m)) = some m
as_map (some null) = some end
as_map _ = none

-- The fields of an object at a key, or none of them where it is no object. A missing map and an
-- empty one read alike, but for the tests against nil below.
abbrev pub obj_at : Fields → String → Fields
obj_at m k = get_or (as_obj (get m k)) end

abbrev pub non_empty : String → String → String
non_empty v later = if v == "" then later else v

-- The event's type, and the session of its properties, its info or its part.
unfoldable pub event_type_and_session_id : Fields → String × String
event_type_and_session_id m =
    let typ = string_at m "type" in
    let props = obj_at m "properties" in
    (
      typ,
      non_empty (string_at props "sessionID") (
          non_empty (string_at (obj_at props "info") "sessionID")
            (string_at (obj_at props "part") "sessionID")),
    )

unfoldable pub assistant_message_id : Fields → Option String
assistant_message_id m = do
  typ ← struct_string m "type"
  props ← struct_obj m "properties"
  info ← struct_obj props "info"
  id ← struct_string info "id"
  role ← struct_string info "role"
  if typ == "message.updated" && role == "assistant" && not (id == "") then some id else none

unfoldable pub permission_request_id : Fields → Option String
permission_request_id m = do
  typ ← struct_string m "type"
  props ← struct_obj m "properties"
  id ← struct_string props "id"
  if typ == "permission.asked" && not (id == "") then some id else none

pub record TextPartUpdate : Type 0 where
  pub session_id : String
  pub message_id : String
  pub part_id : String
  pub part_type : String
  pub text : String
  pub is_delta : Bool

unfoldable pub text_delta_part : Fields → Option TextPartUpdate
text_delta_part props =
    let part = string_at props "partID" in
    let message = string_at props "messageID" in
    if not (string_at props "field" == "text") || part == "" || message == ""
    then none
    else some (record {
      session_id = string_at props "sessionID";
      message_id = message;
      part_id = part;
      part_type = string_at props "partType";
      text = string_at props "delta";
      is_delta = true;
    })

unfoldable pub text_full_part : Fields → Option TextPartUpdate
text_full_part part =
    let id = string_at part "id" in
    let message = string_at part "messageID" in
    if not (string_at part "type" == "text") || id == "" || message == ""
    then none
    else some (record {
      session_id = string_at part "sessionID";
      message_id = message;
      part_id = id;
      part_type = "text";
      text = string_at part "text";
      is_delta = false;
    })

unfoldable pub text_part_from_event : Fields → Option TextPartUpdate
text_part_from_event m = do
  props ← as_obj (get m "properties")
  if string_at m "type" == "message.part.delta"
      then text_delta_part props
      else (as_obj (get props "part") >>= text_full_part)

pub record ToolPartUpdate : Type 0 where
  pub session_id : String
  pub message_id : String
  pub part_id : String
  pub call_id : String
  pub tool : String
  pub status : String
  pub title : String
  pub command : String
  pub path : String
  pub pattern : String
  pub query : String
  pub output_len : ℕ
  pub exit_code : Option ℤ
  pub truncated : Option Bool
  pub err_text : String

-- The length in bytes of a text, where it is one.
abbrev text_len : Option String → ℕ
text_len none = 0
text_len (some s) = len s

-- Where the state, its input or its metadata is no object, its fields stay empty.
unfoldable pub tool_update_of_part : Fields → ToolPartUpdate
tool_update_of_part part =
    let state = obj_at part "state" in
    let input = obj_at state "input" in
    let metadata = obj_at state "metadata" in
    let output = text_len (as_string (get state "output")) in
    record {
      session_id = string_at part "sessionID";
      message_id = string_at part "messageID";
      part_id = string_at part "id";
      call_id = string_at part "callID";
      tool = string_at part "tool";
      status = string_at state "status";
      title = string_at state "title";
      command = string_at input "command";
      path = string_at input "path";
      pattern = string_at input "pattern";
      query = string_at input "query";
      output_len = if nat_eq output 0 then text_len (as_string (get metadata "output")) else output;
      exit_code = as_num (get metadata "exit");
      truncated = as_bool (get metadata "truncated");
      err_text = string_at state "error";
    }

unfoldable pub tool_part_update : Fields → Option ToolPartUpdate
tool_part_update m = do
  props ← as_obj (get m "properties")
  part ← as_obj (get props "part")
  if string_at m "type" == "message.part.updated" && string_at part "type" == "tool"
      then some (tool_update_of_part part)
      else none
