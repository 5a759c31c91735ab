-- ===== src/Config/Rooms.antt =====
-- parseRoomPoliciesJSON of config/config.go. The decoder, which rejects unknown fields, is a parameter;
-- it gives the rooms in the order of the range over them.
use rocketbot.GoMap.{GoMap}
use rocketbot.Text.{trim_space}
use rocketbot.Config.{
  RoomPolicyConfig, invalid_json, no_rooms, empty_room_id, no_override, room_value, Checked,
  accepts, refuses, require, known_trigger,
}
use rocketbot.Prelude.{
  if◌then◌else◌, is_some, String, Bool, not, ◌&&◌, ◌||◌, Option, none, some, [], ◌∷◌, ◌==◌,
}

unfoldable pub overrides_nothing : RoomPolicyConfig → Bool
overrides_nothing p =
    p.opencode_session_dir == ""
    && p.bootstrap_prompt == ""
    && p.render_mode == ""
    && p.active_thread_trigger == ""
    && not (is_some p.thread_default)
    && not (is_some p.streamed_output)

unfoldable pub trimmed : RoomPolicyConfig → RoomPolicyConfig
trimmed p = record p {
  opencode_session_dir = trim_space p.opencode_session_dir;
  bootstrap_prompt = trim_space p.bootstrap_prompt;
  render_mode = trim_space p.render_mode;
  active_thread_trigger = trim_space p.active_thread_trigger;
}

unfoldable pub check_render_mode : String → RoomPolicyConfig → Checked RoomPolicyConfig
check_render_mode room p =
    require (p.render_mode == "" || p.render_mode == "detailed" || p.render_mode == "concise")
      (room_value room "renderMode") (accepts p)

unfoldable pub check_trigger : String → RoomPolicyConfig → Checked RoomPolicyConfig
check_trigger room p =
    if p.active_thread_trigger == ""
    then check_render_mode room p
    else elim (known_trigger p.active_thread_trigger) [
      | refuses e ↦ refuses (room_value room "activeThreadTrigger")
      | accepts trigger ↦ check_render_mode room (record p { active_thread_trigger = trigger })
    ]

-- One pass of the loop.
unfoldable pub check_room : String → RoomPolicyConfig → Checked RoomPolicyConfig
check_room room p = require (not (trim_space room == "")) empty_room_id (
    if p.enabled
    then require (not (overrides_nothing p)) (no_override room) (check_trigger room (trimmed p))
    else accepts p)

unfoldable pub with_room :
    String
    → Checked RoomPolicyConfig
    → Checked (GoMap RoomPolicyConfig)
    → Checked (GoMap RoomPolicyConfig)
with_room room (refuses e) later = refuses e
with_room room (accepts p) (refuses e) = refuses e
with_room room (accepts p) (accepts rooms) = accepts ((room, p) ∷ rooms)

unfoldable pub check_rooms : GoMap RoomPolicyConfig → Checked (GoMap RoomPolicyConfig)
check_rooms [] = accepts []
check_rooms ((room, p) ∷ rooms) = with_room room (check_room room p) (check_rooms rooms)

unfoldable pub decoded_rooms : Option (GoMap RoomPolicyConfig) → Checked (GoMap RoomPolicyConfig)
decoded_rooms none = refuses invalid_json
decoded_rooms (some []) = refuses no_rooms
decoded_rooms (some (r ∷ rooms)) = check_rooms (r ∷ rooms)

unfoldable pub parse_room_policies_json :
    (String → Option (GoMap RoomPolicyConfig)) → String → Checked (GoMap RoomPolicyConfig)
parse_room_policies_json decode raw = if raw == "" then accepts [] else decoded_rooms (decode raw)
