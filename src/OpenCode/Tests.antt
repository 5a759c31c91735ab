-- ===== src/OpenCode/Tests.antt =====
-- A stream of OpenCode events, from its decoded payloads.
use rocketbot.OpenCode.Conversation.{
  Operation, sets_session, clears_session, clears_run, cancels, IsForeign, Conversation,
  set_active_cancel, steps, cancel_active-steps,
}
use rocketbot.GoMap.{lookup, insert, delete}
use rocketbot.Json.{end, field, Value, str, obj, get, struct_string, struct_obj}
use rocketbot.Message.{text_delta, text_set, done, event_of}
use rocketbot.Text.{trim_right, trim_space, in_set, cut_prefix, has_prefix, trim_prefix}
use rocketbot.OpenCode.Event.{
  as_map, event_type_and_session_id, assistant_message_id, TextPartUpdate, text_full_part,
  text_part_from_event, tool_part_update,
}
use rocketbot.OpenCode.Stream.{
  StreamState, empty_state, text_event, flush_parts, flush_tools, announce, hold_back,
  full_text_events, on_full_text, on_text,
}
use rocketbot.OpenCode.Loop.{
  emit, on_text_event, on_part_event, on_event, payload_of, decoded, on_decoded, consume,
}
use rocketbot.OpenCode.Announced.{IsAnnouncedOutput, consume-announced}
use rocketbot.OpenCode.Replay.{replay, SameText, on_text-Replays, announce-Replays}
use rocketbot.Prelude.{
  if◌then◌else◌, All, ℕ, String, ◌≡◌, refl, Bool, true, false, Option, none, some, List, [], ◌∷◌,
  ◌++◌, arith, ◌==◌, eq_iff,
}

abbrev text_payload : String → String → String → Value
text_payload message part text = obj (
    field "type" (str "message.part.updated") (
      field "properties"
        (obj (
          field "part"
            (obj (
              field "type" (str "text") (
                field "id" (str part) (
                  field "messageID" (str message)
                    (field "sessionID" (str "ses") (field "text" (str text) end))))))
            end))
        end))

abbrev role_payload : String → String → Value
role_payload message role = obj (
    field "type" (str "message.updated") (
      field "properties"
        (obj (
          field "info"
            (obj (
              field "id" (str message)
                (field "role" (str role) (field "sessionID" (str "ses") end))))
            end))
        end))

abbrev idle_payload : Value
idle_payload = obj (
    field "type" (str "session.idle")
      (field "properties" (obj (field "sessionID" (str "ses") end)) end))

-- A decoder for the payloads below, which are single letters.
abbrev letters : String → Option Value
letters p =
    if p == "u"
    then some (text_payload "m0" "p0" "question")
    else if p == "a"
    then some (text_payload "m1" "p1" "Hel")
    else if p == "r"
    then some (role_payload "m1" "assistant")
    else if p == "b"
    then some (text_payload "m1" "p1" "Hello")
    else if p == "i"
    then some idle_payload
    else none

abbrev lines : List String
lines =
    "data: u\n" ∷ "\r\n" ∷ ": ping\n" ∷ "data:a\n" ∷ "data: r\r\n" ∷ "data: x\n" ∷ "data: b\n"
    ∷ "data: i\n" ∷ "data: b\n" ∷ []

abbrev accepts : String → Bool
accepts id = true

sends :
    (consume letters "deny" "ses" accepts empty_state lines).output
    ≡ emit (text_event text_set "m1" "p1" "Hel")
      ∷ emit (text_event text_delta "m1" "p1" "lo")
      ∷ emit (event_of done)
      ∷ []
unfolding consume on_decoded decoded payload_of trim_right in_set cut_prefix trim_space on_event
    event_type_and_session_id get as_map assistant_message_id struct_string struct_obj announce
    flush_parts flush_tools on_part_event tool_part_update on_text_event text_part_from_event
    text_full_part on_text hold_back on_full_text full_text_events insert delete lookup has_prefix
    trim_prefix
sends = refl

consume-announced_example :
    All
      (IsAnnouncedOutput letters "deny" "ses" accepts lines)
      (consume letters "deny" "ses" accepts empty_state lines).output
consume-announced_example = consume-announced letters "deny" "ses" accepts lines

abbrev saying : StreamState
saying = record empty_state {
  assistant_msg_ids = ("m1", true) ∷ [];
  part_text = ("p1", "Hel") ∷ [];
}

abbrev update : String → TextPartUpdate
update text = record {
  session_id = "ses";
  message_id = "m1";
  part_id = "p1";
  part_type = "text";
  text = text;
  is_delta = false;
}

on_text-Replays_example :
    SameText
      (replay saying.part_text (on_text saying (update "Hello")).1)
      (on_text saying (update "Hello")).0.part_text
on_text-Replays_example =
    on_text-Replays saying (update "Hello") (λ d e. absurd (ground (arith, eq_iff "Hello" "")))
      saying.part_text (λ k. refl)

abbrev held : StreamState
held = record empty_state {
  pending_parts = ("p1", record { message_id = "m1"; text = "Hel" }) ∷ [];
}

announce-Replays_example :
    SameText (replay [] (announce held "m1").1) (announce held "m1").0.part_text
announce-Replays_example = announce-Replays held "m1" [] (λ k. refl)

abbrev idle : Conversation ℕ
idle = record { session_id = ""; active_cancel = none; active_cancel_n = 7 }

abbrev others : List Operation
others = sets_session "s" ∷ clears_run 7 ∷ clears_session "t" ∷ []

others-IsForeign : All (IsForeign (set_active_cancel 42 idle).0) others
unfolding set_active_cancel
others-IsForeign = (tt, ((λ e. omega (arith, e)), (tt, tt)))

cancel_active-steps_example :
    (steps (others ++ cancels ∷ cancels ∷ []) (set_active_cancel 42 idle).1).0 ≡ 42 ∷ []
cancel_active-steps_example = cancel_active-steps 42 idle others (cancels ∷ []) others-IsForeign
