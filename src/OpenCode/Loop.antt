-- ===== src/OpenCode/Loop.antt =====
-- consumeRenderEvents of bot/opencode_generator.go: the handling of one event, and the loop over the
-- lines of the stream. The decoding of a payload's JSON is a parameter. The channel takes each event:
-- a context that is cancelled cuts the loop off between two sends.
use rocketbot.Json.{Value, Fields}
use rocketbot.Message.{done, RenderEvent, event_of}
use rocketbot.Text.{trim_right, trim_space, in_set, cut_prefix}
use rocketbot.OpenCode.Event.{
  as_map, event_type_and_session_id, assistant_message_id, permission_request_id, TextPartUpdate,
  text_part_from_event, ToolPartUpdate, tool_part_update,
}
use rocketbot.OpenCode.Stream.{StreamState, announce, on_tool, on_text}
use rocketbot.Prelude.{
  if◌then◌else◌, String, Bool, not, ◌&&◌, ◌||◌, Option, none, some, List, [], ◌∷◌, ◌++◌, map, ◌==◌,
}

-- What the loop does to the outside: it sends an event, or answers a permission request.
pub data Output : Type 0 where
  emit : RenderEvent → Output
  reply : String → String → String → Output

-- How an event leaves the loop: it goes on, it is over, or it ends with an error.
pub data Next : Type 0 where
  go_on over broken : Next

pub record Step : Type 0 where
  pub state : StreamState
  pub output : List Output
  pub next : Next

abbrev pub quiet : StreamState → Step
quiet s = record { state = s; output = []; next = go_on }

abbrev pub emits : StreamState × List RenderEvent → Step
emits (s, evs) = record { state = s; output = map emit evs; next = go_on }

-- The answer to a permission request in a mode; the flag tells whether the server takes it.
unfoldable pub answer_permission : String → Bool → String → StreamState → Step
answer_permission mode taken id s = record {
  state = s;
  output =
      (if mode == "allow"
        then reply id "always" "Approved by rocketbot configuration"
        else reply id "reject" "Denied by rocketbot configuration")
      ∷ [];
  next = if taken then go_on else broken;
}

unfoldable pub on_text_event : String → StreamState → Option TextPartUpdate → Step
on_text_event session s none = quiet s
on_text_event session s (some txt) =
    if txt.session_id == session then emits (on_text s txt) else quiet s

unfoldable pub on_part_event : String → StreamState → Fields → Option ToolPartUpdate → Step
on_part_event session s m none = on_text_event session s (text_part_from_event m)
on_part_event session s m (some upd) =
    if upd.session_id == session
    then emits (on_tool s upd)
    else on_text_event session s (text_part_from_event m)

-- One event of the stream, after its payload is decoded. `taken` tells of each permission request
-- whether the server takes the answer.
unfoldable pub on_event : String → String → (String → Bool) → StreamState → Fields → Step
on_event mode session taken s m =
    let typ = (event_type_and_session_id m).0 in
    let sid = (event_type_and_session_id m).1 in
    if typ == "" || (not (typ == "server.connected") && not (sid == session))
    then quiet s
    else if typ == "session.idle" && sid == session
    then record { state = s; output = emit (event_of done) ∷ []; next = over }
    else if typ == "permission.asked"
    then elim (permission_request_id m) [
      | none ↦ quiet s
      | some id ↦ answer_permission mode (taken id) id s
    ]
    else if typ == "message.updated"
    then elim (assistant_message_id m) [ none ↦ quiet s | some id ↦ emits (announce s id) ]
    else if typ == "message.part.updated"
    then on_part_event session s m (tool_part_update m)
    else if typ == "message.part.delta"
    then on_text_event session s (text_part_from_event m)
    else quiet s

-- The payload of a line of the stream: none for a line that the loop skips.
unfoldable pub payload_of : String → Option String
payload_of line = elim (cut_prefix (trim_right (in_set "\r\n") line) "data:") [
  | none ↦ none
  | some rest ↦ (let payload = trim_space rest in if payload == "" then none else some payload)
]

module _ (unmarshal : String → Option Value) (mode session : String) (taken : String → Bool) where
  -- The payload of a line, decoded as a map.
  unfoldable pub decoded : String → Option Fields
  decoded line = elim (payload_of line) [ none ↦ none | some payload ↦ as_map (unmarshal payload) ]

  unfoldable pub on_decoded : StreamState → Option Fields → Step
  on_decoded s none = quiet s
  on_decoded s (some m) = on_event mode session taken s m

  -- The loop over the lines that end in a newline; what stands behind the last newline is dropped.
  unfoldable pub consume : StreamState → List String → Step
  consume s [] = quiet s
  consume s (line ∷ lines) =
      let here = on_decoded s (decoded line) in
      let later = consume here.state lines in
      elim here.next [
        | go_on ↦ record {
          state = later.state;
          output = here.output ++ later.output;
          next = later.next;
        }
        | over ↦ here
        | broken ↦ here
      ]
