-- ===== src/OpenCode/Stream.antt =====
-- consumeRenderEvents of bot/opencode_generator.go: the state that it keeps, and what it does
-- with an assistant's message, a tool update and a text update.
use rocketbot.GoMap.{GoMap, lookup, has_key, insert, delete}
use rocketbot.Message.{
  RenderEventType, text_delta, text_set, tool_start, tool_update, tool_finish, tool_error,
  RenderEvent, event_of,
}
use rocketbot.Text.{trim_space, to_lower, has_prefix, trim_prefix}
use rocketbot.OpenCode.Event.{non_empty, TextPartUpdate, ToolPartUpdate}
use rocketbot.Prelude.{
  if◌then◌else◌, String, ◌&◌, Bool, true, not, ◌&&◌, ◌||◌, Option, none, some, get_or, List, [],
  ◌∷◌, ◌++◌, ◌==◌,
}

pub record PendingPart : Type 0 where
  pub message_id : String
  pub text : String

pub record StreamState : Type 0 where
  pub assistant_msg_ids : GoMap Bool
  pub part_text : GoMap String
  pub part_types : GoMap String
  pub pending_parts : GoMap PendingPart
  pub pending_tool_parts : GoMap ToolPartUpdate
  pub seen_tool_calls : GoMap Bool

abbrev pub empty_state : StreamState
empty_state = record {
  assistant_msg_ids = [];
  part_text = [];
  part_types = [];
  pending_parts = [];
  pending_tool_parts = [];
  seen_tool_calls = [];
}

-- m[k] on a map[string]string
abbrev pub text_at : GoMap String → String → String
text_at m k = get_or (lookup m k) ""

-- toolCallKey
unfoldable pub tool_call_key : ToolPartUpdate → String
tool_call_key upd =
    if not (upd.call_id == "")
    then upd.call_id
    else if not (upd.part_id == "")
    then upd.part_id
    else if not (upd.tool == "")
    then upd.tool
    else "tool"

-- The type of the event that an update maps to, by its status and by whether its call was seen.
unfoldable pub tool_event_type : String → Bool → RenderEventType
tool_event_type status seen =
    let s = to_lower (trim_space status) in
    if s == "completed"
    then tool_finish
    else if s == "error"
    then tool_error
    else if seen
    then tool_update
    else tool_start

unfoldable pub tool_event : ToolPartUpdate → RenderEventType → RenderEvent
tool_event upd type = record {
  type = type;
  message_id = upd.message_id;
  part_id = upd.part_id;
  call_id = upd.call_id;
  tool_name = upd.tool;
  status = upd.status;
  title = upd.title;
  text = "";
  command = upd.command;
  path = upd.path;
  pattern = upd.pattern;
  query = upd.query;
  exit_code = upd.exit_code;
  err_text = upd.err_text;
}

-- mapToolUpdateToRenderEvent: on every branch the call is seen afterwards.
unfoldable pub map_tool_update : StreamState → ToolPartUpdate → StreamState × RenderEvent
map_tool_update s upd =
    let key = tool_call_key upd in
    (
      record s { seen_tool_calls = insert s.seen_tool_calls key true },
      tool_event upd (tool_event_type upd.status (has_key s.seen_tool_calls key)),
    )

abbrev pub text_event : RenderEventType → String → String → String → RenderEvent
text_event type message part text = record (event_of type) {
  message_id = message;
  part_id = part;
  text = text;
}

-- The loops that flush what was held back until its message was known as an assistant's. The lists
-- are the entries that the `range` visits.
unfoldable pub flush_parts :
    String → GoMap PendingPart → StreamState → StreamState × List RenderEvent
flush_parts id [] s = (s, [])
flush_parts id ((part, pp) ∷ rest) s =
    let skipped = flush_parts id rest s in
    let flushed = flush_parts id rest (record s {
      part_text = insert s.part_text part pp.text;
      pending_parts = delete s.pending_parts part;
    }) in
    if not (pp.message_id == id) || pp.text == ""
    then skipped
    else (flushed.0, text_event text_set pp.message_id part pp.text ∷ flushed.1)

unfoldable pub flush_tools :
    String → GoMap ToolPartUpdate → StreamState → StreamState × List RenderEvent
flush_tools id [] s = (s, [])
flush_tools id ((part, tu) ∷ rest) s =
    let skipped = flush_tools id rest s in
    let (s', ev) = map_tool_update s tu in
    let flushed =
      flush_tools id rest (record s' { pending_tool_parts = delete s'.pending_tool_parts part }) in
    if not (tu.message_id == id) then skipped else (flushed.0, ev ∷ flushed.1)

-- case "message.updated", for an assistant's message
unfoldable pub announce : StreamState → String → StreamState × List RenderEvent
announce s id =
    let known = record s { assistant_msg_ids = insert s.assistant_msg_ids id true } in
    let (s', texts) = flush_parts id known.pending_parts known in
    let (s'', tools) = flush_tools id s'.pending_tool_parts s' in (s'', texts ++ tools)

abbrev pub remember_type : StreamState → String → String → StreamState
remember_type s part type =
    if part == "" || type == "" then s else record s { part_types = insert s.part_types part type }

-- A tool's update: held back while its message is not known as an assistant's.
unfoldable pub on_tool : StreamState → ToolPartUpdate → StreamState × List RenderEvent
on_tool s upd =
    let typed = remember_type s upd.part_id "tool" in
    if has_key typed.assistant_msg_ids upd.message_id
    then (let (s', ev) = map_tool_update typed upd in (s', ev ∷ []))
    else (record typed { pending_tool_parts = insert typed.pending_tool_parts upd.part_id upd }, [])

-- The pending part of a text update, by what was held back under its part.
abbrev pending_text : Option PendingPart → TextPartUpdate → String
pending_text none txt = txt.text
pending_text (some pp) txt = if txt.is_delta then pp.text & txt.text else txt.text

unfoldable pub hold_back : StreamState → TextPartUpdate → StreamState
hold_back s txt = record s {
  pending_parts = insert s.pending_parts txt.part_id (record {
    message_id = txt.message_id;
    text = pending_text (lookup s.pending_parts txt.part_id) txt;
  });
}

unfoldable pub on_delta : StreamState → TextPartUpdate → StreamState × List RenderEvent
on_delta s txt = (
  record s {
    part_text = insert s.part_text txt.part_id (text_at s.part_text txt.part_id & txt.text);
  },
  if txt.text == "" then [] else text_event text_delta txt.message_id txt.part_id txt.text ∷ [],
)

-- What a full text emits: what it adds to the text before it, or all of it.
unfoldable pub full_text_events : String → TextPartUpdate → List RenderEvent
full_text_events prev txt =
    if txt.text == ""
    then []
    else if not (prev == "") && has_prefix txt.text prev
    then (let delta = trim_prefix txt.text prev in
        if delta == "" then [] else text_event text_delta txt.message_id txt.part_id delta ∷ [])
    else text_event text_set txt.message_id txt.part_id txt.text ∷ []

unfoldable pub on_full_text : StreamState → TextPartUpdate → StreamState × List RenderEvent
on_full_text s txt = (
  record s { part_text = insert s.part_text txt.part_id txt.text },
  full_text_events (text_at s.part_text txt.part_id) txt,
)

-- The type of a delta's part: the one that it gives, or the one that its part had before.
abbrev pub delta_type : StreamState → TextPartUpdate → String
delta_type s txt = non_empty (trim_space txt.part_type) (text_at s.part_types txt.part_id)

unfoldable pub on_text : StreamState → TextPartUpdate → StreamState × List RenderEvent
on_text s txt =
    let typed = remember_type s txt.part_id txt.part_type in
    if txt.is_delta && not (delta_type typed txt == "text")
    then (typed, [])
    else if not (has_key typed.assistant_msg_ids txt.message_id)
    then (hold_back typed txt, [])
    else if txt.is_delta
    then on_delta typed txt
    else on_full_text typed txt
