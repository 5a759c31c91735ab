-- ===== src/Renderer.antt =====
-- bot/message_renderer.go: the message that is shown while a generator works, from its events.
mod Summary
mod Tests
pub mod Index
pub mod Changes
use rocketbot.GoMap.{GoMap, lookup, insert}
use rocketbot.Message.{RenderEventType, text_delta, text_set, done, RenderEvent}
use rocketbot.Text.{trim_space, to_lower, equal_fold, has_suffix, contains, itoa, join}
use rocketbot.Prelude.{
  ltb, nat_eq, if◌then◌else◌, length, get_elem?, set, ℕ, ◌+◌, String, ◌&◌, Bool, true, false, not,
  ◌&&◌, ◌||◌, Option, none, some, List, [], ◌∷◌, ◌++◌, ◌==◌,
}
use Summary.{summarize_tool_event, is_tool_error}

-- normalizeRenderMode of bot/client.go
unfoldable pub normalize_render_mode : String → String
normalize_render_mode mode =
    if to_lower (trim_space mode) == "concise" then "concise" else "detailed"

pub record ToolCallView : Type 0 where
  pub id : String
  pub summary : String
  pub status : String
  pub failed : Bool
  pub category : String

pub record Renderer : Type 0 where
  pub tools : List ToolCallView
  pub tool_index : GoMap ℕ
  pub answer : String
  pub done : Bool
  pub mode : String

unfoldable pub new_renderer : String → Renderer
unfolding normalize_render_mode
new_renderer mode = record {
  tools = [];
  tool_index = [];
  answer = "";
  done = false;
  mode = normalize_render_mode mode;
}

unfoldable pub classify : RenderEvent → String
classify ev =
    let path = to_lower (trim_space ev.path) in
    let title = to_lower (trim_space ev.title) in
    if equal_fold (trim_space ev.tool_name) "read"
    then (if has_suffix path "/skill.md"
          || path == "skill.md"
          || contains path "/skills/"
          || contains title "skill"
        then "skill"
        else "read")
    else "tool"

-- The first of the call id, the part id and the tool's name that is not blank.
unfoldable pub tool_id : RenderEvent → String
tool_id ev =
    let call = trim_space ev.call_id in
    let part = trim_space ev.part_id in
    let tool = trim_space ev.tool_name in
    if not (call == "")
    then call
    else if not (part == "")
    then part
    else if not (tool == "")
    then tool
    else "tool"

-- What the event says of its tool call.
unfoldable pub view_of : RenderEvent → ToolCallView
view_of ev = record {
  id = tool_id ev;
  summary = summarize_tool_event ev;
  status = ev.status;
  failed = is_tool_error ev.type || equal_fold ev.status "error";
  category = classify ev;
}

bool_eq : Bool → Bool → Bool
bool_eq true b = b
bool_eq false b = not b

-- `if v != "" && old != v { old = v; changed = true }`: whether it changed, and the field after it
abbrev overwrites : String → String → Bool
overwrites v old = not (v == "") && not (old == v)

abbrev overwrite : String → String → String
overwrite v old = if overwrites v old then v else old

-- The update of a tool line that is there already, and whether anything changed.
unfoldable pub update_tool : ToolCallView → ToolCallView → ToolCallView × Bool
unfolding bool_eq
update_tool t v = (
  record {
    id = t.id;
    summary = overwrite v.summary t.summary;
    status = overwrite v.status t.status;
    failed = v.failed;
    category = overwrite v.category t.category;
  },
  overwrites v.summary t.summary
      || overwrites v.status t.status
      || not (bool_eq t.failed v.failed)
      || overwrites v.category t.category,
)

-- Go panics on an index out of range; `none` marks it.
unfoldable pub upsert_at : Renderer → ℕ → ToolCallView → Option (Renderer × Bool)
upsert_at r i v = elim (get_elem? r.tools i) [
  | none ↦ none
  | some t ↦ some (record r { tools = set r.tools i (update_tool t v).0 }, (update_tool t v).1)
]

unfoldable pub append_tool : Renderer → ToolCallView → Renderer
append_tool r v = record r {
  tools = r.tools ++ v ∷ [];
  tool_index = insert r.tool_index v.id (length r.tools);
}

unfoldable pub upsert_view : Renderer → ToolCallView → Option (Renderer × Bool)
upsert_view r v = elim (lookup r.tool_index v.id) [
  | some i ↦ upsert_at r i v
  | none ↦ some (append_tool r v, true)
]

abbrev pub upsert_tool : Renderer → RenderEvent → Option (Renderer × Bool)
upsert_tool r ev = upsert_view r (view_of ev)

-- The new renderer, and whether the event changed what is shown.
unfoldable pub apply_as : RenderEventType → Renderer → RenderEvent → Option (Renderer × Bool)
apply_as text_delta r ev =
    if ev.text == "" then some (r, false) else some (record r { answer = r.answer & ev.text }, true)
apply_as text_set r ev =
    if ev.text == r.answer then some (r, false) else some (record r { answer = ev.text }, true)
apply_as done r ev = if r.done then some (r, false) else some (record r { done = true }, false)
apply_as _ r ev = upsert_tool r ev

abbrev pub apply : Renderer → RenderEvent → Option (Renderer × Bool)
apply r ev = apply_as ev.type r ev

unfoldable pub format_count : ℕ → String → String → String
format_count n singular plural = if nat_eq n 1 then "1 " & singular else itoa n & " " & plural

count_category : (String → Bool) → List ToolCallView → ℕ
count_category p [] = 0
count_category p (t ∷ ts) = (if p t.category then 1 else 0) + count_category p ts

counted : ℕ → String → String → List String
counted n singular plural = if ltb 0 n then format_count n singular plural ∷ [] else []

unfoldable pub render_concise_summary : List ToolCallView → String
unfolding counted format_count count_category
render_concise_summary ts =
    join
      (counted (count_category (λ c. c == "skill") ts) "skill" "skills"
        ++ counted (count_category (λ c. c == "read") ts) "read" "reads"
        ++ counted (count_category (λ c. not (c == "skill") && not (c == "read")) ts) "tool"
            "tools")
      ", "

abbrev tool_line : String → String
tool_line summary = "> `" & summary & "`\n"

unfoldable pub tool_lines : List ToolCallView → String
tool_lines [] = ""
tool_lines (t ∷ ts) =
    (if trim_space t.summary == "" then "" else tool_line t.summary) & tool_lines ts

-- What stands above the answer.
unfoldable pub header : Renderer → String
header r =
    if r.mode == "concise"
    then (let summary = render_concise_summary r.tools in
        if summary == "" then "" else tool_line summary)
    else tool_lines r.tools

unfoldable pub render : Renderer → String
render r =
    let top = header r in
    let text = trim_space r.answer in
    let body = if text == "" then "..." else text in if top == "" then body else top & "\n" & body
