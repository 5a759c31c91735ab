-- ===== src/OpenCode/Plain.antt =====
-- GenerateResponse and GenerateResponseStream of bot/opencode_generator.go: the events of a stream as
-- chunks of plain text. sendChunk fails where the context is done before the chunk is taken.
pub mod Whole
mod Tests
use rocketbot.GoMap.{GoMap, insert}
use rocketbot.Message.{RenderEventType, text_delta, text_set, RenderEvent}
use rocketbot.Text.{has_prefix, trim_prefix}
use rocketbot.OpenCode.Backend.{Attempt, gives, fails}
use rocketbot.OpenCode.Stream.{text_at}
use rocketbot.Prelude.{
  if◌then◌else◌, String, ◌&◌, Bool, true, not, ◌&&◌, Option, none, some, List, [], ◌∷◌, ◌==◌,
}

abbrev chunk_of_set : String → String → String
chunk_of_set prev next =
    if not (prev == "") && has_prefix next prev then trim_prefix next prev else next

abbrev if_any : String → Option String
if_any chunk = if chunk == "" then none else some chunk

-- The chunk of an event, if it has one, and the texts of the parts after it.
unfoldable pub chunk_of :
    RenderEventType → RenderEvent → GoMap String → Option String × GoMap String
chunk_of text_delta ev part_text =
    if ev.text == ""
    then (none, part_text)
    else (some ev.text, insert part_text ev.part_id (text_at part_text ev.part_id & ev.text))
chunk_of text_set ev part_text = (
  if ev.text == "" then none else if_any (chunk_of_set (text_at part_text ev.part_id) ev.text),
  insert part_text ev.part_id ev.text,
)
chunk_of _ ev part_text = (none, part_text)

abbrev pub next_reading : List Bool → Bool
next_reading [] = true
next_reading (r ∷ rs) = r

abbrev pub drop_reading : List Bool → List Bool
drop_reading [] = []
drop_reading (r ∷ rs) = rs

-- Each reading tells whether sendChunk succeeds; it does once there are no more.
unfoldable pub chunks : List Bool → GoMap String → List RenderEvent → List String
chunks sends part_text [] = []
chunks sends part_text (ev ∷ evs) =
    let (c, after) = chunk_of ev.type ev part_text in
    let sent = chunks (drop_reading sends) after evs in
    let skipped = chunks sends after evs in
    elim c [ none ↦ skipped | some t ↦ (if next_reading sends then t ∷ sent else []) ]

-- The stream of GenerateRenderStream is its error or the events it sends.
unfoldable pub generate_response_stream :
    List Bool → Attempt (List RenderEvent) → Attempt (List String)
generate_response_stream sends (fails e) = fails e
generate_response_stream sends (gives evs) = gives (chunks sends [] evs)

unfoldable pub concat_chunks : List String → String
concat_chunks [] = ""
concat_chunks (t ∷ ts) = t & concat_chunks ts

unfoldable pub generate_response : List Bool → Attempt (List RenderEvent) → Attempt String
generate_response sends stream = elim (generate_response_stream sends stream) [
  | fails e ↦ fails e
  | gives ts ↦ gives (concat_chunks ts)
]
