-- ===== src/Renderer/Tests.antt =====
-- The renderer and the summaries at concrete events.
use rocketbot.GoMap.{lookup, insert}
use rocketbot.Message.{text_delta, tool_start, tool_update, tool_error, done, RenderEvent, event_of}
use rocketbot.Text.{trim_space, to_lower, equal_fold, has_suffix, join}
use rocketbot.Prelude.{String, ◌≡◌, refl, true, false, Option, none, some, List, [], ◌∷◌}
use rocketbot.Renderer.Summary.{summarize_tool_event}
use rocketbot.Renderer.{
  Renderer, new_renderer, classify, tool_id, view_of, update_tool, upsert_at, append_tool,
  upsert_view, apply_as, render_concise_summary, tool_lines, header, render,
}
use rocketbot.Renderer.Index.{IsIndexed, apply_all, OneLineEach, apply_all-IsIndexed}
use rocketbot.Renderer.Changes.{render-apply_unchanged}

abbrev running : RenderEvent
running = record (event_of tool_start) {
  call_id = "c1";
  tool_name = "bash";
  status = "running";
  command = " ls -la /some/long/path ";
}

abbrev reading : RenderEvent
reading = record (event_of tool_update) {
  part_id = "p2";
  tool_name = "read";
  status = "completed";
  path = "/x/SKILL.md";
}

summaries :
    (summarize_tool_event running ≡ "Running bash: ls -la /some/long/pa...")
    × (summarize_tool_event reading ≡ "Reading /x/SKILL.md")
    × (summarize_tool_event (record (event_of tool_error) { tool_name = "todo" }) ≡ "Todo failed")
unfolding summarize_tool_event trim_space to_lower
summaries = (refl, refl, refl)

rendered : (mode : String) → List RenderEvent → Option String
unfolding apply_all
rendered mode evs = elim (apply_all (new_renderer mode) evs) [
  | none ↦ none
  | some r ↦ some (render r)
]

abbrev stream : List RenderEvent
stream =
    running
    ∷ reading
    ∷ record running { status = "completed" }
    ∷ record (event_of text_delta) { text = " Hello" }
    ∷ event_of done
    ∷ []

shows_detailed :
    rendered "" stream
    ≡ some "> `Running bash: ls -la /some/long/pa...`\n> `Reading /x/SKILL.md`\n\nHello"
unfolding rendered new_renderer apply_as upsert_view upsert_at append_tool update_tool view_of
    tool_id classify summarize_tool_event render header tool_lines trim_space to_lower equal_fold
    has_suffix lookup insert
shows_detailed = refl

shows_concise : rendered " Concise" stream ≡ some "> `1 skill, 1 tool`\n\nHello"
unfolding rendered new_renderer apply_as upsert_view upsert_at append_tool update_tool view_of
    tool_id classify summarize_tool_event render header render_concise_summary trim_space to_lower
    equal_fold has_suffix lookup insert join
shows_concise = refl

apply_all-IsIndexed_example :
    (r : Renderer) × (apply_all (new_renderer "concise") stream ≡ some r)
    × IsIndexed r
    × OneLineEach r
apply_all-IsIndexed_example = apply_all-IsIndexed "concise" stream

abbrev answered : Renderer
answered = record { tools = []; tool_index = []; answer = "Hello"; done = false; mode = "detailed" }

render-apply_unchanged_example : render (record answered { done = true }) ≡ render answered
unfolding apply_as
render-apply_unchanged_example = render-apply_unchanged answered (event_of done) refl
