-- ===== src/Renderer/Changes.antt =====
-- When an event reports no change, the shown message is the same.
use rocketbot.GoMap.{lookup}
use rocketbot.Message.{RenderEventType, text_delta, text_set, done, RenderEvent}
use rocketbot.Prelude.{Option-cases, get_elem?, set-get_elem?, ℕ, ◌≡◌, inl, inr, false, some, arith}
use rocketbot.Renderer.{
  ToolCallView, Renderer, view_of, update_tool, upsert_at, upsert_view, apply_as, apply, header,
  render,
}

update_tool-same : (t v : ToolCallView) → (update_tool t v).1 ≡ false → (update_tool t v).0 ≡ t
unfolding update_tool
update_tool-same t v h = ground arith

module _ (r : Renderer) (v : ToolCallView) {r' : Renderer} where
  upsert_at-same : (i : ℕ) → upsert_at r i v ≡ some (r', false) → r' ≡ r
  unfolding upsert_at
  upsert_at-same i h = elim (Option-cases (get_elem? r.tools i)) [
    | inl e ↦ ground arith
    | inr (t, e) ↦ ground (arith, update_tool-same t v, set-get_elem? r.tools i e)
  ]

  upsert_view-same : upsert_view r v ≡ some (r', false) → r' ≡ r
  unfolding upsert_view
  upsert_view-same h = elim (Option-cases (lookup r.tool_index v.id)) [
    | inl e ↦ ground arith
    | inr (i, e) ↦ ground (arith, upsert_at-same i)
  ]

-- What a rendering reads.
abbrev SameView : Renderer → Renderer → Type 0
SameView r r' = (r.tools ≡ r'.tools) × (r.answer ≡ r'.answer) × (r.mode ≡ r'.mode)

render-SameView : (r r' : Renderer) → SameView r r' → render r ≡ render r'
unfolding render header
render-SameView r r' h = rw (h.0, h.1, h.2)

apply_as-same :
    (t : RenderEventType) (r : Renderer) (ev : RenderEvent) {r' : Renderer}
    → apply_as t r ev ≡ some (r', false)
    → SameView r' r
unfolding apply_as
apply_as-same text_delta r ev h = ground arith
apply_as-same text_set r ev h = ground arith
apply_as-same done r ev h = ground arith
apply_as-same _ r ev h = ground (arith, upsert_view-same r (view_of ev) h)

-- An event that reports no change leaves the rendered message as it was.
pub render-apply_unchanged :
    (r : Renderer) (ev : RenderEvent) {r' : Renderer}
    → apply r ev ≡ some (r', false)
    → render r' ≡ render r
render-apply_unchanged r ev {r'} h = render-SameView r' r (apply_as-same ev.type r ev h)
