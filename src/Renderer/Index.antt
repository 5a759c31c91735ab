-- ===== src/Renderer/Index.antt =====
-- The index of the tool lines.
use mathlib.Core.Option
use rocketbot.GoMap.{lookup, lookup-insert}
use rocketbot.Message.{RenderEventType, text_delta, text_set, done, RenderEvent}
use rocketbot.Prelude.{
  nat_eq, if◌then◌else◌, Bool-cases, Option-cases, length, get_elem?, set, get_elem?-append_last,
  get_elem?-set, ℕ, zero, suc, ◌<◌, String, ◌≡◌, refl, sym, ◌∙◌, inl, inr, Bool, Option, none, some,
  List, [], ◌∷◌, ◌++◌, arith, ◌==◌, eq_iff,
}
use rocketbot.Renderer.{
  ToolCallView, Renderer, new_renderer, view_of, update_tool, upsert_at, append_tool, upsert_view,
  apply_as, apply,
}

-- The id of the line at a place.
abbrev pub id_at : List ToolCallView → ℕ → Option String
id_at ts i = Option.map (λ t. t.id) (get_elem? ts i)

-- The index names a place for an id exactly when the line at that place has the id.
pub record IsIndexed (r : Renderer) : Type 0 where
  pub there : (k : String) (i : ℕ) → lookup r.tool_index k ≡ some i → id_at r.tools i ≡ some k
  pub indexed : (k : String) (i : ℕ) → id_at r.tools i ≡ some k → lookup r.tool_index k ≡ some i

id_at-lt : (ts : List ToolCallView) (i : ℕ) {k : String} → id_at ts i ≡ some k → i < length ts
id_at-lt [] i h = cc
id_at-lt (t ∷ ts) zero h = omega arith
id_at-lt (t ∷ ts) (suc i) h = omega (arith, id_at-lt ts i h)

id_at-append_last :
    (ts : List ToolCallView) (t : ToolCallView) (i : ℕ)
    → id_at (ts ++ t ∷ []) i ≡ (if nat_eq i (length ts) then some t.id else id_at ts i)
id_at-append_last ts t i = ground (arith, get_elem?-append_last ts t i)

id_at-set :
    (ts : List ToolCallView) (i : ℕ) (t t' : ToolCallView) (j : ℕ)
    → get_elem? ts i ≡ some t
    → t'.id ≡ t.id
    → id_at (set ts i t') j ≡ id_at ts j
id_at-set ts i t t' j h e = ground (arith, get_elem?-set ts i t' j h)

pub new_renderer-IsIndexed : (mode : String) → IsIndexed (new_renderer mode)
unfolding new_renderer lookup
new_renderer-IsIndexed mode = record { there = λ k i h. cc; indexed = λ k i h. cc }

append_tool-IsIndexed :
    (r : Renderer) (v : ToolCallView)
    → lookup r.tool_index v.id ≡ none
    → IsIndexed r
    → IsIndexed (append_tool r v)
unfolding append_tool
append_tool-IsIndexed r v fresh ok = record {
  there = λ k i h. ground (
    arith,
    lookup-insert r.tool_index v.id (length r.tools) k,
    eq_iff v.id k,
    ok.there k i,
    id_at-lt r.tools i {k = k},
    id_at-append_last r.tools v i,
  );
  indexed = λ k i h. ground (
    arith,
    lookup-insert r.tool_index v.id (length r.tools) k,
    eq_iff v.id k,
    ok.indexed k i,
    id_at-append_last r.tools v i,
    id_at-lt r.tools i {k = k},
  );
}

-- The state after a step that is no fault keeps the property.
abbrev pub Keeps : (Renderer → Type 0) → Option (Renderer × Bool) → Type 0
Keeps P none = ⊥
Keeps P (some (r, changed)) = P r

set-IsIndexed :
    (r : Renderer) (i : ℕ) (t v : ToolCallView)
    → get_elem? r.tools i ≡ some t
    → IsIndexed r
    → IsIndexed (record r { tools = set r.tools i (update_tool t v).0 })
unfolding update_tool
set-IsIndexed r i t v e ok = record {
  there = λ k j h. id_at-set r.tools i t (update_tool t v).0 j e refl ∙ ok.there k j h;
  indexed = λ k j h. ok.indexed k j (sym (id_at-set r.tools i t (update_tool t v).0 j e refl) ∙ h);
}

upsert_at-IsIndexed :
    (r : Renderer) (v : ToolCallView) (i : ℕ)
    → lookup r.tool_index v.id ≡ some i
    → IsIndexed r
    → Keeps IsIndexed (upsert_at r i v)
unfolding upsert_at
upsert_at-IsIndexed r v i found ok = elim (Option-cases (get_elem? r.tools i)) [
  | inl e ↦ absurd (ground (arith, ok.there v.id i found))
  | inr (t, e) ↦ rw (e, upsert_at) (set-IsIndexed r i t v e ok)
]

upsert_view-IsIndexed :
    (r : Renderer) (v : ToolCallView) → IsIndexed r → Keeps IsIndexed (upsert_view r v)
unfolding upsert_view upsert_at
upsert_view-IsIndexed r v ok = elim (Option-cases (lookup r.tool_index v.id)) [
  | inl e ↦ rw (e, upsert_view) (append_tool-IsIndexed r v e ok)
  | inr (i, e) ↦ rw (e, upsert_view) (upsert_at-IsIndexed r v i e ok)
]

pub apply_as-IsIndexed :
    (t : RenderEventType) (r : Renderer) (ev : RenderEvent)
    → IsIndexed r
    → Keeps IsIndexed (apply_as t r ev)
unfolding apply_as
apply_as-IsIndexed text_delta r ev ok = elim (Bool-cases (ev.text == "")) [
  | inl e ↦ rw e ok
  | inr e ↦ rw e (record { there = ok.there; indexed = ok.indexed })
]
apply_as-IsIndexed text_set r ev ok = elim (Bool-cases (ev.text == r.answer)) [
  | inl e ↦ rw e ok
  | inr e ↦ rw e (record { there = ok.there; indexed = ok.indexed })
]
apply_as-IsIndexed done r ev ok = elim (Bool-cases r.done) [
  | inl e ↦ ground arith
  | inr e ↦ rw e (record { there = ok.there; indexed = ok.indexed })
]
apply_as-IsIndexed _ r ev ok = upsert_view-IsIndexed r (view_of ev) ok

-- The events of a stream, one after the other.
unfoldable pub apply_all : Renderer → List RenderEvent → Option Renderer
apply_all r [] = some r
apply_all r (ev ∷ evs) = elim (apply r ev) [ none ↦ none | some (r', changed) ↦ apply_all r' evs ]

pub apply_all_from-IsIndexed :
    (r : Renderer) (evs : List RenderEvent)
    → IsIndexed r
    → (r' : Renderer) × (apply_all r evs ≡ some r') × IsIndexed r'
unfolding apply_all
apply_all_from-IsIndexed r [] ok = (r, refl, ok)
apply_all_from-IsIndexed r (ev ∷ evs) ok =
    let kept = apply_as-IsIndexed ev.type r ev ok in
    elim (Option-cases (apply r ev)) [
      | inl e ↦ absurd (rw e at kept)
      | inr ((r', changed), e) ↦ rw (e, apply_all) (apply_all_from-IsIndexed r' evs (rw e at kept))
    ]

-- No two lines have one id.
abbrev pub OneLineEach : Renderer → Type 0
OneLineEach r = (k : String) (i j : ℕ) → id_at r.tools i ≡ some k → id_at r.tools j ≡ some k → i ≡ j

IsIndexed-OneLineEach : (r : Renderer) → IsIndexed r → OneLineEach r
IsIndexed-OneLineEach r ok k i j hi hj = ground (arith, ok.indexed k i hi, ok.indexed k j hj)

-- From a new renderer, whatever events arrive, no step reads or writes a line out of range; in the
-- end the index names the place of each id's line, for every line, and no two lines have one id.
pub apply_all-IsIndexed :
    (mode : String) (evs : List RenderEvent)
    → (r : Renderer) × (apply_all (new_renderer mode) evs ≡ some r) × IsIndexed r × OneLineEach r
apply_all-IsIndexed mode evs =
    let (r, e, ok) =
      apply_all_from-IsIndexed (new_renderer mode) evs (new_renderer-IsIndexed mode) in
    (r, e, ok, IsIndexed-OneLineEach r ok)
