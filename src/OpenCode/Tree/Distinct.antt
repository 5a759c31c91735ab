-- ===== src/OpenCode/Tree/Distinct.antt =====
-- No session is collected twice.
use mathlib.Core.Path.{subst}
use rocketbot.GoMap.{GoMap, has_key, insert, lookup-insert}
use rocketbot.Json.{Value}
use rocketbot.Message.{GenerationOptions}
use rocketbot.OpenCode.Backend.{Generator, Backend, OpenError, Attempt, gives, fails}
use rocketbot.OpenCode.Tree.{
  Collected, Visit, visit_children, visit_with, list_child_sessions, collect_session_tree_ids,
}
use rocketbot.Prelude.{
  Bool-cases, Option-cases, if-intro, All, All-append, All-weaken, ℕ, zero, suc, String, ◌≡◌, sym,
  ap, ◌∙◌, ◌≢◌, inl, inr, Bool, true, false, ◌||◌, Option, none, some, List, [], ◌∷◌, ◌++◌, arith,
  ◌==◌, eq_refl,
}

abbrev pub Distinct : List String → Type 0
Distinct [] = Unit
Distinct (x ∷ xs) = All (λ y. x ≢ y) xs × Distinct xs

abbrev IsSeen : GoMap Bool → String → Type 0
IsSeen m k = has_key m k ≡ true

abbrev IsNew : GoMap Bool → String → Type 0
IsNew m k = has_key m k ≡ false

has_key-insert :
    (m : GoMap Bool) (k j : String) → has_key (insert m k true) j ≡ (k == j || has_key m j)
has_key-insert m k j = ground (arith, lookup-insert m k true j)

seen-apart : (m : GoMap Bool) (x : String) → IsSeen m x → (y : String) → IsNew m y → x ≢ y
seen-apart m x s y f h = absurd (ground (arith, sym s ∙ ap (has_key m) h, f))

Distinct-append :
    (m : GoMap Bool) (xs ys : List String)
    → Distinct xs
    → Distinct ys
    → All (IsSeen m) xs
    → All (IsNew m) ys
    → Distinct (xs ++ ys)
Distinct-append m [] ys d e s n = e
Distinct-append m (x ∷ xs) ys (a, d) e (s, ss) n = (
  All-append (λ y. x ≢ y) xs ys a (All-weaken (IsNew m) (λ y. x ≢ y) (seen-apart m x s) ys n),
  Distinct-append m xs ys d e ss n,
)

-- A visit collects ids that were not seen before, each once, and marks them as seen.
record Visits (seen : GoMap Bool) (r : Collected) : Type 0 where
  fresh : All (IsNew seen) r.ids
  marked : All (IsSeen r.seen) r.ids
  grows : (k : String) → IsSeen seen k → IsSeen r.seen k
  distinct : Distinct r.ids

abbrev VisitsAll : GoMap Bool → Option Collected → Type 0
VisitsAll seen none = Unit
VisitsAll seen (some r) = Visits seen r

seen-before : (m m' : GoMap Bool) (k : String) → (IsSeen m k → IsSeen m' k) → IsNew m' k → IsNew m k
seen-before m m' k h n = elim (Bool-cases (has_key m k)) [
  | inl e ↦ absurd (ground (arith, h e))
  | inr e ↦ e
]

Visits-join :
    (seen : GoMap Bool) (before r : Collected)
    → Visits seen before
    → Visits before.seen r
    → Visits seen (record r { ids = before.ids ++ r.ids })
Visits-join seen before r p q = record {
  fresh = All-append (IsNew seen) before.ids r.ids p.fresh (
      All-weaken (IsNew before.seen) (IsNew seen)
        (λ k n. seen-before seen before.seen k (p.grows k) n) r.ids q.fresh);
  marked =
      All-append (IsSeen r.seen) before.ids r.ids
        (All-weaken (IsSeen before.seen) (IsSeen r.seen) q.grows before.ids p.marked) q.marked;
  grows = λ k h. q.grows k (p.grows k h);
  distinct = Distinct-append before.seen before.ids r.ids p.distinct q.distinct p.marked q.fresh;
}

visit_children-Visits :
    (visit : Visit)
    → ((id : String) (seen : GoMap Bool) (b : Backend) → VisitsAll seen (visit id seen b))
    → (seen : GoMap Bool) (cs : List String) (before : Collected) → Visits seen before
    → VisitsAll seen (visit_children visit cs before)
unfolding visit_children
visit_children-Visits visit each seen [] before h = h
visit_children-Visits visit each seen (c ∷ cs) before h =
    let one = each c before.seen before.backend in
    elim (Option-cases (visit c before.seen before.backend)) [
      | inl e ↦ rw (e, visit_children) tt
      | inr (r, e) ↦
          let joined = Visits-join seen before r h (subst (VisitsAll before.seen) e one) in
          elim (Option-cases r.error) [
            | inr (x, f) ↦ rw (e, visit_children, f) joined
            | inl f ↦
                rw (e, visit_children, f)
                  (visit_children-Visits visit each seen cs (record r { ids = before.ids ++ r.ids })
                    joined)
          ]
    ]

-- One more id is seen.
grown : (seen : GoMap Bool) (id k : String) → IsSeen seen k → IsSeen (insert seen id true) k
grown seen id k s = ground (arith, has_key-insert seen id k)

alone :
    (seen : GoMap Bool) (id : String) (e : Option OpenError) (b : Backend)
    → IsNew seen id
    → Visits seen (record { ids = id ∷ []; error = e; seen = insert seen id true; backend = b })
alone seen id e b h = record {
  fresh = (h, tt);
  marked = (ground (arith, has_key-insert seen id id, eq_refl id), tt);
  grows = grown seen id;
  distinct = (tt, tt);
}

nothing :
    (seen : GoMap Bool) (e : Option OpenError) (b : Backend)
    → Visits seen (record { ids = []; error = e; seen = seen; backend = b })
nothing seen e b = record { fresh = tt; marked = tt; grows = λ k s. s; distinct = tt }

visit_with-Visits :
    (visit : Visit)
    → ((id : String) (seen : GoMap Bool) (b : Backend) → VisitsAll seen (visit id seen b))
    → (id : String) (seen : GoMap Bool) (c : Attempt (List String)) (b : Backend) → IsNew seen id
    → VisitsAll seen (visit_with visit id (insert seen id true) c b)
unfolding visit_with
visit_with-Visits visit each id seen (fails e) b h = alone seen id (some e) b h
visit_with-Visits visit each id seen (gives cs) b h =
    visit_children-Visits visit each seen cs
      (record { ids = id ∷ []; error = none; seen = insert seen id true; backend = b })
      (alone seen id none b h)

module _ (decode : String → Option Value) (g : Generator) (opts : GenerationOptions) where
  collect_session_tree_ids-Visits :
      (fuel : ℕ) (id : String) (seen : GoMap Bool) (b : Backend)
      → VisitsAll seen (collect_session_tree_ids decode g opts fuel id seen b)
  unfolding collect_session_tree_ids
  collect_session_tree_ids-Visits zero id seen b = tt
  collect_session_tree_ids-Visits (suc fuel) id seen b =
      if-intro (VisitsAll seen) (has_key seen id) (λ _. nothing seen none b)
        (λ f.
          visit_with-Visits (collect_session_tree_ids decode g opts fuel)
            (collect_session_tree_ids-Visits fuel) id seen
            (list_child_sessions decode g opts id b).0 (list_child_sessions decode g opts id b).1 f)

  -- Whatever the server answers, also where its sessions form a cycle, and also where a request
  -- fails, no session is twice among the ids that the visit of a session's tree collects.
  pub collect_session_tree_ids-Distinct :
      (fuel : ℕ) (id : String) (b : Backend) {r : Collected}
      → collect_session_tree_ids decode g opts fuel id [] b ≡ some r
      → Distinct r.ids
  collect_session_tree_ids-Distinct fuel id b h =
      (subst (VisitsAll []) h (collect_session_tree_ids-Visits fuel id [] b)).distinct
