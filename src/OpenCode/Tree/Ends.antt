-- ===== src/OpenCode/Tree/Ends.antt =====
-- The visit of a session's tree ends: the server answers only so many requests before the context is
-- done, and each session that is visited makes one.
use mathlib.Core.Path.{subst}
use rocketbot.GoMap.{GoMap, has_key, insert}
use rocketbot.Json.{Value}
use rocketbot.Message.{GenerationOptions}
use rocketbot.OpenCode.Backend.{
  Generator, Call, no_answer, Entry, Backend, exchange_call, transport_error, Attempt, gives, fails,
}
use rocketbot.OpenCode.Tree.{
  Collected, Visit, visit_children, visit_with, listed, children_call, list_child_sessions,
  collect_session_tree_ids,
}
use rocketbot.Prelude.{
  ◌≢◌, Option-cases, if-intro, length, length-append, ℕ, zero, suc, ◌+◌, ◌≤◌, String, ◌≡◌, refl, ap,
  ◌∙◌, inl, inr, Bool, true, Option, none, some, List, [], ◌∷◌, ◌++◌, arith,
}

-- No request is answered once so many were made.
abbrev pub AnswersAtMost : ℕ → Backend → Type 0
AnswersAtMost n b = (log : List Entry) (c : Call) → n ≤ length log → b.server log c ≡ no_answer

-- The visit is over, by the same server, and its log did not shrink.
abbrev Ended : Backend → Option Collected → Type 0
Ended b none = ⊥
Ended b (some r) = (r.backend.server ≡ b.server) × (length b.log ≤ length r.backend.log)

Ended-trans :
    (b b' : Backend) (o : Option Collected)
    → b'.server ≡ b.server
    → length b.log ≤ length b'.log
    → Ended b' o
    → Ended b o
Ended-trans b b' none s l e = e
Ended-trans b b' (some r) s l (s', l') = (s' ∙ s, omega (arith, l, l'))

visit_children-Ended :
    (visit : Visit) (start : Backend)
    → ((id : String) (seen : GoMap Bool) (b : Backend)
        → b.server ≡ start.server
        → length start.log ≤ length b.log
        → Ended b (visit id seen b))
    → (cs : List String) (before : Collected) → Ended start (some before)
    → Ended start (visit_children visit cs before)
unfolding visit_children
visit_children-Ended visit start each [] before h = h
visit_children-Ended visit start each (c ∷ cs) before (s, l) =
    let one = each c before.seen before.backend s l in
    elim (Option-cases (visit c before.seen before.backend)) [
      | inl e ↦ absurd (subst (Ended before.backend) e one)
      | inr (r, e) ↦
          let joined =
            Ended-trans start before.backend (some r) s l (subst (Ended before.backend) e one) in
          elim (Option-cases r.error) [
            | inr (x, f) ↦ rw (e, visit_children, f) joined
            | inl f ↦
                rw (e, visit_children, f)
                  (visit_children-Ended visit start each cs (record r { ids = before.ids ++ r.ids })
                    joined)
          ]
    ]

visit_with-Ended :
    (visit : Visit) (start : Backend)
    → ((id : String) (seen : GoMap Bool) (b : Backend)
        → b.server ≡ start.server
        → length start.log ≤ length b.log
        → Ended b (visit id seen b))
    → (id : String) (seen : GoMap Bool) (c : Attempt (List String))
    → Ended start (visit_with visit id seen c start)
unfolding visit_with
visit_with-Ended visit start each id seen (fails e) = (refl, omega arith)
visit_with-Ended visit start each id seen (gives cs) =
    visit_children-Ended visit start each cs
      (record { ids = id ∷ []; error = none; seen = seen; backend = start }) (refl, omega arith)

stopped :
    (visit : Visit) (id : String) (seen : GoMap Bool) (c : Attempt (List String)) (b : Backend)
    → c ≡ fails transport_error
    → Ended b (visit_with visit id seen c b)
unfolding visit_with
stopped visit id seen c b h = rw (h, visit_with) (refl, omega arith)

module _ (decode : String → Option Value) (g : Generator) (opts : GenerationOptions) where
  one-more :
      (id : String) (b : Backend)
      → length (list_child_sessions decode g opts id b).1.log ≡ suc (length b.log)
  unfolding list_child_sessions exchange_call
  one-more id b = omega (
    arith,
    length-append b.log (record { call = children_call decode g opts id; locked = b.locked } ∷ []),
  )

  by_same_server :
      (id : String) (b : Backend) → (list_child_sessions decode g opts id b).1.server ≡ b.server
  unfolding list_child_sessions exchange_call
  by_same_server id b = refl

  silent :
      (n : ℕ) (id : String) (b : Backend)
      → AnswersAtMost n b
      → n ≤ length b.log
      → (list_child_sessions decode g opts id b).0 ≡ fails transport_error
  unfolding list_child_sessions exchange_call listed
  silent n id b a l = rw (a b.log (children_call decode g opts id) l) refl

  after-visit :
      (id : String) (b : Backend) (o : Option Collected)
      → Ended (list_child_sessions decode g opts id b).1 o
      → Ended b o
  after-visit id b o e =
      Ended-trans b (list_child_sessions decode g opts id b).1 o (by_same_server id b)
        (omega (arith, one-more id b)) e

  collect_session_tree_ids-Ended :
      (n fuel : ℕ) (id : String) (seen : GoMap Bool) (b : Backend)
      → AnswersAtMost n b
      → n ≤ fuel + length b.log
      → Ended b (collect_session_tree_ids decode g opts (suc fuel) id seen b)
  unfolding collect_session_tree_ids
  collect_session_tree_ids-Ended n zero id seen b a l =
      if-intro (Ended b) (has_key seen id) (λ _. (refl, omega arith))
        (λ _.
          after-visit id b
            (visit_with (λ i s c. none) id (insert seen id true)
              (list_child_sessions decode g opts id b).0 (list_child_sessions decode g opts id b).1)
            (stopped (λ i s c. none) id (insert seen id true)
              (list_child_sessions decode g opts id b).0 (list_child_sessions decode g opts id b).1
              (silent n id b a (omega (arith, l)))))
  collect_session_tree_ids-Ended n (suc fuel) id seen b a l =
      let after = list_child_sessions decode g opts id b in
      if-intro (Ended b) (has_key seen id) (λ _. (refl, omega arith))
        (λ _.
          after-visit id b
            (visit_with (collect_session_tree_ids decode g opts (suc fuel)) id (insert seen id true)
              after.0 after.1)
            (visit_with-Ended (collect_session_tree_ids decode g opts (suc fuel)) after.1
              (λ id' seen' b' s' l'.
                collect_session_tree_ids-Ended n fuel id' seen' b'
                  (λ log c h. ap (λ f. f log c) (s' ∙ by_same_server id b) ∙ a log c h)
                  (omega (arith, l, l', one-more id b)))
              id (insert seen id true) after.0))

  pub collect_session_tree_ids-ends :
      (n fuel : ℕ) (id : String) (b : Backend)
      → AnswersAtMost n b
      → n ≤ fuel + length b.log
      → (collect_session_tree_ids decode g opts (suc fuel) id [] b) ≢ none
  collect_session_tree_ids-ends n fuel id b a l h =
      subst (Ended b) h (collect_session_tree_ids-Ended n fuel id [] b a l)
