-- ===== src/OpenCode/Tree/Reset.antt =====
-- A reset of a conversation: the requests that it makes, in their order, and what is left.
use mathlib.Core.List.{append-nil, append_assoc}
use rocketbot.OpenCode.Tree.Ends.{AnswersAtMost, collect_session_tree_ids-ends}
use rocketbot.OpenCode.Conversation.{Conversation, set_session_id, cancel_active}
use rocketbot.Json.{Value}
use rocketbot.Message.{GenerationOptions}
use rocketbot.OpenCode.Backend.{
  Generator, Call, Entry, Backend, exchange_call, OpenError, Attempt, gives, fails, open_call,
  abort_call, abort_session, delete_call, delete_session,
}
use rocketbot.OpenCode.Conversation.{Conversation, set_session_id, cancel_active}
use rocketbot.OpenCode.Tree.{
  Collected, waited, reverse_ids, collect_session_tree_ids, abort_all, delete_all, session_busy,
  wait_for_session_not_busy, abort_and_delete, delete_collected, abort_and_delete_session_tree,
  reset_session,
}
use rocketbot.OpenCode.Tree.Ends.{AnswersAtMost, collect_session_tree_ids-ends}
use rocketbot.Prelude.{
  Option-cases, if-intro, length, All, ℕ, suc, ◌+◌, ◌≤◌, String, ◌≡◌, refl, sym, ap, ◌∙◌, ◌≢◌, inl,
  inr, Bool, true, false, Option, none, some, List, [], ◌∷◌, ◌++◌, map, arith, ◌==◌,
}

abbrev pub calls : Backend → List Call
calls b = map (λ (e : Entry). e.call) b.log

map-append {ℓ κ} :
    {A : Type ℓ} {B : Type κ} (f : A → B) (xs ys : List A) → map f (xs ++ ys) ≡ map f xs ++ map f ys
map-append f [] ys = refl
map-append f (x ∷ xs) ys = ap (◌∷◌ (f x)) (map-append f xs ys)

exchange-calls : (c : Call) (b : Backend) → calls (exchange_call c b).1 ≡ calls b ++ c ∷ []
unfolding exchange_call
exchange-calls c b =
    map-append (λ (e : Entry). e.call) b.log (record { call = c; locked = b.locked } ∷ [])

module _ (decode : String → Option Value) (g : Generator) (opts : GenerationOptions) where
  abbrev pub status_call : Call
  status_call = open_call g opts "GET" "/session/status" [] ""

  abort-calls :
      (id : String) (b : Backend)
      → calls (abort_session decode g opts id b).1 ≡ calls b ++ abort_call decode g opts id ∷ []
  unfolding abort_session
  abort-calls id b = exchange-calls (abort_call decode g opts id) b

  abort_all-calls :
      (ids : List String) (b : Backend)
      → calls (abort_all decode g opts ids b).1 ≡ calls b ++ map (abort_call decode g opts) ids
  unfolding abort_all
  abort_all-calls [] b = sym (append-nil (calls b))
  abort_all-calls (id ∷ ids) b =
      abort_all-calls ids (abort_session decode g opts id b).1
      ∙ ap (λ l. l ++ map (abort_call decode g opts) ids) (abort-calls id b)
      ∙ append_assoc (calls b) (abort_call decode g opts id ∷ [])
          (map (abort_call decode g opts) ids)

  delete-calls :
      (id : String) (b : Backend)
      → calls (delete_session decode g opts id b).1 ≡ calls b ++ delete_call decode g opts id ∷ []
  unfolding delete_session
  delete-calls id b = exchange-calls (delete_call decode g opts id) b

  delete_all-calls :
      (ids : List String) (b : Backend)
      → calls (delete_all decode g opts ids b).1 ≡ calls b ++ map (delete_call decode g opts) ids
  unfolding delete_all
  delete_all-calls [] b = sym (append-nil (calls b))
  delete_all-calls (id ∷ ids) b =
      delete_all-calls ids (delete_session decode g opts id b).1
      ∙ ap (λ l. l ++ map (delete_call decode g opts) ids) (delete-calls id b)
      ∙ append_assoc (calls b) (delete_call decode g opts id ∷ [])
          (map (delete_call decode g opts) ids)

  -- Requests for the status, not more than there are readings of the clock.
  abbrev pub Polls : List Bool → Backend → Backend → Type 0
  Polls readings b b' =
      (polls : List Call) × (calls b' ≡ calls b ++ polls)
      × All (λ c. c ≡ status_call) polls
      × (length polls ≤ length readings)

  one-poll :
      (session : String) (b : Backend)
      → calls (session_busy decode g opts session b).1 ≡ calls b ++ status_call ∷ []
  unfolding session_busy
  one-poll session b = exchange-calls status_call b

  waited-Polls :
      (late : Bool) (readings : List Bool) (r : Attempt (Option Bool)) (b b' : Backend)
      (later : Option OpenError × Backend)
      → calls b' ≡ calls b ++ status_call ∷ []
      → Polls readings b' later.1
      → Polls (late ∷ readings) b (waited late r b' later).1
  unfolding waited
  waited-Polls late readings (fails e) b b' later h p =
      (status_call ∷ [], h, (refl, tt), omega arith)
  waited-Polls late readings (gives none) b b' later h p =
      (status_call ∷ [], h, (refl, tt), omega arith)
  waited-Polls late readings (gives (some false)) b b' later h p =
      (status_call ∷ [], h, (refl, tt), omega arith)
  waited-Polls late readings (gives (some true)) b b' later h (polls, e, a, l) =
      if-intro (λ (x : Option OpenError × Backend). Polls (late ∷ readings) b x.1) late
        (λ _. (status_call ∷ [], h, (refl, tt), omega arith))
        (λ _. (
          status_call ∷ polls,
          e ∙ ap (λ k. k ++ polls) h ∙ append_assoc (calls b) (status_call ∷ []) polls,
          (refl, a),
          omega (arith, l),
        ))

  wait-Polls :
      (readings : List Bool) (session : String) (b : Backend)
      → Polls readings b (wait_for_session_not_busy decode g opts readings session b).1
  unfolding wait_for_session_not_busy
  wait-Polls [] session b = ([], sym (append-nil (calls b)), tt, omega arith)
  wait-Polls (late ∷ readings) session b =
      let busy = session_busy decode g opts session b in
      waited-Polls late readings busy.0 b busy.1
        (wait_for_session_not_busy decode g opts readings session busy.1) (one-poll session b)
        (wait-Polls readings session busy.1)

  -- Once the sessions of a tree are known, every one of them is aborted in the order of the visit,
  -- then the status is read, at most once for each reading of the clock, then every one of them is
  -- deleted in the reverse order, children first; no error on the way keeps a later request from being
  -- made, and no other request is made.
  pub abort_and_delete-calls :
      (readings : List Bool) (session : String) (ids : List String) (b : Backend)
      → (polls : List Call) × (calls (abort_and_delete decode g opts readings session ids b).1
          ≡ calls b
            ++ (map (abort_call decode g opts) ids
                ++ (polls ++ map (delete_call decode g opts) (reverse_ids ids))))
        × All (λ c. c ≡ status_call) polls
        × (length polls ≤ length readings)
  unfolding abort_and_delete
  abort_and_delete-calls readings session ids b =
      let b1 = (abort_all decode g opts ids b).1 in
      let (polls, e, a, l) = wait-Polls readings session b1 in
      let b2 = (wait_for_session_not_busy decode g opts readings session b1).1 in
      let aborts = map (abort_call decode g opts) ids in
      let deletes = map (delete_call decode g opts) (reverse_ids ids) in
      (
        polls,
        delete_all-calls (reverse_ids ids) b2
            ∙ ap (λ k. k ++ deletes) (e ∙ ap (λ k. k ++ polls) (abort_all-calls ids b))
            ∙ append_assoc (calls b ++ aborts) polls deletes
            ∙ append_assoc (calls b) aborts (polls ++ deletes),
        a,
        l,
      )

  -- What a reset leaves: the function of the active run was called, no run is active and the
  -- conversation has no session.
  abbrev pub Resets :
      Conversation String
      → Option (Option String × List OpenError × Conversation String × Backend)
      → Type 0
  Resets conv none = ⊥
  Resets conv (some (called, es, conv', b)) =
      (called ≡ conv.active_cancel) × (conv'.active_cancel ≡ none) × (conv'.session_id ≡ "")

  delete_collected-ends :
      (readings : List Bool) (session : String) (o : Option Collected)
      → o ≢ none
      → delete_collected decode g opts readings session o ≢ none
  unfolding delete_collected
  delete_collected-ends readings session none h e = h refl
  delete_collected-ends readings session (some r) h e = ground arith

  -- Where the server answers at most `n` requests before the deadline of the context, fuel for `n`
  -- sessions is enough for a reset to end, however the server's sessions name each other; after it the
  -- function of the active run was called, no run is active, and the conversation has no session, also
  -- where requests fail.
  pub reset_session-Resets :
      (n fuel : ℕ) (readings : List Bool) (conv : Conversation String) (b : Backend)
      → AnswersAtMost n b
      → n ≤ fuel + length b.log
      → Resets conv (reset_session decode g opts (suc fuel) readings conv b)
  unfolding reset_session abort_and_delete_session_tree cancel_active set_session_id
  reset_session-Resets n fuel readings conv b a l =
      if-intro (Resets conv) (conv.session_id == "") (λ _. (refl, refl, refl))
        (λ _.
          elim (Option-cases
            (abort_and_delete_session_tree decode g opts (suc fuel) readings conv.session_id b)) [
              | inl e ↦ absurd (
                  delete_collected-ends readings conv.session_id
                    (collect_session_tree_ids decode g opts (suc fuel) conv.session_id [] b)
                    (collect_session_tree_ids-ends decode g opts n fuel conv.session_id b a l) e)
              | inr ((es, b'), e) ↦ rw e (refl, refl, refl)
            ])
