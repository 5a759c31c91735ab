-- ===== src/OpenCode/Tree.antt =====
-- What a reset does to a session of the OpenCode server, in bot/opencode_generator.go:
-- collectSessionIDs, findSessionStatus, listChildSessions, collectSessionTreeIDs, sessionBusy,
-- waitForSessionNotBusy, abortAndDeleteSessionTree and ResetSession.
pub mod Distinct
pub mod Ends
pub mod Reset
mod Tests
use rocketbot.GoMap.{GoMap, has_key, insert, delete}
use rocketbot.Json.{
  Fields, end, field, Items, no_items, item, Value, str, obj, arr, get, as_string, string_at,
}
use rocketbot.Message.{GenerationOptions}
use rocketbot.Text.{equal_fold}
use rocketbot.OpenCode.Backend.{
  Generator, Call, Answer, no_answer, answer, Backend, exchange_call, OpenError, transport_error,
  http_error, bad_json, cancelled, Attempt, gives, fails, open_call, is_success, session_path,
  abort_session, delete_session,
}
use rocketbot.OpenCode.Conversation.{Conversation, set_session_id, cancel_active}
use rocketbot.Prelude.{
  nat_eq, if◌then◌else◌, is_some, ℕ, zero, suc, String, ◌&◌, Bool, true, false, not, ◌&&◌, Option,
  none, some, List, [], ◌∷◌, ◌++◌, ◌==◌,
}

abbrev add_id : Option String → GoMap Bool → GoMap Bool
add_id none out = out
add_id (some id) out = if id == "" then out else insert out id true

unfoldable mutual
  pub collect_session_ids : Value → GoMap Bool → GoMap Bool
  collect_session_ids (obj m) out = collect_fields m (add_id (as_string (get m "id")) out)
  collect_session_ids (arr xs) out = collect_items xs out
  collect_session_ids _ out = out

  pub collect_fields : Fields → GoMap Bool → GoMap Bool
  collect_fields end out = out
  collect_fields (field k v fs) out = collect_fields fs (collect_session_ids v out)

  pub collect_items : Items → GoMap Bool → GoMap Bool
  collect_items no_items out = out
  collect_items (item x xs) out = collect_items xs (collect_session_ids x out)

-- The status of an object that has the session's id, and that under the session's id as a key.
abbrev own_status : Fields → String → Option String
own_status m session =
    if string_at m "id" == session && is_some (as_string (get m "id"))
    then as_string (get m "status")
    else none

abbrev keyed_status : Option Value → Option String
keyed_status (some (str s)) = some s
keyed_status (some (obj m)) = as_string (get m "status")
keyed_status _ = none

abbrev or_else : Option String → Option String → Option String
or_else (some s) later = some s
or_else none later = later

unfoldable mutual
  pub find_session_status : Value → String → Option String
  find_session_status (obj m) session =
      or_else (own_status m session)
        (or_else (keyed_status (get m session)) (find_in_fields m session))
  find_session_status (arr xs) session = find_in_items xs session
  find_session_status _ session = none

  pub find_in_fields : Fields → String → Option String
  find_in_fields end session = none
  find_in_fields (field k v fs) session =
      or_else (find_session_status v session) (find_in_fields fs session)

  pub find_in_items : Items → String → Option String
  find_in_items no_items session = none
  find_in_items (item x xs) session =
      or_else (find_session_status x session) (find_in_items xs session)

unfoldable pub keys : GoMap Bool → List String
keys [] = []
keys ((k, v) ∷ m) = k ∷ keys m

-- collectSessionTreeIDs: the ids in the order of the visit, the error that stopped it, the ids seen.
pub record Collected : Type 0 where
  pub ids : List String
  pub error : Option OpenError
  pub seen : GoMap Bool
  pub backend : Backend

abbrev pub Visit : Type 0
Visit = String → GoMap Bool → Backend → Option Collected

-- The loop over the children; `before` is what was collected before.
unfoldable pub visit_children : Visit → List String → Collected → Option Collected
visit_children visit [] before = some before
visit_children visit (c ∷ cs) before = elim (visit c before.seen before.backend) [
  | none ↦ none
  | some r ↦
      let after = record r { ids = before.ids ++ r.ids } in
      elim r.error [ some e ↦ some after | none ↦ visit_children visit cs after ]
]

unfoldable pub visit_with :
    Visit → String → GoMap Bool → Attempt (List String) → Backend → Option Collected
visit_with visit id seen (fails e) b =
    some (record { ids = id ∷ []; error = some e; seen = seen; backend = b })
visit_with visit id seen (gives cs) b =
    visit_children visit cs (record { ids = id ∷ []; error = none; seen = seen; backend = b })

-- After a poll: whether the wait goes on.
unfoldable pub waited :
    Bool → Attempt (Option Bool) → Backend → Option OpenError × Backend → Option OpenError × Backend
waited late (fails e) b later = (some e, b)
waited late (gives none) b later = (none, b)
waited late (gives (some false)) b later = (none, b)
waited late (gives (some true)) b later = if late then (none, b) else later

unfoldable pub reverse_ids : List String → List String
reverse_ids [] = []
reverse_ids (x ∷ xs) = reverse_ids xs ++ x ∷ []

module _ (decode : String → Option Value) (g : Generator) (opts : GenerationOptions) where
  unfoldable pub children_of : String → Option Value → Attempt (List String)
  children_of session none = fails bad_json
  children_of session (some v) = gives (keys (delete (collect_session_ids v []) session))

  unfoldable pub listed : String → Answer → Attempt (List String)
  listed session no_answer = fails transport_error
  listed session (answer status body) =
      if nat_eq status 404
      then gives []
      else if not (is_success status)
      then fails (http_error "session children" status body)
      else children_of session (decode body)

  unfoldable pub children_call : String → Call
  children_call session = open_call g opts "GET" (session_path session & "/children") [] ""

  unfoldable pub list_child_sessions : String → Backend → Attempt (List String) × Backend
  list_child_sessions session b =
      let (a, b') = exchange_call (children_call session) b in (listed session a, b')

  -- The depth of the visit is bounded by fuel; `none` is where it runs out.
  unfoldable pub collect_session_tree_ids : ℕ → String → GoMap Bool → Backend → Option Collected
  collect_session_tree_ids zero id seen b = none
  collect_session_tree_ids (suc fuel) id seen b =
      let (c, b') = list_child_sessions id b in
      let visited = visit_with (collect_session_tree_ids fuel) id (insert seen id true) c b' in
      if has_key seen id
      then some (record { ids = []; error = none; seen = seen; backend = b })
      else visited

  unfoldable pub abort_all : List String → Backend → List OpenError × Backend
  abort_all [] b = ([], b)
  abort_all (id ∷ ids) b =
      let (e, b') = abort_session decode g opts id b in
      let (es, b'') = abort_all ids b' in (elim e [ none ↦ es | some x ↦ x ∷ es ], b'')

  unfoldable pub delete_all : List String → Backend → List OpenError × Backend
  delete_all [] b = ([], b)
  delete_all (id ∷ ids) b =
      let (e, b') = delete_session decode g opts id b in
      let (es, b'') = delete_all ids b' in (elim e [ none ↦ es | some x ↦ x ∷ es ], b'')

  -- Whether the session is busy, or none where the status names it not.
  unfoldable pub busy_of : String → Answer → Attempt (Option Bool)
  busy_of session no_answer = fails transport_error
  busy_of session (answer status body) =
      if is_success status
      then elim (decode body) [
        | none ↦ fails bad_json
        | some v ↦ elim (find_session_status v session) [
          | none ↦ gives none
          | some s ↦ gives (some (equal_fold s "busy"))
        ]
      ]
      else fails (http_error "session status" status body)

  unfoldable pub session_busy : String → Backend → Attempt (Option Bool) × Backend
  session_busy session b =
      let (a, b') = exchange_call (open_call g opts "GET" "/session/status" [] "") b in
      (busy_of session a, b')

  -- Each reading tells whether the deadline has passed after a poll; the context is done after the last.
  unfoldable pub wait_for_session_not_busy :
      List Bool → String → Backend → Option OpenError × Backend
  wait_for_session_not_busy [] session b = (some cancelled, b)
  wait_for_session_not_busy (late ∷ readings) session b =
      let (r, b') = session_busy session b in
      let later = wait_for_session_not_busy readings session b' in waited late r b' later

  -- The errors that are joined; there are none where the tree is gone.
  unfoldable pub abort_and_delete :
      List Bool → String → List String → Backend → List OpenError × Backend
  abort_and_delete readings session ids b =
      let (aborts, b1) = abort_all ids b in
      let (w, b2) = wait_for_session_not_busy readings session b1 in
      let (deletes, b3) = delete_all (reverse_ids ids) b2 in
      (aborts ++ (elim w [ none ↦ deletes | some e ↦ e ∷ deletes ]), b3)

  unfoldable pub delete_collected :
      List Bool → String → Option Collected → Option (List OpenError × Backend)
  delete_collected readings session none = none
  delete_collected readings session (some r) = elim r.error [
    | some e ↦ some (e ∷ [], r.backend)
    | none ↦ some (abort_and_delete readings session r.ids r.backend)
  ]

  unfoldable pub abort_and_delete_session_tree :
      ℕ → List Bool → String → Backend → Option (List OpenError × Backend)
  abort_and_delete_session_tree fuel readings session b =
      delete_collected readings session (collect_session_tree_ids fuel session [] b)

  -- The run whose function is called, the errors, and what is left of the conversation.
  unfoldable pub reset_session :
      ℕ
      → List Bool
      → Conversation String
      → Backend
      → Option (Option String × List OpenError × Conversation String × Backend)
  reset_session fuel readings conv b =
      let (called, conv') = cancel_active (set_session_id "" conv) in
      if conv.session_id == ""
      then some (called, [], conv', b)
      else elim (abort_and_delete_session_tree fuel readings conv.session_id b) [
        | none ↦ none
        | some (es, b') ↦ some (called, es, conv', b')
      ]
