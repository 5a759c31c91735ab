-- ===== src/OpenCode/Tree/Tests.antt =====
-- A reset against a server whose two sessions are each other's children.
use rocketbot.GoMap.{lookup, insert, delete}
use rocketbot.Json.{end, field, Value, str, obj, get}
use rocketbot.Message.{GenerationOptions}
use rocketbot.OpenCode.Backend.{
  Generator, Call, Answer, no_answer, answer, Entry, Backend, exchange_call, open_call, abort_call,
  delete_call,
}
use rocketbot.OpenCode.Conversation.{Conversation}
use rocketbot.OpenCode.Tree.{
  collect_session_ids, keys, Collected, visit_children, visit_with, reverse_ids, children_of,
  listed, children_call, list_child_sessions, collect_session_tree_ids, abort_and_delete,
  reset_session,
}
use rocketbot.OpenCode.Tree.Distinct.{Distinct, collect_session_tree_ids-Distinct}
use rocketbot.OpenCode.Tree.Ends.{AnswersAtMost}
use rocketbot.OpenCode.Tree.Reset.{
  calls, status_call, abort_and_delete-calls, Resets, reset_session-Resets,
}
use rocketbot.Prelude.{
  leb, if◌then◌else◌, length, All, ◌≤◌, String, ◌≡◌, refl, true, false, Option, none, some, List,
  [], ◌∷◌, ◌++◌, arith, ◌==◌,
}
use rocketbot.Text.Escape.{stands, path_escape}

abbrev decode_id : String → Option Value
decode_id text = if text == "" then none else some (obj (field "id" (str text) end))

abbrev home_server : Generator
home_server = record { base_url = ""; auth = ""; session_dir = ""; permission_mode = "allow" }

abbrev no_options : GenerationOptions
no_options = record { scope = ""; room_id = ""; session_dir = ""; bootstrap_prompt = "" }

abbrev cyclic : List Entry → Call → Answer
cyclic log c =
    if leb 9 (length log)
    then no_answer
    else if c.url == "/session/s1/children"
    then answer 200 "s2"
    else if c.url == "/session/s2/children"
    then answer 200 "s1"
    else answer 200 "idle"

abbrev cyclic_backend : Backend
cyclic_backend = record { server = cyclic; locked = false; log = [] }

abbrev running : Conversation String
running = record { session_id = "s1"; active_cancel = some "s1"; active_cancel_n = 1 }

abbrev collected : Collected
collected = record {
  ids = "s1" ∷ "s2" ∷ [];
  error = none;
  seen = ("s1", true) ∷ ("s2", true) ∷ [];
  backend = record {
    server = cyclic;
    locked = false;
    log =
        record { call = children_call decode_id home_server no_options "s1"; locked = false }
        ∷ record { call = children_call decode_id home_server no_options "s2"; locked = false }
        ∷ [];
  };
}

collected_pair :
    collect_session_tree_ids decode_id home_server no_options 4 "s1" [] cyclic_backend
    ≡ some collected
unfolding collect_session_tree_ids list_child_sessions visit_with visit_children listed children_of
    collect_session_ids exchange_call lookup children_call open_call path_escape stands keys delete
    get insert
collected_pair = refl

collect_session_tree_ids-Distinct_example : Distinct ("s1" ∷ "s2" ∷ [])
collect_session_tree_ids-Distinct_example =
    collect_session_tree_ids-Distinct decode_id home_server no_options 4 "s1" cyclic_backend
      collected_pair

cyclic-AnswersAtMost : AnswersAtMost 9 cyclic_backend
cyclic-AnswersAtMost log c h = ground arith

abort_and_delete-calls_example :
    (polls : List Call) × (calls
        (abort_and_delete decode_id home_server no_options
          (false ∷ [])
          "s1"
          ("s1" ∷ "s2" ∷ [])
          cyclic_backend).1
      ≡ abort_call decode_id home_server no_options "s1"
        ∷ abort_call decode_id home_server no_options "s2"
        ∷ (polls
            ++ delete_call decode_id home_server no_options "s2"
              ∷ delete_call decode_id home_server no_options "s1"
              ∷ []))
    × All (λ c. c ≡ status_call decode_id home_server no_options) polls
    × (length polls ≤ 1)
unfolding reverse_ids
abort_and_delete-calls_example =
    abort_and_delete-calls decode_id home_server no_options (false ∷ []) "s1" ("s1" ∷ "s2" ∷ [])
      cyclic_backend

reset_session-Resets_example :
    Resets decode_id home_server no_options running
      (reset_session decode_id home_server no_options 10 (false ∷ []) running cyclic_backend)
reset_session-Resets_example =
    reset_session-Resets decode_id home_server no_options 9 9 (false ∷ []) running cyclic_backend
      cyclic-AnswersAtMost (omega arith)
