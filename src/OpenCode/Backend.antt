-- ===== src/OpenCode/Backend.antt =====
-- The requests of OpenCodeGenerator in bot/opencode_generator.go: applyRequestHeaders, createSession,
-- openEventStream, promptAsync, abortSession, deleteSession, listChildSessions and sessionBusy. The
-- OpenCode server is an environment. The decoder of JSON is a parameter.
use rocketbot.Json.{Value, struct_string, ◌>>=◌}
use rocketbot.Http.{quoted}
use rocketbot.Message.{GenerationOptions}
use rocketbot.Text.{to_lower, contains}
use rocketbot.Text.Escape.{path_escape}
use rocketbot.OpenCode.Event.{as_map}
use rocketbot.Prelude.{
  leb, nat_eq, if◌then◌else◌, ℕ, String, ◌&◌, Bool, false, not, ◌&&◌, ◌||◌, Option, none, some,
  List, [], ◌∷◌, ◌++◌, ◌==◌,
}

pub record Generator : Type 0 where
  pub base_url : String
  pub auth : String
  pub session_dir : String
  pub permission_mode : String

pub record Call : Type 0 where
  pub method : String
  pub url : String
  pub query : List (String × String)
  pub authorization : String
  pub directory : String
  pub body : String

-- A reply with its body, or none where the request fails.
pub data Answer : Type 0 where
  no_answer : Answer
  answer : ℕ → String → Answer

-- A request that was made, and whether the lock of the conversation was held then.
pub record Entry : Type 0 where
  pub call : Call
  pub locked : Bool

pub record Backend : Type 0 where
  pub server : List Entry → Call → Answer
  pub locked : Bool
  pub log : List Entry

unfoldable pub exchange_call : Call → Backend → Answer × Backend
exchange_call c b =
    (b.server b.log c, record b { log = b.log ++ record { call = c; locked = b.locked } ∷ [] })

-- openCodeHTTPError is `http_error`; the texts of the other errors are not modelled.
pub data OpenError : Type 0 where
  transport_error : OpenError
  http_error : (op : String) (status : ℕ) (body : String) → OpenError
  bad_json : OpenError
  missing_id : OpenError
  cancelled : OpenError

pub data Attempt {ℓ} (A : Type ℓ) : Type ℓ where
  gives : A → Attempt A
  fails : OpenError → Attempt A

unfoldable pub session_dir_for : Generator → GenerationOptions → String
session_dir_for g opts = if not (opts.session_dir == "") then opts.session_dir else g.session_dir

-- A request with the headers of applyRequestHeaders; a header that is not set is empty.
unfoldable pub open_call :
    Generator → GenerationOptions → String → String → List (String × String) → String → Call
open_call g opts method path query body = record {
  method = method;
  url = g.base_url & path;
  query = query;
  authorization = g.auth;
  directory = session_dir_for g opts;
  body = body;
}

abbrev pub is_success : ℕ → Bool
is_success status = leb 200 status && leb status 299

abbrev pub session_path : String → String
session_path id = "/session/" & path_escape id

abbrev directory_query : String → List (String × String)
directory_query dir = if dir == "" then [] else ("directory", dir) ∷ []

-- isStaleSessionPromptError
unfoldable pub mentions_stale : String → Bool
mentions_stale body =
    contains body "session"
    && (contains body "not found"
        || contains body "unknown"
        || contains body "invalid"
        || contains body "does not exist")

unfoldable pub is_stale_session_prompt_error : OpenError → Bool
is_stale_session_prompt_error (http_error op status body) =
    op == "prompt_async"
    && (nat_eq status 404
        || nat_eq status 410
        || (nat_eq status 400 && mentions_stale (to_lower body)))
is_stale_session_prompt_error _ = false

unfoldable pub accepted : String → Answer → Attempt (Unit {0})
accepted op no_answer = fails transport_error
accepted op (answer status body) =
    if is_success status then gives tt else fails (http_error op status body)

-- A session that is not there counts as aborted or deleted.
unfoldable pub gone : String → Answer → Option OpenError
gone op no_answer = some transport_error
gone op (answer status body) =
    if is_success status || nat_eq status 404 then none else some (http_error op status body)

module _ (decode : String → Option Value) (g : Generator) (opts : GenerationOptions) where
  -- The struct with the id of a created session; null leaves it empty.
  unfoldable pub created_id : Option Value → Attempt String
  created_id v = elim (as_map v >>= λ m. struct_string m "id") [
    | none ↦ fails bad_json
    | some id ↦ (if id == "" then fails missing_id else gives id)
  ]

  unfoldable pub created : Answer → Attempt String
  created no_answer = fails transport_error
  created (answer status body) =
      if is_success status
      then created_id (decode body)
      else fails (http_error "create session" status body)

  unfoldable pub create_call : String → Call
  create_call title =
      open_call g opts "POST" "/session" (directory_query (session_dir_for g opts))
        ("{\"title\":" & quoted title & "}")

  unfoldable pub create_session : String → Backend → Attempt String × Backend
  create_session title b = let (a, b') = exchange_call (create_call title) b in (created a, b')

  unfoldable pub open_event_stream : Backend → Attempt (Unit {0}) × Backend
  open_event_stream b =
      let (a, b') = exchange_call (open_call g opts "GET" "/event" [] "") b in
      (accepted "event stream" a, b')

  unfoldable pub prompt_call : String → String → Call
  prompt_call session prompt =
      open_call g opts "POST" ("/session/" & session & "/prompt_async") []
        ("{\"parts\":[{\"text\":" & quoted prompt & ",\"type\":\"text\"}]}")

  unfoldable pub prompt_async : String → String → Backend → Attempt (Unit {0}) × Backend
  prompt_async session prompt b =
      let (a, b') = exchange_call (prompt_call session prompt) b in (accepted "prompt_async" a, b')

  unfoldable pub abort_call : String → Call
  abort_call id = open_call g opts "POST" (session_path id & "/abort") [] ""

  unfoldable pub abort_session : String → Backend → Option OpenError × Backend
  abort_session id b = let (a, b') = exchange_call (abort_call id) b in (gone "session abort" a, b')

  unfoldable pub delete_call : String → Call
  delete_call id = open_call g opts "DELETE" (session_path id) [] ""

  unfoldable pub delete_session : String → Backend → Option OpenError × Backend
  delete_session id b =
      let (a, b') = exchange_call (delete_call id) b in (gone "session delete" a, b')
