-- ===== src/Api/History.antt =====
-- The reading calls of bot/api_client.go: FetchUsername, SetStatusOnline, GetSubscriptions,
-- FetchHistory, FetchMessage and FetchThreadHistory, with parseAPIMessages of bot/message.go. The sort
-- of package sort, the parsing of dates and the %q of a text are parameters. A call that fails gives no messages.
use mathlib.Core.Option
use rocketbot.Http.{Request, Reply, failed, answered, World, exchange}
use rocketbot.Json.{
  ℤ, Fields, end, Items, no_items, item, null, obj, arr, get, struct_string, struct_obj,
  struct_bool, ◌>>=◌,
}
use rocketbot.Text.{itoa}
use rocketbot.GoMap.{GoMap, insert}
use rocketbot.Message.{Message}
use rocketbot.Message.Parse.{text_date}
use rocketbot.Api.{
  ApiClient, transport, bad_status, bad_body, refused, Result, ok, err, Call, request, do_request,
  updated,
}
use rocketbot.Prelude.{
  nat_eq, if◌then◌else◌, ℕ, String, ◌&◌, Bool, true, false, Option, none, some, get_or, List, [],
  ◌∷◌, ◌==◌,
}

-- The decoded body of a reply of status 200; a body null is decoded as no fields.
unfoldable pub body_fields : Reply → Result Fields
body_fields failed = err transport
body_fields (answered status body) =
    if nat_eq status 200
    then elim body [ some (obj m) ↦ ok m | some null ↦ ok end | _ ↦ err bad_body ]
    else err (bad_status status)

-- What the fields of a body give, where they report success.
unfoldable pub on_success {ℓ} : {A : Type ℓ} → (Fields → Option A) → Result Fields → Result A
on_success read (err e) = err e
on_success read (ok m) = elim (struct_bool m "success") [
  | none ↦ err bad_body
  | some success ↦ elim (read m) [
    | none ↦ err bad_body
    | some a ↦ (if success then ok a else err refused)
  ]
]

unfoldable pub fetch_username : ApiClient → Call String
fetch_username a w =
    let (r, w') = do_request a "GET" "/api/v1/me" [] "" w in
    (on_success (λ m. struct_string m "username") (body_fields r), w')

-- SetStatusOnline; `quote` is the verb %q.
unfoldable pub status_payload : (String → String) → String → String
status_payload quote message =
    if message == ""
    then "{\"status\":\"online\"}"
    else "{\"status\":\"online\",\"message\":" & quote message & "}"

unfoldable pub set_status_online : (String → String) → ApiClient → String → Call (Unit {0})
set_status_online quote a message w =
    let (r, w') =
      do_request a "POST" "/api/v1/users.setStatus" [] (status_payload quote message) w in
    (updated r, w')

-- The elements of a slice of structs: null is the zero struct, and what is no object is an error.
unfoldable pub read_items : Items → Option (List Fields)
read_items no_items = some []
read_items (item (obj m) rest) = Option.map (◌∷◌ m) (read_items rest)
read_items (item null rest) = Option.map (◌∷◌ end) (read_items rest)
read_items (item _ rest) = none

unfoldable pub struct_items : Fields → String → Option (List Fields)
struct_items m k = elim (get m k) [
  | none ↦ some []
  | some null ↦ some []
  | some (arr xs) ↦ read_items xs
  | some _ ↦ none
]

-- Each element read as a struct.
unfoldable pub read_all {ℓ} : {A : Type ℓ} → (Fields → Option A) → List Fields → Option (List A)
read_all read [] = some []
read_all read (m ∷ ms) = read m >>= λ a. read_all read ms >>= λ rest. some (a ∷ rest)

-- A subscription is its room and its type.
unfoldable pub read_subscription : Fields → Option (String × String)
read_subscription m = struct_string m "rid" >>= λ rid. struct_string m "t" >>= λ t. some (rid, t)

unfoldable pub dm_rooms_of : List (String × String) → GoMap Bool → GoMap Bool
dm_rooms_of [] rooms = rooms
dm_rooms_of ((rid, t) ∷ subs) rooms =
    dm_rooms_of subs (if t == "d" then insert rooms rid true else rooms)

unfoldable pub rooms_of : List (String × String) → List String
rooms_of [] = []
rooms_of ((rid, t) ∷ subs) = rid ∷ rooms_of subs

unfoldable pub read_subscriptions : Fields → Option (List String × GoMap Bool)
read_subscriptions m = struct_items m "update" >>= λ items.
    read_all read_subscription items >>= λ subs. some (rooms_of subs, dm_rooms_of subs [])

unfoldable pub get_subscriptions : ApiClient → Call (List String × GoMap Bool)
get_subscriptions a w =
    let (r, w') = do_request a "GET" "/api/v1/subscriptions.get" [] "" w in
    (on_success read_subscriptions (body_fields r), w')

-- A reply without its error: the caller gets nil.
unfoldable pub or_nil {ℓ} : {A : Type ℓ} → Result A → Option A
or_nil (ok a) = some a
or_nil (err e) = none

unfoldable pub in_thread : String → List Message → List Message
in_thread tmid [] = []
in_thread tmid (m ∷ ms) = record m { thread_id = tmid } ∷ in_thread tmid ms

module _ (parse_time : String → Option ℤ) where
  unfoldable pub read_message : Fields → Option Message
  read_message m = struct_string m "_id" >>= λ id. struct_string m "msg" >>= λ text.
      struct_string m "rid" >>= λ rid. struct_string m "ts" >>= λ ts. struct_obj m "u" >>= λ u.
      struct_string u "_id" >>= λ user_id. struct_string u "username" >>= λ username.
      struct_string u "name" >>= λ name. some (record {
        id = id;
        text = text;
        room_id = rid;
        thread_id = "";
        preformatted_prompt = false;
        timestamp = text_date parse_time ts;
        user = record { id = user_id; username = username; name = name };
      })

  unfoldable pub fetch_message : ApiClient → String → World → Option Message × World
  fetch_message a id w =
      let (r, w') = do_request a "GET" ("/api/v1/chat.getMessage?msgId=" & id) [] "" w in
      (or_nil (on_success (λ m. struct_obj m "message" >>= read_message) (body_fields r)), w')

  -- The messages of a body, before they are sorted.
  unfoldable pub listed_messages : Reply → Option (List Message)
  listed_messages r =
      or_nil (on_success (λ m. struct_items m "messages" >>= read_all read_message) (body_fields r))

  module _ (sort : List Message → List Message) where
    -- parseAPIMessages
    unfoldable pub parse_api_messages : List Message → List Message
    parse_api_messages messages = sort messages

    unfoldable pub fetch_history : ApiClient → String → ℕ → World → List Message × World
    fetch_history a room count w =
        let (r, w') =
          do_request a "GET" "/api/v1/im.history" (("count", itoa count) ∷ ("roomId", room) ∷ []) ""
            w in
        (get_or (Option.map parse_api_messages (listed_messages r)) [], w')

    abbrev thread_request : ApiClient → String → ℕ → Request
    thread_request a tmid count =
        request a "GET" "/api/v1/chat.getThreadMessages"
          (("count", itoa count) ∷ ("tmid", tmid) ∷ []) ""

    unfoldable pub with_starter : Message → String → Option (List Message) → List Message
    with_starter starter tmid none = []
    with_starter starter tmid (some messages) =
        starter ∷ in_thread tmid (parse_api_messages messages)

    unfoldable pub fetch_replies :
        ApiClient → String → ℕ → Option Message → World → List Message × World
    fetch_replies a tmid count none w = ([], w)
    fetch_replies a tmid count (some starter) w =
        let (r, w') = exchange (thread_request a tmid count) w in
        (with_starter starter tmid (listed_messages r), w')

    unfoldable pub fetch_thread_history : ApiClient → String → ℕ → World → List Message × World
    fetch_thread_history a tmid count w =
        let (starter, w') = fetch_message a tmid w in fetch_replies a tmid count starter w'
