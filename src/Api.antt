-- ===== src/Api.antt =====
-- bot/api_client.go: the REST calls that change something or find a room. Making a request does not
-- fail: the base URL is one that net/url accepts.
pub mod Rooms
pub mod History
use rocketbot.Http.{Request, Reply, failed, answered, World, exchange, quoted}
use rocketbot.Json.{◌>>=◌, Value, null, obj, struct_string, struct_obj, struct_bool}
use rocketbot.Text.{trim_suffix}
use rocketbot.Prelude.{nat_eq, if◌then◌else◌, ℕ, String, ◌&◌, Option, none, some, List, [], ◌==◌}

pub record ApiClient : Type 0 where
  pub base_url : String
  pub user_id : String
  pub token : String

unfoldable pub new_api_client : String → String → String → ApiClient
new_api_client base_url user_id token = record {
  base_url = trim_suffix base_url "/";
  user_id = user_id;
  token = token;
}

-- Why a call failed; the texts of the errors are not modelled.
pub data ApiError : Type 0 where
  transport : ApiError
  bad_status : ℕ → ApiError
  bad_body : ApiError
  refused : ApiError
  channel_not_found : String → ApiError

pub data Result {ℓ} (A : Type ℓ) : Type ℓ where
  ok : A → Result A
  err : ApiError → Result A

abbrev pub Call : Type 0 → Type 0
Call A = World → Result A × World

-- doRequest: every request carries the bot's credentials.
unfoldable pub request : ApiClient → String → String → List (String × String) → String → Request
request a method path query body = record {
  method = method;
  url = a.base_url & path;
  query = query;
  auth_token = a.token;
  user_id = a.user_id;
  body = body;
}

abbrev pub do_request :
    ApiClient → String → String → List (String × String) → String → World → Reply × World
do_request a method path query body = exchange (request a method path query body)

-- `tmid` stands in the payload where it is not empty; json.Marshal sorts the keys of a map.
unfoldable pub post_payload : String → String → String → String
post_payload room text tmid =
    "{\"roomId\":"
    & quoted room
    & ",\"text\":"
    & quoted text
    & (if tmid == "" then "" else ",\"tmid\":" & quoted tmid)
    & "}"

-- The id in the reply to a posted message. The decoder wants `success` to be a Boolean; its value is
-- not looked at.
unfoldable pub posted_id : Option Value → Option String
posted_id (some (obj m)) = do
  success ← struct_bool m "success"
  message ← struct_obj m "message"
  struct_string message "_id"
posted_id (some null) = some ""
posted_id _ = none

unfoldable pub posted : Reply → Result String
posted failed = err transport
posted (answered status body) =
    if nat_eq status 200
    then elim (posted_id body) [ none ↦ err bad_body | some id ↦ ok id ]
    else err (bad_status status)

abbrev pub post_request : ApiClient → String → String → String → Request
post_request a room text tmid =
    request a "POST" "/api/v1/chat.postMessage" [] (post_payload room text tmid)

unfoldable pub post_message : ApiClient → String → String → String → Call String
post_message a room text tmid w =
    let (r, w') = exchange (post_request a room text tmid) w in (posted r, w')

unfoldable pub update_payload : String → String → String → String
update_payload room msg_id text =
    "{\"msgId\":" & quoted msg_id & ",\"roomId\":" & quoted room & ",\"text\":" & quoted text & "}"

unfoldable pub updated : Reply → Result (Unit {0})
updated failed = err transport
updated (answered status body) = if nat_eq status 200 then ok tt else err (bad_status status)

abbrev pub update_request : ApiClient → String → String → String → Request
update_request a room msg_id text =
    request a "POST" "/api/v1/chat.update" [] (update_payload room msg_id text)

unfoldable pub update_message : ApiClient → String → String → String → Call (Unit {0})
update_message a room msg_id text w =
    let (r, w') = exchange (update_request a room msg_id text) w in (updated r, w')
