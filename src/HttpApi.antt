-- ===== src/HttpApi.antt =====
-- internal/httpapi/server.go: the HTTP API by which other programs send messages as a bot.
mod Tests
pub mod Auth
pub mod Sending
use rocketbot.GoMap.{GoMap, lookup}
use rocketbot.Http.{World}
use rocketbot.Json.{◌>>=◌, Value, null, obj, Fields, end, field, struct_string, struct_obj}
use rocketbot.Text.{trim_prefix, fields}
use rocketbot.Api.{ApiClient, ApiError, Result, ok, err, Call, request, post_message}
use rocketbot.Api.Rooms.{ensure_dm_room, resolve_channel}
use rocketbot.Prelude.{
  ltb, nat_eq, if◌then◌else◌, set, ℕ, ◌+◌, String, Bool, true, false, not, ◌&&◌, ◌||◌, Option, none,
  some, List, [], ◌∷◌, ◌==◌,
}

-- A bot of the server is the client of its REST API.
pub record Server : Type 0 where
  pub bots : GoMap ApiClient
  pub tokens : GoMap String

pub record Target : Type 0 where
  pub username : String
  pub channel : String
  pub room_id : String

pub record SendRequest : Type 0 where
  pub target : Target
  pub text : String

-- The error of a response: a fixed text, or that of a call which failed.
pub data Fault : Type 0 where
  fault : String → Fault
  unresolved : ApiError → Fault

-- What a handler writes: a status, and a room or an error.
pub data Response : Type 0 where
  sent : String → Response
  refusal : ℕ → Fault → Response

-- Whether a map has no key but those of a list.
unfoldable pub one_of : String → List String → Bool
one_of k [] = false
one_of k (j ∷ js) = k == j || one_of k js

unfoldable pub only_keys : List String → Fields → Bool
only_keys keys end = true
only_keys keys (field k v fs) = one_of k keys && only_keys keys fs

unfoldable pub decode_target : Fields → Option Target
decode_target m = do
  username ← struct_string m "username"
  channel ← struct_string m "channel"
  room ← struct_string m "roomId"
  if only_keys ("username" ∷ "channel" ∷ "roomId" ∷ []) m
      then some (record { username = username; channel = channel; room_id = room })
      else none

-- The decoder with DisallowUnknownFields. The body is none where it is over the limit of 1 MB, or
-- does not begin with a JSON value.
unfoldable pub decode_request : Option Value → Option SendRequest
decode_request (some (obj m)) = do
  fields ← struct_obj m "target"
  target ← decode_target fields
  text ← struct_string m "text"
  if only_keys ("target" ∷ "text" ∷ []) m
      then some (record { target = target; text = text })
      else none
decode_request (some null) =
    some (record { target = record { username = ""; channel = ""; room_id = "" }; text = "" })
decode_request _ = none

abbrev given : String → ℕ
given s = if s == "" then 0 else 1

-- The error of a target, if it has one.
unfoldable pub validate_target : Target → Option String
validate_target t =
    let set = given t.username + given t.channel + given t.room_id in
    if nat_eq set 0
    then some "target must specify username, channel, or roomId"
    else if ltb 1 set
    then some "target must specify only one of username, channel, or roomId"
    else none

-- The checks of the token. The error is none where the request may go on.
unfoldable pub unauthorized : Option String → String → Option String
unauthorized none header = some "unauthorized"
unauthorized (some expected) header =
    let token = trim_prefix header "Bearer " in
    if expected == ""
    then some "unauthorized"
    else if header == ""
    then some "missing authorization header"
    else if token == header || not (token == expected)
    then some "invalid token"
    else none

unfoldable pub resolve_target : ApiClient → Target → Call String
resolve_target a t w =
    if not (t.username == "")
    then ensure_dm_room a t.username w
    else if not (t.channel == "")
    then resolve_channel a t.channel w
    else (ok t.room_id, w)

unfoldable pub answer_post : String → Result String → Response
answer_post room (ok id) = sent room
answer_post room (err e) = refusal 500 (fault "failed to post message")

unfoldable pub post_to : ApiClient → String → Result String → World → Response × World
post_to a text (err e) w = (refusal 422 (unresolved e), w)
post_to a text (ok room) w = let (r, w') = post_message a room text "" w in (answer_post room r, w')

unfoldable pub deliver : ApiClient → SendRequest → World → Response × World
deliver a req w = let (room, w') = resolve_target a req.target w in post_to a req.text room w'

unfoldable pub check_request : ApiClient → Option SendRequest → World → Response × World
check_request a none w = (refusal 400 (fault "invalid request body"), w)
check_request a (some req) w =
    if req.text == ""
    then (refusal 400 (fault "text is required"), w)
    else elim (validate_target req.target) [
      | some e ↦ (refusal 400 (fault e), w)
      | none ↦ deliver a req w
    ]

unfoldable pub for_bot : Option ApiClient → Option Value → World → Response × World
for_bot none body w = (refusal 404 (fault "bot not found"), w)
for_bot (some a) body w = check_request a (decode_request body) w

unfoldable pub handle_send : Server → String → String → Option Value → World → Response × World
handle_send s slug header body w = elim (unauthorized (lookup s.tokens slug) header) [
  | some e ↦ (refusal 401 (fault e), w)
  | none ↦ for_bot (lookup s.bots slug) body w
]
