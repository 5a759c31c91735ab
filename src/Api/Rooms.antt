-- ===== src/Api/Rooms.antt =====
-- EnsureDMRoom and ResolveChannel of bot/api_client.go.
use rocketbot.Http.{Reply, failed, answered, quoted, is_plain, quoted_body-plain}
use rocketbot.Json.{Value, null, obj, Fields, struct_string, struct_obj, struct_bool, ◌>>=◌}
use rocketbot.Text.{trim_prefix}
use rocketbot.Api.{
  ApiClient, ApiError, transport, bad_status, bad_body, refused, channel_not_found, Result, ok, err,
  Call, do_request,
}
use rocketbot.Prelude.{
  nat_eq, if◌then◌else◌, String, ◌&◌, ◌≡◌, sym, ap, ◌∙◌, Bool, true, false, Option, none, some,
  List, [], ◌∷◌, text_append_assoc,
}

-- The id of the room that a reply describes under a key, where it reports success.
unfoldable pub found_id : String → Fields → Option (Bool × String)
found_id key m = do
  room ← struct_obj m key
  id ← struct_string room "_id"
  success ← struct_bool m "success"
  some (success, id)

unfoldable pub decoded_id : String → Option Value → Option (Bool × String)
decoded_id key (some (obj m)) = found_id key m
decoded_id key (some null) = some (false, "")
decoded_id key _ = none

-- The name is put between quotes as it is.
unfoldable pub dm_payload : String → String
dm_payload username = "{\"username\":\"" & username & "\"}"

unfoldable pub ensured : Reply → Result String
ensured failed = err transport
ensured (answered status body) =
    if nat_eq status 200
    then elim (decoded_id "room" body) [
      | none ↦ err bad_body
      | some (success, id) ↦ (if success then ok id else err refused)
    ]
    else err (bad_status status)

unfoldable pub ensure_dm_room : ApiClient → String → Call String
ensure_dm_room a username w =
    let (r, w') = do_request a "POST" "/api/v1/im.create" [] (dm_payload username) w in
    (ensured r, w')

-- What one look-up of a name says: an error, a room, or that the next look-up is to be tried.
pub data Lookup : Type 0 where
  fails : ApiError → Lookup
  found : String → Lookup
  elsewhere : Lookup

unfoldable pub looked_up : String → Reply → Lookup
looked_up key failed = fails transport
looked_up key (answered status body) =
    if nat_eq status 200
    then elim (decoded_id key body) [
      | none ↦ fails bad_body
      | some (success, id) ↦ (if success then found id else elsewhere)
    ]
    else elsewhere

abbrev pub by_name : String → List (String × String)
by_name name = ("roomName", name) ∷ []

unfoldable pub resolve_group : ApiClient → String → Call String
resolve_group a name w =
    let (r, w') = do_request a "GET" "/api/v1/groups.info" (by_name name) "" w in
    (
      elim (looked_up "group" r) [
        | fails e ↦ err e
        | found id ↦ ok id
        | elsewhere ↦ err (channel_not_found name)
      ],
      w',
    )

unfoldable pub resolve_channel : ApiClient → String → Call String
resolve_channel a channel_name w =
    let name = trim_prefix channel_name "#" in
    let (r, w') = do_request a "GET" "/api/v1/channels.info" (by_name name) "" w in
    elim (looked_up "channel" r) [
      | fails e ↦ (err e, w')
      | found id ↦ (ok id, w')
      | elsewhere ↦ resolve_group a name w'
    ]

-- For a name that json.Marshal would write as it is, the payload is the object that it would write.
pub dm_payload-marshal :
    (username : String)
    → is_plain username ≡ true
    → dm_payload username ≡ "{\"username\":" & quoted username & "}"
unfolding dm_payload
dm_payload-marshal username h = rw (quoted_body-plain username h) (
    text_append_assoc "{\"username\":" "\"" (username & "\"}")
    ∙ ap (λ t. "{\"username\":" & t)
        (ap (λ t. "\"" & t) (sym (text_append_assoc username "\"" "}"))
          ∙ sym (text_append_assoc "\"" (username & "\"") "}")))
