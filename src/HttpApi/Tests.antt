-- ===== src/HttpApi/Tests.antt =====
-- Requests to the API of a server with one bot, whose Rocket.Chat knows one channel.
use rocketbot.GoMap.{lookup}
use rocketbot.Http.{
  Request, Reply, answered, World, exchange, escaped, escape, quoted_body, quoted, is_plain,
}
use rocketbot.Json.{end, field, Value, str, bool, obj, get, struct_string, struct_obj, struct_bool}
use rocketbot.Text.{cut_prefix, trim_prefix}
use rocketbot.Api.{ApiClient, request, post_payload, posted_id, posted, post_message}
use rocketbot.Api.Rooms.{
  found_id, decoded_id, dm_payload, ensured, ensure_dm_room, looked_up, by_name, resolve_group,
  resolve_channel, dm_payload-marshal,
}
use rocketbot.HttpApi.{
  Server, SendRequest, Fault, sent, refusal, one_of, only_keys, decode_target, decode_request,
  validate_target, unauthorized, resolve_target, answer_post, post_to, deliver, check_request,
  for_bot, handle_send,
}
use rocketbot.HttpApi.Auth.{Bears, handle_send-auth}
use rocketbot.HttpApi.Sending.{Delivers, handle_send-Delivers}
use rocketbot.Prelude.{
  if◌then◌else◌, ◌&◌, ◌≡◌, refl, ◌⊎◌, true, Option, none, some, List, [], ◌∷◌, ◌==◌,
}

abbrev bot : ApiClient
bot = record { base_url = "http://chat"; user_id = "u1"; token = "tok" }

abbrev one_bot : Server
one_bot = record {
  bots = ("helper", bot) ∷ [];
  tokens = ("helper", "s3cret") ∷ ("ghost", "x") ∷ [];
}

abbrev chat_server : List Request → Request → Reply
chat_server past req =
    if req.url == "http://chat/api/v1/groups.info"
    then answered 200 (
        some (
          obj (field "group" (obj (field "_id" (str "G1") end)) (field "success" (bool true) end))))
    else if req.url == "http://chat/api/v1/chat.postMessage"
    then answered 200 (
        some (
          obj
            (field "success" (bool true) (field "message" (obj (field "_id" (str "M1") end)) end))))
    else answered 404 none

abbrev start : World
start = record { server = chat_server; log = [] }

abbrev to_channel : Option Value
to_channel =
    some
      (obj (field "target" (obj (field "channel" (str "#ops") end)) (field "text" (str "hi") end)))

abbrev after_send : World
after_send = record {
  server = chat_server;
  log =
      request bot "GET" "/api/v1/channels.info" (by_name "ops") ""
      ∷ request bot "GET" "/api/v1/groups.info" (by_name "ops") ""
      ∷ request bot "POST" "/api/v1/chat.postMessage" [] "{\"roomId\":\"G1\",\"text\":\"hi\"}"
      ∷ [];
}

sends_to_group :
    handle_send one_bot "helper" "Bearer s3cret" to_channel start ≡ (sent "G1", after_send)
unfolding handle_send unauthorized lookup trim_prefix for_bot check_request decode_request
    struct_obj get decode_target struct_string only_keys one_of validate_target deliver post_to
    resolve_target resolve_channel decoded_id dm_payload ensure_dm_room ensured found_id looked_up
    resolve_group post_message post_payload posted posted_id request escape escaped exchange
    quoted_body answer_post struct_bool cut_prefix
sends_to_group = refl

abbrev channel_request : SendRequest
channel_request = record {
  target = record { username = ""; channel = "#ops"; room_id = "" };
  text = "hi";
}

handle_send-auth_example :
    ((e : Fault) × (handle_send one_bot "ghost" "x" to_channel start ≡ (refusal 401 e, start)))
    ⊎ Bears (lookup one_bot.tokens "ghost") "x"
handle_send-auth_example = handle_send-auth one_bot "ghost" "x" to_channel start

handle_send-Delivers_example :
    Bears (lookup one_bot.tokens "helper") "Bearer s3cret"
    × (a : ApiClient) × (req : SendRequest) × (lookup one_bot.bots "helper" ≡ some a)
    × (decode_request to_channel ≡ some req)
    × Delivers a req start "G1" after_send
handle_send-Delivers_example =
    handle_send-Delivers one_bot "helper" "Bearer s3cret" to_channel start after_send "G1"
      sends_to_group

plain_name : is_plain "ada" ≡ true
unfolding is_plain escaped
plain_name = refl

dm_payload-marshal_example : dm_payload "ada" ≡ "{\"username\":" & quoted "ada" & "}"
dm_payload-marshal_example = dm_payload-marshal "ada" plain_name

-- Where the name has a quote, the payload is not that of a name.
quote_in_name : dm_payload "a\"b" ≡ "{\"username\":\"a\"b\"}"
unfolding dm_payload
quote_in_name = refl
