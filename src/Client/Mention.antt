-- ===== src/Client/Mention.antt =====
-- Who a message is addressed to: textMentionsUsername, messageMentionsUsername and
-- stripLeadingUsernameMention of bot/client.go.
pub mod Strip
use Prim.Native.String
use Prim.Native.String.{count, len}
use rocketbot.Json.{Fields, Items, no_items, item, Value, obj, get, as_arr, string_at}
use rocketbot.Text.{
  trim_left, trim_func, trim_space, in_set, to_lower, equal_fold, has_prefix, fields,
}
use rocketbot.Text.Escape.{drop_bytes}
use rocketbot.Prelude.{
  if◌then◌else◌, ℕ, zero, suc, String, ◌&◌, Bool, true, false, ◌&&◌, ◌||◌, Option, none, some,
  get_or, List, [], ◌∷◌, ◌==◌,
}

-- strings.TrimSpace(strings.ToLower(username))
abbrev pub normal_name : String → String
normal_name username = trim_space (to_lower username)

abbrev token_cutset : String
token_cutset = "()[]{}<>:;,.!?\"'`"

unfoldable pub any_token : String → List String → Bool
any_token mention [] = false
any_token mention (word ∷ words) =
    trim_func (in_set token_cutset) word == mention || any_token mention words

unfoldable pub text_mentions_username : String → String → Bool
unfolding any_token
text_mentions_username text username =
    let name = normal_name username in
    if name == "" then false else any_token ("@" & name) (fields (to_lower text))

abbrev mentioned_name : Value → String
mentioned_name (obj m) = string_at m "username"
mentioned_name _ = ""

abbrev is_obj : Value → Bool
is_obj (obj m) = true
is_obj _ = false

unfoldable pub any_mention : String → Items → Bool
any_mention name no_items = false
any_mention name (item raw rest) =
    (is_obj raw && equal_fold (trim_space (mentioned_name raw)) name) || any_mention name rest

abbrev listed : Option Items → String → Bool
listed none name = false
listed (some mentions) name = any_mention name mentions

unfoldable pub message_mentions_username : Fields → String → Bool
message_mentions_username msg_data username =
    let name = normal_name username in
    if name == ""
    then false
    else listed (as_arr (get msg_data "mentions")) name
      || text_mentions_username (string_at msg_data "msg") name

-- The loop; `none` means that the fuel ran out. The length of the lower-cased mention is cut off the
-- text as it is written, in bytes. No letter that ToLower maps here gets longer, so the text has as
-- many.
unfoldable pub strip_loop : ℕ → String → String → Option String
strip_loop zero mention remaining = none
strip_loop (suc fuel) mention remaining =
    let rest =
      strip_loop fuel mention
        (trim_left (in_set " \t\r\n:;,-") (drop_bytes (len mention) remaining)) in
    if has_prefix (to_lower remaining) mention then rest else some remaining

unfoldable pub strip_leading_username_mention : String → String → String
strip_leading_username_mention text username =
    let name = normal_name username in
    if name == ""
    then trim_space text
    else let remaining = trim_left (in_set " \t\r\n") text in
      trim_space (get_or (strip_loop (suc (count remaining)) ("@" & name) remaining) remaining)
