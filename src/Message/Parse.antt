-- ===== src/Message/Parse.antt =====
-- parseMessage, parseDDPDate and parseInt64 of bot/message.go.
use rocketbot.Json.{
  ℤ, pos, negsuc, Fields, end, Value, str, num, obj, get, as_string, as_obj, string_at,
}
use rocketbot.Message.{Message}
use rocketbot.Prelude.{
  ltb, leb, nat_eq, if◌then◌else◌, ℕ, zero, suc, ◌+◌, ◌-◌, ◌*◌, ◌%◌, ◌^◌, code, String, false, ◌&&◌,
  Option, none, some, get_or,
}
use Prim.Native.String.{[], ◌∷◌}
use mathlib.Core.Option

-- strconv.ParseInt in base 10 for 64 bits: a sign or none, then digits, within the bounds.
unfoldable pub digits : String → ℕ → Option ℕ
digits [] n = some n
digits (c ∷ s) n =
    let rest = digits s (n * 10 + (code c - 48)) in
    if leb 48 (code c) && leb (code c) 57 then rest else none

unfoldable pub magnitude : String → ℕ → Option ℕ
magnitude [] bound = none
magnitude (c ∷ s) bound = elim (digits (c ∷ s) 0) [
  | none ↦ none
  | some n ↦ (if leb n bound then some n else none)
]

abbrev negative : ℕ → ℤ
negative zero = pos 0
negative (suc n) = negsuc n

unfoldable pub parse_int64 : String → Option ℤ
parse_int64 [] = none
parse_int64 (c ∷ s) =
    if nat_eq (code c) 45
    then Option.map negative (magnitude s (2 ^ 63))
    else if nat_eq (code c) 43
    then Option.map pos (magnitude s (2 ^ 63 - 1))
    else Option.map pos (magnitude (c ∷ s) (2 ^ 63 - 1))

-- An integer as int64 keeps it, by its residue modulo 2 ^ 64.
abbrev residue : ℤ → ℕ
residue (pos n) = n % 2 ^ 64
residue (negsuc n) = 2 ^ 64 - 1 - n % 2 ^ 64

unfoldable pub to_int64 : ℤ → ℤ
to_int64 i = let u = residue i in if ltb u (2 ^ 63) then pos u else negsuc (2 ^ 64 - 1 - u)

-- Milliseconds as nanoseconds.
abbrev times_million : ℤ → ℤ
times_million (pos n) = pos (n * 1000000)
times_million (negsuc n) = negsuc (n * 1000000 + 999999)

unfoldable pub to_time : ℤ → ℤ
to_time ms = to_int64 (times_million ms)

-- `parse_time` is time.Parse with the layout RFC3339, which accepts fractions of a second too.
module _ (parse_time : String → Option ℤ) where
  unfoldable pub text_date : String → Option ℤ
  text_date s = elim (parse_int64 s) [ some ms ↦ some (to_time ms) | none ↦ parse_time s ]

  unfoldable pub parse_ddp_date : Value → Option ℤ
  parse_ddp_date (num n) = some (to_time n)
  parse_ddp_date (str s) = text_date s
  parse_ddp_date (obj m) = elim (as_string (get m "$numberLong")) [
    | some s ↦ Option.map to_time (parse_int64 s)
    | none ↦ none
  ]
  parse_ddp_date _ = none

  unfoldable pub timestamp_of : Option Fields → Option ℤ
  timestamp_of none = none
  timestamp_of (some ts) = elim (get ts "$date") [ none ↦ none | some v ↦ parse_ddp_date v ]

  unfoldable pub parse_message : Fields → Message
  parse_message msg_data =
      let u = get_or (as_obj (get msg_data "u")) end in
      record {
        id = string_at msg_data "_id";
        text = string_at msg_data "msg";
        room_id = string_at msg_data "rid";
        thread_id = string_at msg_data "tmid";
        preformatted_prompt = false;
        timestamp = timestamp_of (as_obj (get msg_data "ts"));
        user = record {
          id = string_at u "_id";
          username = string_at u "username";
          name = string_at u "name";
        };
      }
