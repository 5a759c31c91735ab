-- ===== src/Http.antt =====
-- HTTP as the program's clients see it. The servers are an environment: what one answers may depend
-- on every request before. A reply is a transport error, or a status with the JSON value that its
-- body decodes to; net/http, net/url and encoding/json are not modelled further.
use Prim.Native.String
use text.Mathlib.TextLemmas.{nil-append, cons-append}
use rocketbot.Json.{Value}
use rocketbot.Prelude.{
  ltb, nat_eq, if◌then◌else◌, Bool-cases, ℕ, ◌+◌, ◌/◌, ◌%◌, code, String, ◌&◌, ◌≡◌, refl, ap, ◌∙◌,
  inl, inr, Bool, true, not, ◌&&◌, ◌||◌, Option, List, [], ◌∷◌, ◌++◌, arith,
}

pub record Request : Type 0 where
  pub method : String
  pub url : String
  pub query : List (String × String)
  pub auth_token : String
  pub user_id : String
  pub body : String

pub data Reply : Type 0 where
  failed : Reply
  answered : ℕ → Option Value → Reply

pub record World : Type 0 where
  pub server : List Request → Request → Reply
  pub log : List Request

-- One exchange.
unfoldable pub exchange : Request → World → Reply × World
exchange req w = (w.server w.log req, record w { log = w.log ++ req ∷ [] })

-- The string literal that json.Marshal writes.
hex_digits : ℕ → String
hex_digits n =
    String.slice "0123456789abcdef" (n / 16) (n / 16 + 1)
    & String.slice "0123456789abcdef" (n % 16) (n % 16 + 1)

unfoldable pub escaped : ℕ → Bool
escaped n =
    ltb n 32
    || nat_eq n 34
    || nat_eq n 92
    || nat_eq n 60
    || nat_eq n 62
    || nat_eq n 38
    || nat_eq n 0x2028
    || nat_eq n 0x2029

unfoldable pub escape : ℕ → String
unfolding hex_digits
escape n =
    if nat_eq n 34
    then "\\\""
    else if nat_eq n 92
    then "\\\\"
    else if nat_eq n 8
    then "\\b"
    else if nat_eq n 9
    then "\\t"
    else if nat_eq n 10
    then "\\n"
    else if nat_eq n 12
    then "\\f"
    else if nat_eq n 13
    then "\\r"
    else if nat_eq n 0x2028
    then "\\u2028"
    else if nat_eq n 0x2029
    then "\\u2029"
    else "\\u00" & hex_digits n

unfoldable pub quoted_body : String → String
quoted_body String.[] = ""
quoted_body (String.◌∷◌ c s) =
    (if escaped (code c) then escape (code c) else String.◌∷◌ c "") & quoted_body s

abbrev pub quoted : String → String
quoted s = "\"" & quoted_body s & "\""

-- No code point of a text is escaped in a literal.
unfoldable pub is_plain : String → Bool
is_plain String.[] = true
is_plain (String.◌∷◌ c s) = not (escaped (code c)) && is_plain s

-- Such a text stands in the literal as it is.
pub quoted_body-plain : (s : String) → is_plain s ≡ true → quoted_body s ≡ s
unfolding is_plain quoted_body
quoted_body-plain String.[] h = refl
quoted_body-plain (String.◌∷◌ c s) h = elim (Bool-cases (escaped (code c))) [
  | inl e ↦ absurd (ground arith)
  | inr e ↦ rw e (
      cons-append c "" (quoted_body s)
      ∙ ap (String.◌∷◌ c) (nil-append (quoted_body s) ∙ quoted_body-plain s (ground arith)))
]
