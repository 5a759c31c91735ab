-- ===== src/Config/Slug.antt =====
-- validateSlug of config/config.go. The regular expression ^[a-z0-9]+(-[a-z0-9]+)*$ is matched by a
-- pass over the text that knows whether the last code point was a letter or a digit.
pub mod Words
use rocketbot.Prelude.{
  leb, nat_eq, if◌then◌else◌, ℕ, code, Bool, true, false, not, ◌&&◌, ◌||◌, Option, none, some, ◌==◌,
}
use Prim.Native.String.{String, [], ◌∷◌}

-- [a-z0-9]
abbrev pub is_slug_char : ℕ → Bool
is_slug_char c = (leb 97 c && leb c 122) || (leb 48 c && leb c 57)

-- The state after a code point, or none where there is no match.
abbrev pub slug_step : Bool → ℕ → Option Bool
slug_step in_word c =
    if is_slug_char c then some true else if in_word && nat_eq c 45 then some false else none

unfoldable pub slug_from : Bool → String → Bool
slug_from in_word [] = in_word
slug_from in_word (c ∷ s) = elim (slug_step in_word (code c)) [
  | none ↦ false
  | some next ↦ slug_from next s
]

-- Whether there is no error.
unfoldable pub validate_slug : String → Bool
validate_slug slug = not (slug == "") && slug_from false slug
