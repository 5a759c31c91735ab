-- ===== src/Text.antt =====
-- The operations of Go's package `strings` that the program uses, on texts of Unicode code points
-- (a Go string that is valid UTF-8). Letters are mapped to lower case in ASCII and Latin-1, with
-- the two other code points that have a lower case in ASCII; other letters are left as they are.
mod Tests
pub mod Prefix
pub mod Escape
use Prim.Native.String.{String, [], ◌∷◌, char_at}
use mathlib.Core.List
use mathlib.Core.Option
use rocketbot.Prelude.{
  ◌&◌, ltb, leb, nat_eq, if◌then◌else◌, is_some, ℕ, zero, suc, ◌-◌, ◌*◌, ◌/◌, ◌%◌, Char, code, Bool,
  true, false, not, ◌&&◌, ◌||◌, Option, none, some, get_or, List, map, ◌==◌,
}

abbrev pub is_empty : String → Bool
is_empty [] = true
is_empty (c ∷ s) = false

-- unicode.IsSpace
unfoldable pub is_space : ℕ → Bool
is_space c =
    (leb 9 c && leb c 13)
    || nat_eq c 32
    || nat_eq c 0x85
    || nat_eq c 0xa0
    || nat_eq c 0x1680
    || (leb 0x2000 c && leb c 0x200a)
    || nat_eq c 0x2028
    || nat_eq c 0x2029
    || nat_eq c 0x202f
    || nat_eq c 0x205f
    || nat_eq c 0x3000

-- TrimLeftFunc and TrimRightFunc
unfoldable pub trim_left : (ℕ → Bool) → String → String
trim_left p [] = []
trim_left p (c ∷ s) = let rest = trim_left p s in if p (code c) then rest else c ∷ s

unfoldable pub trim_right : (ℕ → Bool) → String → String
trim_right p [] = []
trim_right p (c ∷ s) =
    let rest = trim_right p s in if p (code c) && is_empty rest then [] else c ∷ rest

unfoldable pub trim_func : (ℕ → Bool) → String → String
unfolding trim_left trim_right
trim_func p s = trim_right p (trim_left p s)

-- TrimSpace
unfoldable pub trim_space : String → String
unfolding trim_func is_space
trim_space = trim_func is_space

-- Whether a code point stands in a cutset.
unfoldable pub in_set : String → ℕ → Bool
in_set [] c = false
in_set (d ∷ s) c = nat_eq c (code d) || in_set s c

lower_char : Char → Char
lower_char c =
    let n = code c in
    if leb 65 n && leb n 90
    then char_at "abcdefghijklmnopqrstuvwxyz" (n - 65)
    else if leb 0xc0 n && leb n 0xde && not (nat_eq n 0xd7)
    then char_at "àáâãäåæçèéêëìíîïðñòóôõö÷øùúûüýþ" (2 * (n - 0xc0))
    else if nat_eq n 0x130
    then char_at "i" 0
    else if nat_eq n 0x212a
    then char_at "k" 0
    else c

-- ToLower
unfoldable pub to_lower : String → String
unfolding lower_char
to_lower [] = []
to_lower (c ∷ s) = lower_char c ∷ to_lower s

fold_char : Char → Char
unfolding lower_char
fold_char c =
    let n = code c in
    if nat_eq n 0x130 then c else if nat_eq n 0x17f then char_at "s" 0 else lower_char c

fold : String → String
unfolding fold_char
fold [] = []
fold (c ∷ s) = fold_char c ∷ fold s

-- EqualFold
unfoldable pub equal_fold : String → String → Bool
unfolding fold
equal_fold s t = fold s == fold t

-- CutPrefix; the prefix is the second argument, as in Go.
unfoldable pub cut_prefix : String → String → Option String
cut_prefix s [] = some s
cut_prefix [] (d ∷ p) = none
cut_prefix (c ∷ s) (d ∷ p) =
    let rest = cut_prefix s p in if nat_eq (code c) (code d) then rest else none

-- HasPrefix and TrimPrefix
unfoldable pub has_prefix : String → String → Bool
unfolding cut_prefix
has_prefix s p = is_some (cut_prefix s p)

unfoldable pub trim_prefix : String → String → String
unfolding cut_prefix
trim_prefix s p = get_or (cut_prefix s p) s

-- CutSuffix: what stands before the suffix.
unfoldable pub cut_suffix : String → String → Option String
cut_suffix [] p = if p == "" then some [] else none
cut_suffix (c ∷ s) p =
    let rest = cut_suffix s p in if (c ∷ s) == p then some [] else Option.map (◌∷◌ c) rest

unfoldable pub has_suffix : String → String → Bool
unfolding cut_suffix
has_suffix s p = is_some (cut_suffix s p)

unfoldable pub trim_suffix : String → String → String
unfolding cut_suffix
trim_suffix s p = get_or (cut_suffix s p) s

-- Contains
unfoldable pub contains : String → String → Bool
unfolding has_prefix
contains [] p = has_prefix [] p
contains (c ∷ s) p = has_prefix (c ∷ s) p || contains s p

-- Fields: the maximal runs of code points that are no spaces. `split_fields` is the run at the front,
-- perhaps empty, and the later runs.
abbrev add_field : String → List String → List String
add_field [] words = words
add_field word words = List.◌∷◌ word words

split_fields : String → String × List String
unfolding is_space
split_fields [] = ([], List.[])
split_fields (c ∷ s) =
    let (word, words) = split_fields s in
    if is_space (code c) then ([], add_field word words) else (c ∷ word, words)

unfoldable pub fields : String → List String
unfolding split_fields
fields s = let (word, words) = split_fields s in add_field word words

-- The decimal digits of a number, as strconv.Itoa prints it. A number is below its successor, so the
-- fuel is enough.
itoa_from : ℕ → ℕ → String → String
itoa_from zero n s = s
itoa_from (suc fuel) n s =
    let rest = itoa_from fuel (n / 10) (char_at "0123456789" (n % 10) ∷ s) in
    if ltb n 10 then char_at "0123456789" n ∷ s else rest

unfoldable pub itoa : ℕ → String
unfolding itoa_from
itoa n = itoa_from (suc n) n []

-- Join
unfoldable pub join : List String → String → String
join List.[] sep = []
join (List.◌∷◌ w List.[]) sep = w
join (List.◌∷◌ w (List.◌∷◌ v ws)) sep = w & sep & join (List.◌∷◌ v ws) sep
