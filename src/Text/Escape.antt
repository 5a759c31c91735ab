-- ===== src/Text/Escape.antt =====
-- The bytes of a text in UTF-8, url.PathEscape, and the cuts of a text at a byte.
use Prim.Native.Char.{len_utf8}
use Prim.Native.String.{String, [], ◌∷◌, slice}
use rocketbot.Prelude.{
  ltb, leb, nat_eq, if◌then◌else◌, ℕ, zero, suc, ◌+◌, ◌-◌, ◌/◌, ◌%◌, code, ◌&◌, Bool, ◌&&◌, ◌||◌,
}

-- %XX, as PathEscape writes a byte.
unfoldable pub percent : ℕ → String
percent b =
    "%"
    & slice "0123456789ABCDEF" (b / 16) (b / 16 + 1)
    & slice "0123456789ABCDEF" (b % 16) (b % 16 + 1)

abbrev low_byte : ℕ → ℕ
low_byte n = 0x80 + n % 64

unfoldable pub percent_bytes : ℕ → String
percent_bytes n =
    if ltb n 0x80
    then percent n
    else if ltb n 0x800
    then percent (0xc0 + n / 64) & percent (low_byte n)
    else if ltb n 0x10000
    then percent (0xe0 + n / 4096) & percent (low_byte (n / 64)) & percent (low_byte n)
    else percent (0xf0 + n / 262144)
      & percent (low_byte (n / 4096))
      & percent (low_byte (n / 64))
      & percent (low_byte n)

abbrev between : ℕ → ℕ → ℕ → Bool
between lo hi n = leb lo n && leb n hi

-- Letters, digits, `-`, `_`, `.`, `~`, `$`, `&`, `+`, `:`, `=` and `@` stand as they are.
unfoldable pub stands : ℕ → Bool
stands n =
    between 97 122 n
    || between 65 90 n
    || between 48 57 n
    || nat_eq n 45
    || nat_eq n 95
    || nat_eq n 46
    || nat_eq n 126
    || nat_eq n 36
    || nat_eq n 38
    || nat_eq n 43
    || nat_eq n 58
    || nat_eq n 61
    || nat_eq n 64

unfoldable pub path_escape : String → String
path_escape [] = ""
path_escape (c ∷ s) = (if stands (code c) then c ∷ "" else percent_bytes (code c)) & path_escape s

-- What json.Marshal and ToLower make of the bytes of a code point that was cut: one replacement
-- for each.
unfoldable pub replacements : ℕ → String
replacements zero = ""
replacements (suc n) = "�" & replacements n

-- text[:n], as json.Marshal reads it.
unfoldable pub cut_bytes : ℕ → String → String
cut_bytes n [] = ""
cut_bytes n (c ∷ s) =
    let rest = cut_bytes (n - len_utf8 c) s in
    if leb (len_utf8 c) n then c ∷ rest else replacements n

-- text[n:], with a replacement for each byte that is left of a code point that is cut. Past the end of
-- the text, where Go panics, it is empty.
unfoldable pub drop_bytes : ℕ → String → String
unfolding replacements
drop_bytes n [] = ""
drop_bytes n (c ∷ s) =
    let rest = drop_bytes (n - len_utf8 c) s in
    if nat_eq n 0
    then c ∷ s
    else if leb (len_utf8 c) n
    then rest
    else replacements (len_utf8 c - n) & s
