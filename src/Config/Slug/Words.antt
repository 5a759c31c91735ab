-- ===== src/Config/Slug/Words.antt =====
-- The slugs are the words of small letters and digits that hyphens join.
use Prim.Native.String.{String, [], ◌∷◌}
use text.Mathlib.TextEquality.{Char-path}
use text.Mathlib.TextLemmas.{nil-append, cons-append, append-nil}
use rocketbot.Config.Slug.{is_slug_char, slug_from, validate_slug}
use rocketbot.Text.{join}
use rocketbot.Prelude.{
  nat_eq, Bool-cases, All, Char, code, ◌&◌, ◌≡◌, refl, sym, ap, ◌∙◌, ap₂, ◌≢◌, ◌↔◌, inl, inr, Bool,
  true, false, List, arith, ◌==◌, eq_iff,
}

abbrev IsPart : String → Type 0
IsPart [] = Unit
IsPart (c ∷ s) = (is_slug_char (code c) ≡ true) × IsPart s

-- A nonempty word of small letters and digits.
abbrev pub IsSlugWord : String → Type 0
IsSlugWord w = IsPart w × (w ≢ "")

-- The words, each behind a hyphen.
abbrev hyphens : List String → String
hyphens List.[] = ""
hyphens (List.◌∷◌ w ws) = "-" & (w & hyphens ws)

join-hyphens : (w : String) (ws : List String) → join (List.◌∷◌ w ws) "-" ≡ w & hyphens ws
unfolding join
join-hyphens w List.[] = sym (append-nil w)
join-hyphens w (List.◌∷◌ v ws) = ap (λ t. w & ("-" & t)) (join-hyphens v ws)

-- How a text that the pass takes falls into the rest of a word and more words.
abbrev Split : Bool → String → Type 0
Split in_word s =
    (w : String) × (ws : List String) × IsPart w
    × All IsSlugWord ws
    × (in_word ≡ false → w ≢ "")
    × (s ≡ w & hyphens ws)

abbrev has_char : String → Bool
has_char [] = false
has_char (c ∷ s) = true

nonempty : (c : Char) (w : String) → c ∷ w ≢ ""
nonempty c w h = absurd (ground (arith, ap has_char h))

-- What is known where the pass goes on without a letter or a digit.
after_hyphen :
    (in_word : Bool) (c : Char) (s : String)
    → is_slug_char (code c) ≡ false
    → slug_from in_word (c ∷ s) ≡ true
    → (c ≡ "-") × (in_word ≡ true) × (slug_from false s ≡ true)
unfolding slug_from
after_hyphen true c s e h = elim (Bool-cases (nat_eq (code c) 45)) [
  | inl f ↦ (Char-path c "-" (ground arith), refl, ground arith)
  | inr f ↦ absurd (ground arith)
]
after_hyphen false c s e h = absurd (ground arith)

split : (in_word : Bool) (s : String) → slug_from in_word s ≡ true → Split in_word s
unfolding slug_from
split true [] h = ("", List.[], tt, tt, λ e. absurd (ground arith), refl)
split false [] h = absurd (ground arith)
split in_word (c ∷ s) h = elim (Bool-cases (is_slug_char (code c))) [
  | inl e ↦
      let (w, ws, p, a, n, q) = split true s (ground arith) in
      (c ∷ w, ws, (e, p), a, λ f. nonempty c w, ap (◌∷◌ c) q ∙ sym (cons-append c w (hyphens ws)))
  | inr e ↦
      let (hyphen, before, later) = after_hyphen in_word c s e h in
      let (w, ws, p, a, n, q) = split false s later in
      (
        "",
        List.◌∷◌ w ws,
        tt,
        ((p, n refl), a),
        λ f. absurd (ground arith),
        ap₂ ◌∷◌ hyphen (q ∙ sym (nil-append (w & hyphens ws)))
            ∙ sym (cons-append "-" "" (w & hyphens ws))
            ∙ sym (nil-append ("-" & (w & hyphens ws))),
      )
]

word_taken : (w rest : String) → IsPart w → slug_from true (w & rest) ≡ slug_from true rest
unfolding slug_from
word_taken [] rest p = rw (nil-append rest) refl
word_taken (c ∷ w) rest (e, p) = rw (cons-append c w rest, slug_from, e) (word_taken w rest p)

first_taken : (w rest : String) → IsSlugWord w → slug_from false (w & rest) ≡ slug_from true rest
unfolding slug_from
first_taken [] rest (p, n) = absurd (n refl)
first_taken (c ∷ w) rest ((e, p), n) = rw (cons-append c w rest, slug_from, e) (word_taken w rest p)

hyphens_taken : (ws : List String) → All IsSlugWord ws → slug_from true (hyphens ws) ≡ true
unfolding slug_from
hyphens_taken List.[] a = refl
hyphens_taken (List.◌∷◌ w ws) (p, a) =
    rw (cons-append "-" "" (w & hyphens ws), nil-append (w & hyphens ws), slug_from)
      (first_taken w (hyphens ws) p ∙ hyphens_taken ws a)

slug_nonempty : (s : String) → slug_from false s ≡ true → s == "" ≡ false
unfolding slug_from
slug_nonempty s h = elim (Bool-cases (s == "")) [
  | inl e ↦ absurd (ground (arith, sym (ap (slug_from false) ((eq_iff s "").0 e)) ∙ h))
  | inr e ↦ e
]

-- A text made of words.
abbrev pub IsHyphenated : String → Type 0
IsHyphenated s =
    (w : String) × (ws : List String) × IsSlugWord w
    × All IsSlugWord ws
    × (s ≡ join (List.◌∷◌ w ws) "-")

-- validateSlug accepts a text exactly where hyphens join one or more nonempty words of small letters
-- and digits to it.
pub validate_slug_lem : (slug : String) → (validate_slug slug ≡ true) ↔ IsHyphenated slug
unfolding validate_slug
validate_slug_lem slug = (
  λ h.
      (let (w, ws, p, a, n, q) = split false slug (ground arith) in
        (w, ws, (p, n refl), a, q ∙ sym (join-hyphens w ws))),
  λ (w, ws, p, a, q).
      (let e = q ∙ join-hyphens w ws in
        let taken = ap (slug_from false) e ∙ first_taken w (hyphens ws) p ∙ hyphens_taken ws a in
        let n = slug_nonempty slug taken in ground (arith, taken, n)),
)
