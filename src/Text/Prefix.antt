-- ===== src/Text/Prefix.antt =====
-- What is cut off a prefix, put behind it, is the text.
use Prim.Native.String.{[], ◌∷◌}
use text.Mathlib.TextEquality.{Char-path}
use text.Mathlib.TextLemmas.{nil-append, cons-append}
use rocketbot.Text.{cut_prefix, has_prefix, trim_prefix}
use rocketbot.Prelude.{
  refl, nat_eq, Bool-cases, Option-cases, code, String, ◌&◌, ◌≡◌, ◌∙◌, ap₂, inl, inr, true, some,
  arith,
}

pub cut_prefix_lem : (s p : String) (r : String) → cut_prefix s p ≡ some r → p & r ≡ s
unfolding cut_prefix
cut_prefix_lem s [] r h = nil-append r ∙ ground arith
cut_prefix_lem [] (d ∷ p) r h = cc
cut_prefix_lem (c ∷ s) (d ∷ p) r h = elim (Bool-cases (nat_eq (code c) (code d))) [
  | inl e ↦
      cons-append d p r
      ∙ ap₂ ◌∷◌ (Char-path d c (ground arith)) (cut_prefix_lem s p r (ground arith))
  | inr e ↦ absurd (ground arith)
]

-- TrimPrefix takes off what HasPrefix finds.
pub trim_prefix_lem : (s p : String) → has_prefix s p ≡ true → p & trim_prefix s p ≡ s
unfolding has_prefix trim_prefix
trim_prefix_lem s p h = elim (Option-cases (cut_prefix s p)) [
  | inl e ↦ absurd (ground arith)
  | inr (r, e) ↦ rw e (cut_prefix_lem s p r e)
]

-- A prefix that is put in front of a text is cut off.
pub cut_prefix-append : (p r : String) → cut_prefix (p & r) p ≡ some r
unfolding cut_prefix
cut_prefix-append [] r = rw (nil-append r)
cut_prefix-append (d ∷ p) r = rw (cons-append d p r) (ground (arith, cut_prefix-append p r))

-- Nothing but the empty text is a prefix of it.
pub no_prefix : (p : String) → has_prefix "" p ≡ true → p ≡ ""
unfolding has_prefix cut_prefix
no_prefix [] h = refl
no_prefix (c ∷ p) h = absurd (ground arith)
