-- ===== src/Prelude/Lists.antt =====
-- Lists measured and indexed by native numbers, under the library's names.
use Prim.Native.Nat.{ℕ, zero, suc, ◌+◌, ◌<◌}
use mathlib.Core.Path.{◌≡◌, refl, ap, subst}
use rocketbot.Prelude.Tests.{nat_eq, if◌then◌else◌}
use mathlib.Core.List.{List, [], ◌∷◌, ◌++◌}
use mathlib.Core.Option.{Option, none, some}
use native.Mathlib.Omega.{arith}

module _ {ℓ} {A : Type ℓ} where
  abbrev pub length : List A → ℕ
  length [] = 0
  length (x ∷ xs) = suc (length xs)

  abbrev pub get_elem? : List A → ℕ → Option A
  get_elem? [] i = none
  get_elem? (x ∷ xs) zero = some x
  get_elem? (x ∷ xs) (suc i) = get_elem? xs i

  -- A write out of bounds changes nothing.
  abbrev pub set : List A → ℕ → A → List A
  set [] i v = []
  set (x ∷ xs) zero v = v ∷ xs
  set (x ∷ xs) (suc i) v = x ∷ set xs i v

  pub length-append : (xs ys : List A) → length (xs ++ ys) ≡ length xs + length ys
  length-append [] ys = omega arith
  length-append (x ∷ xs) ys = omega (arith, length-append xs ys)

-- A property of every element.
module _ {ℓ κ} {A : Type ℓ} (P : A → Type κ) where
  abbrev pub All : List A → Type κ
  All [] = Unit
  All (a ∷ rest) = P a × All rest

  pub All-append : (front back : List A) → All front → All back → All (front ++ back)
  All-append [] back f b = b
  All-append (a ∷ front) back (p, f) b = (p, All-append front back f b)

pub All-weaken {ℓ κ} :
    {A : Type ℓ} (P Q : A → Type κ)
    → ((a : A) → P a → Q a)
    → (items : List A) → All P items
    → All Q items
All-weaken P Q w [] h = tt
All-weaken P Q w (a ∷ rest) (p, h) = (w a p, All-weaken P Q w rest h)

pub All-get_elem? {ℓ κ} :
    {A : Type ℓ} (P : A → Type κ) (items : List A) (i : ℕ) (a : A)
    → All P items
    → get_elem? items i ≡ some a
    → P a
All-get_elem? P [] i a h e = cc e
All-get_elem? P (b ∷ items) zero a (p, h) e = subst P (ground (arith, e)) p
All-get_elem? P (b ∷ items) (suc i) a (p, h) e = All-get_elem? P items i a h e

module _ {ℓ} {A : Type ℓ} where
  pub get_elem?-append_last :
      (xs : List A) (y : A) (i : ℕ)
      → get_elem? (xs ++ y ∷ []) i ≡ (if nat_eq i (length xs) then some y else get_elem? xs i)
  get_elem?-append_last [] y zero = refl
  get_elem?-append_last [] y (suc i) = ground arith
  get_elem?-append_last (x ∷ xs) y zero = ground arith
  get_elem?-append_last (x ∷ xs) y (suc i) = ground (arith, get_elem?-append_last xs y i)

  -- A write at a place that is there.
  pub get_elem?-set :
      (xs : List A) (i : ℕ) (v : A) (j : ℕ) {t : A}
      → get_elem? xs i ≡ some t
      → get_elem? (set xs i v) j ≡ (if nat_eq i j then some v else get_elem? xs j)
  get_elem?-set [] i v j h = cc
  get_elem?-set (x ∷ xs) zero v zero h = refl
  get_elem?-set (x ∷ xs) zero v (suc j) h = ground arith
  get_elem?-set (x ∷ xs) (suc i) v zero h = ground arith
  get_elem?-set (x ∷ xs) (suc i) v (suc j) h = ground (arith, get_elem?-set xs i v j h)

  pub set-get_elem? : (xs : List A) (i : ℕ) {t : A} → get_elem? xs i ≡ some t → set xs i t ≡ xs
  set-get_elem? [] i h = refl
  set-get_elem? (x ∷ xs) zero h = ground arith
  set-get_elem? (x ∷ xs) (suc i) h = ap (◌∷◌ x) (set-get_elem? xs i h)

  pub get_elem?-lt : (xs : List A) (i : ℕ) {t : A} → get_elem? xs i ≡ some t → i < length xs
  get_elem?-lt [] i h = cc
  get_elem?-lt (x ∷ xs) zero h = omega arith
  get_elem?-lt (x ∷ xs) (suc i) h = omega (arith, get_elem?-lt xs i h)
