-- ===== src/Text/Tests.antt =====
-- The texts' operations at concrete inputs.
use mathlib.Core.List.{[], ◌∷◌}
use rocketbot.Text.{
  trim_space, to_lower, equal_fold, trim_prefix, trim_suffix, contains, fields, itoa, join,
}
use rocketbot.Prelude.{◌≡◌, refl, true, false}

trims : trim_space " \t a b \n" ≡ "a b"
unfolding trim_space
trims = refl

lowers : to_lower "Hello ÄÉ World" ≡ "hello äé world"
unfolding to_lower
lowers = refl

folds : equal_fold "ERROR" "error" ≡ true
unfolding equal_fold
folds = refl

cuts : (trim_prefix "Bearer x" "Bearer " ≡ "x") × (trim_suffix "http://a/" "/" ≡ "http://a")
unfolding trim_prefix trim_suffix
cuts = (refl, refl)

finds : (contains "a/skills/b" "/skills/" ≡ true) × (contains "skill" "skills" ≡ false)
unfolding contains
finds = (refl, refl)

splits : fields "  !rb  reset now " ≡ "!rb" ∷ "reset" ∷ "now" ∷ []
unfolding fields
splits = refl

prints : (itoa 0 ≡ "0") × (itoa 1207 ≡ "1207") × (join ("a" ∷ "b" ∷ []) ", " ≡ "a, b")
unfolding itoa join
prints = (refl, refl, refl)
