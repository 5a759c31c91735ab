-- ===== src/Client/Mention/Strip.antt =====
-- The loop that strips leading mentions ends, and leaves none.
use Prim.Native.String.{◌∷◌, count, len}
use Prim.Native.String.len
use rocketbot.Text.{to_lower, has_prefix}
use rocketbot.Prelude.{ℕ, ◌≤◌, Char, String, ◌≡◌, ◌⊎◌, false, some}
use rocketbot.Client.Mention.{strip_loop}

abbrev after_mention : String
after_mention = " \t\r\n:;,-"

abbrev broken : Char
broken = "�"

abbrev at_sign : Char
at_sign = "@"

-- What is left of a code point that was cut stands in front.
abbrev IsBroken : String → Type 0
IsBroken s = (t : String) × (s ≡ broken ∷ t)

-- With n code points at most, or broken.
abbrev Within : ℕ → String → Type 0
Within n s = (count s ≤ n) ⊎ IsBroken s

abbrev Ends : ℕ → String → String → Type 0
Ends fuel mention s =
    (r : String) × (strip_loop fuel mention s ≡ some r) × (has_prefix (to_lower r) mention ≡ false)
