-- ===== src/Json.antt =====
-- Values that encoding/json decodes into `any`, and the type assertions that the program makes on
-- them. A number is kept as the integer that Go's int(v) truncates the float64 to. An object is the
-- decoded map: its fields stand in the order in which a `range` visits them.
use rocketbot.Prelude.{if◌then◌else◌, ℕ, String, Bool, false, Option, none, some, get_or, ◌==◌}

-- `negsuc n` is -(n + 1).
pub data ℤ : Type 0 where
  pos : ℕ → ℤ
  negsuc : ℕ → ℤ

mutual
  pub data Fields : Type 0 where
    end : Fields
    field : String → Value → Fields → Fields

  pub data Items : Type 0 where
    no_items : Items
    item : (first : Value) (rest : Items) → Items

  pub data Value : Type 0 where
    str : String → Value
    num : ℤ → Value
    bool : Bool → Value
    null : Value
    obj : Fields → Value
    arr : Items → Value

-- v, ok := m[k]
unfoldable pub get : Fields → String → Option Value
get end k = none
get (field j v fs) k = if j == k then some v else get fs k

-- v.(string), v.(bool), v.(map[string]any), v.([]any) and v.(float64), on a map's entry
abbrev pub as_string : Option Value → Option String
as_string (some (str s)) = some s
as_string _ = none

abbrev pub as_bool : Option Value → Option Bool
as_bool (some (bool b)) = some b
as_bool _ = none

abbrev pub as_num : Option Value → Option ℤ
as_num (some (num n)) = some n
as_num _ = none

abbrev pub as_obj : Option Value → Option Fields
as_obj (some (obj fs)) = some fs
as_obj _ = none

abbrev pub as_arr : Option Value → Option Items
as_arr (some (arr xs)) = some xs
as_arr _ = none

-- s, _ := m[k].(string)
abbrev pub string_at : Fields → String → String
string_at fs k = get_or (as_string (get fs k)) ""

-- A string, an object or a Boolean field of a struct: what is absent or null leaves the zero value, and a value
-- of another type is an error.
unfoldable pub struct_string : Fields → String → Option String
struct_string m k = elim (get m k) [
  | none ↦ some ""
  | some null ↦ some ""
  | some (str s) ↦ some s
  | some _ ↦ none
]

unfoldable pub struct_obj : Fields → String → Option Fields
struct_obj m k = elim (get m k) [
  | none ↦ some end
  | some null ↦ some end
  | some (obj fs) ↦ some fs
  | some _ ↦ none
]

unfoldable pub struct_bool : Fields → String → Option Bool
struct_bool m k = elim (get m k) [
  | none ↦ some false
  | some null ↦ some false
  | some (bool b) ↦ some b
  | some _ ↦ none
]

-- A chain of steps that may fail.
infixl 5 ◌>>=◌
abbrev pub ◌>>=◌ {ℓ κ} : {A : Type ℓ} {B : Type κ} → Option A → (A → Option B) → Option B
none >>= f = none
some a >>= f = f a
