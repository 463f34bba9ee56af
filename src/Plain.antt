-- ===== src/Plain.antt =====
-- The plain objects of src/core/model.js: string keys, and the values that the program stores.
pub mod Laws
use bencpass.Prelude.{
  ℕ, String, Bool, true, false, not, ◌&&◌, ◌||◌, Option, none, some, List, [], ◌∷◌, ◌==◌,
  if◌then◌else◌,
}
use bencpass.Map.{Map, get, set, delete}
use bencpass.Text.{Text, same}

-- An entry of a history: `{ password, changed }`.
pub record Old : Type 0 where
  pub password : Text
  pub changed : Option ℕ

-- A number is a natural one, a negative one or not finite; the fields that the program computes with
-- hold no fractions. A missing key is `undefined`.
pub data Value : Type 0 where
  str : Text → Value
  num : ℕ → Value
  neg : ℕ → Value
  not_finite : Value
  flag : Bool → Value
  null : Value
  urls : List Text → Value
  history : List Old → Value
  custom : List (Text × Text) → Value

abbrev pub Body : Type 0
Body = Map Value

-- `{ ...a, ...b }`
unfoldable pub spread : Body → Body → Body
spread a [] = a
spread a ((k, v) ∷ b) = spread (set k v a) b

-- `{ ...a, [k]: v }`, where an `undefined` value reads as a missing key
abbrev pub set_opt : String → Option Value → Body → Body
set_opt k none a = delete k a
set_opt k (some v) a = set k v a

abbrev pub truthy : Value → Bool
truthy (str []) = false
truthy (str (c ∷ s)) = true
truthy (num n) = not (n == 0)
truthy (neg n) = true
truthy not_finite = false
truthy (flag b) = b
truthy null = false
truthy (urls us) = true
truthy (history h) = true
truthy (custom fs) = true

abbrev pub is_truthy : Option Value → Bool
is_truthy none = false
is_truthy (some v) = truthy v

abbrev pub flag_eq : Bool → Bool → Bool
flag_eq true b = b
flag_eq false b = not b

-- `v === w`: two arrays are never the same object here, since patches are cloned, and NaN differs
-- from itself.
unfoldable pub strict_eq : Value → Value → Bool
unfolding same
strict_eq (str s) (str t) = same s t
strict_eq (num m) (num n) = m == n
strict_eq (neg m) (neg n) = m == n
strict_eq (flag b) (flag c) = flag_eq b c
strict_eq null null = true
strict_eq _ _ = false

-- `p !== undefined && p !== q`
unfoldable pub differs : Option Value → Option Value → Bool
unfolding strict_eq
differs none q = false
differs (some v) none = true
differs (some v) (some w) = not (strict_eq v w)

-- `v ?? d`
abbrev pub or_else : Option Value → Value → Value
or_else none d = d
or_else (some null) d = d
or_else (some v) d = v

-- `v === t`
abbrev pub text_is : Option Value → Text → Bool
text_is (some (str s)) t = same s t
text_is _ t = false

-- The contents of a value of the expected kind, and the empty one for any other.
abbrev pub as_text : Option Value → Text
as_text (some (str s)) = s
as_text _ = []

abbrev pub as_old : Option Value → List Old
as_old (some (history h)) = h
as_old _ = []

abbrev pub as_urls : Option Value → List Text
as_urls (some (urls us)) = us
as_urls _ = []

abbrev pub as_num : Option Value → Option ℕ
as_num (some (num n)) = some n
as_num _ = none

-- `Array.isArray(v) ? v : []`, for an array of custom fields
abbrev pub as_custom : Option Value → List (Text × Text)
as_custom (some (custom fs)) = fs
as_custom _ = []
