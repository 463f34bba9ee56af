-- ===== src/Generate/Password.antt =====
-- `generate` of src/core/generate.js, over the numbers that the platform hands out.
use Prim.Native.Nat.{zero, suc}
use bencpass.Prelude.{
  ℕ, Bool, true, false, ◌&&◌, ◌||◌, Option, none, some, List, [], ◌∷◌, ◌++◌, length, ltb,
  if◌then◌else◌,
}
use bencpass.Text.{Text, has_char}
use bencpass.Text.Codes.{codes}
use bencpass.Generate.{Drawn, range_error, still_drawing, drawn, random_int}

pub record Options : Type 0 where
  pub length : ℕ
  pub lower : Bool
  pub upper : Bool
  pub digits : Bool
  pub symbols : Bool
  pub avoid_ambiguous : Bool

-- `AMBIGUOUS`
abbrev pub ambiguous : Text
ambiguous = codes "Il1O0oS5B8|"

-- The errors, the draws used up, and a password with the draws that are left.
pub data Generated : Type 0 where
  no_set too_short empty_set gave_up out_of_draws : Generated
  password : Text → List ℕ → Generated

unfoldable pub without_ambiguous : Text → Text
unfolding has_char
without_ambiguous [] = []
without_ambiguous (c ∷ s) =
    let rest = without_ambiguous s in if has_char c ambiguous then rest else c ∷ rest

abbrev pub filtered : Bool → Text → Text
filtered avoid s = if avoid then without_ambiguous s else s

abbrev pub set_if : Bool → Text → List Text → List Text
set_if b s rest = if b then s ∷ rest else rest

-- `SETS` of the chosen classes
unfoldable pub active_sets : Options → List Text
active_sets o = set_if o.lower (codes "abcdefghijklmnopqrstuvwxyz") (
    set_if o.upper (codes "ABCDEFGHIJKLMNOPQRSTUVWXYZ") (
      set_if o.digits (codes "0123456789")
        (set_if o.symbols (codes "!#$%&()*+,-./:;<=>?@[]^_{|}~") [])))

unfoldable pub filter_sets : Bool → List Text → List Text
unfolding without_ambiguous
filter_sets avoid [] = []
filter_sets avoid (s ∷ ss) = filtered avoid s ∷ filter_sets avoid ss

abbrev pub is_none_of : Text → Bool
is_none_of [] = true
is_none_of (c ∷ s) = false

unfoldable pub some_empty : List Text → Bool
some_empty [] = false
some_empty (s ∷ ss) = is_none_of s || some_empty ss

-- `sets.join('')`
unfoldable pub joined : List Text → Text
joined [] = []
joined (s ∷ ss) = s ++ joined ss

unfoldable pub nth_char : ℕ → Text → ℕ
nth_char i [] = 0
nth_char zero (c ∷ s) = c
nth_char (suc i) (c ∷ s) = nth_char i s

-- A text and the draws that are left, or none where they are used up
abbrev pub Drawing : Type 0
Drawing = Option (Text × List ℕ)

abbrev pub put_drawn : ℕ → Drawing → Drawing
put_drawn c none = none
put_drawn c (some (s, xs)) = some (c ∷ s, xs)

abbrev pub next_char : Text → Drawn → (List ℕ → Drawing) → Drawing
next_char pool range_error next = none
next_char pool still_drawing next = none
next_char pool (drawn r xs) next = put_drawn (nth_char r pool) (next xs)

-- `draw`
unfoldable pub draw : Text → ℕ → List ℕ → Drawing
unfolding nth_char
draw pool zero xs = some ([], xs)
draw pool (suc n) xs = next_char pool (random_int (length pool) xs) (λ ys. draw pool n ys)

-- `[...candidate].some((c) => s.includes(c))`
unfoldable pub shares : Text → Text → Bool
unfolding has_char
shares s [] = false
shares s (c ∷ t) = has_char c s || shares s t

unfoldable pub has_every : List Text → Text → Bool
unfolding shares
has_every [] t = true
has_every (s ∷ ss) t = shares s t && has_every ss t

abbrev pub or_again : Bool → Text → List ℕ → (List ℕ → Generated) → Generated
or_again true t xs again = password t xs
or_again false t xs again = again xs

abbrev pub check_candidate : List Text → Drawing → (List ℕ → Generated) → Generated
check_candidate sets none again = out_of_draws
check_candidate sets (some (t, xs)) again = or_again (has_every sets t) t xs again

-- The loop, with the attempts that are left
unfoldable pub attempt : List Text → ℕ → ℕ → List ℕ → Generated
unfolding draw has_every joined
attempt sets n zero xs = gave_up
attempt sets n (suc left) xs =
    check_candidate sets (draw (joined sets) n xs) (λ ys. attempt sets n left ys)

abbrev pub attempts : ℕ
attempts = 1000

abbrev pub no_sets : List Text → Bool
no_sets [] = true
no_sets (s ∷ ss) = false

-- An error that is thrown, or what follows
abbrev pub or_else_error : Bool → Generated → Generated → Generated
or_else_error true e g = e
or_else_error false e g = g

-- `generate`
unfoldable pub generate : Options → List ℕ → Generated
unfolding active_sets filter_sets some_empty attempt
generate o xs =
    let active = active_sets o in
    let sets = filter_sets o.avoid_ambiguous active in
    or_else_error (no_sets active) no_set (
      or_else_error (ltb o.length (length active)) too_short
        (or_else_error (some_empty sets) empty_set (attempt sets o.length attempts xs)))
