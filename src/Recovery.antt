-- ===== src/Recovery.antt =====
-- Recovery codes (src/core/recovery.js).
pub mod Typed
mod Tests
use bencpass.Prelude.{
  ℕ, zero, suc, ◌-◌, Bool, ◌&&◌, Option, none, some, List, [], ◌∷◌, leb, ◌==◌, length,
  if◌then◌else◌,
}
use bencpass.Text.{Text, has_char, join}
use bencpass.Text.Codes.{codes}
use bencpass.Generate.{Drawn, range_error, still_drawing, drawn, random_int}

-- `ALPHABET`
abbrev pub alphabet : Text
alphabet = codes "ABCDEFGHJKMNPQRSTUVWXYZ23456789"

-- ALPHABET.length
abbrev pub alphabet_size : ℕ
alphabet_size = 31

-- ALPHABET[i]
abbrev pub char_at : ℕ → Text → ℕ
char_at i [] = 0
char_at zero (c ∷ s) = c
char_at (suc i) (c ∷ s) = char_at i s

abbrev pub group_size : ℕ
group_size = 5

abbrev pub groups : ℕ
groups = 6

-- `CODE_LENGTH`
abbrev pub code_length : ℕ
code_length = 30

-- A text and the draws that are left, or none while the loops still ask for draws.
abbrev pub Written : Type 0
Written = Option (Text × List ℕ)

abbrev pub put_first : ℕ → Written → Written
put_first c none = none
put_first c (some (s, rest)) = some (c ∷ s, rest)

-- One character, and what follows it.
abbrev pub then_group : (List ℕ → Written) → Drawn → Written
then_group more (drawn i rest) = put_first (char_at i alphabet) (more rest)
then_group more range_error = none
then_group more still_drawing = none

-- The inner loop of `newRecoveryCode`.
unfoldable pub draw_group : ℕ → List ℕ → Written
unfolding random_int
draw_group zero draws = some ([], draws)
draw_group (suc n) draws = then_group (draw_group n) (random_int alphabet_size draws)

abbrev pub add_group : Text → Option (List Text × List ℕ) → Option (List Text × List ℕ)
add_group g none = none
add_group g (some (gs, rest)) = some (g ∷ gs, rest)

abbrev pub then_groups :
    (List ℕ → Option (List Text × List ℕ)) → Written → Option (List Text × List ℕ)
then_groups more none = none
then_groups more (some (g, rest)) = add_group g (more rest)

-- The outer loop.
unfoldable pub draw_groups : ℕ → List ℕ → Option (List Text × List ℕ)
unfolding draw_group
draw_groups zero draws = some ([], draws)
draw_groups (suc n) draws = then_groups (draw_groups n) (draw_group group_size draws)

abbrev pub dashed : Option (List Text × List ℕ) → Written
dashed none = none
dashed (some (gs, rest)) = some (join b'-' gs, rest)

-- `newRecoveryCode`
unfoldable pub new_recovery_code : List ℕ → Written
unfolding draw_groups join
new_recovery_code draws = dashed (draw_groups groups draws)

-- One character of `toUpperCase`, for ASCII.
unfoldable pub upper_char : ℕ → ℕ
upper_char c = if leb b'a' c && leb c b'z' then c - 32 else c

-- allowed.has(c)
unfoldable pub is_letter : ℕ → Bool
unfolding has_char
is_letter c = has_char c alphabet

-- `normalise`
unfoldable pub normalise : Text → Text
normalise [] = []
normalise (c ∷ s) =
    let rest = normalise s in if is_letter (upper_char c) then upper_char c ∷ rest else rest
