-- ===== src/Generate.antt =====
-- Drawing numbers for passwords and recovery codes (src/core/generate.js).
pub mod Uniform
pub mod Password
pub mod Classes
pub mod Chosen
mod Tests
use bencpass.Prelude.{
  ℕ, Bool, true, false, ◌||◌, ◌*◌, ◌/◌, ◌%◌, Option, none, some, List, [], ◌∷◌, ltb, ◌==◌,
  if◌then◌else◌,
}

-- 2 ** 32
abbrev pub draw_bound : ℕ
draw_bound = 4294967296

-- `Math.floor(2 ** 32 / max) * max`
abbrev pub limit : ℕ → ℕ
limit max = draw_bound / max * max

-- What came of a call: an error for a `max` out of range, a number and the draws that are left, or
-- the loop still asking when the given draws are used up.
pub data Drawn : Type 0 where
  range_error : Drawn
  still_drawing : Drawn
  drawn : ℕ → List ℕ → Drawn

-- The loop, over the 32-bit numbers that the platform hands out.
unfoldable pub sample : ℕ → List ℕ → Drawn
sample max [] = still_drawing
sample max (x ∷ xs) =
    let rest = sample max xs in if ltb x (limit max) then drawn (x % max) xs else rest

-- `randomInt`
unfoldable pub random_int : ℕ → List ℕ → Drawn
unfolding sample
random_int max draws = if (max == 0) || ltb draw_bound max then range_error else sample max draws
