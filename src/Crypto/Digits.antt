-- ===== src/Crypto/Digits.antt =====
-- The revision in the additional data of a seal, read back (src/core/crypto.js).
use bencpass.Prelude.{
  ℕ, zero, suc, ◌+◌, ◌-◌, ◌*◌, ◌/◌, ◌%◌, ◌<◌, ◌≡◌, ◌∙◌, refl, ap, false, [], ◌∷◌, ◌++◌, arith, ltb,
  Bool-cases, inl, inr,
}
use bencpass.Text.{Text}
use bencpass.Crypto.{digits, digits_from}

-- The number that decimal digits stand for, after those read so far.
abbrev pub value_after : ℕ → Text → ℕ
value_after n [] = n
value_after n (c ∷ s) = value_after (n * 10 + (c - 48)) s

value_after-snoc :
    (n : ℕ) (s : Text) (c : ℕ) → value_after n (s ++ c ∷ []) ≡ value_after n s * 10 + (c - 48)
value_after-snoc n [] c = refl
value_after-snoc n (d ∷ s) c = value_after-snoc (n * 10 + (d - 48)) s c

tenth_lt : (fuel n : ℕ) → ltb n 10 ≡ false → n < suc fuel → n / 10 < fuel
tenth_lt fuel n t h = ground (arith, t, h)

value_after-digits_from : (fuel n : ℕ) → n < fuel → value_after 0 (digits_from fuel n) ≡ n
unfolding digits_from
value_after-digits_from zero n h = omega (arith, h)
value_after-digits_from (suc fuel) n h = elim (Bool-cases (ltb n 10)) [
  | inl t ↦ rw t (omega arith)
  | inr t ↦ rw t (
      value_after-snoc 0 (digits_from fuel (n / 10)) (48 + n % 10)
      ∙ ap (λ (m : ℕ). m * 10 + (48 + n % 10 - 48))
          (value_after-digits_from fuel (n / 10) (tenth_lt fuel n t h))
      ∙ omega arith)
]

-- The digits that a revision is printed with into the additional data of its seal read back as the
-- revision, whatever its length.
pub value_after-digits : (n : ℕ) → value_after 0 (digits n) ≡ n
unfolding digits
value_after-digits n = value_after-digits_from (suc n) n (omega arith)
