-- ===== src/Generate/Uniform.antt =====
-- No number is likelier than another, and the loop ends (src/core/generate.js).

use native.Mathlib.Nat.{
  div-lt_iff_lt-mul, div-add-mod, mod-lt, lt-div-mul-add, mul_comm, add-mul-div_left,
  add-mul-mod_self_left, mod-eq_of_lt, div-eq_of_lt, le-div_iff_mul-le, mul-le-mul_right,
}
use bencpass.Prelude.{
  ℕ, ◌≡◌, ◌<◌, ◌≤◌, ◌+◌, ◌*◌, ◌/◌, ◌%◌, ◌↔◌, refl, sym, ap, ◌∙◌, List, [], ◌∷◌, arith, Bool-cases,
  inl, inr, ltb, Any, length,
}
use bencpass.Generate.{
  Drawn, range_error, still_drawing, draw_bound, limit, drawn, sample, random_int,
}

-- The draw that has quotient `q` and rest `r`.
nth-div : (max q r : ℕ) → r < max → (q * max + r) / max ≡ q
nth-div max q r h =
    ap (λ (n : ℕ). n / max) (omega (arith, mul_comm q max))
    ∙ add-mul-div_left r q (omega (arith, h))
    ∙ ap (λ (n : ℕ). n + q) (div-eq_of_lt h)
    ∙ omega arith

nth-mod : (max q r : ℕ) → r < max → (q * max + r) % max ≡ r
nth-mod max q r h =
    ap (λ (n : ℕ). n % max) (omega (arith, mul_comm q max))
    ∙ add-mul-mod_self_left r max q
    ∙ mod-eq_of_lt h

quotient_form : (max x : ℕ) → x ≡ x / max * max + x % max
quotient_form max x = omega (arith, div-add-mod x max, mul_comm max (x / max))

sample-accepted :
    (max x : ℕ) (xs : List ℕ) → x < limit max → sample max (x ∷ xs) ≡ drawn (x % max) xs
unfolding sample
sample-accepted max x xs h = ground (arith, h)

drawn-injective : (m n : ℕ) (xs : List ℕ) → drawn m xs ≡ drawn n xs → m ≡ n
drawn-injective m n xs h = cc

in_range :
    (max : ℕ) (draws : List ℕ)
    → 0 < max
    → max ≤ draw_bound
    → random_int max draws ≡ sample max draws
unfolding random_int
in_range max draws p b = ground arith

abbrev left_of : Drawn → List ℕ
left_of range_error = []
left_of still_drawing = []
left_of (drawn n xs) = xs

-- A number that is drawn uses up at least one draw.
sample-shorter :
    (max n : ℕ) (draws rest : List ℕ) → sample max draws ≡ drawn n rest → length rest < length draws
unfolding sample
sample-shorter max n [] rest h = cc
sample-shorter max n (x ∷ xs) rest h = elim (Bool-cases (ltb x (limit max))) [
  | inl t ↦ omega (arith, ap (λ (d : Drawn). length (left_of d)) (rw t at h))
  | inr t ↦ omega (arith, sample-shorter max n xs rest (rw t at h))
]

sample-rejected : (max x : ℕ) (xs : List ℕ) → limit max ≤ x → sample max (x ∷ xs) ≡ sample max xs
unfolding sample
sample-rejected max x xs h = ground (arith, h)

-- A draw that gives a number at once is below the limit.
taken_below : (max r x : ℕ) (xs : List ℕ) → sample max (x ∷ xs) ≡ drawn r xs → x < limit max
taken_below max r x xs h = elim (Bool-cases (ltb x (limit max))) [
  | inl t ↦ ground (arith, t)
  | inr t ↦ absurd (
      omega (
        arith,
        sample-shorter max r xs xs (sym (sample-rejected max x xs (ground (arith, t))) ∙ h),
      ))
]

-- For a max from 1 to 2^32 and a value r below it, a first draw gives r at once exactly when it is
-- q * max + r for a q below the whole part of 2^32 / max, so equally many draws give each value;
-- and a draw at or above max times that whole part is passed over.
pub random_int-uniform :
    (max r x : ℕ) (xs : List ℕ)
    → 0 < max
    → max ≤ draw_bound
    → r < max
    → ((random_int max (x ∷ xs) ≡ drawn r xs)
        ↔ ((q : ℕ) × (q < draw_bound / max) × (x ≡ q * max + r)))
      × (draw_bound / max * max ≤ x → random_int max (x ∷ xs) ≡ random_int max xs)
random_int-uniform max r x xs p b h = (
  (
    (λ t.
        let small = taken_below max r x xs (sym (in_range max (x ∷ xs) p b) ∙ t) in
        (
          x / max,
          (div-lt_iff_lt-mul p).1 small,
          quotient_form max x
              ∙ ap (λ (n : ℕ). x / max * max + n)
                  (drawn-injective (x % max) r xs
                    (sym (sample-accepted max x xs small) ∙ sym (in_range max (x ∷ xs) p b) ∙ t)),
        )),
    (λ t.
        let small = (div-lt_iff_lt-mul p).0 (rw (t.2, nth-div max t.0 r h) t.1) in
        in_range max (x ∷ xs) p b
        ∙ sample-accepted max x xs small
        ∙ ap (λ (n : ℕ). drawn n xs) (ap (λ (n : ℕ). n % max) t.2 ∙ nth-mod max t.0 r h)),
  ),
  (λ t. in_range max (x ∷ xs) p b ∙ sample-rejected max x xs t ∙ sym (in_range max xs p b)),
)

limit_half : (max : ℕ) → 0 < max → max ≤ draw_bound → draw_bound < limit max + limit max
limit_half max p b = omega (
  arith,
  lt-div-mul-add {a = draw_bound} p,
  mul-le-mul_right {m = 1} {n = draw_bound / max} max ((le-div_iff_mul-le p).1 (omega (arith, b))),
)

sample-ends :
    (max : ℕ) (draws : List ℕ)
    → 0 < max
    → max ≤ draw_bound
    → Any (λ (x : ℕ). x < 2147483648) draws
    → (n : ℕ) × (rest : List ℕ) × (sample max draws ≡ drawn n rest) × (n < max)
unfolding sample
sample-ends max [] p b h = absurd h
sample-ends max (x ∷ xs) p b (inl h) =
    (x % max, xs, sample-accepted max x xs (omega (arith, h, limit_half max p b)), mod-lt x p)
sample-ends max (x ∷ xs) p b (inr h) =
    let later = sample-ends max xs p b h in
    elim (Bool-cases (ltb x (limit max))) [
      | inl t ↦ (x % max, xs, rw t refl, mod-lt x p)
      | inr t ↦ (later.0, later.1, rw t later.2, later.3)
    ]

-- For a max from 1 to 2^32 the loop ends with a number below max as soon as one of the draws is in
-- the lower half of the 32-bit numbers.
pub random_int-ends :
    (max : ℕ) (draws : List ℕ)
    → 0 < max
    → max ≤ draw_bound
    → Any (λ (x : ℕ). x < 2147483648) draws
    → (n : ℕ) × (rest : List ℕ) × (random_int max draws ≡ drawn n rest) × (n < max)
random_int-ends max draws p b h =
    let r = sample-ends max draws p b h in (r.0, r.1, in_range max draws p b ∙ r.2, r.3)
