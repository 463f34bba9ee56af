-- ===== src/Prelude/Lists.antt =====
-- Lists: length, predicates by recursion, and folds.
use Prim.Native.Nat.{ℕ, zero, suc, ◌+◌, ◌≤◌, ◌<◌}
use Prim.Native.String.{String}
use mathlib.Core.Path.{◌≡◌, refl, ap}
use mathlib.Core.Logic.{◌⊎◌, inl, inr}
use mathlib.Core.Bool.{Bool, true, false, ◌||◌, ◌&&◌}
use mathlib.Core.List.{List, [], ◌∷◌, ◌++◌}
use native.Mathlib.Omega.{arith}
use bencpass.Prelude.Tests.{Bool-cases, ltb, ltb→lt, if◌then◌else◌}
use text.Mathlib.Text.{◌==◌ as text_beq}
use text.Mathlib.TextEquality.{eq_iff}

module _ {ℓ} {A : Type ℓ} where
  abbrev pub length : List A → ℕ
  length [] = 0
  length (x ∷ xs) = suc (length xs)

  -- xs.slice(0, n)
  abbrev pub take : ℕ → List A → List A
  take zero xs = []
  take (suc n) [] = []
  take (suc n) (x ∷ xs) = x ∷ take n xs

  pub take-take : (n : ℕ) (xs : List A) → take n (take (suc n) xs) ≡ take n xs
  take-take zero xs = refl
  take-take (suc n) [] = refl
  take-take (suc n) (x ∷ xs) = ap (λ (l : List A). x ∷ l) (take-take n xs)

  pub length-take_le : (n : ℕ) (xs : List A) → length (take n xs) ≤ n
  length-take_le zero xs = omega arith
  length-take_le (suc n) [] = omega arith
  length-take_le (suc n) (x ∷ xs) = omega (arith, length-take_le n xs)

  pub length-append : (xs ys : List A) → length (xs ++ ys) ≡ length xs + length ys
  length-append [] ys = omega arith
  length-append (x ∷ xs) ys = omega (arith, length-append xs ys)

module _ {ℓ} {A : Type ℓ} (P : A → Type 0) where
  abbrev pub All : List A → Type 0
  All [] = Unit
  All (x ∷ xs) = P x × All xs

  abbrev pub Any : List A → Type 0
  Any [] = ⊥
  Any (x ∷ xs) = P x ⊎ Any xs

  pub All-concat : (xs : List A) (x : A) → All xs → P x → All (xs ++ x ∷ [])
  All-concat [] x _ p = (p, tt)
  All-concat (y ∷ xs) x (q, h) p = (q, All-concat xs x h p)

  pub Any-concat_left : (xs : List A) (x : A) → Any xs → Any (xs ++ x ∷ [])
  Any-concat_left [] x h = elim h [ ]
  Any-concat_left (y ∷ xs) x (inl p) = inl p
  Any-concat_left (y ∷ xs) x (inr h) = inr (Any-concat_left xs x h)

  pub Any-concat_right : (xs : List A) (x : A) → P x → Any (xs ++ x ∷ [])
  Any-concat_right [] x p = inl p
  Any-concat_right (y ∷ xs) x p = inr (Any-concat_right xs x p)

  pub All-empty : (xs : List A) → All xs → ((x : A) → P x → ⊥) → xs ≡ []
  All-empty [] h f = refl
  All-empty (x ∷ xs) h f = absurd (f x h.0)

  pub All-concat_if :
      (b : Bool) (xs : List A) (x : A)
      → All xs
      → (b ≡ true → P x)
      → All (if b then xs ++ x ∷ [] else xs)
  All-concat_if true xs x h p = All-concat xs x h (p refl)
  All-concat_if false xs x h p = h

  pub Any-concat_if :
      (b : Bool) (xs : List A) (x : A) → Any xs → Any (if b then xs ++ x ∷ [] else xs)
  Any-concat_if true xs x h = Any-concat_left xs x h
  Any-concat_if false xs x h = h

abbrev pub contains : String → List String → Bool
contains k [] = false
contains k (j ∷ js) = text_beq j k || contains k js

-- Folds over lists of ids.
module _ {ℓ} {S : Type ℓ} (step : S → String → S) where
  abbrev pub run : S → List String → S
  run s [] = s
  run s (i ∷ is) = run (step s i) is

  -- What every step keeps, the run keeps.
  pub run_keeps {κ} :
      (P : S → Type κ)
      → ((s : S) (i : String) → P s → P (step s i))
      → (s : S) (is : List String) → P s
      → P (run s is)
  run_keeps P keep s [] h = h
  run_keeps P keep s (i ∷ is) h = run_keeps P keep (step s i) is (keep s i h)

  -- Under an invariant, what the step at `k` brings about and every step keeps holds after a run
  -- through `k`.
  pub run_reaches {κ} :
      (I P : S → Type κ) (k : String)
      → ((s : S) (i : String) → I s → I (step s i))
      → ((s : S) (i : String) → P s → P (step s i))
      → ((s : S) → I s → P (step s k))
      → (s : S) (is : List String) → I s
      → contains k is ≡ true
      → P (run s is)
  run_reaches I P k keep_i keep brings s [] inv h = cc
  run_reaches I P k keep_i keep brings s (i ∷ is) inv h = elim (Bool-cases (text_beq i k)) [
    | inl e ↦ run_keeps P keep (step s i) is (rw ((eq_iff i k).0 e) (brings s inv))
    | inr e ↦ run_reaches I P k keep_i keep brings (step s i) is (keep_i s i inv) (rw e at h)
  ]

last_below : (i n : ℕ) → i < suc n → ltb i n ≡ false → i ≡ n
last_below i n h k = ground (arith, h, k)

-- A test at every number below `n`.
abbrev pub below : ℕ → (ℕ → Bool) → Bool
below zero f = true
below (suc n) f = f n && below n f

pub below-all : (n i : ℕ) (f : ℕ → Bool) → below n f ≡ true → i < n → f i ≡ true
below-all zero i f h k = absurd (omega (arith, k))
below-all (suc n) i f h k = elim (Bool-cases (ltb i n)) [
  | inl e ↦ below-all n i f (ground (arith, h)) (omega (arith, ltb→lt i n e))
  | inr e ↦ rw (last_below i n k e) (ground (arith, h))
]
