-- ===== src/Generate/Classes.antt =====
-- What a generated password is made of (src/core/generate.js).
use Prim.Native.Nat.{zero, suc}
use bencpass.Prelude.{
  ℕ, Bool, true, false, Bool-cases, ◌||◌, none, some, List, [], ◌∷◌, ◌<◌, ◌≡◌, refl, inl, inr, All,
  length, ltb, ◌==◌, arith,
}
use bencpass.Text.{Text, has_char}
use bencpass.Generate.{
  Drawn, range_error, still_drawing, drawn, random_int, sample, limit, draw_bound,
}
use bencpass.Generate.Password.{
  Generated, password, joined, nth_char, Drawing, put_drawn, next_char, draw, has_every,
  check_candidate, or_again, attempt,
}

-- A number below `max`, if one was drawn
abbrev IsBelow : ℕ → Drawn → Type 0
IsBelow max range_error = Unit {0}
IsBelow max still_drawing = Unit {0}
IsBelow max (drawn r xs) = r < max

sample-IsBelow : (max : ℕ) (xs : List ℕ) → 0 < max → IsBelow max (sample max xs)
unfolding sample
sample-IsBelow max [] k = tt
sample-IsBelow max (x ∷ xs) k = elim (Bool-cases (ltb x (limit max))) [
  | inl e ↦ rw e (omega (arith, k))
  | inr e ↦ rw e (sample-IsBelow max xs k)
]

random_int-IsBelow : (max : ℕ) (xs : List ℕ) → IsBelow max (random_int max xs)
unfolding random_int
random_int-IsBelow max xs = elim (Bool-cases ((max == 0) || ltb draw_bound max)) [
  | inl e ↦ rw e tt
  | inr e ↦ rw e (sample-IsBelow max xs (ground (arith, e)))
]

has_char-nth_char : (i : ℕ) (s : Text) → i < length s → has_char (nth_char i s) s ≡ true
unfolding has_char nth_char
has_char-nth_char i [] h = ground (arith, h)
has_char-nth_char zero (c ∷ s) h = ground arith
has_char-nth_char (suc i) (c ∷ s) h = ground (arith, has_char-nth_char i s (omega (arith, h)))

-- Characters of the pool, as many as were asked for
abbrev IsDrawn : Text → ℕ → Drawing → Type 0
IsDrawn pool n none = Unit {0}
IsDrawn pool n (some (t, xs)) = (length t ≡ n) × All (λ (c : ℕ). has_char c pool ≡ true) t

put_drawn-IsDrawn :
    (pool : Text) (n c : ℕ) (o : Drawing)
    → has_char c pool ≡ true
    → IsDrawn pool n o
    → IsDrawn pool (suc n) (put_drawn c o)
put_drawn-IsDrawn pool n c none h k = tt
put_drawn-IsDrawn pool n c (some (t, xs)) h k = (omega (arith, k.0), (h, k.1))

next_char-IsDrawn :
    (pool : Text) (n : ℕ) (d : Drawn) (next : List ℕ → Drawing)
    → IsBelow (length pool) d
    → ((xs : List ℕ) → IsDrawn pool n (next xs))
    → IsDrawn pool (suc n) (next_char pool d next)
next_char-IsDrawn pool n range_error next h k = tt
next_char-IsDrawn pool n still_drawing next h k = tt
next_char-IsDrawn pool n (drawn r xs) next h k =
    put_drawn-IsDrawn pool n (nth_char r pool) (next xs) (has_char-nth_char r pool h) (k xs)

draw-IsDrawn : (pool : Text) (n : ℕ) (xs : List ℕ) → IsDrawn pool n (draw pool n xs)
unfolding draw
draw-IsDrawn pool zero xs = (refl, tt)
draw-IsDrawn pool (suc n) xs =
    next_char-IsDrawn pool n (random_int (length pool) xs) (λ ys. draw pool n ys)
      (random_int-IsBelow (length pool) xs) (λ ys. draw-IsDrawn pool n ys)

-- A password of the sets: every class occurs, and nothing else.
abbrev pub IsOfSets : List Text → ℕ → Generated → Type 0
IsOfSets sets n (password t xs) =
    (length t ≡ n) × All (λ (c : ℕ). has_char c (joined sets) ≡ true) t × (has_every sets t ≡ true)
IsOfSets sets n _ = Unit {0}

or_again-IsOfSets :
    (sets : List Text) (n : ℕ) (b : Bool) (t : Text) (xs : List ℕ) (again : List ℕ → Generated)
    → IsDrawn (joined sets) n (some (t, xs))
    → has_every sets t ≡ b
    → ((ys : List ℕ) → IsOfSets sets n (again ys))
    → IsOfSets sets n (or_again b t xs again)
or_again-IsOfSets sets n true t xs again h e k = (h.0, h.1, e)
or_again-IsOfSets sets n false t xs again h e k = k xs

check_candidate-IsOfSets :
    (sets : List Text) (n : ℕ) (o : Drawing) (again : List ℕ → Generated)
    → IsDrawn (joined sets) n o
    → ((xs : List ℕ) → IsOfSets sets n (again xs))
    → IsOfSets sets n (check_candidate sets o again)
check_candidate-IsOfSets sets n none again h k = tt
check_candidate-IsOfSets sets n (some (t, xs)) again h k =
    or_again-IsOfSets sets n (has_every sets t) t xs again h refl k

pub attempt-IsOfSets :
    (sets : List Text) (n left : ℕ) (xs : List ℕ) → IsOfSets sets n (attempt sets n left xs)
unfolding attempt
attempt-IsOfSets sets n zero xs = tt
attempt-IsOfSets sets n (suc left) xs =
    check_candidate-IsOfSets sets n (draw (joined sets) n xs) (λ ys. attempt sets n left ys)
      (draw-IsDrawn (joined sets) n xs) (λ ys. attempt-IsOfSets sets n left ys)
