-- ===== src/Recovery/Typed.antt =====
-- What a recovery code comes to, however it is typed (src/core/recovery.js).

use native.Mathlib.Nat.{mod-lt}
use mathlib.Core.Path.{subst}
use bencpass.Prelude.{
  ltb, sym, ◌*◌, ℕ, zero, suc, ◌<◌, ◌≡◌, ◌∙◌, refl, ap, Bool, true, ◌&&◌, Option, none, some, List,
  [], ◌∷◌, ◌++◌, ◌==◌, arith, Bool-cases, inl, inr, All, below, below-all, length, length-append,
}
use bencpass.Text.{Text, has_char, to_lower, lower_char, join, join_more}
use bencpass.Generate.{Drawn, range_error, still_drawing, drawn, limit, sample, random_int}
use bencpass.Recovery.{
  add_group, then_groups, alphabet, alphabet_size, Written, put_first, then_group, char_at,
  draw_group, draw_groups, group_size, groups, code_length, dashed, new_recovery_code, upper_char,
  is_letter, normalise,
}

abbrev Comes : ℕ → Type 0
Comes c = (is_letter c ≡ true) × (upper_char c ≡ c) × (upper_char (lower_char c) ≡ c)

-- Typing it in either case gives it back.
comes_back : ℕ → Bool
unfolding is_letter upper_char
comes_back i =
    let c = char_at i alphabet in
    is_letter c && (upper_char c == c) && (upper_char (lower_char c) == c)

all_come_back : below 31 comes_back ≡ true
unfolding comes_back
all_come_back = refl

by_test :
    (c : ℕ)
    → (is_letter c && (upper_char c == c) && (upper_char (lower_char c) == c)) ≡ true
    → Comes c
by_test c h = (ground (arith, h), ground (arith, h), ground (arith, h))

char_at-Comes : (i : ℕ) → i < 31 → Comes (char_at i alphabet)
unfolding comes_back
char_at-Comes i h = by_test (char_at i alphabet) (below-all 31 i comes_back all_come_back h)

normalise-append : (s t : Text) → normalise (s ++ t) ≡ normalise s ++ normalise t
unfolding normalise
normalise-append [] t = refl
normalise-append (c ∷ s) t = ground (arith, normalise-append s t)

-- Letters come back from either case.
normalise-letters : (s : Text) → All Comes s → normalise s ≡ s
unfolding normalise
normalise-letters [] h = refl
normalise-letters (c ∷ s) h = rw (h.0.1, h.0.0, normalise-letters s h.1) refl

normalise-lower_letters : (s : Text) → All Comes s → normalise (to_lower s) ≡ s
unfolding normalise to_lower
normalise-lower_letters [] h = refl
normalise-lower_letters (c ∷ s) h = rw (h.0.2, h.0.0, normalise-lower_letters s h.1) refl

IsBelow : ℕ → Drawn → Type 0
IsBelow max (drawn i rest) = i < max
IsBelow max range_error = Unit
IsBelow max still_drawing = Unit

sample-IsBelow : (max : ℕ) (draws : List ℕ) → 0 < max → IsBelow max (sample max draws)
unfolding sample IsBelow
sample-IsBelow max [] p = tt
sample-IsBelow max (x ∷ xs) p = elim (Bool-cases (ltb x (limit max))) [
  | inl t ↦ rw t (mod-lt x p)
  | inr t ↦ rw t (sample-IsBelow max xs p)
]

-- What has been written is of the alphabet, and of the length asked for.
IsGroup : ℕ → Written → Type 0
IsGroup n none = Unit
IsGroup n (some (s, rest)) = All Comes s × (length s ≡ n)

then_group-IsGroup :
    (n : ℕ) (more : List ℕ → Written) (d : Drawn)
    → IsBelow alphabet_size d
    → ((rest : List ℕ) → IsGroup n (more rest))
    → IsGroup (suc n) (then_group more d)
unfolding IsGroup IsBelow
then_group-IsGroup n more (drawn i rest) h k = put (more rest) (k rest)
  where
    put : (w : Written) → IsGroup n w → IsGroup (suc n) (put_first (char_at i alphabet) w)
    put none g = tt
    put (some (s, r)) g = ((char_at-Comes i h, g.0), ap suc g.1)
then_group-IsGroup n more range_error h k = tt
then_group-IsGroup n more still_drawing h k = tt

draw_group-IsGroup : (n : ℕ) (draws : List ℕ) → IsGroup n (draw_group n draws)
unfolding draw_group IsGroup random_int
draw_group-IsGroup zero draws = (tt, refl)
draw_group-IsGroup (suc n) draws =
    then_group-IsGroup n (draw_group n) (sample alphabet_size draws)
      (sample-IsBelow alphabet_size draws (omega arith)) (draw_group-IsGroup n)

-- The dashes are dropped.
dash_dropped : normalise (b'-' ∷ []) ≡ []
unfolding normalise is_letter upper_char has_char
dash_dropped = refl

to_lower-append : (s t : Text) → to_lower (s ++ t) ≡ to_lower s ++ to_lower t
unfolding to_lower
to_lower-append [] t = refl
to_lower-append (c ∷ s) t = ap (λ (u : Text). lower_char c ∷ u) (to_lower-append s t)

-- The letters of the groups, one after the other.
abbrev pub letters : List Text → Text
letters [] = []
letters (g ∷ gs) = g ++ letters gs

AreGroups : List Text → Type 0
AreGroups gs = All (λ (g : Text). All Comes g × (length g ≡ 5)) gs

normalise-dash : (s : Text) → normalise (b'-' ∷ s) ≡ normalise s
normalise-dash s = normalise-append (b'-' ∷ []) s ∙ ap (λ (u : Text). u ++ normalise s) dash_dropped

normalise-join_more : (gs : List Text) → AreGroups gs → normalise (join_more b'-' gs) ≡ letters gs
unfolding AreGroups normalise
normalise-join_more [] h = refl
normalise-join_more (g ∷ gs) h =
    normalise-dash (g ++ join_more b'-' gs)
    ∙ normalise-append g (join_more b'-' gs)
    ∙ rw (normalise-letters g h.0.0, normalise-join_more gs h.1) refl

normalise-lower_join_more :
    (gs : List Text) → AreGroups gs → normalise (to_lower (join_more b'-' gs)) ≡ letters gs
unfolding AreGroups normalise to_lower
normalise-lower_join_more [] h = refl
normalise-lower_join_more (g ∷ gs) h =
    normalise-dash (to_lower (g ++ join_more b'-' gs))
    ∙ ap normalise (to_lower-append g (join_more b'-' gs))
    ∙ normalise-append (to_lower g) (to_lower (join_more b'-' gs))
    ∙ rw (normalise-lower_letters g h.0.0, normalise-lower_join_more gs h.1) refl

length-letters : (gs : List Text) → AreGroups gs → length (letters gs) ≡ length gs * 5
unfolding AreGroups
length-letters [] h = refl
length-letters (g ∷ gs) h =
    omega (arith, length-append g (letters gs), h.0.1, length-letters gs h.1)

AreDrawn : ℕ → Option (List Text × List ℕ) → Type 0
AreDrawn n none = Unit
AreDrawn n (some (gs, rest)) = AreGroups gs × (length gs ≡ n)

then_groups-AreDrawn :
    (n : ℕ) (more : List ℕ → Option (List Text × List ℕ)) (w : Written)
    → IsGroup 5 w
    → ((rest : List ℕ) → AreDrawn n (more rest))
    → AreDrawn (suc n) (then_groups more w)
unfolding AreDrawn IsGroup AreGroups
then_groups-AreDrawn n more none h k = tt
then_groups-AreDrawn n more (some (g, rest)) h k = put (more rest) (k rest)
  where
    put : (o : Option (List Text × List ℕ)) → AreDrawn n o → AreDrawn (suc n) (add_group g o)
    put none q = tt
    put (some (gs, r)) q = ((h, q.0), ap suc q.1)

draw_groups-AreDrawn : (n : ℕ) (draws : List ℕ) → AreDrawn n (draw_groups n draws)
unfolding draw_groups AreDrawn AreGroups
draw_groups-AreDrawn zero draws = (tt, refl)
draw_groups-AreDrawn (suc n) draws =
    then_groups-AreDrawn n (draw_groups n) (draw_group group_size draws)
      (draw_group-IsGroup 5 draws) (draw_groups-AreDrawn n)

-- A code as it is read back: the six groups, without the dashes.
IsCode : Written → Type 0
IsCode none = Unit
IsCode (some (code, rest)) =
    (length (normalise code) ≡ code_length) × (normalise (to_lower code) ≡ normalise code)

joined-IsCode :
    (gs : List Text) (rest : List ℕ)
    → AreGroups gs
    → length gs ≡ 6
    → IsCode (some (join b'-' gs, rest))
unfolding IsCode join AreGroups
joined-IsCode [] rest h q = absurd (omega (arith, q))
joined-IsCode (g ∷ gs) rest h q =
    let upper : normalise (g ++ join_more b'-' gs) ≡ g ++ letters gs =
      normalise-append g (join_more b'-' gs)
      ∙ rw (normalise-letters g h.0.0, normalise-join_more gs h.1) refl in
    let lower : normalise (to_lower (g ++ join_more b'-' gs)) ≡ g ++ letters gs =
      ap normalise (to_lower-append g (join_more b'-' gs))
      ∙ normalise-append (to_lower g) (to_lower (join_more b'-' gs))
      ∙ rw (normalise-lower_letters g h.0.0, normalise-lower_join_more gs h.1) refl in
    (ap length upper ∙ length-letters (g ∷ gs) h ∙ ap (λ (n : ℕ). n * 5) q, lower ∙ sym upper)

dashed-IsCode : (o : Option (List Text × List ℕ)) → AreDrawn 6 o → IsCode (dashed o)
unfolding AreDrawn IsCode
dashed-IsCode none h = tt
dashed-IsCode (some (gs, rest)) h = joined-IsCode gs rest h.0 h.1

written-IsCode :
    (w : Written) (code : Text) (rest : List ℕ)
    → IsCode w
    → w ≡ some (code, rest)
    → IsCode (some (code, rest))
written-IsCode w code rest h q = subst IsCode q h

-- A recovery code that the draws give has, when it is read back, 30 letters of the alphabet, and
-- reads back as the same in lower case.
pub new_recovery_code-typed :
    (draws : List ℕ) (code : Text) (rest : List ℕ)
    → new_recovery_code draws ≡ some (code, rest)
    → (length (normalise code) ≡ code_length) × (normalise (to_lower code) ≡ normalise code)
unfolding new_recovery_code IsCode
new_recovery_code-typed draws code rest h =
    written-IsCode (dashed (draw_groups groups draws)) code rest
      (dashed-IsCode (draw_groups groups draws) (draw_groups-AreDrawn 6 draws)) h
