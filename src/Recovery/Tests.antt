-- ===== src/Recovery/Tests.antt =====
-- Concrete codes.
use bencpass.Prelude.{ℕ, ◌≡◌, refl, List, [], ◌∷◌}
use bencpass.Text.{has_char}
use bencpass.Text.Codes.{codes}
use bencpass.Recovery.{is_letter, upper_char, normalise}

typed : normalise (codes "ab-c 0o") ≡ codes "ABC"
unfolding normalise is_letter upper_char has_char
typed = refl

abbrev draws : List ℕ
draws =
    0 ∷ 1 ∷ 2 ∷ 3 ∷ 4 ∷ 5 ∷ 6 ∷ 7 ∷ 8 ∷ 9 ∷ 10 ∷ 11 ∷ 12 ∷ 13 ∷ 14 ∷ 15 ∷ 16 ∷ 17 ∷ 18 ∷ 19 ∷ 20
    ∷ 21 ∷ 22 ∷ 23 ∷ 24 ∷ 25 ∷ 26 ∷ 27 ∷ 28 ∷ 29 ∷ []
