-- ===== src/Generate/Tests.antt =====
-- Concrete draws.
use bencpass.Prelude.{
  ℕ, ◌≡◌, ◌<◌, ◌≤◌, ◌+◌, ◌*◌, ◌/◌, ◌↔◌, refl, List, [], ◌∷◌, arith, inl, inr, true, false,
}
use bencpass.Text.Codes.{codes}
use bencpass.Generate.Password.{Options, password, generate}
use bencpass.Generate.Chosen.{IsAsChosen, generate-IsAsChosen}
use bencpass.Generate.{draw_bound, drawn, range_error, sample, random_int}
use bencpass.Generate.Uniform.{random_int-uniform, random_int-ends}

-- The last 46 draws are turned down for 50 characters.
rejected : random_int 50 (4294967250 ∷ 4294967295 ∷ 107 ∷ 3 ∷ []) ≡ drawn 7 (3 ∷ [])
unfolding random_int sample
rejected = refl

out_of_range : random_int 4294967297 (1 ∷ []) ≡ range_error
unfolding random_int
out_of_range = refl

random_int-uniform_example :
    ((random_int 50 (107 ∷ []) ≡ drawn 7 [])
      ↔ ((q : ℕ) × (q < draw_bound / 50) × (107 ≡ q * 50 + 7)))
    × (draw_bound / 50 * 50 ≤ 107 → random_int 50 (107 ∷ []) ≡ random_int 50 [])
random_int-uniform_example =
    random_int-uniform 50 7 107 [] (omega arith) (omega arith) (omega arith)

random_int-ends_example :
    (n : ℕ) × (rest : List ℕ) × (random_int 50 (4294967295 ∷ 107 ∷ []) ≡ drawn n rest) × (n < 50)
random_int-ends_example =
    random_int-ends 50 (4294967295 ∷ 107 ∷ []) (omega arith) (omega arith) (inr (inl (omega arith)))

abbrev options : Options
options = record {
  length = 2;
  lower = true;
  upper = false;
  digits = true;
  symbols = false;
  avoid_ambiguous = true;
}

-- `aa` lacks a digit and is drawn again.
abbrev draws : List ℕ
draws = 0 ∷ 0 ∷ 1 ∷ 29 ∷ 5 ∷ []

generate-IsAsChosen_example : IsAsChosen options (generate options draws)
generate-IsAsChosen_example = generate-IsAsChosen options draws

drawn_again : generate options draws ≡ password (codes "b9") (5 ∷ [])
unfolding generate random_int
drawn_again = refl
