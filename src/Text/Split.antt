-- ===== src/Text/Split.antt =====
-- `split` and `join` at one separator.
use bencpass.Prelude.{
  ℕ, ◌≡◌, ◌≢◌, ◌∙◌, refl, inl, inr, ap, false, List, [], ◌∷◌, ◌++◌, arith, Bool-cases, All, ◌==◌,
}
use mathlib.Core.List.{append-nil}
use bencpass.Text.{Text, cons_head, has_char, split, join, join_more}

join-cons_head : (c x : ℕ) (ws : List Text) → ws ≢ [] → join c (cons_head x ws) ≡ x ∷ join c ws
unfolding join
join-cons_head c x [] h = absurd (h refl)
join-cons_head c x (w ∷ ws) h = refl

pub split-ne-nil : (c : ℕ) (s : Text) → split c s ≢ []
unfolding split
split-ne-nil c [] h = cc
split-ne-nil c (x ∷ s) h = ground (arith, split-ne-nil c s)

join-nil_cons : (c : ℕ) (ws : List Text) → ws ≢ [] → join c ([] ∷ ws) ≡ c ∷ join c ws
unfolding join
join-nil_cons c [] h = absurd (h refl)
join-nil_cons c (w ∷ ws) h = refl

pub join-split : (c : ℕ) (s : Text) → join c (split c s) ≡ s
unfolding split
join-split c [] = unfold join in refl
join-split c (x ∷ s) = elim (Bool-cases (x == c)) [
  | inl e ↦ rw e (join-nil_cons c (split c s) (split-ne-nil c s) ∙ ground (arith, join-split c s))
  | inr e ↦ rw e (
      join-cons_head c x (split c s) (split-ne-nil c s) ∙ ap (λ (v : Text). x ∷ v) (join-split c s))
]

abbrev pub IsFree : ℕ → Text → Type 0
IsFree c w = has_char c w ≡ false

IsFree-cons_head :
    (c x : ℕ) (ws : List Text)
    → (x == c) ≡ false
    → All (IsFree c) ws
    → All (IsFree c) (cons_head x ws)
unfolding has_char
IsFree-cons_head c x [] e h = (ground arith, tt)
IsFree-cons_head c x (w ∷ ws) e h = (ground arith, h.1)

pub split-IsFree : (c : ℕ) (s : Text) → All (IsFree c) (split c s)
unfolding split has_char
split-IsFree c [] = (refl, tt)
split-IsFree c (x ∷ s) = elim (Bool-cases (x == c)) [
  | inl e ↦ rw e (refl, split-IsFree c s)
  | inr e ↦ rw e (IsFree-cons_head c x (split c s) e (split-IsFree c s))
]

split_one : (c : ℕ) (w : Text) → IsFree c w → split c w ≡ w ∷ []
unfolding split has_char
split_one c [] h = refl
split_one c (x ∷ w) h = ground (arith, split_one c w)

split_first : (c : ℕ) (w s : Text) → IsFree c w → split c (w ++ c ∷ s) ≡ w ∷ split c s
unfolding split has_char
split_first c [] s h = ground arith
split_first c (x ∷ w) s h = ground (arith, split_first c w s)

-- Splitting a joined list of texts without the separator gives the list back.
pub split-join :
    (c : ℕ) (w : Text) (ws : List Text)
    → All (IsFree c) (w ∷ ws)
    → split c (join c (w ∷ ws)) ≡ w ∷ ws
unfolding join
split-join c w [] h = rw append-nil (split_one c w h.0)
split-join c w (v ∷ ws) h =
    split_first c w (v ++ join_more c ws) h.0
    ∙ ap (λ (vs : List Text). w ∷ vs) (split-join c v ws h.1)
