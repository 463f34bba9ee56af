-- ===== src/Text/Laws.antt =====
-- Laws of the comparisons of texts.
use bencpass.Prelude.{
  ◌-◌, ◌≡◌, refl, ap, inl, inr, ◌↔◌, true, [], ◌∷◌, ◌++◌, arith, Bool-cases, length, length-append,
  take,
}
use bencpass.Text.{Text, same, ends_with, drop_end}

pub same_refl : (s : Text) → same s s ≡ true
unfolding same
same_refl [] = refl
same_refl (x ∷ s) = ground (arith, same_refl s)

pub eq_of_same : (s t : Text) → same s t ≡ true → s ≡ t
unfolding same
eq_of_same [] [] h = refl
eq_of_same (x ∷ s) (y ∷ t) h = ground (arith, eq_of_same s t)
eq_of_same [] (y ∷ t) h = ground arith
eq_of_same (x ∷ s) [] h = ground arith

pub same_iff : (s t : Text) → (same s t ≡ true) ↔ (s ≡ t)
same_iff s t = (eq_of_same s t, λ e. rw e (same_refl t))

-- A text ends in `t` exactly when `t` is what is left after some first part.
pub ends_with-split : (s t : Text) → ends_with s t ≡ true → (u : Text) × (s ≡ u ++ t)
unfolding ends_with
ends_with-split [] t h = ([], eq_of_same [] t h)
ends_with-split (x ∷ s) t h = elim (Bool-cases (same (x ∷ s) t)) [
  | inl e ↦ ([], eq_of_same (x ∷ s) t e)
  | inr e ↦ let (u, p) = ends_with-split s t (rw e at h) in (x ∷ u, ap (λ (v : Text). x ∷ v) p)
]

pub take-append : (s t : Text) → take (length s) (s ++ t) ≡ s
take-append [] t = refl
take-append (x ∷ s) t = ap (λ (v : Text). x ∷ v) (take-append s t)

pub drop_end-append : (s t : Text) → drop_end (length t) (s ++ t) ≡ s
unfolding drop_end
drop_end-append s t =
    let e : length (s ++ t) - length t ≡ length s = omega (arith, length-append s t) in
    rw e (take-append s t)
