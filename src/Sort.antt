-- ===== src/Sort.antt =====
-- `Array.prototype.sort` with a comparison: stable, as the language prescribes.
use mathlib.Core.List.{Perm}
use mathlib.Core.List.Perm
use bencpass.Prelude.{
  ◌≡◌, inl, inr, Bool, true, false, List, [], ◌∷◌, Bool-cases, All, Any, if◌then◌else◌,
}

module _ {ℓ} {A : Type ℓ} (leq : A → A → Bool) where
  unfoldable pub insert : A → List A → List A
  insert x [] = x ∷ []
  insert x (y ∷ ys) = if leq x y then x ∷ y ∷ ys else y ∷ insert x ys

  unfoldable pub sort : List A → List A
  unfolding insert
  sort [] = []
  sort (x ∷ xs) = insert x (sort xs)

  pub insert-perm : (x : A) (ys : List A) → Perm (insert x ys) (x ∷ ys)
  unfolding insert
  insert-perm x [] = Perm.refl (x ∷ [])
  insert-perm x (y ∷ ys) = elim (Bool-cases (leq x y)) [
    | inl e ↦ rw e (Perm.refl (x ∷ y ∷ ys))
    | inr e ↦ rw e (Perm.trans (Perm.cons y (insert-perm x ys)) (Perm.swap x y ys))
  ]

  -- The sorted list holds the same items, as often.
  pub sort-perm : (xs : List A) → Perm (sort xs) xs
  unfolding sort
  sort-perm [] = Perm.refl []
  sort-perm (x ∷ xs) = Perm.trans (insert-perm x (sort xs)) (Perm.cons x (sort-perm xs))

  -- No item stands before one that the comparison puts ahead of it.
  abbrev pub IsSorted : List A → Type 0
  IsSorted [] = Unit
  IsSorted (x ∷ xs) = All (λ y. leq x y ≡ true) xs × IsSorted xs

  pub All-insert : (P : A → Type 0) (x : A) (ys : List A) → P x → All P ys → All P (insert x ys)
  unfolding insert
  All-insert P x [] p h = (p, tt)
  All-insert P x (y ∷ ys) p h = elim (Bool-cases (leq x y)) [
    | inl e ↦ rw e (p, h)
    | inr e ↦ rw e (h.0, All-insert P x ys p h.1)
  ]

  pub All-sort : (P : A → Type 0) (xs : List A) → All P xs → All P (sort xs)
  unfolding sort
  All-sort P [] h = tt
  All-sort P (x ∷ xs) h = All-insert P x (sort xs) h.0 (All-sort P xs h.1)

  pub Any-insert_self : (P : A → Type 0) (x : A) (ys : List A) → P x → Any P (insert x ys)
  unfolding insert
  Any-insert_self P x [] p = inl p
  Any-insert_self P x (y ∷ ys) p = elim (Bool-cases (leq x y)) [
    | inl e ↦ rw e (inl p)
    | inr e ↦ rw e (inr (Any-insert_self P x ys p))
  ]

  pub Any-insert_other : (P : A → Type 0) (x : A) (ys : List A) → Any P ys → Any P (insert x ys)
  unfolding insert
  Any-insert_other P x [] h = elim h [ ]
  Any-insert_other P x (y ∷ ys) h = elim (Bool-cases (leq x y)) [
    | inl e ↦ rw e (inr h)
    | inr e ↦ rw e (elim h [ inl p ↦ inl p | inr k ↦ inr (Any-insert_other P x ys k) ])
  ]

  pub Any-sort : (P : A → Type 0) (xs : List A) → Any P xs → Any P (sort xs)
  unfolding sort
  Any-sort P [] h = h
  Any-sort P (x ∷ xs) (inl p) = Any-insert_self P x (sort xs) p
  Any-sort P (x ∷ xs) (inr h) = Any-insert_other P x (sort xs) (Any-sort P xs h)

  -- A comparison that orders every pair, and is transitive.
  pub record IsOrder : Type ℓ where
    pub total : (x y : A) → leq x y ≡ false → leq y x ≡ true
    pub trans : (x y z : A) → leq x y ≡ true → leq y z ≡ true → leq x z ≡ true

  All-below :
      (o : IsOrder) (x y : A) (ys : List A)
      → leq x y ≡ true
      → All (λ z. leq y z ≡ true) ys
      → All (λ z. leq x z ≡ true) ys
  All-below o x y [] e h = tt
  All-below o x y (z ∷ ys) e h = (o.trans x y z e h.0, All-below o x y ys e h.1)

  insert-IsSorted : (o : IsOrder) (x : A) (ys : List A) → IsSorted ys → IsSorted (insert x ys)
  unfolding insert
  insert-IsSorted o x [] s = (tt, tt)
  insert-IsSorted o x (y ∷ ys) s = elim (Bool-cases (leq x y)) [
    | inl e ↦ rw e ((e, All-below o x y ys e s.0), s)
    | inr e ↦
        rw e (All-insert (λ z. leq y z ≡ true) x ys (o.total x y e) s.0, insert-IsSorted o x ys s.1)
  ]

  pub sort-IsSorted : (o : IsOrder) (xs : List A) → IsSorted (sort xs)
  unfolding sort
  sort-IsSorted o [] = tt
  sort-IsSorted o (x ∷ xs) = insert-IsSorted o x (sort xs) (sort-IsSorted o xs)
