-- ===== src/Background/Table.antt =====
-- A JavaScript `Map` whose keys are compared by a test, as its entries in insertion order.
use bencpass.Prelude.{Bool, Option, none, some, List, [], ◌∷◌, if◌then◌else◌}

module _ {ℓ κ} {K : Type ℓ} {V : Type κ} (eq : K → K → Bool) where
  unfoldable pub lookup : K → List (K × V) → Option V
  lookup k [] = none
  lookup k ((j, v) ∷ m) = if eq j k then some v else lookup k m

  unfoldable pub put_at : K → V → List (K × V) → List (K × V)
  put_at k v [] = (k, v) ∷ []
  put_at k v ((j, w) ∷ m) = if eq j k then (k, v) ∷ m else (j, w) ∷ put_at k v m

  unfoldable pub discard : K → List (K × V) → List (K × V)
  discard k [] = []
  discard k ((j, w) ∷ m) = let rest = discard k m in if eq j k then rest else (j, w) ∷ rest
