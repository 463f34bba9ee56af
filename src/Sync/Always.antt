-- ===== src/Sync/Always.antt =====
-- What holds of every step of a sync holds of their sequence (src/core/sync.js).
use bencpass.Prelude.{◌⊎◌, inl, inr}
use bencpass.Sync.Client.{◌>>=◌, World, Sync, carry_on, SyncError}

-- What relates the world before a step to the world after it, and can be chained.
pub record Relation (σ : Type 0) : Type 1 where
  pub Holds : World σ → World σ → Type 0
  pub same : (w : World σ) → Holds w w
  pub chain : {w w' w'' : World σ} → Holds w w' → Holds w' w'' → Holds w w''

module _ {σ : Type 0} (R : Relation σ) where
  abbrev pub Always : {A : Type 0} → Sync σ A → Type 0
  Always m = (w : World σ) → R.Holds w (m w).1

  Always-carry_on :
      {A B : Type 0} (w : World σ) (r : (SyncError ⊎ A) × World σ) (f : A → Sync σ B)
      → R.Holds w r.1
      → ((a : A) → Always (f a))
      → R.Holds w (carry_on r f).1
  Always-carry_on w (inl e, w') f h k = h
  Always-carry_on w (inr a, w') f h k = R.chain h (k a w')

  pub Always-bind :
      {A B : Type 0} (m : Sync σ A) (f : A → Sync σ B)
      → Always m
      → ((a : A) → Always (f a))
      → Always (m >>= f)
  Always-bind m f h k w = Always-carry_on w (m w) f (h w) k
