-- ===== src/Merge/Refined.antt =====
-- The merge against its specification, which speaks of one id at a time (src/core/merge.js).
use bencpass.Prelude.{ℕ, String, ◌≡◌, true, some, All, Any}
use bencpass.Map.{Map, get}
use bencpass.Envelope.{Envelope}
use bencpass.Merge.{Entries, Merged, as_map, merge}
use bencpass.Merge.Outcome.{kept, synced_at, diverges, rolls_back, sends, clash}
use bencpass.Merge.Fold.{get-merge, synced-merge}
use bencpass.Merge.Reports.{
  IsClash, IsRollback, IsUnsent, conflicts-IsClash, rolled_back-IsRollback, to_push-IsUnsent,
  clash_listed, rollback_listed, unsent_listed,
}

-- What is kept and what is acknowledged of each id is as specified; and each list has an entry for
-- an id just where the specification asks for it.
pub record IsSpecified (l r : Map Envelope) (base : Map ℕ) (s : Merged) : Type 0 where
  pub kept_of : (j : String) → get j s.envelopes ≡ kept (get j l) (get j r) (get j base)
  pub synced_of : (j : String) → get j s.synced_rev ≡ synced_at (get j l) (get j r) (get j base)
  pub only_clashes : All (IsClash l r base) s.conflicts
  pub each_clash :
      (j : String) (x y : Envelope)
      → get j l ≡ some x
      → get j r ≡ some y
      → diverges x y (get j base) ≡ true
      → Any (λ c. c ≡ clash j x y (get j base)) s.conflicts
  pub only_rollbacks : All (IsRollback l r base) s.rolled_back
  pub each_rollback :
      (j : String) (x y : Envelope)
      → get j l ≡ some x
      → get j r ≡ some y
      → rolls_back x y (get j base) ≡ true
      → Any (λ c. c ≡ record { id = j; local = x; remote = y }) s.rolled_back
  pub only_unsent : All (IsUnsent l r base) s.to_push
  pub each_unsent :
      (j : String) (x : Envelope)
      → get j l ≡ some x
      → sends x (get j r) (get j base) ≡ true
      → Any (λ e. e ≡ x) s.to_push

-- The loop of merge implements the specification that speaks of one id at a time: of each id it
-- keeps the envelope that the specification names, and acknowledges the revision that it names;
-- and it reports a conflict, reports a rollback and pushes an envelope of ours exactly where the
-- specification has one, each conflict with its two sides, its kind and its parked side.
pub merge-IsSpecified :
    (local remote : Entries) (base : Map ℕ)
    → IsSpecified (as_map local) (as_map remote) base (merge local remote base)
merge-IsSpecified local remote base = record {
  kept_of = get-merge local remote base;
  synced_of = synced-merge local remote base;
  only_clashes = conflicts-IsClash local remote base;
  each_clash = clash_listed local remote base;
  only_rollbacks = rolled_back-IsRollback local remote base;
  each_rollback = rollback_listed local remote base;
  only_unsent = to_push-IsUnsent local remote base;
  each_unsent = unsent_listed local remote base;
}
