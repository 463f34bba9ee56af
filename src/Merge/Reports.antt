-- ===== src/Merge/Reports.antt =====
-- The three lists that a merge returns (src/core/merge.js): an entry is there exactly for the
-- reason that the source gives.
use bencpass.Prelude.{
  ℕ, String, ◌≡◌, refl, true, Option, none, some, arith, run_keeps, run_reaches, All, Any,
  All-concat_if, Any-concat_if, Any-concat_right,
}
use bencpass.Map.{Map, get}
use bencpass.Envelope.{Envelope}
use bencpass.Merge.{Entries, Merged, Conflict, RolledBack, as_map, settle, start, ids, step, merge}
use bencpass.Merge.Outcome.{
  diverges, rolls_back, sends, clash, conflicts-settle, rolled_back-settle, to_push-settle,
}
use bencpass.Merge.Fold.{contains-ids_local}

-- An id that is only here raises nothing.
reports-keep_here :
    (i : String) (l : Envelope) (b : Option ℕ) (s : Merged)
    → ((settle i (some l) none b s).conflicts ≡ s.conflicts)
      × ((settle i (some l) none b s).rolled_back ≡ s.rolled_back)
unfolding settle
reports-keep_here i l b s = ground arith

module _ (P : Conflict → Type 0) (i : String) (b : Option ℕ) (s : Merged) where
  All-conflicts-settle :
      (l r : Option Envelope)
      → ((x y : Envelope) → l ≡ some x → r ≡ some y → diverges x y b ≡ true → P (clash i x y b))
      → All P s.conflicts
      → All P (settle i l r b s).conflicts
  unfolding settle
  All-conflicts-settle none none p h = h
  All-conflicts-settle none (some r) p h = h
  All-conflicts-settle (some l) none p h = rw ((reports-keep_here i l b s).0) h
  All-conflicts-settle (some l) (some r) p h =
      rw (conflicts-settle i l r b s)
        (All-concat_if P (diverges l r b) s.conflicts (clash i l r b) h (p l r refl refl))

  Any-conflicts-settle :
      (l r : Option Envelope) → Any P s.conflicts → Any P (settle i l r b s).conflicts
  unfolding settle
  Any-conflicts-settle none none h = h
  Any-conflicts-settle none (some r) h = h
  Any-conflicts-settle (some l) none h = rw ((reports-keep_here i l b s).0) h
  Any-conflicts-settle (some l) (some r) h =
      rw (conflicts-settle i l r b s)
        (Any-concat_if P (diverges l r b) s.conflicts (clash i l r b) h)

module _ (P : RolledBack → Type 0) (i : String) (b : Option ℕ) (s : Merged) where
  All-rolled_back-settle :
      (l r : Option Envelope)
      → ((x y : Envelope)
          → l ≡ some x
          → r ≡ some y
          → rolls_back x y b ≡ true
          → P (record { id = i; local = x; remote = y }))
      → All P s.rolled_back
      → All P (settle i l r b s).rolled_back
  unfolding settle
  All-rolled_back-settle none none p h = h
  All-rolled_back-settle none (some r) p h = h
  All-rolled_back-settle (some l) none p h = rw ((reports-keep_here i l b s).1) h
  All-rolled_back-settle (some l) (some r) p h = rw (rolled_back-settle i l r b s) (
      All-concat_if P (rolls_back l r b) s.rolled_back (record { id = i; local = l; remote = r }) h
        (p l r refl refl))

  Any-rolled_back-settle :
      (l r : Option Envelope) → Any P s.rolled_back → Any P (settle i l r b s).rolled_back
  unfolding settle
  Any-rolled_back-settle none none h = h
  Any-rolled_back-settle none (some r) h = h
  Any-rolled_back-settle (some l) none h = rw ((reports-keep_here i l b s).1) h
  Any-rolled_back-settle (some l) (some r) h = rw (rolled_back-settle i l r b s) (
      Any-concat_if P (rolls_back l r b) s.rolled_back (record { id = i; local = l; remote = r }) h)

module _ (P : Envelope → Type 0) (i : String) (b : Option ℕ) (s : Merged) where
  All-to_push-settle :
      (l r : Option Envelope)
      → ((x : Envelope) → l ≡ some x → sends x r b ≡ true → P x)
      → All P s.to_push
      → All P (settle i l r b s).to_push
  unfolding settle
  All-to_push-settle none none p h = h
  All-to_push-settle none (some r) p h = h
  All-to_push-settle (some l) r p h =
      rw (to_push-settle i l r b s) (All-concat_if P (sends l r b) s.to_push l h (p l refl))

  Any-to_push-settle : (l r : Option Envelope) → Any P s.to_push → Any P (settle i l r b s).to_push
  unfolding settle
  Any-to_push-settle none none h = h
  Any-to_push-settle none (some r) h = h
  Any-to_push-settle (some l) r h =
      rw (to_push-settle i l r b s) (Any-concat_if P (sends l r b) s.to_push l h)

-- Why an entry is in a list.
module _ (l r : Map Envelope) (base : Map ℕ) where
  pub record IsClash (c : Conflict) : Type 0 where
    pub ours : get c.id l ≡ some c.local
    pub theirs : get c.id r ≡ some c.remote
    pub both_moved : diverges c.local c.remote (get c.id base) ≡ true
    pub whole : c ≡ clash c.id c.local c.remote (get c.id base)

  pub record IsRollback (c : RolledBack) : Type 0 where
    pub ours : get c.id l ≡ some c.local
    pub theirs : get c.id r ≡ some c.remote
    pub went_back : rolls_back c.local c.remote (get c.id base) ≡ true

  pub record IsUnsent (e : Envelope) : Type 0 where
    pub id : String
    pub ours : get id l ≡ some e
    pub unsent : sends e (get id r) (get id base) ≡ true

module _ (local remote : Entries) (base : Map ℕ) where
  pub conflicts-IsClash :
      All (IsClash (as_map local) (as_map remote) base) (merge local remote base).conflicts
  unfolding merge clash
  conflicts-IsClash =
      let l = as_map local in
      let r = as_map remote in
      run_keeps (step l r base) (λ s. All (IsClash l r base) s.conflicts)
        (λ s i h.
          All-conflicts-settle (IsClash l r base) i (get i base) s (get i l) (get i r)
            (λ x y p q d. record { ours = p; theirs = q; both_moved = d; whole = refl }) h)
        (start l base) (ids l r) tt

  pub rolled_back-IsRollback :
      All (IsRollback (as_map local) (as_map remote) base) (merge local remote base).rolled_back
  unfolding merge
  rolled_back-IsRollback =
      let l = as_map local in
      let r = as_map remote in
      run_keeps (step l r base) (λ s. All (IsRollback l r base) s.rolled_back)
        (λ s i h.
          All-rolled_back-settle (IsRollback l r base) i (get i base) s (get i l) (get i r)
            (λ x y p q d. record { ours = p; theirs = q; went_back = d }) h)
        (start l base) (ids l r) tt

  pub to_push-IsUnsent :
      All (IsUnsent (as_map local) (as_map remote) base) (merge local remote base).to_push
  unfolding merge
  to_push-IsUnsent =
      let l = as_map local in
      let r = as_map remote in
      run_keeps (step l r base) (λ s. All (IsUnsent l r base) s.to_push)
        (λ s i h.
          All-to_push-settle (IsUnsent l r base) i (get i base) s (get i l) (get i r)
            (λ x p d. record { id = i; ours = p; unsent = d }) h)
        (start l base) (ids l r) tt

-- And nothing that belongs in a list is left out.
module _ (local remote : Entries) (base : Map ℕ) (j : String) (x y : Envelope) where
  pub clash_listed :
      get j (as_map local) ≡ some x
      → get j (as_map remote) ≡ some y
      → diverges x y (get j base) ≡ true
      → Any (λ c. c ≡ clash j x y (get j base)) (merge local remote base).conflicts
  unfolding merge
  clash_listed p q d =
      let l = as_map local in
      let r = as_map remote in
      let P : Conflict → Type 0 = λ c. c ≡ clash j x y (get j base) in
      run_reaches (step l r base) (λ s. Unit) (λ s. Any P s.conflicts) j (λ s i _. tt)
        (λ s i h. Any-conflicts-settle P i (get i base) s (get i l) (get i r) h)
        (λ s _.
          rw (p, q, conflicts-settle j x y (get j base) s, d)
            (Any-concat_right P s.conflicts (clash j x y (get j base)) refl))
        (start l base) (ids l r) tt (contains-ids_local j x l r p)

  pub rollback_listed :
      get j (as_map local) ≡ some x
      → get j (as_map remote) ≡ some y
      → rolls_back x y (get j base) ≡ true
      → Any
          (λ c. c ≡ record { id = j; local = x; remote = y })
          (merge local remote base).rolled_back
  unfolding merge
  rollback_listed p q d =
      let l = as_map local in
      let r = as_map remote in
      let P : RolledBack → Type 0 = λ c. c ≡ record { id = j; local = x; remote = y } in
      run_reaches (step l r base) (λ s. Unit) (λ s. Any P s.rolled_back) j (λ s i _. tt)
        (λ s i h. Any-rolled_back-settle P i (get i base) s (get i l) (get i r) h)
        (λ s _.
          rw (p, q, rolled_back-settle j x y (get j base) s, d)
            (Any-concat_right P s.rolled_back (record { id = j; local = x; remote = y }) refl))
        (start l base) (ids l r) tt (contains-ids_local j x l r p)

module _ (local remote : Entries) (base : Map ℕ) (j : String) (x : Envelope) where
  pub unsent_listed :
      get j (as_map local) ≡ some x
      → sends x (get j (as_map remote)) (get j base) ≡ true
      → Any (λ e. e ≡ x) (merge local remote base).to_push
  unfolding merge
  unsent_listed p d =
      let l = as_map local in
      let r = as_map remote in
      let P : Envelope → Type 0 = λ e. e ≡ x in
      run_reaches (step l r base) (λ s. Unit) (λ s. Any P s.to_push) j (λ s i _. tt)
        (λ s i h. Any-to_push-settle P i (get i base) s (get i l) (get i r) h)
        (λ s _.
          rw (p, to_push-settle j x (get j r) (get j base) s, d)
            (Any-concat_right P s.to_push x refl))
        (start l base) (ids l r) tt (contains-ids_local j x l r p)
