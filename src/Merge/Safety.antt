-- ===== src/Merge/Safety.antt =====
-- What a merge may and may not do to a record (src/core/merge.js).
use bencpass.Prelude.{
  ℕ, String, ◌≡◌, ◌≢◌, ◌≤◌, ◌<◌, ◌∙◌, refl, ◌⊎◌, inl, inr, true, false, Option, none, some, List,
  [], ◌∷◌, arith, Bool-cases, Option-cases, All, Any,
}
use bencpass.Map.{Map, get}
use bencpass.Envelope.{Envelope}
use bencpass.Merge.{Entries, Conflict, same_bytes, as_map, merge}
use bencpass.Merge.Outcome.{
  agree, forwards, repeats, diverges, rolls_back, sends, winner, loser, clash, chosen, kept,
  synced_at,
}
use bencpass.Merge.Fold.{get-merge, synced-merge}
use bencpass.Merge.Reports.{
  IsUnsent, clash_listed, rollback_listed, unsent_listed, to_push-IsUnsent,
}

-- One side of a divergence stays and the other is parked.
winner-or-loser :
    (l r : Envelope) (b : Option ℕ)
    → ((winner l r b ≡ l) × (loser l r b ≡ r)) ⊎ ((winner l r b ≡ r) × (loser l r b ≡ l))
unfolding winner loser
winner-or-loser l r b = ground arith

-- `x` is parked in a conflict of `j`.
abbrev pub Parked : String → Envelope → List Conflict → Type 0
Parked j x = Any (λ c. (c.id ≡ j) × (c.parked ≡ x))

Parked-of_clash :
    (j : String) (l r : Envelope) (b : Option ℕ) (cs : List Conflict)
    → Any (λ c. c ≡ clash j l r b) cs
    → Parked j (loser l r b) cs
unfolding clash
Parked-of_clash j l r b [] h = h
Parked-of_clash j l r b (c ∷ cs) (inl e) = inl (ground arith)
Parked-of_clash j l r b (c ∷ cs) (inr h) = inr (Parked-of_clash j l r b cs h)

forwards-lt :
    (l r : Envelope) (b : Option ℕ) → forwards l r b ≡ true → (b ≡ some l.rev) × (l.rev < r.rev)
unfolding forwards
forwards-lt l r none h = ground arith
forwards-lt l r (some b) h = ground arith

module _ (local remote : Entries) (base : Map ℕ) (j : String) (l : Envelope) where
  -- Our copy of a record stays current, or it is parked in a conflict, or the merged record is a
  -- later revision and what the server had acknowledged was exactly our revision.
  pub local_survives :
      get j (as_map local) ≡ some l
      → (get j (merge local remote base).envelopes ≡ some l)
        ⊎ Parked j l (merge local remote base).conflicts
        ⊎ ((r : Envelope) × (get j (merge local remote base).envelopes ≡ some r)
            × (get j base ≡ some l.rev)
            × (l.rev < r.rev))
  unfolding kept
  local_survives p = elim (Option-cases (get j (as_map remote))) [
    | inl e ↦ inl (ground (arith, get-merge local remote base j))
    | inr (r, q) ↦ elim (Bool-cases (diverges l r (get j base))) [
      | inl d ↦ elim (winner-or-loser l r (get j base)) [
        | inl w ↦ inl (ground (arith, get-merge local remote base j))
        | inr w ↦ inr (
            inl (
              rw (w.1) at (
                Parked-of_clash j l r (get j base) (merge local remote base).conflicts
                  (clash_listed local remote base j l r p q d))))
      ]
      | inr d ↦ elim (Bool-cases (forwards l r (get j base))) [
        | inl f ↦ inr (
            inr (
              r,
              ground (arith, get-merge local remote base j),
              (forwards-lt l r (get j base) f).0,
              (forwards-lt l r (get j base) f).1,
            ))
        | inr f ↦ inl (ground (arith, get-merge local remote base j))
      ]
    ]
  ]

-- Where the server's copy is not taken over or parked, ours equals it, it is behind the ancestor, or
-- it is the ancestor.
unchosen :
    (l r : Envelope) (b : Option ℕ)
    → diverges l r b ≡ false
    → forwards l r b ≡ false
    → (agree l r ≡ true) ⊎ (rolls_back l r b ≡ true) ⊎ (b ≡ some r.rev)
unfolding diverges repeats
unchosen l r none d f = ground arith
unchosen l r (some b) d f = ground arith

deleted-chosen :
    (l r : Envelope) (b : Option ℕ)
    → (l.deleted ≡ true) ⊎ ((r.deleted ≡ true) × (rolls_back l r b ≡ false))
    → (chosen l r b).deleted ≡ true
unfolding chosen rolls_back agree repeats same_bytes
deleted-chosen l r none h = ground arith
deleted-chosen l r (some b) h = ground arith

module _ (local remote : Entries) (base : Map ℕ) (j : String) (l r : Envelope) where
  -- The server's copy of a record that we have becomes current, or is parked in a conflict; else
  -- ours stays current, and the server's has our bytes, or is reported as a rollback, or has the
  -- acknowledged revision.
  pub remote_survives :
      get j (as_map local) ≡ some l
      → get j (as_map remote) ≡ some r
      → (get j (merge local remote base).envelopes ≡ some r)
        ⊎ Parked j r (merge local remote base).conflicts
        ⊎ ((get j (merge local remote base).envelopes ≡ some l)
            × ((agree l r ≡ true)
                ⊎ Any
                    (λ c. c ≡ record { id = j; local = l; remote = r })
                    (merge local remote base).rolled_back
                ⊎ (get j base ≡ some r.rev)))
  unfolding kept
  remote_survives p q = elim (Bool-cases (diverges l r (get j base))) [
    | inl d ↦ elim (winner-or-loser l r (get j base)) [
      | inl w ↦ inr (
          inl (
            rw (w.1) at (
              Parked-of_clash j l r (get j base) (merge local remote base).conflicts
                (clash_listed local remote base j l r p q d))))
      | inr w ↦ inl (ground (arith, get-merge local remote base j))
    ]
    | inr d ↦ elim (Bool-cases (forwards l r (get j base))) [
      | inl f ↦ inl (ground (arith, get-merge local remote base j))
      | inr f ↦
          let here : get j (merge local remote base).envelopes ≡ some l =
            ground (arith, get-merge local remote base j) in
          elim (unchosen l r (get j base) d f) [
            | inl a ↦ inr (inr (here, inl a))
            | inr (inl b) ↦
                inr (inr (here, inr (inl (rollback_listed local remote base j l r p q b))))
            | inr (inr c) ↦ inr (inr (here, inr (inr c)))
          ]
    ]
  ]

  -- A server that serves an acknowledged record at an older revision than the acknowledged one,
  -- and not at ours, is refused: ours stays and is pushed, the ancestor stays, and the record is
  -- reported.
  pub rollback_refused :
      (b : ℕ)
      → get j (as_map local) ≡ some l
      → get j (as_map remote) ≡ some r
      → get j base ≡ some b
      → r.rev < b
      → l.rev ≢ r.rev
      → (get j (merge local remote base).envelopes ≡ some l)
        × (get j (merge local remote base).synced_rev ≡ some b)
        × Any (λ e. e ≡ l) (merge local remote base).to_push
        × Any
            (λ c. c ≡ record { id = j; local = l; remote = r })
            (merge local remote base).rolled_back
  unfolding kept synced_at sends diverges rolls_back
  rollback_refused b p q h lt ne = (
    ground (arith, get-merge local remote base j),
    ground (arith, synced-merge local remote base j),
    unsent_listed local remote base j l p (ground arith),
    rollback_listed local remote base j l r p q (ground arith),
  )

  -- When either copy is a tombstone the merged record is one: always if it is ours, and if it is
  -- the server's unless that copy is behind the ancestor.
  pub tombstone_sticks :
      get j (as_map local) ≡ some l
      → get j (as_map remote) ≡ some r
      → (l.deleted ≡ true) ⊎ ((r.deleted ≡ true) × (rolls_back l r (get j base) ≡ false))
      → (e : Envelope) × (get j (merge local remote base).envelopes ≡ some e) × (e.deleted ≡ true)
  unfolding kept
  tombstone_sticks p q h = (
    chosen l r (get j base),
    ground (arith, get-merge local remote base j),
    deleted-chosen l r (get j base) h,
  )

pub pushed_is_kept :
    (l : Envelope) (r : Option Envelope) (b : Option ℕ)
    → sends l r b ≡ true
    → kept (some l) r b ≡ some l
unfolding sends kept agree rolls_back repeats
pushed_is_kept l none b h = refl
pushed_is_kept l (some r) none h = ground arith
pushed_is_kept l (some r) (some b) h = ground arith

synced_at_both :
    (l r : Envelope) (b : Option ℕ)
    → (synced_at (some l) (some r) b ≡ some r.rev) ⊎ (synced_at (some l) (some r) b ≡ b)
unfolding synced_at
synced_at_both l r b = ground arith

synced_at_served :
    (l r : Option Envelope) (b : Option ℕ) (v : ℕ)
    → synced_at l r b ≡ some v
    → (b ≡ some v) ⊎ ((x : Envelope) × (r ≡ some x) × (x.rev ≡ v))
unfolding synced_at
synced_at_served none none b v h = inl h
synced_at_served none (some r) b v h = inr (r, refl, ground arith)
synced_at_served (some l) none b v h = inl h
synced_at_served (some l) (some r) b v h = elim (synced_at_both l r b) [
  | inl e ↦ inr (r, refl, ground arith)
  | inr e ↦ inl (ground arith)
]

module _ (local remote : Entries) (base : Map ℕ) where
  -- `e` is what we had, and what the merge keeps.
  abbrev pub IsCurrent : Envelope → Type 0
  IsCurrent e =
      (id : String) × (get id (as_map local) ≡ some e)
      × (get id (merge local remote base).envelopes ≡ some e)

  IsCurrent-of_unsent :
      (es : List Envelope)
      → All (IsUnsent (as_map local) (as_map remote) base) es
      → All IsCurrent es
  IsCurrent-of_unsent [] h = tt
  IsCurrent-of_unsent (e ∷ es) h =
      let u = h.0 in
      (
        (
          u.id,
          u.ours,
          get-merge local remote base u.id
              ∙ rw (u.ours) (pushed_is_kept e (get u.id (as_map remote)) (get u.id base) u.unsent),
        ),
        IsCurrent-of_unsent es h.1,
      )

  -- Only our own envelopes are pushed, and only those that the merge keeps as current.
  pub pushes-IsCurrent : All IsCurrent (merge local remote base).to_push
  pushes-IsCurrent =
      IsCurrent-of_unsent (merge local remote base).to_push (to_push-IsUnsent local remote base)

  -- The ancestor of an id is what it was, or a revision that the server has just served.
  pub ancestor_served :
      (j : String) (v : ℕ)
      → get j (merge local remote base).synced_rev ≡ some v
      → (get j base ≡ some v) ⊎ ((r : Envelope) × (get j (as_map remote) ≡ some r) × (r.rev ≡ v))
  ancestor_served j v h =
      synced_at_served (get j (as_map local)) (get j (as_map remote)) (get j base) v
        (rw (synced-merge local remote base j) at h)

  -- Where our copy of a record is not behind its ancestor, a merge does not move the ancestor
  -- backwards.
  pub ancestor_grows :
      (j : String) (l : Envelope) (b v : ℕ)
      → get j (as_map local) ≡ some l
      → get j base ≡ some b
      → b ≤ l.rev
      → get j (merge local remote base).synced_rev ≡ some v
      → b ≤ v
  unfolding synced_at agree forwards rolls_back diverges
  ancestor_grows j l b v p q le h = ground (arith, synced-merge local remote base j)
