-- ===== src/Merge/Fold.antt =====
-- The loop of src/core/merge.js: what one step says of its id holds of the whole merge.
use bencpass.Prelude.{
  ℕ, String, ◌≡◌, refl, ◌∙◌, ◌⊎◌, inl, inr, true, false, ◌||◌, none, some, ◌++◌, arith, str_eq,
  str_eq→eq, Bool-cases, contains, run, run_keeps, run_reaches,
}
use bencpass.Map.{Map, get, keys}
use bencpass.Map.Laws.{contains-keys, get-keys-none, contains-append, contains-unique}
use bencpass.Envelope.{Envelope}
use bencpass.Merge.{Entries, Merged, as_map, start, ids, step, merge}
use bencpass.Merge.Outcome.{
  kept, synced_at, get-settle_ne, get-settle_self, synced-settle_ne, synced-settle_self,
}

contains-ids :
    (j : String) (l r : Map Envelope)
    → contains j (ids l r) ≡ (contains j (keys l) || contains j (keys r))
contains-ids j l r = contains-unique j (keys l ++ keys r) ∙ contains-append j (keys l) (keys r)

pub contains-ids_local :
    (j : String) (e : Envelope) (l r : Map Envelope)
    → get j l ≡ some e
    → contains j (ids l r) ≡ true
contains-ids_local j e l r h = ground (arith, contains-ids j l r, contains-keys j e l)

pub ids-none :
    (j : String) (l r : Map Envelope)
    → contains j (ids l r) ≡ false
    → (get j l ≡ none) × (get j r ≡ none)
ids-none j l r h = (
  get-keys-none j l (ground (arith, contains-ids j l r)),
  get-keys-none j r (ground (arith, contains-ids j l r)),
)

module _ (l r : Map Envelope) (base : Map ℕ) (j : String) where
  abbrev KeptAt : Merged → Type 0
  KeptAt s = get j s.envelopes ≡ kept (get j l) (get j r) (get j base)

  abbrev EnvelopeAt : Merged → Type 0
  EnvelopeAt s = (get j s.envelopes ≡ get j l) ⊎ KeptAt s

  kept-step : (s : Merged) (i : String) → KeptAt s → KeptAt (step l r base s i)
  kept-step s i h = elim (Bool-cases (str_eq i j)) [
    | inl e ↦ rw (str_eq→eq i j e) (get-settle_self j (get j l) (get j r) (get j base) s (inr h))
    | inr e ↦ get-settle_ne i j (get i l) (get i r) (get i base) s e ∙ h
  ]

  envelope-step : (s : Merged) (i : String) → EnvelopeAt s → EnvelopeAt (step l r base s i)
  envelope-step s i (inr h) = inr (kept-step s i h)
  envelope-step s i (inl h) = elim (Bool-cases (str_eq i j)) [
    | inl e ↦
        rw (str_eq→eq i j e) (inr (get-settle_self j (get j l) (get j r) (get j base) s (inl h)))
    | inr e ↦ inl (get-settle_ne i j (get i l) (get i r) (get i base) s e ∙ h)
  ]

  envelope-run : KeptAt (run (step l r base) (start l base) (ids l r))
  unfolding kept
  envelope-run = elim (Bool-cases (contains j (ids l r))) [
    | inl e ↦
        run_reaches (step l r base) EnvelopeAt KeptAt j envelope-step kept-step
          (λ s h. get-settle_self j (get j l) (get j r) (get j base) s h) (start l base) (ids l r)
          (inl refl) e
    | inr e ↦ ground (
      arith,
      ids-none j l r e,
      run_keeps (step l r base) EnvelopeAt envelope-step (start l base) (ids l r) (inl refl),
    )
  ]

  abbrev FinalRev : Merged → Type 0
  FinalRev s = get j s.synced_rev ≡ synced_at (get j l) (get j r) (get j base)

  abbrev SyncedAt : Merged → Type 0
  SyncedAt s = (get j s.synced_rev ≡ get j base) ⊎ FinalRev s

  final-step : (s : Merged) (i : String) → FinalRev s → FinalRev (step l r base s i)
  final-step s i h = elim (Bool-cases (str_eq i j)) [
    | inl e ↦ rw (str_eq→eq i j e) (synced-settle_self j (get j l) (get j r) (get j base) s (inr h))
    | inr e ↦ synced-settle_ne i j (get i l) (get i r) (get i base) s e ∙ h
  ]

  synced-step : (s : Merged) (i : String) → SyncedAt s → SyncedAt (step l r base s i)
  synced-step s i (inr h) = inr (final-step s i h)
  synced-step s i (inl h) = elim (Bool-cases (str_eq i j)) [
    | inl e ↦
        rw (str_eq→eq i j e) (inr (synced-settle_self j (get j l) (get j r) (get j base) s (inl h)))
    | inr e ↦ inl (synced-settle_ne i j (get i l) (get i r) (get i base) s e ∙ h)
  ]

  synced-run : FinalRev (run (step l r base) (start l base) (ids l r))
  unfolding synced_at
  synced-run = elim (Bool-cases (contains j (ids l r))) [
    | inl e ↦
        run_reaches (step l r base) SyncedAt FinalRev j synced-step final-step
          (λ s h. synced-settle_self j (get j l) (get j r) (get j base) s h) (start l base)
          (ids l r) (inl refl) e
    | inr e ↦ ground (
      arith,
      ids-none j l r e,
      run_keeps (step l r base) SyncedAt synced-step (start l base) (ids l r) (inl refl),
    )
  ]

module _ (local remote : Entries) (base : Map ℕ) (j : String) where
  pub get-merge :
      get j (merge local remote base).envelopes
      ≡ kept (get j (as_map local)) (get j (as_map remote)) (get j base)
  unfolding merge
  get-merge = envelope-run (as_map local) (as_map remote) base j

  pub synced-merge :
      get j (merge local remote base).synced_rev
      ≡ synced_at (get j (as_map local)) (get j (as_map remote)) (get j base)
  unfolding merge
  synced-merge = synced-run (as_map local) (as_map remote) base j
