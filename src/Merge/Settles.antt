-- ===== src/Merge/Settles.antt =====
-- After the push, a second merge has nothing to do (src/core/merge.js).
use bencpass.Prelude.{
  ℕ, String, ◌≡◌, ◌∙◌, refl, sym, inl, inr, Bool, true, false, Option, none, some, List, [], ◌∷◌,
  arith, str_eq, str_eq→eq, str_eq_refl, All-empty, Bool-cases, Option-cases, All, Any,
}
use bencpass.Map.{Map, get, set}
use bencpass.Map.Laws.{get-set}
use bencpass.Envelope.{Envelope}
use bencpass.Merge.{
  Entries, a_map, Merged, Conflict, RolledBack, as_map, as_map_from, merge, confirm_pushed, base_is,
  same_bytes,
}
use bencpass.Merge.Outcome.{agree, repeats, diverges, rolls_back, sends, chosen, kept, synced_at}
use bencpass.Merge.Fold.{get-merge, synced-merge}
use bencpass.Merge.Reports.{
  IsClash, IsRollback, IsUnsent, conflicts-IsClash, rolled_back-IsRollback, to_push-IsUnsent,
  unsent_listed,
}
use bencpass.Merge.Safety.{pushed_is_kept}

-- Nothing is to be done for an id.
quiet : Option Envelope → Option Envelope → Option ℕ → Bool
quiet none none b = true
quiet none (some r) b = false
quiet (some l) none b = base_is b l.rev
quiet (some l) (some r) b = agree l r

agree_refl : (e : Envelope) → agree e e ≡ true
unfolding agree same_bytes
agree_refl e = ground (arith, str_eq_refl e.ct, str_eq_refl e.n)

quiet-kept : (l r : Option Envelope) (b : Option ℕ) → quiet l r b ≡ true → kept l r b ≡ l
unfolding quiet kept chosen
quiet-kept none none b h = refl
quiet-kept none (some r) b h = ground arith
quiet-kept (some l) none b h = refl
quiet-kept (some l) (some r) none h = ground arith
quiet-kept (some l) (some r) (some b) h = ground arith

quiet-sends :
    (l : Envelope) (r : Option Envelope) (b : Option ℕ)
    → quiet (some l) r b ≡ true
    → sends l r b ≡ false
unfolding quiet sends rolls_back repeats
quiet-sends l none b h = ground arith
quiet-sends l (some r) none h = ground arith
quiet-sends l (some r) (some b) h = ground arith

quiet-reports :
    (l r : Envelope) (b : Option ℕ)
    → quiet (some l) (some r) b ≡ true
    → (diverges l r b ≡ false) × (rolls_back l r b ≡ false)
unfolding quiet diverges
quiet-reports l r none h = ground arith
quiet-reports l r (some b) h = ground arith

quiet_same : (r : Option Envelope) (b : Option ℕ) → quiet r r b ≡ true
unfolding quiet
quiet_same none b = refl
quiet_same (some e) b = agree_refl e

-- What was not sent is settled by the first merge.
quiet_unsent :
    (l : Envelope) (r : Option Envelope) (b : Option ℕ)
    → sends l r b ≡ false
    → quiet (kept (some l) r b) r (synced_at (some l) r b) ≡ true
unfolding quiet sends kept synced_at chosen
quiet_unsent l none b h = ground arith
quiet_unsent l (some r) none h = ground (arith, agree_refl r)
quiet_unsent l (some r) (some b) h = ground (arith, agree_refl r)

-- Every envelope stands under its own id, as in every map that the vault builds.
pub record IsKeyed (m : Map Envelope) : Type 0 where
  pub own_id : (j : String) (e : Envelope) → get j m ≡ some e → e.id ≡ j

module _ (l r : Map Envelope) (base : Map ℕ) (keyed : IsKeyed l) (j : String) where
  -- What is sent under an id is our envelope of that id, and it had to be sent.
  sent_of_id :
      (e : Envelope)
      → IsUnsent l r base e
      → e.id ≡ j
      → (get j l ≡ some e) × (sends e (get j r) (get j base) ≡ true)
  sent_of_id e u p =
      let q : u.id ≡ j = sym (keyed.own_id u.id e u.ours) ∙ p in
      (rw q at (u.ours), rw q at (u.unsent))

  -- The server's copy and the acknowledged revision after a push of `es`.
  abbrev Holds : Envelope → Map Envelope → Map ℕ → Type 0
  Holds x server synced = (get j server ≡ some x) × (get j synced ≡ some x.rev)

  pushed_stays :
      (x : Envelope) (es : List Envelope) (server : Map Envelope) (synced : Map ℕ)
      → get j l ≡ some x
      → All (IsUnsent l r base) es
      → Holds x server synced
      → Holds x (as_map_from server es) (confirm_pushed synced es)
  unfolding as_map_from confirm_pushed
  pushed_stays x [] server synced p h k = k
  pushed_stays x (e ∷ es) server synced p h k =
      pushed_stays x es (set e.id e server) (set e.id e.rev synced) p h.1
        (elim (Bool-cases (str_eq e.id j)) [
          | inl s ↦
              let q = sent_of_id e h.0 (str_eq→eq e.id j s) in
              ground (arith, get-set e.id j e server, get-set e.id j e.rev synced)
          | inr s ↦ ground (arith, get-set e.id j e server, get-set e.id j e.rev synced)
        ])

  pushed_arrives :
      (x : Envelope) (es : List Envelope) (server : Map Envelope) (synced : Map ℕ)
      → get j l ≡ some x
      → All (IsUnsent l r base) es
      → Any (λ e. e ≡ x) es
      → Holds x (as_map_from server es) (confirm_pushed synced es)
  unfolding as_map_from confirm_pushed
  pushed_arrives x [] server synced p h k = elim k [ ]
  pushed_arrives x (e ∷ es) server synced p h (inr k) =
      pushed_arrives x es (set e.id e server) (set e.id e.rev synced) p h.1 k
  pushed_arrives x (e ∷ es) server synced p h (inl k) =
      pushed_stays x es (set e.id e server) (set e.id e.rev synced) p h.1 (
        ground (
          arith,
          keyed.own_id j x p,
          str_eq_refl j,
          get-set e.id j e server,
          get-set e.id j e.rev synced,
        ))

  -- An id of which nothing had to be sent is as it was.
  unsent_untouched :
      (es : List Envelope) (server : Map Envelope) (synced : Map ℕ)
      → ((x : Envelope) → get j l ≡ some x → sends x (get j r) (get j base) ≡ false)
      → All (IsUnsent l r base) es
      → (get j (as_map_from server es) ≡ get j server)
        × (get j (confirm_pushed synced es) ≡ get j synced)
  unfolding as_map_from confirm_pushed
  unsent_untouched [] server synced none_sent h = (refl, refl)
  unsent_untouched (e ∷ es) server synced none_sent h =
      let ih = unsent_untouched es (set e.id e server) (set e.id e.rev synced) none_sent h.1 in
      elim (Bool-cases (str_eq e.id j)) [
        | inl s ↦
            let q = sent_of_id e h.0 (str_eq→eq e.id j s) in ground (arith, q, none_sent e (q.0))
        | inr s ↦ ground (arith, ih, get-set e.id j e server, get-set e.id j e.rev synced)
      ]

module _ {l r : Map Envelope} {base : Map ℕ} where
  not-IsClash :
      (c : Conflict)
      → IsClash l r base c
      → quiet (get c.id l) (get c.id r) (get c.id base) ≡ true
      → ⊥
  not-IsClash c k q =
      ground (arith, k.ours, k.theirs, k.both_moved, quiet-reports c.local c.remote (get c.id base))

  not-IsRollback :
      (c : RolledBack)
      → IsRollback l r base c
      → quiet (get c.id l) (get c.id r) (get c.id base) ≡ true
      → ⊥
  not-IsRollback c k q =
      ground (arith, k.ours, k.theirs, k.went_back, quiet-reports c.local c.remote (get c.id base))

  not-IsUnsent :
      (e : Envelope)
      → (k : IsUnsent l r base e) → quiet (get k.id l) (get k.id r) (get k.id base) ≡ true
      → ⊥
  not-IsUnsent e k q = ground (arith, k.ours, k.unsent, quiet-sends e (get k.id r) (get k.id base))

module _ (local remote : Entries) (base : Map ℕ) where
  abbrev pub first : Merged
  first = merge local remote base

  -- The server's envelopes once it has taken the push.
  abbrev pub server_after : Map Envelope
  server_after = as_map_from (as_map remote) first.to_push

  abbrev pub synced_after : Map ℕ
  synced_after = confirm_pushed first.synced_rev first.to_push

  -- The next merge, with the server's whole set and the acknowledged revisions.
  abbrev pub second : Merged
  second = merge (a_map first.envelopes) (a_map server_after) synced_after

  quiet_second :
      IsKeyed (as_map local)
      → (j : String)
      → quiet (get j first.envelopes) (get j server_after) (get j synced_after) ≡ true
  unfolding kept
  quiet_second keyed j =
      let l = as_map local in
      let r = as_map remote in
      let unsent = to_push-IsUnsent local remote base in
      elim (Option-cases (get j l)) [
        | inl p ↦
            let same =
              unsent_untouched l r base keyed j first.to_push r first.synced_rev (λ x q. cc (p, q))
                unsent in
            rw (same.0) (rw (get-merge local remote base j) (rw p (quiet_same (get j r) _)))
        | inr (x, p) ↦ elim (Bool-cases (sends x (get j r) (get j base))) [
          | inl s ↦
              let sent =
                pushed_arrives l r base keyed j x first.to_push r first.synced_rev p unsent
                  (unsent_listed local remote base j x p s) in
              rw (sent.0) (
                rw (get-merge local remote base j)
                  (rw (p, pushed_is_kept x (get j r) (get j base) s) (quiet_same (some x) _)))
          | inr s ↦
              let same =
                unsent_untouched l r base keyed j first.to_push r first.synced_rev
                  (λ y q. let e : x ≡ y = cc (p, q) in rw (← e) s) unsent in
              rw (same.0, same.1)
                (rw (get-merge local remote base j, synced-merge local remote base j)
                  (rw p (quiet_unsent x (get j r) (get j base) s)))
        ]
      ]

  -- The second merge changes no record.
  pub second_same :
      IsKeyed (as_map local) → (j : String) → get j second.envelopes ≡ get j first.envelopes
  unfolding as_map
  second_same keyed j =
      get-merge (a_map first.envelopes) (a_map server_after) synced_after j
      ∙ quiet-kept _ _ _ (quiet_second keyed j)

  -- After a merge and its push, a merge against the server's whole set finds nothing left: it
  -- keeps every record, raises no conflict, reports no rollback and pushes nothing. Our envelopes
  -- stand under their own ids.
  pub merge_settles :
      IsKeyed (as_map local)
      → ((j : String) → get j second.envelopes ≡ get j first.envelopes)
        × (second.conflicts ≡ [])
        × (second.rolled_back ≡ [])
        × (second.to_push ≡ [])
  unfolding as_map
  merge_settles keyed = (
    second_same keyed,
    All-empty _ second.conflicts
        (conflicts-IsClash (a_map first.envelopes) (a_map server_after) synced_after)
        (λ c k. not-IsClash c k (quiet_second keyed c.id)),
    All-empty _ second.rolled_back
        (rolled_back-IsRollback (a_map first.envelopes) (a_map server_after) synced_after)
        (λ c k. not-IsRollback c k (quiet_second keyed c.id)),
    All-empty _ second.to_push
        (to_push-IsUnsent (a_map first.envelopes) (a_map server_after) synced_after)
        (λ e k. not-IsUnsent e k (quiet_second keyed k.id)),
  )
