-- ===== src/Sync/Served.antt =====
-- What a sync has seen served back before it agrees on it (src/core/sync.js).
use bencpass.Prelude.{
  ℕ, Bool, true, false, Bool-cases, Option, none, some, List, [], ◌∷◌, ◌⊎◌, inl, inr, ◌≡◌, refl,
  ◌==◌, length, arith,
}
use bencpass.Envelope.{Envelope}
use bencpass.Crypto.{Platform}
use bencpass.Merge.{Merged, an_array, as_map}
use bencpass.Sync.Client.{
  World, Sync, Seq, seq_below, RecordsReply, Server, Http, SyncError, pure, carry_on, stop_if, push,
}
use bencpass.Sync.Round.{
  Supply, Report, from_wire, answered, call, get_records, guard_rollback, all_served, before,
  take_round, is_refused, sync_header, if_match,
}
use bencpass.Sync.Once.{
  agreed, Pushing, verify_push, conclude, push_all, push_some, sync_once, put, push_again,
  retry_conflict, retry_full, after_conflict, after_stale,
}

status_ok : (status : ℕ) → status == 200 ≡ true → status ≡ 200
status_ok status e = ground (arith, e)

module _ {σ : Type 0} {A : Type 0} where
  -- A property of what a step that succeeds leaves
  abbrev pub OnSuccess : (A → World σ → Type 0) → (SyncError ⊎ A) × World σ → Type 0
  OnSuccess P (inl e, w) = Unit {0}
  OnSuccess P (inr a, w) = P a w

module _ {σ : Type 0} {A B : Type 0} (P : B → World σ → Type 0) where
  success_carry_on :
      (Q : A → World σ → Type 0) (r : (SyncError ⊎ A) × World σ) (f : A → Sync σ B)
      → OnSuccess Q r
      → ((a : A) (w : World σ) → Q a w → OnSuccess P (f a w))
      → OnSuccess P (carry_on r f)
  success_carry_on Q (inl e, w) f q h = tt
  success_carry_on Q (inr a, w) f q h = h a w q

  success_any :
      (r : (SyncError ⊎ A) × World σ) (f : A → Sync σ B)
      → ((a : A) (w : World σ) → OnSuccess P (f a w))
      → OnSuccess P (carry_on r f)
  success_any (inl e, w) f h = tt
  success_any (inr a, w) f h = h a w

module _ (S : Server) where
  -- The server answered with a reply that has all that was pushed, and is not behind.
  pub record IsServedBack (seq : Seq) (es : List Envelope) (w : World S.State) : Type 0 where
    pub reply : RecordsReply
    pub after : S.State
    pub answers : S.get_records (before seq) w.server ≡ (some (200, reply), after)
    pub serves : all_served (as_map (an_array (from_wire reply.records))) es ≡ true
    pub reaches : seq_below reply.seq w.state.highest_seq ≡ false

  -- An error leaves the vault and the state; a success agrees on what was served back.
  abbrev pub IsConcluded :
      Seq → List Envelope → World S.State → (SyncError ⊎ Unit {0}) × World S.State → Type 0
  IsConcluded seq es w (inl e, w') = (w'.state ≡ w.state) × (w'.vault ≡ w.vault)
  IsConcluded seq es w (inr _, w') =
      (q : IsServedBack seq es w) × (w'.state ≡ agreed es seq w.state)
      × (w'.vault ≡ w.vault)
      × (w'.server ≡ q.after)

  conclude_answered :
      (seq : Seq) (es : List Envelope) (w : World S.State) (r : Http RecordsReply × S.State)
      → S.get_records (before seq) w.server ≡ r
      → IsConcluded seq es w (conclude S seq es w)
  unfolding conclude verify_push call answered get_records guard_rollback
  conclude_answered seq es w (none, s) h = rw h (refl, refl)
  conclude_answered seq es w (some (status, reply), s) h = elim (Bool-cases (status == 200)) [
    | inr e ↦ rw h (rw e (refl, refl))
    | inl e ↦ rw h (
        rw e (elim (Bool-cases (seq_below reply.seq w.state.highest_seq)) [
          | inl b ↦ rw b (refl, refl)
          | inr b ↦
              rw b
                (elim (Bool-cases (all_served (as_map (an_array (from_wire reply.records))) es)) [
                  | inr a ↦ rw a (refl, refl)
                  | inl a ↦ rw a (
                    record {
                      reply = reply;
                      after = s;
                      answers = rw (status_ok status e) at h;
                      serves = a;
                      reaches = b;
                    },
                    refl,
                    refl,
                    refl,
                  )
                ])
        ]))
  ]

  -- After a push that the server says it took, a sync agrees on it only if the server answered a
  -- further request, the last one, with a reply that holds every pushed envelope, with the bytes
  -- that were pushed or at a later revision, and whose sequence number is not below the mark. The
  -- state is then the agreed one. On an error the vault and the state are as they were.
  pub conclude-IsConcluded :
      (seq : Seq) (es : List Envelope) (w : World S.State)
      → IsConcluded seq es w (conclude S seq es w)
  conclude-IsConcluded seq es w =
      conclude_answered seq es w (S.get_records (before seq) w.server) refl

  module _ (p : Platform) (u : Supply) where
    -- The server took a list of envelopes that was put to it, and is in the state which that left.
    abbrev pub IsTaken : List Envelope → ℕ → Seq → S.State → Type 0
    IsTaken es status seq s =
        (known : Option Seq) × (before : S.State) × (S.put_records es known before
          ≡ (some (status, seq), s))

    -- The server took what was pushed; the next request served it back, and was the last one; and
    -- it is agreed on.
    abbrev pub IsPushed : Merged → World S.State → Type 0
    IsPushed pushed w' =
        (w : World S.State) × (seq : Seq) × IsTaken pushed.to_push 200 seq w.server
        × (q : IsServedBack seq pushed.to_push w) × (w'.server ≡ q.after)
        × (w'.state ≡ agreed pushed.to_push seq w.state)

    concluded_success :
        (seq : Seq) (es : List Envelope) (w : World S.State)
        (r : (SyncError ⊎ Unit {0}) × World S.State)
        → IsConcluded seq es w r
        → OnSuccess
            (λ _ w'.
              (q : IsServedBack seq es w) × (w'.server ≡ q.after)
              × (w'.state ≡ agreed es seq w.state))
            r
    concluded_success seq es w (inl e, w') h = tt
    concluded_success seq es w (inr _, w') h = (h.0, h.3, h.1)

    abbrev WasPut : Pushing → World S.State → Type 0
    WasPut last w = IsTaken last.0.to_push last.1 last.2 w.server

    put_answered :
        (result : Merged) (known : Option Seq) (w : World S.State) (r : Http Seq × S.State)
        → S.put_records result.to_push known w.server ≡ r
        → OnSuccess WasPut (put S result known w)
    unfolding put call answered
    put_answered result known w (none, s) h = rw h tt
    put_answered result known w (some (status, seq), s) h = rw h (known, w.server, h)

    put-WasPut :
        (result : Merged) (known : Option Seq) (w : World S.State)
        → OnSuccess WasPut (put S result known w)
    put-WasPut result known w =
        put_answered result known w (S.put_records result.to_push known w.server) refl

    push_again-WasPut :
        (round : ℕ) (since : Seq) (w : World S.State)
        → OnSuccess WasPut (push_again S p u round since w)
    unfolding push_again
    push_again-WasPut round since w =
        success_any WasPut (take_round S p u round since w) _
          (λ r w1. put-WasPut r.1 (some r.0.seq) w1)

    retry_conflict-WasPut :
        (last : Pushing) (b : Bool) (w : World S.State)
        → WasPut last w
        → OnSuccess WasPut (retry_conflict S p u last b w)
    unfolding retry_conflict
    retry_conflict-WasPut last false w h = h
    retry_conflict-WasPut last true w h =
        success_any WasPut (guard_rollback S last.2 w) _
          (λ _ w1. push_again-WasPut 1 w1.state.seq w1)

    retry_full-WasPut :
        (last : Pushing) (b : Bool) (w : World S.State)
        → WasPut last w
        → OnSuccess WasPut (retry_full S p u last b w)
    unfolding retry_full
    retry_full-WasPut last false w h = h
    retry_full-WasPut last true w h = push_again-WasPut 2 (some 0) w

    went_on :
        (status : ℕ) (w : World S.State)
        → OnSuccess (λ _ w'. (w' ≡ w) × (status ≡ 200)) (stop_if (is_refused status) push w)
    went_on status w = elim (Bool-cases (status == 200)) [
      | inl e ↦ rw e (refl, status_ok status e)
      | inr e ↦ rw e tt
    ]

    IsPushed-last :
        (last : Pushing) (w3 : World S.State)
        → WasPut last w3
        → OnSuccess IsPushed (
            carry_on
              (stop_if (is_refused last.1) push w3)
              (λ _ w4. carry_on (conclude S last.2 last.0.to_push w4) (λ _ w5. pure last.0 w5)))
    IsPushed-last last w3 k3 =
        success_carry_on IsPushed (λ _ w4. (w4 ≡ w3) × (last.1 ≡ 200))
          (stop_if (is_refused last.1) push w3) _ (went_on last.1 w3)
          (λ _ w4 m.
            success_carry_on IsPushed
              (λ _ w'.
                (q : IsServedBack last.2 last.0.to_push w4) × (w'.server ≡ q.after)
                × (w'.state ≡ agreed last.0.to_push last.2 w4.state))
              (conclude S last.2 last.0.to_push w4) _
              (concluded_success last.2 last.0.to_push w4 _
                (conclude-IsConcluded last.2 last.0.to_push w4))
              (λ _ w5 h. (w4, last.2, (k3.0, k3.1, rw (m.0, ← m.1) k3.2), h.0, h.1, h.2)))

    push_all-IsPushed :
        (seq : Seq) (result : Merged) (w : World S.State)
        → OnSuccess IsPushed (push_all S p u seq result w)
    unfolding push_all after_conflict after_stale
    push_all-IsPushed seq result w =
        success_carry_on IsPushed WasPut (put S result (if_match seq) w) _
          (put-WasPut result (if_match seq) w)
          (λ first w1 k1.
            success_carry_on IsPushed WasPut (after_conflict S p u first w1) _
              (retry_conflict-WasPut first (first.1 == 409) w1 k1)
              (λ second w2 k2.
                success_carry_on IsPushed WasPut (after_stale S p u second w2) _
                  (retry_full-WasPut second (second.1 == 422) w2 k2)
                  (λ last w3 k3. IsPushed-last last w3 k3)))

    -- A report of a sync: nothing was pushed, or all that was is agreed on.
    abbrev pub IsHonestReport : Report → World S.State → Type 0
    IsHonestReport r w =
        (r.pushed ≡ 0)
        ⊎ ((pushed : Merged) × (r.pushed ≡ length pushed.to_push) × IsPushed pushed w)

    push_some-IsHonestReport :
        (reply : RecordsReply) (result : Merged) (waits : Bool) (es : List Envelope)
        (w : World S.State)
        → OnSuccess IsHonestReport (push_some S p u reply result waits es w)
    unfolding push_some
    push_some-IsHonestReport reply result waits [] w = inl refl
    push_some-IsHonestReport reply result waits (e ∷ es) w =
        success_carry_on IsHonestReport IsPushed (push_all S p u reply.seq result w) _
          (push_all-IsPushed reply.seq result w) (λ pushed w' h. inr (pushed, refl, h))

    -- A sync that ends without an error reports that nothing was pushed, or reports the number of
    -- envelopes of a list that was put to the server, and that the server took; the very next
    -- request, which was the last one, served this list back; and the sync ends in the state that
    -- agrees on just these envelopes.
    pub sync_once-IsHonestReport :
        (w : World S.State) → OnSuccess IsHonestReport (sync_once S p u w)
    unfolding sync_once
    sync_once-IsHonestReport w = success_any IsHonestReport (sync_header S w) _ (λ waits w1.
        success_any IsHonestReport (take_round S p u 0 w1.state.seq w1) _
          (λ r w2. push_some-IsHonestReport r.0 r.1 waits r.1.to_push w2))
