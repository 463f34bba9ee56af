-- ===== src/Sync/Marked.antt =====
-- The high-water mark through a whole sync (src/core/sync.js).
use bencpass.Prelude.{
  ℕ, Bool, true, false, Bool-cases, Option, some, List, [], ◌∷◌, inl, inr, ◌==◌, ◌+◌, not, length,
}
use bencpass.Crypto.{Platform}
use bencpass.Envelope.{Envelope}
use bencpass.Vault.{park, locked}
use bencpass.Map.{get}
use bencpass.Merge.{Merged, Conflict, a_map, an_array, as_map, merge}
use bencpass.Vault.Forking.{resolve_parked}
use bencpass.Vault.Adopting.{apply_envelopes}
use bencpass.Vault.Records.{supersede, larger}
use bencpass.Sync.Client.{
  World, stop_if, Seq, seq_max, RecordsReply, Server, push, rollback, dropped_push,
}
use bencpass.Sync.Round.{
  Supply, call, get_records, guard_rollback, sync_header, refuse_locked_conflict, run_vault,
  run_apply, supersede_all, is_pushed, replace_pushed, settle_unlocked, settle_conflicts,
  take_round, is_refused, parked_of, from_wire, before, if_match, all_served,
}
use bencpass.Sync.Once.{
  Pushing, verify_push, conclude, put, push_again, retry_conflict, after_conflict, retry_full,
  after_stale, push_all, push_some, sync_once,
}
use bencpass.Sync.Marks.{
  Keeps, bind-Keeps, Marks-refl, stop_if-Keeps, call-Keeps, get_records-Keeps, guard_rollback-Keeps,
  sync_header-Keeps, refuse_locked_conflict-Keeps, run_vault-Keeps, run_apply-Keeps,
  run_forks-Keeps, IsKept-seq_max, IsBelow-seq_max, Marks,
}

module _ (S : Server) where
  module _ (p : Platform) (u : Supply) (round : ℕ) where
    supersede_all-Keeps :
        (k : ℕ) (cs : List Conflict) (es : List Envelope)
        → Keeps S (supersede_all S p u round k cs es)
    unfolding supersede_all
    supersede_all-Keeps k [] es w = Marks-refl S w.state
    supersede_all-Keeps k (c ∷ cs) es w =
        let r = supersede p (u.nonce round k) c.id (larger c.local.rev c.remote.rev) w.vault in
        elim (Bool-cases (is_pushed c.id es)) [
          | inl e ↦ rw e (
              bind-Keeps S (run_vault S r) _ (run_vault-Keeps S r)
                (λ _ w'.
                  supersede_all-Keeps (k + 1) cs
                    (replace_pushed c.id (get c.id w'.vault.envelopes) es) w')
                w)
          | inr e ↦ rw e (supersede_all-Keeps (k + 1) cs es w)
        ]

    settle_conflicts-Keeps : (result : Merged) → Keeps S (settle_conflicts S p u round result)
    unfolding settle_conflicts settle_unlocked
    settle_conflicts-Keeps result w = elim (Bool-cases (locked w.vault)) [
      | inl e ↦ rw e (Marks-refl S w.state)
      | inr e ↦ rw e (
          bind-Keeps S (supersede_all S p u round 0 result.conflicts result.to_push) _
            (supersede_all-Keeps 0 result.conflicts result.to_push)
            (λ es w'.
              run_forks-Keeps S es (resolve_parked p u.day (u.fresh round) u.now w'.vault) w')
            (record w { vault = park (parked_of result.conflicts) w.vault }))
    ]

    Marks-seq_max :
        (seq : Seq) (result : Merged) (w : World S.State)
        → Marks w.state (record {
          seq = seq;
          highest_seq = seq_max w.state.highest_seq seq;
          synced_rev = result.synced_rev;
        })
    Marks-seq_max seq result w =
        (IsKept-seq_max w.state.highest_seq seq, λ _. IsBelow-seq_max w.state.highest_seq seq)

    -- A round, from the reply on
    merged_with : RecordsReply → World S.State → Merged
    merged_with reply w =
        merge (a_map w.vault.envelopes) (an_array (from_wire reply.records)) w.state.synced_rev

    take_round-Keeps : (since : Seq) → Keeps S (take_round S p u round since)
    unfolding take_round merged_with
    take_round-Keeps since =
        bind-Keeps S (get_records S since) _ (get_records-Keeps S since) (λ reply.
          bind-Keeps S (guard_rollback S reply.seq) _ (guard_rollback-Keeps S reply.seq) (λ _ w.
            let result = merged_with reply w in
            let stops = not (length result.rolled_back == 0) in
            let adopted = apply_envelopes p (a_map result.envelopes) w.vault in
            bind-Keeps S (stop_if stops rollback) _ (stop_if-Keeps S stops rollback)
              (λ _.
                bind-Keeps S (refuse_locked_conflict S result) _
                  (refuse_locked_conflict-Keeps S result)
                  (λ _. bind-Keeps S (run_apply S adopted) _ (run_apply-Keeps S adopted) (λ _.
                    bind-Keeps S (settle_conflicts S p u round result) _
                      (settle_conflicts-Keeps result)
                      (λ es w'. Marks-seq_max reply.seq result w'))))
              w))

  put-Keeps : (result : Merged) (known : Option Seq) → Keeps S (put S result known)
  unfolding put
  put-Keeps result known =
      bind-Keeps S (call S (S.put_records result.to_push known)) _
        (call-Keeps S (S.put_records result.to_push known)) (λ _ w. Marks-refl S w.state)

  verify_push-Keeps : (seq : Seq) (es : List Envelope) → Keeps S (verify_push S seq es)
  unfolding verify_push
  verify_push-Keeps seq es =
      bind-Keeps S (get_records S (before seq)) _ (get_records-Keeps S (before seq)) (λ back.
        bind-Keeps S (guard_rollback S back.seq) _ (guard_rollback-Keeps S back.seq) (λ _.
          stop_if-Keeps S (not (all_served (as_map (an_array (from_wire back.records))) es))
            dropped_push))

  conclude-Keeps : (seq : Seq) (es : List Envelope) → Keeps S (conclude S seq es)
  unfolding conclude
  conclude-Keeps seq es = bind-Keeps S (verify_push S seq es) _ (verify_push-Keeps seq es) (λ _ w.
      (IsKept-seq_max w.state.highest_seq seq, λ _. IsBelow-seq_max w.state.highest_seq seq))

  module _ (p : Platform) (u : Supply) where
    push_again-Keeps : (round : ℕ) (since : Seq) → Keeps S (push_again S p u round since)
    unfolding push_again
    push_again-Keeps round since =
        bind-Keeps S (take_round S p u round since) _ (take_round-Keeps p u round since)
          (λ r. put-Keeps r.1 (some r.0.seq))

    retry_conflict-Keeps : (last : Pushing) (b : Bool) → Keeps S (retry_conflict S p u last b)
    unfolding retry_conflict
    retry_conflict-Keeps last false w = Marks-refl S w.state
    retry_conflict-Keeps last true w =
        bind-Keeps S (guard_rollback S last.2) _ (guard_rollback-Keeps S last.2)
          (λ _ w'. push_again-Keeps 1 w'.state.seq w') w

    retry_full-Keeps : (last : Pushing) (b : Bool) → Keeps S (retry_full S p u last b)
    unfolding retry_full
    retry_full-Keeps last false w = Marks-refl S w.state
    retry_full-Keeps last true w = push_again-Keeps 2 (some 0) w

    push_all-Keeps : (seq : Seq) (result : Merged) → Keeps S (push_all S p u seq result)
    unfolding push_all after_conflict after_stale
    push_all-Keeps seq result =
        bind-Keeps S (put S result (if_match seq)) _ (put-Keeps result (if_match seq)) (λ first.
          bind-Keeps S (after_conflict S p u first) _ (retry_conflict-Keeps first (first.1 == 409))
            (λ second.
              bind-Keeps S (after_stale S p u second) _ (retry_full-Keeps second (second.1 == 422))
                (λ last.
                  bind-Keeps S (stop_if (is_refused last.1) push) _
                    (stop_if-Keeps S (is_refused last.1) push)
                    (λ _.
                      bind-Keeps S (conclude S last.2 last.0.to_push) _
                        (conclude-Keeps last.2 last.0.to_push) (λ _ w. Marks-refl S w.state)))))

    push_some-Keeps :
        (reply : RecordsReply) (result : Merged) (waits : Bool) (es : List Envelope)
        → Keeps S (push_some S p u reply result waits es)
    unfolding push_some
    push_some-Keeps reply result waits [] w = Marks-refl S w.state
    push_some-Keeps reply result waits (e ∷ es) w =
        bind-Keeps S (push_all S p u reply.seq result) _ (push_all-Keeps reply.seq result)
          (λ _ w'. Marks-refl S w'.state) w

    -- However a sync ends, the high-water mark does not fall to a smaller number: it is at least
    -- what it was, or it has become none, for a reply without a number. If the sequence number was
    -- not above the mark before, it is not above it afterwards.
    pub sync_once-Marks : (w : World S.State) → Marks w.state (sync_once S p u w).1.state
    unfolding sync_once
    sync_once-Marks = bind-Keeps S (sync_header S) _ (sync_header-Keeps S) (λ waits w.
        bind-Keeps S (take_round S p u 0 w.state.seq) _ (take_round-Keeps p u 0 w.state.seq)
          (λ r. push_some-Keeps r.0 r.1 waits r.1.to_push) w)
