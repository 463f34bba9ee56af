-- ===== src/Sync/Once.antt =====
-- `syncOnce` and `verifyPush` of src/core/sync.js.

use bencpass.Prelude.{ℕ, Bool, true, false, Option, some, List, [], ◌∷◌, not, length, ◌==◌}
use bencpass.Envelope.{Envelope}
use bencpass.Crypto.{Platform}
use bencpass.Merge.{Merged, an_array, as_map, confirm_pushed}
use bencpass.Sync.Client.{
  ◌>>=◌, ◌>>◌, Sync, pure, get_world, set_state, stop_if, Seq, seq_max, SyncState, RecordsReply,
  Server, push, dropped_push,
}
use bencpass.Sync.Round.{
  Supply, from_wire, all_served, before, if_match, is_refused, call, get_records, guard_rollback,
  sync_header, take_round, Report,
}

-- A round's outcome, and the answer to its push.
abbrev pub Pushing : Type 0
Pushing = Merged × ℕ × Seq

-- What is agreed once the push is served back.
abbrev pub agreed : List Envelope → Seq → SyncState → SyncState
agreed es seq s = record {
  seq = seq;
  highest_seq = seq_max s.highest_seq seq;
  synced_rev = confirm_pushed s.synced_rev es;
}

module _ (S : Server) where
  -- `verifyPush`
  unfoldable pub verify_push : Seq → List Envelope → Sync S.State (Unit {0})
  unfolding get_records guard_rollback
  verify_push seq es = do
    back ← get_records S (before seq)
    guard_rollback S back.seq
    stop_if (not (all_served (as_map (an_array (from_wire back.records))) es)) dropped_push

  -- The push was accepted: it is read back, and only then agreed.
  unfoldable pub conclude : Seq → List Envelope → Sync S.State (Unit {0})
  unfolding verify_push
  conclude seq es = do verify_push seq es; w ← get_world; set_state (agreed es seq w.state)

  -- `putRecords`
  unfoldable pub put : Merged → Option Seq → Sync S.State Pushing
  unfolding call
  put result known = do
    (status, seq) ← call S (S.put_records result.to_push known)
    pure (result, status, seq)

  module _ (p : Platform) (u : Supply) where
    -- A further round, and its push.
    unfoldable pub push_again : ℕ → Seq → Sync S.State Pushing
    unfolding take_round put
    push_again round since = do
      (reply, result) ← take_round S p u round since
      put result (some reply.seq)

    unfoldable pub retry_conflict : Pushing → Bool → Sync S.State Pushing
    unfolding push_again guard_rollback
    retry_conflict last false = pure last
    retry_conflict last true = do guard_rollback S last.2; w ← get_world; push_again 1 w.state.seq

    -- After a 409
    unfoldable pub after_conflict : Pushing → Sync S.State Pushing
    unfolding retry_conflict
    after_conflict last = retry_conflict last (last.1 == 409)

    unfoldable pub retry_full : Pushing → Bool → Sync S.State Pushing
    unfolding push_again
    retry_full last false = pure last
    retry_full last true = push_again 2 (some 0)

    -- After a 422
    unfoldable pub after_stale : Pushing → Sync S.State Pushing
    unfolding retry_full
    after_stale last = retry_full last (last.1 == 422)

    -- The first push, its retries and the read-back: what was pushed
    unfoldable pub push_all : Seq → Merged → Sync S.State Merged
    unfolding put after_conflict after_stale conclude
    push_all seq result = do
      first ← put result (if_match seq)
      second ← after_conflict first
      (pushed, status, reached) ← after_stale second
      stop_if (is_refused status) push
      conclude reached pushed.to_push
      pure pushed

    abbrev report : ℕ → ℕ → Merged → Bool → Sync S.State Report
    report pulled pushed result waits = do
      w ← get_world
      pure (record {
        pulled = pulled;
        pushed = pushed;
        conflicts = result.conflicts;
        seq = w.state.seq;
        header_pending = waits;
      })

    unfoldable pub push_some : RecordsReply → Merged → Bool → List Envelope → Sync S.State Report
    unfolding push_all
    push_some reply result waits [] = report (length reply.records) 0 result waits
    push_some reply result waits (e ∷ es) = do
      pushed ← push_all reply.seq result
      report (length reply.records) (length pushed.to_push) pushed waits

    -- `syncOnce`
    unfoldable pub sync_once : Sync S.State Report
    unfolding sync_header take_round push_some
    sync_once = do
      waits ← sync_header S
      w ← get_world
      (reply, result) ← take_round S p u 0 w.state.seq
      push_some reply result waits result.to_push
