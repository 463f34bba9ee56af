-- ===== src/Sync/Marks.antt =====
-- The high-water mark through the steps of a sync (src/core/sync.js).
use bencpass.Prelude.{
  Bool, true, false, Bool-cases, Option, none, some, List, ◌⊎◌, inl, inr, ◌≤◌, arith,
}
use bencpass.Envelope.{Envelope}
use bencpass.Vault.{Vault, Fault}
use bencpass.Merge.{Merged}
use bencpass.Vault.Forking.{Forking}
use bencpass.Vault.Password.{portable_meta}
use bencpass.Sync.Client.{
  ◌>>=◌, World, Sync, stop_if, Seq, seq_max, seq_below, SyncState, Server, Http, SyncError, pull,
  meta_failed, rollback,
}
use bencpass.Sync.Round.{
  HeaderMove, stash, diverge, leave, publish, header_move, answered, call, get_meta, get_records,
  guard_rollback, move_header, sync_header, refuse_locked_conflict, locked_conflict, run_vault,
  run_apply, run_forks, is_refused,
}
use bencpass.Sync.Always.{Relation, Always-bind}

-- A mark never falls to a smaller number.
abbrev pub IsKept : Seq → Seq → Type 0
IsKept none none = Unit {0}
IsKept none (some n) = ⊥
IsKept (some m) none = Unit {0}
IsKept (some m) (some n) = m ≤ n

-- The sequence number does not pass the mark.
abbrev pub IsBelow : Seq → Seq → Type 0
IsBelow s none = Unit {0}
IsBelow none (some n) = ⊥
IsBelow (some m) (some n) = m ≤ n

abbrev pub IsOrdered : SyncState → Type 0
IsOrdered s = IsBelow s.seq s.highest_seq

abbrev pub Marks : SyncState → SyncState → Type 0
Marks s t = IsKept s.highest_seq t.highest_seq × (IsOrdered s → IsOrdered t)

IsKept-refl : (a : Seq) → IsKept a a
IsKept-refl none = tt
IsKept-refl (some m) = ground arith

IsKept-trans : (a b c : Seq) → IsKept a b → IsKept b c → IsKept a c
IsKept-trans none (some n) c h k = elim h [ ]
IsKept-trans none none none h k = tt
IsKept-trans none none (some n) h k = k
IsKept-trans (some m) none none h k = tt
IsKept-trans (some m) none (some n) h k = elim k [ ]
IsKept-trans (some m) (some n) none h k = tt
IsKept-trans (some m) (some n) (some l) h k = ground arith

pub IsKept-seq_max : (a b : Seq) → IsKept a (seq_max a b)
IsKept-seq_max none b = tt
IsKept-seq_max (some m) none = tt
IsKept-seq_max (some m) (some n) = ground arith

pub IsBelow-seq_max : (a b : Seq) → IsBelow b (seq_max a b)
IsBelow-seq_max none b = tt
IsBelow-seq_max (some m) none = tt
IsBelow-seq_max (some m) (some n) = ground arith

unfoldable marks : (σ : Type 0) → Relation σ
marks σ = record {
  Holds = λ w w'. Marks w.state w'.state;
  same = λ w. (IsKept-refl w.state.highest_seq, λ h. h);
  chain = λ {w} {w'} {w''} h k. (
    IsKept-trans w.state.highest_seq w'.state.highest_seq w''.state.highest_seq h.0 k.0,
    λ o. k.1 (h.1 o),
  );
}

module _ (S : Server) where
  abbrev pub Keeps : {A : Type 0} → Sync S.State A → Type 0
  Keeps m = (w : World S.State) → Marks w.state (m w).1.state

  pub bind-Keeps :
      {A B : Type 0} (m : Sync S.State A) (f : A → Sync S.State B)
      → Keeps m
      → ((a : A) → Keeps (f a))
      → Keeps (m >>= f)
  unfolding marks
  bind-Keeps = Always-bind (marks S.State)

  pub Marks-refl : (s : SyncState) → Marks s s
  Marks-refl s = (IsKept-refl s.highest_seq, λ h. h)

  pub stop_if-Keeps : (b : Bool) (e : SyncError) → Keeps (stop_if b e)
  stop_if-Keeps true e w = Marks-refl w.state
  stop_if-Keeps false e w = Marks-refl w.state

  pub answered-Keeps :
      {A : Type 0} (r : Http A × S.State) (w : World S.State)
      → Marks w.state (answered S r w).1.state
  unfolding answered
  answered-Keeps (none, s) w = Marks-refl w.state
  answered-Keeps (some r, s) w = Marks-refl w.state

  pub call-Keeps : {A : Type 0} (request : S.State → Http A × S.State) → Keeps (call S request)
  unfolding call
  call-Keeps request w = answered-Keeps (request w.server) w

  pub get_records-Keeps : (since : Seq) → Keeps (get_records S since)
  unfolding get_records
  get_records-Keeps since =
      bind-Keeps (call S (S.get_records since)) _ (call-Keeps (S.get_records since)) (λ r.
        bind-Keeps (stop_if (is_refused r.0) pull) _ (stop_if-Keeps (is_refused r.0) pull)
          (λ _ w. Marks-refl w.state))

  pub guard_rollback-Keeps : (seq : Seq) → Keeps (guard_rollback S seq)
  unfolding guard_rollback
  guard_rollback-Keeps seq w = stop_if-Keeps (seq_below seq w.state.highest_seq) rollback w

  pub get_meta-Keeps : Keeps (get_meta S)
  unfolding get_meta
  get_meta-Keeps = bind-Keeps (call S S.get_meta) _ (call-Keeps S.get_meta) (λ r.
      bind-Keeps (stop_if (is_refused r.0) meta_failed) _
        (stop_if-Keeps (is_refused r.0) meta_failed) (λ _ w. Marks-refl w.state))

  pub move_header-Keeps : (seq : Seq) (m : HeaderMove) (v : Vault) → Keeps (move_header S seq m v)
  unfolding move_header
  move_header-Keeps seq (stash h) v w = Marks-refl w.state
  move_header-Keeps seq diverge v w = Marks-refl w.state
  move_header-Keeps seq leave v w = Marks-refl w.state
  move_header-Keeps seq publish v w =
      bind-Keeps (call S (S.put_meta (portable_meta v) seq)) _
        (call-Keeps (S.put_meta (portable_meta v) seq))
        (λ r.
          bind-Keeps (stop_if (is_refused r.0) meta_failed) _
            (stop_if-Keeps (is_refused r.0) meta_failed) (λ _ w. Marks-refl w.state))
        w

  pub sync_header-Keeps : Keeps (sync_header S)
  unfolding sync_header
  sync_header-Keeps =
      bind-Keeps (get_meta S) _ get_meta-Keeps
        (λ reply w. move_header-Keeps reply.seq (header_move w.vault reply.meta) w.vault w)

  pub refuse_locked_conflict-Keeps : (result : Merged) → Keeps (refuse_locked_conflict S result)
  unfolding refuse_locked_conflict
  refuse_locked_conflict-Keeps result w = elim (Bool-cases (locked_conflict w.vault result)) [
    | inl e ↦ rw e (Marks-refl w.state)
    | inr e ↦ rw e (Marks-refl w.state)
  ]

  pub run_vault-Keeps : (r : Fault ⊎ Vault) → Keeps (run_vault S r)
  unfolding run_vault
  run_vault-Keeps (inl f) w = Marks-refl w.state
  run_vault-Keeps (inr v) w = Marks-refl w.state

  pub run_apply-Keeps : (r : Vault × Option Fault) → Keeps (run_apply S r)
  unfolding run_apply
  run_apply-Keeps (v, none) w = Marks-refl w.state
  run_apply-Keeps (v, some f) w = Marks-refl w.state

  pub run_forks-Keeps : (es : List Envelope) (r : Fault ⊎ Forking) → Keeps (run_forks S es r)
  unfolding run_forks
  run_forks-Keeps es (inl f) w = Marks-refl w.state
  run_forks-Keeps es (inr s) w = Marks-refl w.state
