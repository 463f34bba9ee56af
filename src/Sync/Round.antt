-- ===== src/Sync/Round.antt =====
-- One sync: pull, merge, push, with one retry after a conflict and one full pull (src/core/sync.js).
use bencpass.Prelude.{
  ℕ, String, Bool, true, false, not, ◌&&◌, ◌||◌, ◌-◌, ◌+◌, Option, none, some, List, [], ◌∷◌, ◌++◌,
  ◌⊎◌, inl, inr, ltb, ◌==◌, str_eq, length, if◌then◌else◌,
}
use bencpass.Map.{Map, get}
use bencpass.Envelope.{Envelope}
use bencpass.Text.{Text}
use bencpass.Crypto.{Platform}
use bencpass.Header.{Header, Wrap, Proof}
use bencpass.Merge.{Merged, Conflict, a_map, an_array, merge, bool_eq}
use bencpass.Vault.{Vault, Fault, park, locked}
use bencpass.Vault.Password.{real_gen, password_wrap, portable_meta, stash_header}
use bencpass.Vault.Records.{larger, supersede}
use bencpass.Vault.Adopting.{apply_envelopes}
use bencpass.Vault.Forking.{Forking, Fresh, resolve_parked}
use Prim.Native.Nat.{zero, suc}
use bencpass.Sync.Client.{
  ◌>>=◌, ◌>>◌, World, Sync, pure, throw, get_world, set_vault, set_state, stop_if, Seq, seq_below,
  seq_max, MetaReply, RecordsReply, Http, Server, SyncError, pull, meta_failed, rollback,
  unreachable, conflict_locked, header_diverged, vault_fault,
}

-- What the platform draws in a round, the clock, and the printing of a day.
pub record Supply : Type 0 where
  pub fresh : ℕ → ℕ → Fresh
  pub nonce : ℕ → ℕ → String
  pub now : ℕ
  pub day : ℕ → Text

-- `fromWire`: the local mark does not survive.
unfoldable pub from_wire : List Envelope → List Envelope
from_wire [] = []
from_wire (e ∷ es) = record e { over_tombstone = false } ∷ from_wire es

abbrev wrap_ct : Option Wrap → String
wrap_ct none = ""
wrap_ct (some w) = w.ct

abbrev proof_ct : Option Proof → String
proof_ct none = ""
proof_ct (some q) = q.ct

-- `headerDiffers`, of headers of one generation
unfoldable pub header_differs : Header → Header → Bool
header_differs mine theirs =
    not (str_eq mine.kdf.salt theirs.kdf.salt)
    || not (str_eq (wrap_ct (password_wrap mine)) (wrap_ct (password_wrap theirs)))
    || not (str_eq (proof_ct mine.proof) (proof_ct theirs.proof))

abbrev pub parked_of : List Conflict → List Envelope
parked_of [] = []
parked_of (c ∷ cs) = c.parked ∷ parked_of cs

-- What becomes of the header that the server serves.
pub data HeaderMove : Type 0 where
  stash : Header → HeaderMove
  diverge : HeaderMove
  leave : HeaderMove
  publish : HeaderMove

-- The comparisons of `syncHeader`. NaN is neither above nor equal.
unfoldable pub header_move : Vault → Option Header → HeaderMove
unfolding header_differs
header_move v none = publish
header_move v (some h) = move (real_gen h.gen) (real_gen v.meta.gen)
  where
    move : Option ℕ → Option ℕ → HeaderMove
    move none mine = publish
    move (some theirs) none = publish
    move (some theirs) (some mine) =
        if ltb mine theirs
        then stash h
        else if theirs == mine
        then if ltb 0 mine && header_differs (portable_meta v) h then diverge else leave
        else publish

-- What is reported of a sync.
pub record Report : Type 0 where
  pub pulled : ℕ
  pub pushed : ℕ
  pub conflicts : List Conflict
  pub seq : Seq
  pub header_pending : Bool

-- The envelope that `toPush` holds of an id, replaced.
abbrev pub replace_pushed : String → Option Envelope → List Envelope → List Envelope
replace_pushed id o [] = []
replace_pushed id none es = es
replace_pushed id (some e) (f ∷ fs) =
    if str_eq f.id id then e ∷ fs else f ∷ replace_pushed id (some e) fs

abbrev pub is_pushed : String → List Envelope → Bool
is_pushed id [] = false
is_pushed id (f ∷ fs) = str_eq f.id id || is_pushed id fs

-- Served back: the same bytes, or a later revision.
unfoldable pub is_served : Envelope → Option Envelope → Bool
is_served e none = false
is_served e (some r) =
    ltb e.rev r.rev
    || ((r.rev == e.rev) && str_eq r.ct e.ct && str_eq r.n e.n && bool_eq r.deleted e.deleted)

unfoldable pub all_served : Map Envelope → List Envelope → Bool
unfolding is_served get
all_served served [] = true
all_served served (e ∷ es) = is_served e (get e.id served) && all_served served es

abbrev add_pushed : Option Envelope → List Envelope → List Envelope
add_pushed none es = es
add_pushed (some e) es = es ++ e ∷ []

unfoldable pub add_forked : Map Envelope → List String → List Envelope → List Envelope
unfolding get
add_forked envelopes [] es = es
add_forked envelopes (id ∷ ids) es = add_forked envelopes ids (add_pushed (get id envelopes) es)

-- From just below the push: `Number(seq) - 1`, or 0.
abbrev pub before : Seq → Seq
before none = some 0
before (some n) = some (n - 1)

-- An If-Match that is left out of the first write to an empty server.
abbrev pub if_match : Seq → Option Seq
if_match (some zero) = none
if_match (some (suc n)) = some (some (suc n))
if_match none = some none

-- A status other than 200.
abbrev pub is_refused : ℕ → Bool
is_refused status = not (status == 200)

abbrev pub locked_conflict : Vault → Merged → Bool
locked_conflict v result = locked v && not (length result.conflicts == 0)

module _ (S : Server) where
  unfoldable pub answered :
      {A : Type 0} → Http A × S.State → World S.State → (SyncError ⊎ (ℕ × A)) × World S.State
  answered (none, s) w = (inl unreachable, record w { server = s })
  answered (some r, s) w = (inr r, record w { server = s })

  -- A request. An unreachable server is an error.
  unfoldable pub call : {A : Type 0} → (S.State → Http A × S.State) → Sync S.State (ℕ × A)
  unfolding answered
  call request w = answered (request w.server) w

  -- `getRecords`
  unfoldable pub get_records : Seq → Sync S.State RecordsReply
  unfolding call
  get_records since = do
    (status, body) ← call (S.get_records since)
    stop_if (is_refused status) pull
    pure body

  -- `getMeta`
  unfoldable pub get_meta : Sync S.State MetaReply
  unfolding call
  get_meta = do (status, body) ← call S.get_meta; stop_if (is_refused status) meta_failed; pure body

  -- `guardRollback`
  unfoldable pub guard_rollback : Seq → Sync S.State (Unit {0})
  guard_rollback seq = do w ← get_world; stop_if (seq_below seq w.state.highest_seq) rollback

  unfoldable pub move_header : Seq → HeaderMove → Vault → Sync S.State Bool
  unfolding call
  move_header seq (stash h) v = do set_vault (stash_header h v).0; pure (stash_header h v).1
  move_header seq diverge v = throw header_diverged
  move_header seq leave v = pure false
  move_header seq publish v = do
    (status, body) ← call (S.put_meta (portable_meta v) seq)
    stop_if (is_refused status) meta_failed
    pure false

  -- `syncHeader`: whether a header waits
  unfoldable pub sync_header : Sync S.State Bool
  unfolding move_header get_meta header_move
  sync_header = do
    reply ← get_meta
    w ← get_world
    move_header reply.seq (header_move w.vault reply.meta) w.vault

  -- `refuseLockedConflict`
  unfoldable pub refuse_locked_conflict : Merged → Sync S.State (Unit {0})
  refuse_locked_conflict result w =
      if locked_conflict w.vault result
      then (inl conflict_locked, record w { vault = park (parked_of result.conflicts) w.vault })
      else (inr tt, w)

  unfoldable pub run_vault : Fault ⊎ Vault → Sync S.State (Unit {0})
  run_vault (inl f) = throw (vault_fault f)
  run_vault (inr v) = set_vault v

  unfoldable pub run_apply : Vault × Option Fault → Sync S.State (Unit {0})
  run_apply (v, none) = set_vault v
  run_apply (v, some f) = do set_vault v; throw (vault_fault f)

  unfoldable pub run_forks : List Envelope → Fault ⊎ Forking → Sync S.State (List Envelope)
  unfolding add_forked
  run_forks es (inl f) = throw (vault_fault f)
  run_forks es (inr s) = do set_vault s.vault; pure (add_forked s.vault.envelopes s.forked es)

  module _ (p : Platform) (u : Supply) (round : ℕ) where
    -- The loop of `settleConflicts` over the conflicts, the k-th with the k-th nonce.
    unfoldable pub supersede_all : ℕ → List Conflict → List Envelope → Sync S.State (List Envelope)
    unfolding run_vault get
    supersede_all k [] es = pure es
    supersede_all k (c ∷ cs) es =
        let skip = supersede_all (k + 1) cs es in
        if is_pushed c.id es
        then (do
          w ← get_world
          run_vault (supersede p (u.nonce round k) c.id (larger c.local.rev c.remote.rev) w.vault)
          w' ← get_world
          supersede_all (k + 1) cs (replace_pushed c.id (get c.id w'.vault.envelopes) es))
        else skip

    unfoldable pub settle_unlocked : Merged → Sync S.State (List Envelope)
    unfolding supersede_all run_forks
    settle_unlocked result = do
      es ← supersede_all 0 result.conflicts result.to_push
      w ← get_world
      run_forks es (resolve_parked p u.day (u.fresh round) u.now w.vault)

    -- `settleConflicts`: what is to be pushed
    unfoldable pub settle_conflicts : Merged → Sync S.State (List Envelope)
    unfolding settle_unlocked
    settle_conflicts result = do
      w ← get_world
      set_vault (park (parked_of result.conflicts) w.vault)
      if locked w.vault then pure result.to_push else settle_unlocked result

    -- A pull from `since`, the merge, and what follows it.
    unfoldable pub take_round : Seq → Sync S.State (RecordsReply × Merged)
    unfolding get_records guard_rollback refuse_locked_conflict run_apply settle_conflicts
    take_round since = do
      reply ← get_records since
      guard_rollback reply.seq
      w ← get_world
      let result =
          merge (a_map w.vault.envelopes) (an_array (from_wire reply.records)) w.state.synced_rev
      stop_if (not (length result.rolled_back == 0)) rollback
      refuse_locked_conflict result
      run_apply (apply_envelopes p (a_map result.envelopes) w.vault)
      es ← settle_conflicts result
      w' ← get_world
      set_state (record {
        seq = reply.seq;
        highest_seq = seq_max w'.state.highest_seq reply.seq;
        synced_rev = result.synced_rev;
      })
      pure (reply, record result { to_push = es })
