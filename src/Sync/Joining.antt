-- ===== src/Sync/Joining.antt =====
-- `joinVault` of src/core/sync.js: taking over the vault that a server carries.
use bencpass.Prelude.{ℕ, Bool, false, Option, none, some, [], ltb, ◌==◌, if◌then◌else◌}
use bencpass.Text.{Text}
use bencpass.Crypto.{Platform}
use bencpass.Header.{Header, format}
use bencpass.Vault.{Vault, Fault}
use bencpass.Vault.Password.{adopt_meta, unlock}
use bencpass.Sync.Client.{
  ◌>>=◌, ◌>>◌, Sync, pure, throw, stop_if, Seq, Server, rollback, no_vault_there, bad_meta,
  no_entry,
}
use bencpass.Sync.Round.{get_meta}

-- `Number(seq ?? 0) < floor`
abbrev pub below_floor : Seq → ℕ → Bool
below_floor none floor = ltb 0 floor
below_floor (some n) floor = ltb n floor

-- `Vault.load` of a header and no records
abbrev pub loaded : Header → Vault
loaded h = record {
  key = none;
  plain = [];
  envelopes = [];
  synced_rev = [];
  parked = [];
  damaged = [];
  forked_marks = [];
  parked_dropped = 0;
  meta = h;
  pending_meta = none;
  meta_updated = false;
}

-- Any fault of the unlock is no entry.
abbrev pub entered : {σ : Type 0} → Vault × Option Fault → Sync σ Vault
entered (v, none) = pure v
entered (v, some f) = throw no_entry

abbrev pub join_with : {σ : Type 0} → Platform → Text → Option Header → Sync σ Vault
join_with p password none = throw no_vault_there
join_with p password (some h) =
    if h.format == format
    then entered (unlock p password (loaded (adopt_meta h)))
    else throw bad_meta

-- `joinVault`
unfoldable pub join_vault : (S : Server) → Platform → Text → ℕ → Sync S.State Vault
unfolding get_meta
join_vault S p password floor = do
  reply ← get_meta S
  stop_if (below_floor reply.seq floor) rollback
  join_with p password reply.meta
