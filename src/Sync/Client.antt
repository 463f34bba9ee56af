-- ===== src/Sync/Client.antt =====
-- What the sync client keeps and asks for (src/core/sync.js). The server and the network are a
-- parameter: each request is answered, or nothing was reachable.
use bencpass.Prelude.{
  ℕ, Bool, false, Option, none, some, List, [], ◌⊎◌, inl, inr, ltb, if◌then◌else◌,
}
use bencpass.Map.{Map}
use bencpass.Envelope.{Envelope}
use bencpass.Header.{Header}
use bencpass.Vault.{Vault, Fault}

-- A sequence number as JavaScript holds it: a whole number, or none for NaN and what is no
-- number. Null and texts, which some comparisons would read as numbers, are left out.
abbrev pub Seq : Type 0
Seq = Option ℕ

-- a < b
abbrev pub seq_below : Seq → Seq → Bool
seq_below none b = false
seq_below (some m) none = false
seq_below (some m) (some n) = ltb m n

-- Math.max(a, b)
abbrev pub seq_max : Seq → Seq → Seq
seq_max none b = none
seq_max (some m) none = none
seq_max (some m) (some n) = if ltb m n then some n else some m

pub record SyncState : Type 0 where
  pub seq : Seq
  pub highest_seq : Seq
  pub synced_rev : Map ℕ

-- `emptySyncState`
abbrev pub empty_sync_state : ℕ → SyncState
empty_sync_state floor = record { seq = some 0; highest_seq = some floor; synced_rev = [] }

pub record MetaReply : Type 0 where
  pub meta : Option Header
  pub seq : Seq

pub record RecordsReply : Type 0 where
  pub records : List Envelope
  pub seq : Seq

-- A status and a body, or nothing.
abbrev pub Http : Type 0 → Type 0
Http A = Option (ℕ × A)

pub record Server : Type 1 where
  pub State : Type 0
  pub get_meta : State → Http MetaReply × State
  pub put_meta : Header → Seq → State → Http Seq × State
  pub get_records : Seq → State → Http RecordsReply × State
  pub put_records : List Envelope → Option Seq → State → Http Seq × State

-- The `code` of a SyncError, or an error of the vault.
pub data SyncError : Type 0 where
  unreachable pull meta_failed push : SyncError
  rollback conflict_locked dropped_push header_diverged : SyncError
  no_vault_there bad_meta no_entry : SyncError
  vault_fault : Fault → SyncError

-- What a sync changes.
pub record World (σ : Type 0) : Type 0 where
  pub vault : Vault
  pub state : SyncState
  pub server : σ

module _ (σ : Type 0) where
  -- A step: an error or a value, and the world after it. What was changed before an error stays.
  abbrev pub Sync : Type 0 → Type 0
  Sync A = World σ → (SyncError ⊎ A) × World σ

module _ {σ : Type 0} {A : Type 0} where
  abbrev pub pure : A → Sync σ A
  pure a w = (inr a, w)

  abbrev pub throw : SyncError → Sync σ A
  throw e w = (inl e, w)

module _ {σ : Type 0} {A B : Type 0} where
  abbrev pub carry_on : (SyncError ⊎ A) × World σ → (A → Sync σ B) → (SyncError ⊎ B) × World σ
  carry_on (inl e, w) f = (inl e, w)
  carry_on (inr a, w) f = f a w

  infixl 1 ◌>>=◌ ◌>>◌
  abbrev pub ◌>>=◌ : Sync σ A → (A → Sync σ B) → Sync σ B
  m >>= f = λ w. carry_on (m w) f

  abbrev pub ◌>>◌ : Sync σ A → Sync σ B → Sync σ B
  m >> n = m >>= λ _. n

module _ {σ : Type 0} where
  abbrev pub get_world : Sync σ (World σ)
  get_world w = (inr w, w)

  abbrev pub set_vault : Vault → Sync σ (Unit {0})
  set_vault v w = (inr tt, record w { vault = v })

  abbrev pub set_state : SyncState → Sync σ (Unit {0})
  set_state s w = (inr tt, record w { state = s })

  abbrev pub stop_if : Bool → SyncError → Sync σ (Unit {0})
  stop_if b e w = if b then (inl e, w) else (inr tt, w)
