-- ===== src/Vault.antt =====
-- The vault of src/core/vault.js: its records sealed, and in the clear while it is unlocked.
pub mod Records
pub mod Opening
pub mod Adopting
pub mod Password
pub mod Wrappings
pub mod Proven
pub mod Changed
pub mod Forking
pub mod Importing
pub mod Dated
pub mod Imported
pub mod Provisional
pub mod Listed
pub mod Failing
pub mod Kept
pub mod Forked
pub mod Parked
pub mod Refusing
pub mod Shown
pub mod Opened
pub mod Guarded
pub mod Settled
pub mod Adopted
pub mod Written
pub mod Tests
use bencpass.Prelude.{
  ℕ, String, Bool, true, false, not, ◌&&◌, ◌||◌, ◌+◌, ◌-◌, Option, none, some, List, [], ◌∷◌, ◌++◌,
  ltb, ◌==◌, str_eq, length, inl, inr, ◌⊎◌, zero, suc, if◌then◌else◌,
}
use bencpass.Map.{Map, get, has, set, delete, keys, values}
use bencpass.Envelope.{Envelope}
use bencpass.Header.{Header}
use bencpass.Text.{Text, same}
use bencpass.Text.Codes.{codes}
use bencpass.Plain.{Body, flag, num}
use bencpass.Model.{new_record, apply_patch, mark_used}
use bencpass.Merge.{Entries, as_map, bool_eq}
use bencpass.Crypto.{Platform, digits, is_dead, seal_record, open_envelope}

-- The fields of the class.
pub record Vault : Type 0 where
  pub key : Option String
  pub plain : Map Body
  pub envelopes : Map Envelope
  pub synced_rev : Map ℕ
  pub parked : List Envelope
  pub damaged : List String
  pub forked_marks : List Text
  pub parked_dropped : ℕ
  pub meta : Header
  pub pending_meta : Option Header
  pub meta_updated : Bool

-- The errors that are thrown.
pub data Fault : Type 0 where
  vault_locked : Fault
  no_such_record : String → Fault
  unknown_type : Fault
  unreadable : String → Fault
  tampered : String → Fault
  key_mismatch : String → Fault
  unsupported_kdf unwrap_failed password_required no_recovery no_biometric : Fault
  short_code bad_secret readback_failed unsupported_format : Fault

abbrev pub parked_max : ℕ
parked_max = 256

-- `#mark`
unfoldable pub mark : Envelope → Text
mark e = codes e.id ++ b':' ∷ digits e.rev ++ b':' ∷ codes e.n

-- `seen.has(m)`
abbrev pub has_mark : Text → List Text → Bool
has_mark m [] = false
has_mark m (s ∷ seen) = same s m || has_mark m seen

abbrev pub marks : List Envelope → List Text
marks [] = []
marks (e ∷ es) = mark e ∷ marks es

-- es.slice(n); `slice(-m)` is this at the length less m
unfoldable pub drop {ℓ} : {A : Type ℓ} → ℕ → List A → List A
drop zero es = es
drop (suc n) [] = []
drop (suc n) (e ∷ es) = drop n es

-- Over the cap, the oldest go and are counted. Below it the difference is 0 and nothing changes.
unfoldable pub cap : Vault → Vault
unfolding drop
cap v = record v {
  parked_dropped = v.parked_dropped + (length v.parked - parked_max);
  parked = drop (length v.parked - parked_max) v.parked;
}

-- The loop of `park`: what is seen, how many were added, and the vault.
pub record Parking : Type 0 where
  pub seen : List Text
  pub added : ℕ
  pub vault : Vault

unfoldable pub park_one : Parking → Envelope → Parking
unfolding cap
park_one s e = if has_mark (mark e) s.seen then s else record {
  seen = mark e ∷ s.seen;
  added = s.added + 1;
  vault = cap (record (s.vault) { parked = s.vault.parked ++ e ∷ [] });
}

unfoldable pub park_all : Parking → List Envelope → Parking
unfolding park_one
park_all s [] = s
park_all s (e ∷ es) = park_all (park_one s e) es

abbrev pub parking : Vault → Parking
parking v = record { seen = v.forked_marks ++ marks v.parked; added = 0; vault = v }

-- `park`: the vault after it; its result is `added` of the loop
unfoldable pub park : List Envelope → Vault → Vault
unfolding park_all
park es v = (park_all (parking v) es).vault

-- `locked`
abbrev pub is_none : Option String → Bool
is_none none = true
is_none (some k) = false

abbrev pub locked : Vault → Bool
locked v = is_none v.key

-- `lock`
unfoldable pub lock : Vault → Vault
lock v = record v { key = none; plain = [] }
