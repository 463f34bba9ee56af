-- ===== src/Vault/Opening.antt =====
-- Unlocking: every envelope is opened before its cleartext flag is believed (src/core/vault.js).
use bencpass.Prelude.{
  String, Bool, not, ◌&&◌, Option, none, some, List, [], ◌∷◌, ◌++◌, if◌then◌else◌,
}
use bencpass.Map.{Map, set, values}
use bencpass.Envelope.{Envelope}
use bencpass.Plain.{Body}
use bencpass.Merge.{bool_eq}
use bencpass.Crypto.{Platform, is_dead, open_envelope}
use bencpass.Vault.{Vault, park}

-- The vault, and the map `plain` that the loop fills.
pub record Opening : Type 0 where
  pub vault : Vault
  pub opened : Map Body

-- The flag claims a deletion that the seal does not, and the envelope crossed our tombstone.
abbrev pub smuggled : Envelope → Body → Bool
smuggled e body = e.deleted && not (is_dead body) && e.over_tombstone

-- `{ ...e, deleted: Boolean(body.deleted) }`
abbrev pub corrected : Envelope → Body → Envelope
corrected e body = record e { deleted = is_dead body }

-- The flag is put right where it disagrees with the seal, and a live body is kept.
believe : Envelope → Body → Opening → Opening
believe e body s = record {
  vault =
      if bool_eq e.deleted (is_dead body)
      then s.vault
      else record (s.vault) { envelopes = set e.id (corrected e body) s.vault.envelopes };
  opened = if is_dead body then s.opened else set e.id body s.opened;
}

-- The body of the loop, by what `openEnvelope` found.
unfoldable pub take_in : Envelope → Option Body → Opening → Opening
unfolding believe
take_in e none s = record s { vault = record (s.vault) { damaged = s.vault.damaged ++ e.id ∷ [] } }
take_in e (some body) s =
    if smuggled e body then record s { vault = park (e ∷ []) s.vault } else believe e body s

module _ (p : Platform) (key : String) where
  unfoldable pub open_all : Opening → List Envelope → Opening
  unfolding take_in
  open_all s [] = s
  open_all s (e ∷ es) = open_all (take_in e (open_envelope p key e) s) es

  -- `unlockWithVaultKey`. The loop sets only keys that are there, so it meets each envelope once.
  unfoldable pub unlock_with_vault_key : Vault → Vault
  unfolding open_all values
  unlock_with_vault_key v =
      let s =
        open_all (record { vault = record v { damaged = [] }; opened = [] }) (values v.envelopes) in
      record (s.vault) { key = some key; plain = s.opened }
