-- ===== src/Envelope.antt =====
-- Sealed records as the vault stores them and the server sees them
-- (src/core/crypto.js, src/core/vault.js).
use bencpass.Prelude.{ℕ, String, Bool}

-- `{ id, rev, deleted, n, ct }`: the nonce `n` and the ciphertext `ct` are Base64 texts.
-- `over_tombstone` is the mark `overTombstone` of a locked `applyEnvelopes`, false when absent.
pub record Envelope : Type 0 where
  pub id : String
  pub rev : ℕ
  pub deleted : Bool
  pub n : String
  pub ct : String
  pub over_tombstone : Bool
