-- ===== src/Vault/Wrappings.antt =====
-- Making and changing the wrappings of the vault key (src/core/vault.js).
use bencpass.Prelude.{
  ℕ, String, Bool, true, false, ◌⊎◌, inl, inr, ◌+◌, Option, none, some, [], ◌∷◌, ltb, ◌==◌, length,
  if◌then◌else◌,
}
use bencpass.Text.{Text, same}
use bencpass.Text.Codes.{codes}
use bencpass.Crypto.{Platform}
use bencpass.Header.{
  Header, Kdf, Wrap, Gen, missing, whole, other, format, derive_master_key, wrap_vault_key,
  unwrap_vault_key, seal_header_proof,
}
use bencpass.Recovery.{code_length, normalise as normalise_code}
use bencpass.Vault.{
  Vault, Fault, unsupported_kdf, password_required, no_recovery, no_biometric, short_code,
  bad_secret, readback_failed,
}
use bencpass.Vault.Opening.{unlock_with_vault_key}
use bencpass.Vault.Password.{
  password_wrap, recovery_wrap, biometric_wrap, with_password, with_recovery, with_biometric,
  or_unwrap_failed, key_by,
}

-- The random values that the platform hands out: a salt and a nonce for each seal.
pub record Draws : Type 0 where
  pub salt : String
  pub wrap_nonce : String
  pub proof_nonce : String

-- `Number(gen ?? 0) + 1`; NaN prints as null.
abbrev pub next_gen : Gen → Gen
next_gen missing = whole 1
next_gen (whole n) = whole (n + 1)
next_gen (other t none) = other (codes "null") none
next_gen (other t (some n)) = whole (n + 1)

abbrev pub with_salt : String → Kdf → Kdf
with_salt salt k = record k { salt = salt }

module _ (p : Platform) (d : Draws) where
  -- The new header: the generation goes up, the proof is sealed under the vault key.
  unfoldable pub proved : Text → Header → Header
  proved bytes h = record h {
    proof = some (seal_header_proof p d.proof_nonce (p.import_key bytes) h);
  }

  unfoldable pub next_header : Text → Wrap → ℕ → Header → Header
  unfolding proved
  next_header bytes w now h = proved bytes (record h {
    kdf = with_salt d.salt h.kdf;
    gen = next_gen h.gen;
    changed_at = some now;
    wraps = some (with_password w h.wraps);
  })

  unfoldable pub read_back : Text → Option Text → Bool
  unfolding same
  read_back bytes none = false
  read_back bytes (some check) = same check bytes

  -- A read-back that fails is an error either way.
  unfoldable pub rewrap_with : Text → Text → ℕ → Vault → Vault × Option Fault
  unfolding read_back next_header
  rewrap_with bytes master now v =
      let w = wrap_vault_key p d.wrap_nonce bytes master "password" in
      if read_back bytes (unwrap_vault_key p w master)
      then (
        record v {
          meta = next_header bytes w now v.meta;
          pending_meta = none;
          meta_updated = true;
        },
        none,
      )
      else (v, some readback_failed)

  unfoldable pub rewrap_derived : Text → Option Text → ℕ → Vault → Vault × Option Fault
  unfolding rewrap_with
  rewrap_derived bytes none now v = (v, some unsupported_kdf)
  rewrap_derived bytes (some master) now v = rewrap_with bytes master now v

  -- `#rewrapPassword`
  unfoldable pub rewrap_password : Text → Text → ℕ → Vault → Vault × Option Fault
  unfolding rewrap_derived
  rewrap_password bytes password now v =
      rewrap_derived bytes (derive_master_key p password d.salt (with_salt d.salt v.meta.kdf)) now v

  unfoldable pub change_from : Text → Fault ⊎ Text → ℕ → Vault → Vault × Option Fault
  unfolding rewrap_password
  change_from password (inl f) now v = (v, some f)
  change_from password (inr bytes) now v = rewrap_password bytes password now v

  -- `changeMasterPassword`. An empty text is no password.
  unfoldable pub change_master_password : Text → Text → ℕ → Vault → Vault × Option Fault
  unfolding change_from
  change_master_password current [] now v = (v, some password_required)
  change_master_password current (c ∷ next) now v =
      change_from (c ∷ next) (key_by p current v.meta.kdf.salt v.meta.kdf (password_wrap v.meta))
        now v

  with_recovery_wrap : Text → Text → ℕ → Vault → Option Wrap → Vault × Option Fault
  unfolding change_from
  with_recovery_wrap code next now v none = (v, some no_recovery)
  with_recovery_wrap code next now v (some w) =
      change_from next (key_by p (normalise_code code) w.salt v.meta.kdf (some w)) now v

  -- `changeMasterPasswordWithRecovery`
  unfoldable pub change_with_recovery : Text → Text → ℕ → Vault → Vault × Option Fault
  unfolding with_recovery_wrap
  change_with_recovery code [] now v = (v, some password_required)
  change_with_recovery code (c ∷ next) now v =
      with_recovery_wrap code (c ∷ next) now v (recovery_wrap v.meta)

  dated : String → ℕ → Wrap → Wrap
  dated salt now w = record w { salt = salt; created = now }

  mint_derived : Text → Option Text → ℕ → Fault ⊎ Wrap
  unfolding dated
  mint_derived bytes none now = inl unsupported_kdf
  mint_derived bytes (some master) now =
      inr (dated d.salt now (wrap_vault_key p d.wrap_nonce bytes master "recovery"))

  mint_from : Text → ℕ → Vault → Fault ⊎ Text → Fault ⊎ Wrap
  unfolding mint_derived
  mint_from code now v (inl f) = inl f
  mint_from code now v (inr bytes) =
      mint_derived bytes (derive_master_key p code d.salt v.meta.kdf) now

  -- `mintRecoveryWrap`
  unfoldable pub mint_recovery_wrap : Text → Text → ℕ → Vault → Fault ⊎ Wrap
  unfolding mint_from
  mint_recovery_wrap [] code now v = inl password_required
  mint_recovery_wrap (c ∷ password) code now v =
      if ltb (length (normalise_code code)) code_length
      then inl short_code
      else mint_from (normalise_code code) now v
          (key_by p (c ∷ password) v.meta.kdf.salt v.meta.kdf (password_wrap v.meta))

  enrol_with : Text → Fault ⊎ Text → Vault → Vault × Option Fault
  enrol_with secret (inl f) v = (v, some f)
  enrol_with secret (inr bytes) v = (
    record v {
      meta = record (v.meta) {
        wraps = some (
            with_biometric (some (wrap_vault_key p d.wrap_nonce bytes secret "biometric"))
              v.meta.wraps);
      };
    },
    none,
  )

  -- `enrolBiometric`. The secret has KEY_LEN bytes.
  unfoldable pub enrol_biometric : Text → Text → Vault → Vault × Option Fault
  unfolding enrol_with
  enrol_biometric [] secret v = (v, some password_required)
  enrol_biometric (c ∷ password) secret v =
      if length secret == 32
      then enrol_with secret
          (key_by p (c ∷ password) v.meta.kdf.salt v.meta.kdf (password_wrap v.meta)) v
      else (v, some bad_secret)

-- `adoptRecoveryWrap` and `forgetRecovery`
unfoldable pub set_recovery : Option Wrap → Vault → Vault
set_recovery r v = record v {
  meta = record (v.meta) { wraps = some (with_recovery r v.meta.wraps) };
}

-- `forgetBiometric`
unfoldable pub forget_biometric : Vault → Vault
forget_biometric v = record v {
  meta = record (v.meta) { wraps = some (with_biometric none v.meta.wraps) };
}

-- With the vault key, or the error that there is none.
unfoldable pub opened_by : Platform → Fault ⊎ Text → Vault → Vault × Option Fault
opened_by p (inl f) v = (v, some f)
opened_by p (inr bytes) v = (unlock_with_vault_key p (p.import_key bytes) v, none)

unlock_recovery : Platform → Text → Option Wrap → Vault → Vault × Option Fault
unfolding opened_by
unlock_recovery p code none v = (v, some no_recovery)
unlock_recovery p code (some w) v =
    opened_by p (key_by p (normalise_code code) w.salt v.meta.kdf (some w)) v

-- `unlockWithRecoveryCode`
unfoldable pub unlock_with_recovery_code : Platform → Text → Vault → Vault × Option Fault
unfolding unlock_recovery
unlock_with_recovery_code p code v = unlock_recovery p code (recovery_wrap v.meta) v

unfoldable pub unlock_biometric : Platform → Text → Option Wrap → Vault → Vault × Option Fault
unfolding opened_by
unlock_biometric p secret none v = (v, some no_biometric)
unlock_biometric p secret (some w) v =
    opened_by p (or_unwrap_failed p (unwrap_vault_key p w secret)) v

-- `unlockWithBiometricSecret`
unfoldable pub unlock_with_biometric_secret : Platform → Text → Vault → Vault × Option Fault
unfolding unlock_biometric
unlock_with_biometric_secret p secret v = unlock_biometric p secret (biometric_wrap v.meta) v

-- The header of a new vault, before its proof.
abbrev pub fresh_header : Kdf → Wrap → ℕ → Header
fresh_header k w now = record {
  format = format;
  created = some now;
  gen = whole 0;
  changed_at = none;
  kdf = k;
  wraps = some (record { password = some w; recovery = none; biometric = none });
  proof = none;
}

created_with : Platform → Draws → Text → Kdf → ℕ → Option Text → Fault ⊎ Vault
unfolding proved
created_with p d bytes k now none = inl unsupported_kdf
created_with p d bytes k now (some master) = inr (record {
  key = some (p.import_key bytes);
  plain = [];
  envelopes = [];
  synced_rev = [];
  parked = [];
  damaged = [];
  forked_marks = [];
  parked_dropped = 0;
  meta = proved p d bytes (
      fresh_header (with_salt d.salt k) (wrap_vault_key p d.wrap_nonce bytes master "password")
        now);
  pending_meta = none;
  meta_updated = false;
})

-- `create`, with the vault key that was drawn
unfoldable pub create : Platform → Draws → Text → Text → Kdf → ℕ → Fault ⊎ Vault
unfolding created_with
create p d bytes [] k now = inl password_required
create p d bytes (c ∷ password) k now =
    created_with p d bytes k now (derive_master_key p (c ∷ password) d.salt k)
