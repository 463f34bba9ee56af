-- ===== src/Vault/Password.antt =====
-- The ways into a vault: the master password, its change here or elsewhere, the recovery code and
-- the fingerprint (src/core/vault.js).
use bencpass.Prelude.{
  ℕ, String, Bool, true, false, not, ◌||◌, Option, none, some, ltb, ◌==◌, str_eq, length, inl, inr,
  ◌⊎◌, if◌then◌else◌,
}
use bencpass.Text.{Text}
use bencpass.Crypto.{Platform}
use bencpass.Header.{
  Header, Kdf, Wrap, Wraps, Gen, missing, whole, other, format, wrap_of, derive_master_key,
  unwrap_vault_key, verify_header_proof,
}
use bencpass.Vault.{Vault, Fault, unsupported_kdf, unwrap_failed, lock}
use bencpass.Vault.Opening.{unlock_with_vault_key}

-- `#realGen`
abbrev pub real_gen : Gen → Option ℕ
real_gen missing = some 0
real_gen (whole n) = some n
real_gen (other t n) = n

-- `#realGen(v) ?? 0`
abbrev pub gen_or_zero : Gen → ℕ
gen_or_zero missing = 0
gen_or_zero (whole n) = n
gen_or_zero (other t none) = 0
gen_or_zero (other t (some n)) = n

-- `gen !== null && gen > (#realGen(own) ?? 0)`
abbrev pub is_newer : Gen → Gen → Bool
is_newer missing own = false
is_newer (whole n) own = ltb (gen_or_zero own) n
is_newer (other t none) own = false
is_newer (other t (some n)) own = ltb (gen_or_zero own) n

abbrev pub password_wrap : Header → Option Wrap
password_wrap h = wrap_of (λ (w : Wraps). w.password) h.wraps

abbrev pub recovery_wrap : Header → Option Wrap
recovery_wrap h = wrap_of (λ (w : Wraps). w.recovery) h.wraps

abbrev pub biometric_wrap : Header → Option Wrap
biometric_wrap h = wrap_of (λ (w : Wraps). w.biometric) h.wraps

-- `{ ...wraps, biometric }`, of wraps that are there or not
abbrev pub with_biometric : Option Wrap → Option Wraps → Wraps
with_biometric b none = record { password = none; recovery = none; biometric = b }
with_biometric b (some ws) = record ws { biometric = b }

abbrev pub with_password : Wrap → Option Wraps → Wraps
with_password w none = record { password = some w; recovery = none; biometric = none }
with_password w (some ws) = record ws { password = some w }

abbrev pub with_recovery : Option Wrap → Option Wraps → Wraps
with_recovery r none = record { password = none; recovery = r; biometric = none }
with_recovery r (some ws) = record ws { recovery = r }

-- `portableMeta`
unfoldable pub portable_meta : Vault → Header
portable_meta v = record (v.meta) { wraps = some (with_biometric none v.meta.wraps) }

abbrev pub strip : Option Wraps → Option Wraps
strip none = none
strip (some ws) = some (record ws { biometric = none })

-- `adoptMeta`
unfoldable pub adopt_meta : Header → Header
adopt_meta h = record h { wraps = strip h.wraps }

abbrev pub is_there : {A : Type 0} → Option A → Bool
is_there none = false
is_there (some a) = true

-- `stashHeader`
unfoldable pub stash_header : Header → Vault → Vault × Bool
unfolding adopt_meta
stash_header meta v =
    let clean = adopt_meta meta in
    if not (clean.format == format)
    then (v, false)
    else if not (is_there (password_wrap clean)) || not (is_there clean.proof)
    then (v, false)
    else if is_newer clean.gen v.meta.gen
    then (record v { pending_meta = some clean }, true)
    else (v, false)

module _ (p : Platform) where
  abbrev pub or_unwrap_failed : Option Text → Fault ⊎ Text
  or_unwrap_failed none = inl unwrap_failed
  or_unwrap_failed (some bytes) = inr bytes

  unfoldable pub unwrapped_with : Option Wrap → Option Text → Fault ⊎ Text
  unwrapped_with w none = inl unsupported_kdf
  unwrapped_with none (some master) = inl unwrap_failed
  unwrapped_with (some w) (some master) = or_unwrap_failed (unwrap_vault_key p w master)

  -- The vault key by a secret, a salt, the parameters and a wrapping.
  unfoldable pub key_by : Text → String → Kdf → Option Wrap → Fault ⊎ Text
  unfolding unwrapped_with
  key_by secret salt k w = unwrapped_with w (derive_master_key p secret salt k)

  -- The end of `#adoptPendingHeader`, in a vault that has been opened with the header's key.
  unfoldable pub adopt_opened : Header → Vault → Vault × Bool
  adopt_opened h v =
      if length v.envelopes == 0
      then (lock v, false)
      else if length v.damaged == length v.envelopes
      then (lock v, false)
      else (
        record v {
          meta = record h { wraps = some (with_biometric (biometric_wrap v.meta) h.wraps) };
          pending_meta = none;
          meta_updated = true;
        },
        true,
      )

  unfoldable pub adopt_proved : Header → Fault ⊎ Text → Vault → Vault × Bool
  unfolding adopt_opened
  adopt_proved h (inl f) v = (v, false)
  adopt_proved h (inr bytes) v =
      let key = p.import_key bytes in
      if verify_header_proof p key h
      then adopt_opened h (unlock_with_vault_key p key v)
      else (record v { pending_meta = none }, false)

  unfoldable pub adopt_from : Text → Option Header → Vault → Vault × Bool
  unfolding adopt_proved key_by
  adopt_from password none v = (v, false)
  adopt_from password (some h) v =
      if not (is_there (password_wrap h)) || str_eq h.kdf.salt ""
      then (v, false)
      else if is_newer h.gen v.meta.gen
      then adopt_proved h (key_by password h.kdf.salt h.kdf (password_wrap h)) v
      else (v, false)

  -- `#adoptPendingHeader`
  unfoldable pub adopt_pending_header : Text → Vault → Vault × Bool
  unfolding adopt_from
  adopt_pending_header password v = adopt_from password v.pending_meta v

  unfoldable pub or_refused : Vault × Bool → Vault × Option Fault
  or_refused (v, true) = (v, none)
  or_refused (v, false) = (v, some unwrap_failed)

  unfoldable pub unlock_by : Text → Fault ⊎ Text → Vault → Vault × Option Fault
  unfolding or_refused adopt_pending_header
  unlock_by password (inl f) v = or_refused (adopt_pending_header password v)
  unlock_by password (inr bytes) v = (unlock_with_vault_key p (p.import_key bytes) v, none)

  unfoldable pub unlock_derived : Text → Option Text → Vault → Vault × Option Fault
  unfolding unlock_by
  unlock_derived password none v = (v, some unsupported_kdf)
  unlock_derived password (some master) v =
      unlock_by password (key_by password v.meta.kdf.salt v.meta.kdf (password_wrap v.meta)) v

  -- `unlock`
  unfoldable pub unlock : Text → Vault → Vault × Option Fault
  unfolding unlock_derived
  unlock password v =
      unlock_derived password (derive_master_key p password v.meta.kdf.salt v.meta.kdf) v
