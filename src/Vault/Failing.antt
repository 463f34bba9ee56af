-- ===== src/Vault/Failing.antt =====
-- An unlock that fails opens nothing (src/core/vault.js).
use bencpass.Prelude.{
  Bool, true, false, not, ◌||◌, ◌==◌, ◌≡◌, ◌⊎◌, inl, inr, Option, none, some, length, str_eq,
  if-both,
}
use bencpass.Text.{Text}
use bencpass.Header.{Header, Wrap, verify_header_proof}
use bencpass.Crypto.{Platform}
use bencpass.Vault.{Vault, Fault, locked, lock}
use bencpass.Vault.Opening.{unlock_with_vault_key}
use bencpass.Vault.Password.{
  adopt_opened, adopt_proved, adopt_from, adopt_pending_header, or_refused, unlock_by,
  unlock_derived, unlock, key_by, is_there, password_wrap, is_newer,
}
use bencpass.Vault.Wrappings.{opened_by, unlock_biometric, unlock_with_biometric_secret}

-- A vault that is open after a failure was open before.
abbrev pub OpensNothing : Vault → Vault × Option Fault → Type 0
OpensNothing v (w, none) = Unit {0}
OpensNothing v (w, some f) = locked w ≡ false → locked v ≡ false

abbrev IsRefusal : Vault → Vault × Bool → Type 0
IsRefusal v (w, true) = Unit {0}
IsRefusal v (w, false) = locked w ≡ false → locked v ≡ false

module _ (p : Platform) (v : Vault) where
  adopt_opened-IsRefusal : (h : Header) (w : Vault) → IsRefusal v (adopt_opened p h w)
  unfolding adopt_opened lock
  adopt_opened-IsRefusal h w =
      if-both (IsRefusal v) (length w.envelopes == 0) (λ e k. cc k)
        (λ e.
          if-both (IsRefusal v) (length w.damaged == length w.envelopes) (λ f k. cc k) (λ f. tt))

  adopt_proved-IsRefusal : (h : Header) (x : Fault ⊎ Text) → IsRefusal v (adopt_proved p h x v)
  unfolding adopt_proved
  adopt_proved-IsRefusal h (inl f) = λ k. k
  adopt_proved-IsRefusal h (inr bytes) =
      let key = p.import_key bytes in
      if-both (IsRefusal v) (verify_header_proof p key h)
        (λ e. adopt_opened-IsRefusal h (unlock_with_vault_key p key v)) (λ e k. k)

  adopt_from-IsRefusal :
      (password : Text) (o : Option Header) → IsRefusal v (adopt_from p password o v)
  unfolding adopt_from
  adopt_from-IsRefusal password none = λ k. k
  adopt_from-IsRefusal password (some h) =
      if-both (IsRefusal v) (not (is_there (password_wrap h)) || str_eq h.kdf.salt "") (λ e k. k)
        (λ e.
          if-both (IsRefusal v) (is_newer h.gen v.meta.gen)
            (λ f. adopt_proved-IsRefusal h (key_by p password h.kdf.salt h.kdf (password_wrap h)))
            (λ f k. k))

  or_refused-OpensNothing : (x : Vault × Bool) → IsRefusal v x → OpensNothing v (or_refused p x)
  unfolding or_refused
  or_refused-OpensNothing (w, true) h = tt
  or_refused-OpensNothing (w, false) h = h

  unlock_by-OpensNothing :
      (password : Text) (x : Fault ⊎ Text) → OpensNothing v (unlock_by p password x v)
  unfolding unlock_by adopt_pending_header
  unlock_by-OpensNothing password (inl f) =
      or_refused-OpensNothing (adopt_from p password v.pending_meta v)
        (adopt_from-IsRefusal password v.pending_meta)
  unlock_by-OpensNothing password (inr bytes) = tt

  unlock_derived-OpensNothing :
      (password : Text) (o : Option Text) → OpensNothing v (unlock_derived p password o v)
  unfolding unlock_derived
  unlock_derived-OpensNothing password none = λ k. k
  unlock_derived-OpensNothing password (some master) = unlock_by-OpensNothing password _

  pub unlock-OpensNothing : (password : Text) → OpensNothing v (unlock p password v)
  unfolding unlock
  unlock-OpensNothing password = unlock_derived-OpensNothing password _

  opened_by-OpensNothing : (x : Fault ⊎ Text) → OpensNothing v (opened_by p x v)
  unfolding opened_by
  opened_by-OpensNothing (inl f) = λ k. k
  opened_by-OpensNothing (inr bytes) = tt

  unlock_biometric-OpensNothing :
      (secret : Text) (o : Option Wrap) → OpensNothing v (unlock_biometric p secret o v)
  unfolding unlock_biometric
  unlock_biometric-OpensNothing secret none = λ k. k
  unlock_biometric-OpensNothing secret (some w) = opened_by-OpensNothing _

  pub unlock_biometric_secret-OpensNothing :
      (secret : Text) → OpensNothing v (unlock_with_biometric_secret p secret v)
  unfolding unlock_with_biometric_secret
  unlock_biometric_secret-OpensNothing secret = unlock_biometric-OpensNothing secret _
