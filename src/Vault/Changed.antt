-- ===== src/Vault/Changed.antt =====
-- The master password after a change (src/core/vault.js).
use bencpass.Prelude.{
  ℕ, ◌+◌, ◌≡◌, ◌⊎◌, refl, ap, true, Option, none, some, [], ◌∷◌, arith, Bool-cases, inl, inr,
}
use bencpass.Text.{Text}
use bencpass.Text.Codes.{codes}
use bencpass.Text.Laws.{eq_of_same}
use bencpass.Crypto.{Platform}
use bencpass.Header.{
  Wrap, Wraps, Gen, missing, other, whole, derive_master_key, wrap_vault_key, unwrap_vault_key,
  wrap_of,
}
use bencpass.Vault.{Vault, Fault}
use bencpass.Vault.Opening.{unlock_with_vault_key}
use bencpass.Vault.Password.{
  password_wrap, with_password, unwrapped_with, key_by, unlock_by, unlock_derived, unlock,
}
use bencpass.Vault.Wrappings.{
  Draws, next_gen, with_salt, proved, next_header, read_back, rewrap_with, rewrap_derived,
  rewrap_password, change_from, change_master_password,
}

-- One generation up: the first is 1, a number goes up by one, whatever it is written as, and what is
-- no number becomes NaN.
abbrev pub IsOneUp : Gen → Gen → Type 0
IsOneUp missing g = g ≡ whole 1
IsOneUp (whole n) g = g ≡ whole (n + 1)
IsOneUp (other t (some n)) g = g ≡ whole (n + 1)
IsOneUp (other t none) g = g ≡ other (codes "null") none

next_gen-IsOneUp : (g : Gen) → IsOneUp g (next_gen g)
next_gen-IsOneUp missing = refl
next_gen-IsOneUp (whole n) = refl
next_gen-IsOneUp (other t none) = refl
next_gen-IsOneUp (other t (some n)) = refl

-- After a change to `password` of a vault whose key is `bytes`: that password opens the vault with
-- that key, and the generation has gone up by one.
pub record IsChanged (p : Platform) (password bytes : Text) (v w : Vault) : Type 0 where
  pub unlocks : unlock p password w ≡ (unlock_with_vault_key p (p.import_key bytes) w, none)
  pub gen : IsOneUp v.meta.gen w.meta.gen
  pub envelopes : w.envelopes ≡ v.envelopes
  pub plain : w.plain ≡ v.plain

-- An error leaves the vault as it was.
abbrev pub ChangeOutcome : Platform → Text → Text → Vault → Vault × Option Fault → Type 0
ChangeOutcome p password bytes v (w, none) = IsChanged p password bytes v w
ChangeOutcome p password bytes v (w, some f) = w ≡ v

abbrev inr_fault : Text → Fault ⊎ Text
inr_fault t = inr t

inr_injective : (a b : Text) → inr_fault a ≡ inr_fault b → a ≡ b
inr_injective a b h = cc

password-with_password :
    (w : Wrap) (o : Option Wraps)
    → wrap_of (λ (ws : Wraps). ws.password) (some (with_password w o)) ≡ some w
password-with_password w none = refl
password-with_password w (some ws) = refl

module _ (p : Platform) (d : Draws) (password bytes : Text) where
  key-unwrapped :
      (a : Option Wrap) (b : Option Text) (master : Text) (wrap : Wrap)
      → a ≡ some wrap
      → b ≡ some master
      → unwrap_vault_key p wrap master ≡ some bytes
      → unwrapped_with p a b ≡ inr bytes
  unfolding unwrapped_with
  key-unwrapped a b master wrap x y k = rw (x, y, k) refl

  unlock-derived :
      (o : Option Text) (master : Text) (w : Vault)
      → o ≡ some master
      → key_by p password w.meta.kdf.salt w.meta.kdf (password_wrap w.meta) ≡ inr bytes
      → unlock_derived p password o w ≡ (unlock_with_vault_key p (p.import_key bytes) w, none)
  unfolding unlock_derived unlock_by
  unlock-derived none master w h k = ground (arith, h)
  unlock-derived (some m) master w h k = ap (λ (r : Fault ⊎ Text). unlock_by p password r w) k

  unlock-rewrapped :
      (master : Text) (w : Vault) (wrap : Wrap)
      → derive_master_key p password w.meta.kdf.salt w.meta.kdf ≡ some master
      → password_wrap w.meta ≡ some wrap
      → unwrap_vault_key p wrap master ≡ some bytes
      → unlock p password w ≡ (unlock_with_vault_key p (p.import_key bytes) w, none)
  unfolding unlock key_by
  unlock-rewrapped master w wrap h q k =
      unlock-derived (derive_master_key p password w.meta.kdf.salt w.meta.kdf) master w h (
        key-unwrapped (password_wrap w.meta)
          (derive_master_key p password w.meta.kdf.salt w.meta.kdf) master wrap q h k)

  read_back-some : (o : Option Text) → read_back p d bytes o ≡ true → o ≡ some bytes
  unfolding read_back
  read_back-some none h = ground (arith, h)
  read_back-some (some t) h = ap (λ (u : Text). some u) (eq_of_same t bytes h)

  rewrap_with-outcome :
      (master : Text) (now : ℕ) (v : Vault)
      → derive_master_key p password d.salt (with_salt d.salt v.meta.kdf) ≡ some master
      → ChangeOutcome p password bytes v (rewrap_with p d bytes master now v)
  unfolding rewrap_with next_header proved
  rewrap_with-outcome master now v h =
      let w = wrap_vault_key p d.wrap_nonce bytes master "password" in
      elim (Bool-cases (read_back p d bytes (unwrap_vault_key p w master))) [
        | inr t ↦ rw t refl
        | inl t ↦ rw t (record {
          unlocks =
              unlock-rewrapped master
                (record v {
                  meta = next_header p d bytes w now v.meta;
                  pending_meta = none;
                  meta_updated = true;
                })
                w h (password-with_password w v.meta.wraps)
                (read_back-some (unwrap_vault_key p w master) t);
          gen = next_gen-IsOneUp v.meta.gen;
          envelopes = refl;
          plain = refl;
        })
      ]

  rewrap_derived-outcome :
      (o : Option Text) (now : ℕ) (v : Vault)
      → derive_master_key p password d.salt (with_salt d.salt v.meta.kdf) ≡ o
      → ChangeOutcome p password bytes v (rewrap_derived p d bytes o now v)
  unfolding rewrap_derived
  rewrap_derived-outcome none now v h = refl
  rewrap_derived-outcome (some master) now v h = rewrap_with-outcome master now v h

change_from-outcome :
    (p : Platform) (d : Draws) (password bytes : Text) (o : Fault ⊎ Text) (now : ℕ) (v : Vault)
    → o ≡ inr bytes
    → ChangeOutcome p password bytes v (change_from p d password o now v)
unfolding change_from rewrap_password
change_from-outcome p d password bytes (inl f) now v h = ground (arith, h)
change_from-outcome p d password bytes (inr found) now v h = rw (inr_injective found bytes h) (
    rewrap_derived-outcome p d password bytes
      (derive_master_key p password d.salt (with_salt d.salt v.meta.kdf)) now v refl)

-- Where the current password opens the vault key, a change of the master password either fails and
-- leaves the vault as it was, or the new password unlocks the changed vault with the same key, the
-- header is one generation up, and the records are as they were. A generation that is no number
-- becomes NaN.
pub change-unlock :
    (p : Platform) (d : Draws) (current next bytes : Text) (now : ℕ) (v : Vault)
    → key_by p current v.meta.kdf.salt v.meta.kdf (password_wrap v.meta) ≡ inr bytes
    → ChangeOutcome p next bytes v (change_master_password p d current next now v)
unfolding change_master_password
change-unlock p d current [] bytes now v h = refl
change-unlock p d current (c ∷ next) bytes now v h =
    change_from-outcome p d (c ∷ next) bytes
      (key_by p current v.meta.kdf.salt v.meta.kdf (password_wrap v.meta)) now v h
