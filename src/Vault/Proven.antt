-- ===== src/Vault/Proven.antt =====
-- Which headers a vault takes over, and which passwords open it (src/core/vault.js).
use bencpass.Prelude.{
  String, ◌≡◌, ◌≢◌, ◌⊎◌, refl, ap, ◌∙◌, Bool, true, false, not, ◌||◌, Option, none, some, List, [],
  ◌∷◌, arith, Bool-cases, inl, inr, str_eq, length,
}
use bencpass.Map.{values}
use bencpass.Envelope.{Envelope}
use bencpass.Plain.{Body}
use bencpass.Text.{Text}
use bencpass.Crypto.{Platform, open_envelope}
use bencpass.Header.{Header, Wraps, format, wrap_of, derive_master_key, verify_header_proof}
use bencpass.Vault.{Vault, Fault, lock}
use bencpass.Vault.Parked.{park-OnlyParked}
use bencpass.Vault.Opening.{Opening, take_in, open_all, unlock_with_vault_key}
use bencpass.Vault.Password.{
  strip, is_newer, password_wrap, biometric_wrap, with_biometric, adopt_meta, is_there,
  stash_header, key_by, adopt_opened, adopt_proved, adopt_from, adopt_pending_header, or_refused,
  unlock_by, unlock_derived, unlock,
}

meta-take_in :
    (e : Envelope) (o : Option Body) (s : Opening) → (take_in e o s).vault.meta ≡ s.vault.meta
unfolding take_in
meta-take_in e none s = refl
meta-take_in e (some body) s = ground (arith, park-OnlyParked (e ∷ []) s.vault)

meta-open_all :
    (p : Platform) (key : String) (s : Opening) (es : List Envelope)
    → (open_all p key s es).vault.meta ≡ s.vault.meta
unfolding open_all
meta-open_all p key s [] = refl
meta-open_all p key s (e ∷ es) =
    meta-open_all p key (take_in e (open_envelope p key e) s) es
    ∙ meta-take_in e (open_envelope p key e) s

meta-unlock_with_vault_key :
    (p : Platform) (key : String) (v : Vault) → (unlock_with_vault_key p key v).meta ≡ v.meta
unfolding unlock_with_vault_key
meta-unlock_with_vault_key p key v =
    meta-open_all p key (record { vault = record v { damaged = [] }; opened = [] })
      (values v.envelopes)

-- The header `h` was waiting, is of a later generation, was proved under the key that the typed
-- password gets out of it, and that key opens a record that the vault holds.
pub record IsProven (p : Platform) (password : Text) (v w : Vault) (h : Header) : Type 0 where
  pub bytes : Text
  pub waiting : v.pending_meta ≡ some h
  pub newer : is_newer h.gen v.meta.gen ≡ true
  pub opens : key_by p password h.kdf.salt h.kdf (password_wrap h) ≡ inr bytes
  pub proof : verify_header_proof p (p.import_key bytes) h ≡ true
  pub opened :
      let u = unlock_with_vault_key p (p.import_key bytes) v in
      (length u.envelopes ≢ 0) × (length u.damaged ≢ length u.envelopes)
  pub meta : w.meta ≡ record h { wraps = some (with_biometric (biometric_wrap v.meta) h.wraps) }

-- What becomes of the header.
abbrev pub HeaderOutcome : Platform → Text → Vault → Vault → Type 0
HeaderOutcome p password v w = (w.meta ≡ v.meta) ⊎ ((h : Header) × IsProven p password v w h)

abbrev Taken : Header → Vault → Vault → Type 0
Taken h u w =
    (length u.envelopes ≢ 0)
    × (length u.damaged ≢ length u.envelopes)
    × (w.meta ≡ record h { wraps = some (with_biometric (biometric_wrap u.meta) h.wraps) })

adopt_opened-Taken :
    (p : Platform) (h : Header) (u : Vault)
    → ((adopt_opened p h u).0.meta ≡ u.meta) ⊎ Taken h u (adopt_opened p h u).0
unfolding adopt_opened lock
adopt_opened-Taken p h u = ground arith

module _ (p : Platform) (password : Text) where
  Taken-outcome :
      (h : Header) (bytes : Text) (v : Vault)
      → v.pending_meta ≡ some h
      → is_newer h.gen v.meta.gen ≡ true
      → key_by p password h.kdf.salt h.kdf (password_wrap h) ≡ inr bytes
      → verify_header_proof p (p.import_key bytes) h ≡ true
      → (w : Vault)
      → (w.meta ≡ (unlock_with_vault_key p (p.import_key bytes) v).meta)
        ⊎ Taken h (unlock_with_vault_key p (p.import_key bytes) v) w
      → HeaderOutcome p password v w
  Taken-outcome h bytes v q n k c w (inl e) =
      inl (e ∙ meta-unlock_with_vault_key p (p.import_key bytes) v)
  Taken-outcome h bytes v q n k c w (inr t) = inr (
    h,
    record {
      bytes = bytes;
      waiting = q;
      newer = n;
      opens = k;
      proof = c;
      opened = (t.0, t.1);
      meta =
          t.2
          ∙ ap
              (λ (m : Header). record h {
                wraps = some (with_biometric (biometric_wrap m) h.wraps);
              })
              (meta-unlock_with_vault_key p (p.import_key bytes) v);
    },
  )

  adopt_proved-outcome :
      (h : Header) (o : Fault ⊎ Text) (v : Vault)
      → v.pending_meta ≡ some h
      → is_newer h.gen v.meta.gen ≡ true
      → key_by p password h.kdf.salt h.kdf (password_wrap h) ≡ o
      → HeaderOutcome p password v (adopt_proved p h o v).0
  unfolding adopt_proved
  adopt_proved-outcome h (inl f) v q n k = inl refl
  adopt_proved-outcome h (inr bytes) v q n k =
      elim (Bool-cases (verify_header_proof p (p.import_key bytes) h)) [
        | inr t ↦ rw t (inl refl)
        | inl t ↦ rw t (
            Taken-outcome h bytes v q n k t
              (adopt_opened p h (unlock_with_vault_key p (p.import_key bytes) v)).0
              (adopt_opened-Taken p h (unlock_with_vault_key p (p.import_key bytes) v)))
      ]

  adopt_from-outcome :
      (o : Option Header) (v : Vault)
      → v.pending_meta ≡ o
      → HeaderOutcome p password v (adopt_from p password o v).0
  unfolding adopt_from
  adopt_from-outcome none v q = inl refl
  adopt_from-outcome (some h) v q =
      elim (Bool-cases (not (is_there (password_wrap h)) || str_eq h.kdf.salt "")) [
        | inl t ↦ rw t (inl refl)
        | inr t ↦ rw t (elim (Bool-cases (is_newer h.gen v.meta.gen)) [
          | inl n ↦ rw n (
              adopt_proved-outcome h (key_by p password h.kdf.salt h.kdf (password_wrap h)) v q n
                refl)
          | inr n ↦ rw n (inl refl)
        ])
      ]

  or_refused-outcome :
      (v : Vault) (r : Vault × Bool)
      → HeaderOutcome p password v r.0
      → HeaderOutcome p password v (or_refused p r).0
  unfolding or_refused
  or_refused-outcome v (w, true) h = h
  or_refused-outcome v (w, false) h = h

  unlock_by-outcome :
      (o : Fault ⊎ Text) (v : Vault) → HeaderOutcome p password v (unlock_by p password o v).0
  unfolding unlock_by adopt_pending_header
  unlock_by-outcome (inl f) v =
      or_refused-outcome v (adopt_from p password v.pending_meta v)
        (adopt_from-outcome v.pending_meta v refl)
  unlock_by-outcome (inr bytes) v = inl (meta-unlock_with_vault_key p (p.import_key bytes) v)

  unlock_derived-outcome :
      (o : Option Text) (v : Vault) → HeaderOutcome p password v (unlock_derived p password o v).0
  unfolding unlock_derived
  unlock_derived-outcome none v = inl refl
  unlock_derived-outcome (some master) v =
      unlock_by-outcome (key_by p password v.meta.kdf.salt v.meta.kdf (password_wrap v.meta)) v

-- An unlock, by any password, leaves the vault's header as it is, or replaces it by the header
-- that waited, with our own fingerprint wrapping. Then the waiting header is of a later
-- generation, the password opens its wrapping, the key that it wraps opens the header's proof and
-- some of the records, and there are records.
pub unlock-header :
    (p : Platform) (password : Text) (v : Vault)
    → HeaderOutcome p password v (unlock p password v).0
unfolding unlock
unlock-header p password v =
    unlock_derived-outcome p password (derive_master_key p password v.meta.kdf.salt v.meta.kdf) v

biometric-strip : (o : Option Wraps) → wrap_of (λ (w : Wraps). w.biometric) (strip o) ≡ none
biometric-strip none = refl
biometric-strip (some ws) = refl

-- A header that a server serves changes nothing of the vault, or is put by as the waiting one, its
-- fingerprint wrapping removed; then it is of a later generation than ours, of the known format,
-- and has a password wrapping and a proof.
pub stash_header-IsNewer :
    (meta : Header) (v : Vault)
    → ((stash_header meta v).0 ≡ v)
      ⊎ (((stash_header meta v).0 ≡ record v { pending_meta = some (adopt_meta meta) })
          × (is_newer meta.gen v.meta.gen ≡ true)
          × (meta.format ≡ format)
          × (is_there (password_wrap (adopt_meta meta)) ≡ true)
          × (is_there meta.proof ≡ true)
          × (biometric_wrap (adopt_meta meta) ≡ none))
unfolding stash_header adopt_meta
stash_header-IsNewer meta v = ground (arith, biometric-strip meta.wraps)
