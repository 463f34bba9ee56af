-- ===== src/Vault/Kept.antt =====
-- Generated passwords that were kept (src/core/provisional.js).
use bencpass.Prelude.{
  ℕ, String, Bool, true, false, Bool-cases, ◌≡◌, refl, Option, none, some, [], ◌∷◌, ◌⊎◌, inl, inr,
  ◌+◌, arith,
}
use bencpass.Map.{get, set}
use bencpass.Map.Laws.{get-set_self}
use bencpass.Text.{Text}
use bencpass.Envelope.{Envelope}
use bencpass.Plain.{Value, Body, str, flag, spread, as_text, is_truthy, differs, text_is}
use bencpass.Plain.Laws.{body_laws}
use bencpass.Model.Fresh.{new_record-password}
use bencpass.Model.{login, apply_patch, new_record}
use bencpass.Match
use bencpass.Match.{find}
use bencpass.Match.Candidates.{filter_by-All, find-some}
use bencpass.Crypto.{Platform}
use bencpass.Vault.{Vault, Fault}
use bencpass.Vault.Records.{write, rewrite, write_new, add_with, add, update}
use bencpass.Vault.Written.{Gives}
use bencpass.Vault.Forking.{Fresh}
use bencpass.Vault.Importing.{list_of, entry_of, all_records}
use bencpass.Vault.Listed.{
  OwnEntries, Found, entry_of-Found, StandsFor, all_records-StandsFor, entry-both,
}
use bencpass.Vault.Provisional.{
  Keeping, kept, as_kept, generated_fields, keep_at, keep_open, keep_with, keep_generated,
  is_open_for,
}

abbrev pub HasText : Text → Body → Type 0
HasText password b = get "password" b ≡ some (str password)

-- The record of a sign-up that went through.
abbrev pub IsComplete : Text → Value → Body → Type 0
IsComplete password user b =
    (get "password" b ≡ some (str password))
    × (get "username" b ≡ some user)
    × (get "provisional" b ≡ some (flag false))

-- The vault is unlocked, and under this id a record with a property is in the clear, with its
-- envelope.
pub record IsKept (key id : String) (Q : Body → Type 0) (w : Vault) : Type 0 where
  pub unlocked : w.key ≡ some key
  pub plaintext : (b : Body) × (get id w.plain ≡ some b) × Q b
  pub envelope : (e : Envelope) × (get id w.envelopes ≡ some e)

abbrev pub KeepOutcome : String → Text → Keeping → Type 0
KeepOutcome key password (kept id w) = IsKept key id (HasText password) w
KeepOutcome key password _ = ⊥

as_kept-KeepOutcome :
    (key id : String) (password : Text) (x : Fault ⊎ Vault)
    → Gives (IsKept key id (HasText password)) x
    → KeepOutcome key password (as_kept id x)
as_kept-KeepOutcome key id password (inl f) h = elim h [ ]
as_kept-KeepOutcome key id password (inr w) h = h

module _ (plain : Body) (now : ℕ) where
  patch-password :
      (password : Text)
      → get "password" (apply_patch plain (("password", str password) ∷ []) now)
        ≡ some (str password)
  unfolding apply_patch spread get
  patch-password password = elim (Bool-cases (text_is (get "type" plain) login)) [
    | inr o ↦ rw o (simp body_laws)
    | inl l ↦ elim (Bool-cases (differs (some (str password)) (get "password" plain))) [
      | inr s ↦ rw (l, s) (simp body_laws)
      | inl d ↦ elim (Bool-cases (is_truthy (get "password" plain))) [
        | inl t ↦ rw (l, d, t) (simp body_laws)
        | inr t ↦ rw (l, d, t) (simp body_laws)
      ]
    ]
  ]

  abbrev completion : Value → Body
  completion user = ("username", user) ∷ ("provisional", flag false) ∷ []

module _ (p : Platform) (nonce key id : String) (Q : Body → Type 0) where
  pub write-IsKept :
      (rev : ℕ) (b : Body) (v : Vault)
      → v.key ≡ some key
      → Q b
      → IsKept key id Q (write p nonce key id rev b v)
  unfolding write
  write-IsKept rev b v q h = record {
    unlocked = q;
    plaintext = (b, get-set_self id b v.plain, h);
    envelope = (_, get-set_self id _ v.envelopes);
  }

  rewrite-IsKept :
      (change : Body → Body) (v : Vault) (b : Body) (e : Envelope) (k : Option String)
      (c : Option Body) (d : Option Envelope)
      → k ≡ some key
      → c ≡ some b
      → d ≡ some e
      → v.key ≡ some key
      → Q (change b)
      → Gives (IsKept key id Q) (rewrite p nonce k id change c d v)
  unfolding rewrite
  rewrite-IsKept change v b e k c d x y z q h =
      rw (x, y, z) (write-IsKept (e.rev + 1) (change b) v q h)

module _ (p : Platform) (nonce key id : String) (password : Text) where
  -- The fields of a generated password make a record.
  generated :
      (host url : Text) (now : ℕ)
      → (b : Body) × (new_record (generated_fields host url password) now ≡ some b)
        × (get "password" b ≡ some (str password))
  unfolding get spread set
  generated host url now =
      new_record-password (generated_fields host url password) now (str password) refl refl

  add-IsKept :
      (k : Option String) (host url : Text) (now : ℕ) (v : Vault)
      → k ≡ some key
      → v.key ≡ some key
      → Gives
          (IsKept key id (HasText password))
          (add_with p nonce k id (generated_fields host url password) now v)
  unfolding add_with write_new
  add-IsKept k host url now v x q =
      let (b, e, h) = generated host url now in
      rw (x, e) (write-IsKept p nonce key id (HasText password) 1 b v q h)

module _ (p : Platform) (fresh : Fresh) (now : ℕ) (key : String) (password : Text) where
  update-IsKept :
      (Q : Body → Type 0) (k : String) (patch : Body) (v : Vault) (b : Body) (e : Envelope)
      → v.key ≡ some key
      → get k v.plain ≡ some b
      → get k v.envelopes ≡ some e
      → Q (apply_patch b patch now)
      → Gives (IsKept key k Q) (update p fresh.nonce k patch now v)
  unfolding update
  update-IsKept Q k patch v b e q x y h =
      rewrite-IsKept p fresh.nonce key k Q (λ c. apply_patch c patch now) v b e v.key
        (get k v.plain) (get k v.envelopes) q x y q h

  keep_at-KeepOutcome :
      (id : Text) (o : Option (String × Body)) (v : Vault)
      → v.key ≡ some key
      → OwnEntries v.envelopes v.plain
      → Found v.plain o
      → KeepOutcome key password (keep_at p fresh now id password o v)
  unfolding keep_at
  keep_at-KeepOutcome id none v q h f = f
  keep_at-KeepOutcome id (some (k, c)) v q h f =
      let both = entry-both v.envelopes v.plain k h f in
      as_kept-KeepOutcome key k password
        (update p fresh.nonce k (("password", str password) ∷ []) now v)
        (update-IsKept (HasText password) k (("password", str password) ∷ []) v both.0.0 both.1.0 q
          both.0.1 both.1.1 (patch-password both.0.0 now password))

  keep_open-KeepOutcome :
      (host url : Text) (test : Body → Bool) (o : Option Body) (v : Vault)
      → find test (list_of login v) ≡ o
      → v.key ≡ some key
      → OwnEntries v.envelopes v.plain
      → KeepOutcome key password (keep_open p fresh now host url password o v)
  unfolding keep_open add list_of
  keep_open-KeepOutcome host url test none v f q h =
      as_kept-KeepOutcome key fresh.id password
        (add p fresh.nonce fresh.id (generated_fields host url password) now v)
        (add-IsKept p fresh.nonce key fresh.id password v.key host url now v q q)
  keep_open-KeepOutcome host url test (some r) v f q h =
      let entries = all_records-StandsFor v.envelopes v.plain v.plain h (λ k t. t) in
      let logins =
        filter_by-All (λ r. text_is (get "type" r) login) (StandsFor v.plain)
          (all_records v.envelopes v.plain) entries in
      let found =
        find-some test (λ r. StandsFor v.plain r × (text_is (get "type" r) login ≡ true))
          (list_of login v) r logins f in
      let (k, e, t) = found.0.0 in
      keep_at-KeepOutcome (as_text (get "id" r)) (entry_of (as_text (get "id" r)) v.plain) v q h
        (rw e (entry_of-Found k v.plain t))

  keep_with-KeepOutcome :
      (m : Match.Platform) (host url : Text) (o : Option String) (v : Vault)
      → o ≡ some key
      → v.key ≡ some key
      → OwnEntries v.envelopes v.plain
      → KeepOutcome key password (keep_with p fresh now m host url password o v)
  unfolding keep_with
  keep_with-KeepOutcome m host url none v x q h = ground (arith, x)
  keep_with-KeepOutcome m host url (some k) v x q h =
      keep_open-KeepOutcome host url (is_open_for m host)
        (find (is_open_for m host) (list_of login v)) v refl q h

-- In an unlocked vault whose records have no field `id` of their own and each their envelope,
-- keeping a generated password succeeds: the vault stays unlocked, and the record under the
-- returned id, with its envelope, has that password.
pub keep_generated-KeepOutcome :
    (p : Platform) (fresh : Fresh) (now : ℕ) (m : Match.Platform) (host url password : Text)
    (key : String) (v : Vault)
    → v.key ≡ some key
    → OwnEntries v.envelopes v.plain
    → KeepOutcome key password (keep_generated p fresh now m host url password v)
unfolding keep_generated
keep_generated-KeepOutcome p fresh now m host url password key v q h =
    keep_with-KeepOutcome p fresh now key password m host url v.key v q q h
