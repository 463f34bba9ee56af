-- ===== src/Vault/Imported.antt =====
-- What an import reports (src/core/vault.js).
use Prim.Native.Nat.{suc}
use bencpass.Prelude.{
  ℕ, ◌+◌, String, Bool-cases, not, ◌&&◌, ◌||◌, Option, none, some, List, [], ◌∷◌, ◌⊎◌, inl, inr,
  ◌≡◌, ◌∙◌, ltb, length, length-append, arith, All,
}
use bencpass.Map.{get}
use bencpass.Plain.{Body, as_text, as_urls, text_is, is_truthy}
use bencpass.Model.{login, address, count_of, normalise}
use bencpass.Match
use bencpass.Match.{belongs_only_to}
use bencpass.Crypto.{Platform}
use bencpass.Vault.{Vault, Fault}
use bencpass.Vault.Forking.{Fresh}
use bencpass.Vault.Listed.{OwnEntries}
use bencpass.Vault.Importing.{
  Importing, ImportTarget, import_new, redate, take_newer, import_login, import_body, import_all,
  import_with, import_records, import_target, same_value, same_login_exists, same_address_exists,
  has_no_urls, adopt_dates,
}

-- The records that were taken in, each under one head
abbrev pub counted : Importing → ℕ
counted s = length s.added + length s.merged + s.unchanged + s.stale + s.redated

module _ (p : Platform) (m : Match.Platform) (fresh : ℕ → Fresh) (now : ℕ) (key : String) where
  counted-import_new :
      (n : ℕ) (body : Body) (s : Importing)
      → counted (import_new p m fresh now key n body s) ≡ suc (counted s)
  unfolding import_new
  counted-import_new n body s = omega (arith, length-append s.added ((fresh n).id ∷ []))

  counted-redate :
      (n : ℕ) (t : ImportTarget) (o : Option Body) (s : Importing)
      → counted (redate p m fresh now key n t o s) ≡ suc (counted s)
  unfolding redate
  counted-redate n t none s = omega arith
  counted-redate n t (some body) s = omega arith

  counted-take_newer :
      (n : ℕ) (t : ImportTarget) (body : Body) (s : Importing)
      → counted (take_newer p m fresh now key n t body s) ≡ suc (counted s)
  unfolding take_newer
  counted-take_newer n t body s =
      elim (Bool-cases (
        not (is_truthy (get "password" t.current))
        || ltb (count_of (get "passwordChanged" t.current))
            (count_of (get "passwordChanged" body)))) [
              | inl e ↦ rw e (omega (arith, length-append s.merged (t.id ∷ [])))
              | inr e ↦ rw e (omega arith)
            ]

  counted-import_login :
      (n : ℕ) (o : Option ImportTarget) (body : Body) (s : Importing)
      → counted (import_login p m fresh now key n o body s) ≡ suc (counted s)
  unfolding import_login
  counted-import_login n none body s =
      elim (Bool-cases (has_no_urls body && same_login_exists body s.vault)) [
        | inl e ↦ rw e (omega arith)
        | inr e ↦ rw e (counted-import_new n body s)
      ]
  counted-import_login n (some t) body s =
      elim (Bool-cases (same_value (get "password" t.current) (get "password" body))) [
        | inl e ↦ rw e (counted-redate n t (adopt_dates t.current body) s)
        | inr e ↦ rw e (elim (Bool-cases (belongs_only_to m t.current t.host)) [
          | inl f ↦ rw f (counted-take_newer n t body s)
          | inr f ↦ rw f (counted-import_new n body s)
        ])
      ]

  counted-import_body :
      (n : ℕ) (body : Body) (s : Importing)
      → counted (import_body p m fresh now key n body s) ≡ suc (counted s)
  unfolding import_body
  counted-import_body n body s = elim (Bool-cases (text_is (get "type" body) login)) [
    | inl e ↦ rw e (
        counted-import_login n
          (import_target p m fresh now key (as_urls (get "urls" body))
            (as_text (get "username" body)) s.vault)
          body s)
    | inr e ↦
        rw e
          (elim (Bool-cases
            (text_is (get "type" body) address && same_address_exists body s.vault)) [
              | inl f ↦ rw f (omega arith)
              | inr f ↦ rw f (counted-import_new n body s)
            ])
  ]

  counted-import_all :
      (n : ℕ) (rs : List Body) (s : Importing)
      → counted (import_all p m fresh now key n rs s) ≡ length rs + counted s
  unfolding import_all
  counted-import_all n [] s = omega arith
  counted-import_all n (r ∷ rs) s =
      let next = import_body p m fresh now key n (normalise r now) s in
      omega (arith, counted-import_all (suc n) rs next, counted-import_body n (normalise r now) s)

-- Every record is under one head, and the vault was unlocked.
abbrev pub ImportOutcome : List Body → Fault ⊎ Importing → Type 0
ImportOutcome records (inl f) = ⊥
ImportOutcome records (inr s) = counted s ≡ length records

import_with-counted :
    (p : Platform) (m : Match.Platform) (fresh : ℕ → Fresh) (now : ℕ) (o : Option String)
    (key : String) (records : List Body) (v : Vault)
    → o ≡ some key
    → ImportOutcome records (import_with p m fresh now o records v)
import_with-counted p m fresh now none key records v h = ground (arith, h)
import_with-counted p m fresh now (some k) key records v h =
    counted-import_all p m fresh now k 0 records
      (record { vault = v; added = []; merged = []; unchanged = 0; stale = 0; redated = 0 })
    ∙ omega arith

-- In an unlocked vault an import succeeds, and counts every record of the file once: as added,
-- merged, unchanged, stale or redated. The records of the vault and of the file have no field `id`
-- of their own, and those of the vault have each their envelope.
pub import-counted :
    (p : Platform) (m : Match.Platform) (fresh : ℕ → Fresh) (now : ℕ) (key : String)
    (records : List Body) (v : Vault)
    → v.key ≡ some key
    → OwnEntries v.envelopes v.plain
    → All (λ (r : Body). get "id" r ≡ none) records
    → ImportOutcome records (import_records p m fresh now records v)
unfolding import_records
import-counted p m fresh now key records v h own new =
    import_with-counted p m fresh now v.key key records v h
