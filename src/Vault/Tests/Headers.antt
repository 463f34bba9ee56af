-- ===== src/Vault/Tests/Headers.antt =====
-- Concrete headers: one that waits, a change of the master password, and a parked envelope.
use bencpass.Prelude.{
  ◌≡◌, ap, arith, All, Option, refl, true, none, some, [], str_eq, if◌then◌else◌,
}
use bencpass.Map.{get, set, values}
use bencpass.Header.{
  Header, Wrap, whole, header_canonical, derive_master_key, unwrap_vault_key, wrap_vault_key,
  verify_header_proof, seal_header_proof,
}
use bencpass.Crypto.{Platform, aad_record, digits, open_record, open_envelope}
use bencpass.Plain.{Body}
use bencpass.Text.{same}
use bencpass.Text.Codes.{codes}
use bencpass.Vault.{Vault, mark, drop, cap, park_one, park_all, park}
use bencpass.Vault.Opening.{take_in, open_all, unlock_with_vault_key}
use bencpass.Vault.Password.{stash_header, unlock, adopt_meta, key_by}
use bencpass.Vault.Wrappings.{Draws, change_master_password}
use bencpass.Vault.Forking.{resolve_parked}
use bencpass.Vault.Proven.{HeaderOutcome, unlock-header}
use bencpass.Vault.Changed.{ChangeOutcome, change-unlock}
use mathlib.Core.Path.{subst}
use bencpass.Vault.Forked.{HasDates, IsDate, IsResolved, resolve_parked-IsResolved}
use bencpass.Vault.Tests.{header, shut, opened, named, open_named, last}

abbrev wrap : Wrap
wrap = record { wrapper = "password"; n = "n"; ct = "wrap"; salt = ""; created = 0 }

-- The header of the next generation.
abbrev waiting_header : Header
waiting_header = record header {
  gen = whole 1;
  wraps = some (record { password = some wrap; recovery = none; biometric = none });
  proof = some (record { n = "n"; ct = "proof" });
}

-- A platform under which the wrapping and the proof of `waiting_header` open.
abbrev keyed : Platform
keyed = record named {
  encrypt = λ key nonce aad t. "wrap";
  decrypt = λ key nonce aad ct.
      if str_eq ct "wrap"
      then some (codes "bytes")
      else if str_eq ct "proof"
      then some (header_canonical named waiting_header)
      else open_named (last 0 aad) ct;
}

abbrev waiting : Vault
waiting = record shut { pending_meta = some waiting_header }

unlock-header_example :
    HeaderOutcome keyed (codes "pw") waiting (unlock keyed (codes "pw") waiting).0
unlock-header_example = unlock-header keyed (codes "pw") waiting

stashed : (stash_header waiting_header shut).1 ≡ true
unfolding stash_header adopt_meta
stashed = refl

abbrev draws : Draws
draws = record { salt = "s"; wrap_nonce = "w"; proof_nonce = "p" }

abbrev wrapped : Vault
wrapped = record opened { meta = waiting_header }

change-unlock_example :
    ChangeOutcome keyed
      (codes "new")
      (codes "bytes")
      wrapped
      (change_master_password keyed draws (codes "pw") (codes "new") 9 wrapped)
unfolding key_by derive_master_key unwrap_vault_key
change-unlock_example =
    change-unlock keyed draws (codes "pw") (codes "new") (codes "bytes") 9 wrapped refl

abbrev or_title : Option Body → Body
or_title none = []
or_title (some b) = b

opened-HasDates : All (HasDates named "key") opened.parked
unfolding get open_envelope open_record aad_record digits same
opened-HasDates = (
  (λ body o.
      subst (λ (b : Body). IsDate (get "updated" b) × IsDate (get "created" b))
        (ap (λ (x : Option Body). or_title x) o) (tt, tt)),
  tt,
)

resolve_parked-IsResolved_example :
    IsResolved named
      (λ t. [])
      (λ n. record { id = "f"; nonce = "n" })
      9
      "key"
      "a"
      opened
      (resolve_parked named (λ t. []) (λ n. record { id = "f"; nonce = "n" }) 9 opened)
resolve_parked-IsResolved_example =
    resolve_parked-IsResolved named (λ t. []) (λ n. record { id = "f"; nonce = "n" }) 9 "key" "a"
      opened (λ m n h k. absurd (omega (arith, h, k))) ((λ n. refl), tt) opened-HasDates (λ n. refl)
      refl

-- The header that waited is taken over.
adopted : (unlock keyed (codes "pw") waiting).0.meta.gen ≡ whole 1
unfolding unlock unlock_with_vault_key open_all take_in open_envelope open_record aad_record digits
    values get set park park_all park_one cap drop mark same derive_master_key unwrap_vault_key
    verify_header_proof header_canonical
adopted = refl

-- The change of the password goes through.
changed : (change_master_password keyed draws (codes "pw") (codes "new") 9 wrapped).1 ≡ none
unfolding change_master_password derive_master_key unwrap_vault_key same seal_header_proof
    header_canonical verify_header_proof key_by wrap_vault_key
changed = refl
