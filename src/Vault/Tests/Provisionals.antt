-- ===== src/Vault/Tests/Provisionals.antt =====
-- A concrete password that is generated, kept and completed.
use Prim.Native.Nat.{Ordering}
use bencpass.Prelude.{refl, none, [], ◌∷◌}
use bencpass.Map.{get, set}
use bencpass.Text.{same}
use bencpass.Text.Codes.{codes}
use bencpass.Plain.{Body, str}
use bencpass.Model.{login}
use bencpass.Match
use bencpass.Vault.{Vault}
use bencpass.Vault.Forking.{Fresh}
use bencpass.Vault.Records.{write}
use bencpass.Vault.Listed.{OwnEntries}
use bencpass.Vault.Provisional.{keep_generated}
use bencpass.Vault.Kept.{KeepOutcome, keep_generated-KeepOutcome}
use bencpass.Vault.Tests.{named, opened}

abbrev pages : Match.Platform
pages = record {
  has_rule = λ t. same t (codes "com");
  url_hostname = λ u. none;
  locale_compare = λ s t. Ordering.eq;
}

abbrev fresh : Fresh
fresh = record { id = "f"; nonce = "n" }

opened-OwnEntries : OwnEntries opened.envelopes opened.plain
unfolding get set
opened-OwnEntries = (refl, (_, refl), (refl, (_, refl), tt))

keep_generated-KeepOutcome_example :
    KeepOutcome "key"
      (codes "pw")
      (keep_generated named fresh 9 pages (codes "bank.com") (codes "bank.com") (codes "pw") opened)
keep_generated-KeepOutcome_example =
    keep_generated-KeepOutcome named fresh 9 pages (codes "bank.com") (codes "bank.com")
      (codes "pw") "key" opened refl opened-OwnEntries

abbrev entry : Body
entry = ("type", str login) ∷ ("password", str (codes "pw")) ∷ []

abbrev holding : Vault
holding = write named "n" "key" "f" 1 entry opened
