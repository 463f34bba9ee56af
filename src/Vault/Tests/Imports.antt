-- ===== src/Vault/Tests/Imports.antt =====
-- A concrete import into an open vault.
use Prim.Native.Nat.{Ordering}
use bencpass.Prelude.{length, ◌≡◌, refl, inl, inr, ℕ, List, none, [], ◌∷◌, ◌⊎◌}
use bencpass.Map.{get, set, delete}
use bencpass.Text.{same}
use bencpass.Text.Codes.{codes}
use bencpass.Plain.{Body, str, num, urls, spread}
use bencpass.Model.{
  login, normalise, known_type, note_claim, clamp_time, password_time, normal_login, normal_base,
  used_time,
}
use bencpass.Match
use bencpass.Vault.{Fault}
use bencpass.Vault.Forking.{Fresh}
use bencpass.Vault.Importing.{Importing, adopt_dates, import_records}
use bencpass.Vault.Dated.{DatesOutcome, adopt_dates-DatesOutcome}
use bencpass.Vault.Listed.{OwnEntries}
use bencpass.Vault.Imported.{ImportOutcome, import-counted}
use bencpass.Vault.Tests.{named, opened}

abbrev pages : Match.Platform
pages = record {
  has_rule = λ t. same t (codes "com");
  url_hostname = λ u. none;
  locale_compare = λ s t. Ordering.eq;
}

abbrev ids : ℕ → Fresh
ids n = record { id = "f"; nonce = "n" }

abbrev row : Body
row =
    ("type", str login)
    ∷ ("username", str (codes "ann"))
    ∷ ("password", str (codes "pw"))
    ∷ ("urls", urls (codes "bank.com" ∷ []))
    ∷ ("passwordChanged", num 3)
    ∷ []

opened-OwnEntries : OwnEntries opened.envelopes opened.plain
unfolding get set
opened-OwnEntries = (refl, (_, refl), (refl, (_, refl), tt))

import-counted_example :
    ImportOutcome (row ∷ row ∷ []) (import_records named pages ids 9 (row ∷ row ∷ []) opened)
unfolding get
import-counted_example =
    import-counted named pages ids 9 "key" (row ∷ row ∷ []) opened refl opened-OwnEntries
      (refl, (refl, tt))

adopt_dates-DatesOutcome_example :
    DatesOutcome "username" row
      (adopt_dates row (("created", num 2) ∷ ("passwordChanged", num 1) ∷ []))
adopt_dates-DatesOutcome_example =
    adopt_dates-DatesOutcome "username" row (("created", num 2) ∷ ("passwordChanged", num 1) ∷ [])
      refl

-- What an import reports: added, merged, unchanged, stale, redated.
abbrev report : Fault ⊎ Importing → List ℕ
report (inl f) = []
report (inr s) = length s.added ∷ length s.merged ∷ s.unchanged ∷ s.stale ∷ s.redated ∷ []

-- A row is added, and its twin finds it there.
twins : report (import_records named pages ids 9 (row ∷ row ∷ []) opened) ≡ 1 ∷ 0 ∷ 1 ∷ 0 ∷ 0 ∷ []
unfolding import_records get set delete same spread normalise known_type note_claim clamp_time
    password_time normal_login normal_base used_time
twins = refl
