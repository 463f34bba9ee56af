-- ===== src/Transfer/Tests.antt =====
-- Concrete exports and imports.
use bencpass.Prelude.{◌≡◌, refl, none, some, [], ◌∷◌}
use bencpass.Text.Codes.{codes}
use bencpass.Plain.{Body, str, num, urls}
use bencpass.Transfer.Csv.{csv_columns, login_rows, to_csv, parse_csv}
use bencpass.Transfer.RoundTrip.{parse-to_csv}
use bencpass.Transfer.Import.{Browser}

abbrev entry : Body
entry =
    ("type", str (codes "login"))
    ∷ ("title", str (codes "a, \"b\""))
    ∷ ("username", str (codes "me"))
    ∷ ("password", str (codes "p,w"))
    ∷ ("urls", urls (codes "https://a.example" ∷ []))
    ∷ ("created", num 7)
    ∷ []

parse-to_csv_example : parse_csv (to_csv (entry ∷ [])) ≡ csv_columns ∷ login_rows (entry ∷ [])
parse-to_csv_example = parse-to_csv (entry ∷ [])

abbrev browser : Browser
browser = record { other_number = λ s. none; url_hostname = λ s. some (codes "www.a.example") }

-- A quoted cell holds a comma, a doubled quote and a line end.
quoted_cell :
    parse_csv (codes "a,\"b,\"\"c\nd\"\r\ne")
    ≡ (codes "a" ∷ codes "b,\"c\nd" ∷ []) ∷ (codes "e" ∷ []) ∷ []
unfolding parse_csv
quoted_cell = refl
