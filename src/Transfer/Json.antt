-- ===== src/Transfer/Json.antt =====
-- JSON in (src/core/transfer.js): `fromJson` after `JSON.parse`, `recordFrom`, `historyFrom` and
-- `carryTimes`.
use bencpass.Prelude.{
  ℕ, Bool, true, false, not, ◌&&◌, Option, none, some, List, [], ◌∷◌, ◌⊎◌, inl, inr, String, map,
  ◌==◌, ltb, length, take, if◌then◌else◌,
}
use bencpass.Map.{get, set}
use bencpass.Text.{Text, same, trim}
use bencpass.Plain.{Body, Value, str, num, urls, history, Old, as_text, as_urls, as_old}
use bencpass.Model.{login, address, empty_address, history_max, new_record}
use bencpass.Transfer.Csv.{is_empty}
use bencpass.Transfer.Import.{
  TransferError, too_many, max_records, max_field, max_urls, has_nothing,
}

-- `str(v)`
abbrev pub capped : Option Value → Text
capped v = take max_field (as_text v)

abbrev has_password : Old → Bool
has_password o = not (is_empty o.password)

abbrev capped_old : Old → Old
capped_old o = record o { password = take max_field o.password }

unfoldable pub with_passwords : List Old → List Old
with_passwords [] = []
with_passwords (o ∷ os) = let rest = with_passwords os in if has_password o then o ∷ rest else rest

-- `historyFrom`
unfoldable pub history_from : Option Value → List Old
unfolding with_passwords
history_from v = map capped_old (take history_max (with_passwords (as_old v)))

abbrev pub carry : String → Option Value → Body → Body
carry k (some (num t)) r = if t == 0 then r else set k (num t) r
carry k _ r = r

-- `carryTimes`
unfoldable pub carry_times : Body → Body → Body
unfolding get set
carry_times raw rec = carry "timesUsed" (get "timesUsed" raw) (
    carry "lastUsed" (get "lastUsed" raw)
      (carry "updated" (get "updated" raw) (carry "created" (get "created" raw) rec)))

-- `String(r[k] ?? '').trim()` is empty, for the keys of an address
unfoldable pub blank_fields : Body → Body → Bool
unfolding get trim
blank_fields [] r = true
blank_fields ((k, v) ∷ keys) r = is_empty (trim (as_text (get k r))) && blank_fields keys r

-- `emptyAddress`
unfoldable pub empty_address_record : Body → Bool
unfolding blank_fields
empty_address_record r = blank_fields empty_address r

abbrev pub kept_unless : Bool → Body → Option Body
kept_unless true r = none
kept_unless false r = some r

unfoldable pub capped_fields : Body → Body → Body
unfolding get
capped_fields [] raw = []
capped_fields ((k, v) ∷ keys) raw = (k, str (capped (get k raw))) ∷ capped_fields keys raw

unfoldable pub finish_address : Body → Option Body → Option Body
unfolding carry_times empty_address_record
finish_address raw none = none
finish_address raw (some rec) =
    let dated = carry_times raw rec in kept_unless (empty_address_record dated) dated

unfoldable pub finish_login : Body → Option Body → Option Body
unfolding carry_times has_nothing get
finish_login raw none = none
finish_login raw (some rec) =
    let dated = carry "passwordChanged" (get "passwordChanged" raw) (carry_times raw rec) in
    kept_unless (has_nothing dated) dated

-- Each address of `urls` is a text, and each entry of `history` has its password as a text: what else
-- a file may hold in these lists, `recordFrom` leaves out.
abbrev pub login_from : Body → Body
login_from raw =
    ("type", str login)
    ∷ ("title", str (capped (get "title" raw)))
    ∷ ("username", str (capped (get "username" raw)))
    ∷ ("password", str (capped (get "password" raw)))
    ∷ ("notes", str (capped (get "notes" raw)))
    ∷ ("totp", str (capped (get "totp" raw)))
    ∷ ("urls", urls (map (take max_field) (take max_urls (as_urls (get "urls" raw)))))
    ∷ ("history", history (history_from (get "history" raw)))
    ∷ []

-- `recordFrom`, of an object
unfoldable pub record_from : ℕ → Body → Option Body
unfolding finish_address finish_login capped_fields history_from get
record_from now raw =
    if same (as_text (get "type" raw)) address
    then finish_address raw
        (new_record (("type", str address) ∷ capped_fields empty_address raw) now)
    else finish_login raw (new_record (login_from raw) now)

unfoldable pub records_from : ℕ → List Body → List Body
unfolding record_from
records_from now [] = []
records_from now (raw ∷ raws) = add (record_from now raw) (records_from now raws)
  where
    add : Option Body → List Body → List Body
    add none rs = rs
    add (some r) rs = r ∷ rs

-- `fromJson`, of the list that the file holds
unfoldable pub from_json : ℕ → List Body → TransferError ⊎ List Body
unfolding records_from
from_json now raws =
    if ltb max_records (length raws) then inl too_many else inr (records_from now raws)
