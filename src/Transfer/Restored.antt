-- ===== src/Transfer/Restored.antt =====
-- What a login of a JSON export becomes when it is read back (src/core/transfer.js).
use bencpass.Prelude.{
  ℕ, Bool, true, ◌||◌, Option, none, some, String, ◌≡◌, map, ◌==◌, take, str_eq, if◌then◌else◌,
}
use bencpass.Map.{get}
use bencpass.Plain.{Body, Value, str, num, urls, as_urls}
use bencpass.Model.{new_record}
use bencpass.Transfer.Import.{max_field, max_urls, has_nothing}
use bencpass.Transfer.Json.{capped, carry, carry_times, login_from}

-- A date or a count of the file, or what stands for it
abbrev pub time_or : Option Value → Option Value → Option Value
time_or (some (num t)) d = if t == 0 then d else some (num t)
time_or _ d = d

abbrev is_carried : String → Bool
is_carried j =
    str_eq "timesUsed" j || str_eq "lastUsed" j || str_eq "updated" j || str_eq "created" j

-- The login that is read back, after the file's `raw`
pub record IsRestored (now : ℕ) (raw rec : Body) : Type 0 where
  pub title : get "title" rec ≡ some (str (capped (get "title" raw)))
  pub username : get "username" rec ≡ some (str (capped (get "username" raw)))
  pub password : get "password" rec ≡ some (str (capped (get "password" raw)))
  pub notes : get "notes" rec ≡ some (str (capped (get "notes" raw)))
  pub totp : get "totp" rec ≡ some (str (capped (get "totp" raw)))
  pub sites :
      get "urls" rec ≡ some (urls (map (take max_field) (take max_urls (as_urls (get "urls" raw)))))
  pub created : get "created" rec ≡ time_or (get "created" raw) (some (num now))
  pub updated : get "updated" rec ≡ time_or (get "updated" raw) (some (num now))
  pub last_used : get "lastUsed" rec ≡ time_or (get "lastUsed" raw) (some (num 0))
  pub times_used : get "timesUsed" rec ≡ time_or (get "timesUsed" raw) (some (num 0))
  pub password_changed :
      get "passwordChanged" rec ≡ time_or (get "passwordChanged" raw) (some (num now))

-- Dropped only if nothing worth keeping is in it
abbrev pub RestoreOutcome : ℕ → Body → Option Body → Type 0
RestoreOutcome now raw none = has_nothing (login_from raw) ≡ true
RestoreOutcome now raw (some rec) = IsRestored now raw rec

-- The login before the file's dates are put in
record IsMade (now : ℕ) (raw rec : Body) : Type 0 where
  made : new_record (login_from raw) now ≡ some rec
  title : get "title" rec ≡ some (str (capped (get "title" raw)))
  username : get "username" rec ≡ some (str (capped (get "username" raw)))
  password : get "password" rec ≡ some (str (capped (get "password" raw)))
  notes : get "notes" rec ≡ some (str (capped (get "notes" raw)))
  totp : get "totp" rec ≡ some (str (capped (get "totp" raw)))
  sites :
      get "urls" rec ≡ some (urls (map (take max_field) (take max_urls (as_urls (get "urls" raw)))))
  created : get "created" rec ≡ some (num now)
  updated : get "updated" rec ≡ some (num now)
  last_used : get "lastUsed" rec ≡ some (num 0)
  times_used : get "timesUsed" rec ≡ some (num 0)
  password_changed : get "passwordChanged" rec ≡ some (num now)

carried : Body → Body → Body
unfolding carry_times get
carried raw rec = carry "passwordChanged" (get "passwordChanged" raw) (carry_times raw rec)

module _ (now : ℕ) (raw rec : Body) (m : IsMade now raw rec) where
  abbrev with_created : Body
  with_created = carry "created" (get "created" raw) rec

  abbrev with_updated : Body
  with_updated = carry "updated" (get "updated" raw) with_created

  abbrev with_used : Body
  with_used = carry "lastUsed" (get "lastUsed" raw) with_updated

  abbrev with_count : Body
  with_count = carry "timesUsed" (get "timesUsed" raw) with_used
