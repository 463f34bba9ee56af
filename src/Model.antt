-- ===== src/Model.antt =====
-- The plaintext of a record and the rules for changing it (src/core/model.js). The proofs are in the
-- modules below.
pub mod Changes
pub mod Clock
pub mod Fresh
mod Tests
use bencpass.Prelude.{
  ℕ, ◌+◌, ◌*◌, String, Bool, true, false, not, ◌&&◌, ◌||◌, Option, none, some, List, [], ◌∷◌, ◌++◌,
  map, ltb, ◌==◌, str_eq, if◌then◌else◌, take,
}
use bencpass.Map.{Map, get, set, delete}
use bencpass.Text.{Text, same}
use bencpass.Text.Codes.{codes}
use bencpass.Plain.{
  Value, str, num, neg, not_finite, flag, null, urls, history, custom, Body, Old, spread, set_opt,
  is_truthy, differs, or_else, as_old, as_text, as_num, as_urls, as_custom, text_is,
}

abbrev pub login : Text
login = codes "login"

abbrev pub address : Text
address = codes "address"

abbrev pub history_max : ℕ
history_max = 20

abbrev pub skew_tolerance : ℕ
skew_tolerance = 5 * 60 * 1000

abbrev pub empty_login : Body
empty_login =
    ("title", str [])
    ∷ ("notes", str [])
    ∷ ("urls", urls [])
    ∷ ("username", str [])
    ∷ ("password", str [])
    ∷ ("totp", str [])
    ∷ ("fields", custom [])
    ∷ []

abbrev pub empty_address : Body
empty_address =
    ("title", str [])
    ∷ ("notes", str [])
    ∷ ("name", str [])
    ∷ ("organization", str [])
    ∷ ("address-line1", str [])
    ∷ ("address-line2", str [])
    ∷ ("address-level2", str [])
    ∷ ("address-level1", str [])
    ∷ ("postal-code", str [])
    ∷ ("country", str [])
    ∷ ("tel", str [])
    ∷ ("email", str [])
    ∷ []

-- `emptyFor`
unfoldable pub empty_for : Text → Body
empty_for type = if same type address then empty_address else empty_login

-- `TYPES.includes(type)`
unfoldable pub is_type : Text → Bool
is_type type = same type login || same type address

pub record Clamped : Type 0 where
  pub t : ℕ
  pub claimed : Option ℕ

-- `clampTime`: what is not a finite number above 0 becomes `now`, and so does a date too far ahead.
unfoldable pub clamp_time : Value → ℕ → ℕ → Clamped
clamp_time (num t) now tolerance =
    if t == 0
    then record { t = now; claimed = none }
    else if ltb (now + tolerance) t
    then record { t = now; claimed = some t }
    else record { t = t; claimed = none }
clamp_time _ now tolerance = record { t = now; claimed = none }

-- `Array.isArray(h) ? h.slice(0, HISTORY_MAX) : []`
unfoldable pub bounded_history : Option Value → List Old
bounded_history v = take history_max (as_old v)

-- the end of `newRecord`, for a login
login_fields : Body → ℕ → Body → Body
unfolding bounded_history
login_fields fields now rec =
    set "history" (history (bounded_history (get "history" fields)))
      (set "passwordChanged" (num now) rec)

-- the record that `newRecord` builds for a known type
fresh : Text → Body → ℕ → Body
unfolding login_fields empty_for
fresh type fields now =
    let rec = delete "deleted" (
      set "timesUsed" (num 0) (
        set "lastUsed" (num 0) (
          set "updated" (num now)
            (set "created" (num now) (set "type" (str type) (spread (empty_for type) fields)))))) in
    if same type login then login_fields fields now rec else rec

-- `newRecord` with its type; `none` is the error on an unknown type.
of_type : Value → Body → ℕ → Option Body
unfolding fresh is_type
of_type (str type) fields now = if is_type type then some (fresh type fields now) else none
of_type _ fields now = none

-- `newRecord`
unfoldable pub new_record : Body → ℕ → Option Body
unfolding of_type
new_record fields now = of_type (or_else (get "type" fields) (str login)) fields now

-- the old password goes into the history, if there is one
keep_old : Body → Body → Body
unfolding bounded_history
keep_old plain next =
    if is_truthy (get "password" plain)
    then set "history"
        (history (
          take history_max (
            record {
              password = as_text (get "password" plain);
              changed = as_num (get "passwordChanged" plain);
            }
            ∷ as_old (get "history" plain))))
        next
    else next

-- the start of `applyPatch`
unfoldable pub stamped : Body → Body → ℕ → Body
stamped plain patch now =
    set "updated" (num now) (set_opt "type" (get "type" plain) (spread plain patch))

-- `applyPatch`
unfoldable pub apply_patch : Body → Body → ℕ → Body
unfolding keep_old stamped
apply_patch plain patch now =
    let next = stamped plain patch now in
    if not (text_is (get "type" plain) login)
    then next
    else if differs (get "password" patch) (get "password" plain)
    then keep_old plain (set "passwordChanged" (num now) next)
    else set "history" (or_else (get "history" plain) (history [])) next

-- `v ?? 0`, for a count
abbrev pub count_of : Option Value → ℕ
count_of (some (num n)) = n
count_of _ = 0

-- `markUsed`
unfoldable pub mark_used : Body → ℕ → Body
mark_used plain now =
    set "timesUsed" (num (count_of (get "timesUsed" plain) + 1)) (set "lastUsed" (num now) plain)

-- `TYPES.includes(input.type) ? input.type : LOGIN`
unfoldable pub known_type : Option Value → Text
unfolding is_type
known_type (some (str type)) = if is_type type then type else login
known_type _ = login

-- `Number.isFinite(v) ? v : 0`
abbrev pub finite_or_zero : Option Value → Value
finite_or_zero (some (num n)) = num n
finite_or_zero (some (neg n)) = neg n
finite_or_zero _ = num 0

-- `a ?? b` on two optional numbers
abbrev pub first_some : Option ℕ → Option ℕ → Option ℕ
first_some (some a) b = some a
first_some none b = b

-- `if (claimed) rec.claimedTime = claimed;`
unfoldable pub note_claim : Option ℕ → Body → Body
note_claim none rec = rec
note_claim (some t) rec = if t == 0 then rec else set "claimedTime" (num t) rec

-- the password's date, which only a login has
unfoldable pub password_time : Body → Clamped → ℕ → Clamped
unfolding clamp_time
password_time input created now =
    clamp_time (or_else (get "passwordChanged" input) (num created.t)) now skew_tolerance

-- the fields that `normalise` sets for a login
unfoldable pub normal_login : Body → ℕ → Body → Body
unfolding bounded_history
normal_login input changed rec = set "fields" (custom (as_custom (get "fields" input))) (
    set "urls" (urls (as_urls (get "urls" input))) (
      set "history" (history (bounded_history (get "history" input)))
        (set "passwordChanged" (num changed) rec)))

-- the record of `normalise`, before what a login adds
unfoldable pub normal_base : Text → ℕ → ℕ → ℕ → Body → Body
unfolding empty_for
normal_base type created updated last_used input = delete "deleted" (
    set "timesUsed" (finite_or_zero (get "timesUsed" input)) (
      set "lastUsed" (num last_used) (
        set "updated" (num updated)
          (set "created" (num created) (set "type" (str type) (spread (empty_for type) input))))))

-- `input.lastUsed ? clampTime(input.lastUsed, now) : { t: 0 }`
unfoldable pub used_time : Body → ℕ → ℕ
unfolding clamp_time
used_time input now =
    if is_truthy (get "lastUsed" input)
    then (clamp_time (or_else (get "lastUsed" input) null) now skew_tolerance).t
    else 0

-- `normalise`
unfoldable pub normalise : Body → ℕ → Body
normalise input now =
    let type = known_type (get "type" input) in
    let created = clamp_time (or_else (get "created" input) (num now)) now skew_tolerance in
    let updated = clamp_time (or_else (get "updated" input) (num created.t)) now skew_tolerance in
    let rec = normal_base type created.t updated.t (used_time input now) input in
    let changed = password_time input created now in
    if same type login
    then note_claim (first_some created.claimed (first_some updated.claimed changed.claimed))
        (normal_login input changed.t rec)
    else note_claim (first_some created.claimed updated.claimed) rec

-- `searchableFields`
unfoldable pub searchable_fields : Body → List (Option Value)
searchable_fields body =
    if text_is (get "type" body) address
    then get "title" body
      ∷ get "name" body
      ∷ get "organization" body
      ∷ get "address-line1" body
      ∷ get "address-line2" body
      ∷ get "address-level2" body
      ∷ get "address-level1" body
      ∷ get "postal-code" body
      ∷ get "email" body
      ∷ get "notes" body
      ∷ []
    else get "title" body
      ∷ get "username" body
      ∷ get "notes" body
      ∷ map (λ u. some (str u)) (as_urls (get "urls" body))
