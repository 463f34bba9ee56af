-- ===== src/Model/Fresh.antt =====
-- What `newRecord` makes of any fields that it is handed (src/core/model.js).
use bencpass.Prelude.{ℕ, ◌≡◌, refl, inl, inr, true, none, some, Bool-cases, if-some, take}
use bencpass.Map.{get}
use bencpass.Text.{Text, same}
use bencpass.Plain.{Value, str, num, Body, or_else, as_old, spread}
use bencpass.Plain.Laws.{body_laws}
use bencpass.Model.{
  empty_login, empty_for, login, history_max, is_type, new_record, of_type, fresh, login_fields,
}

pub record IsFresh (fields : Body) (now : ℕ) (rec : Body) : Type 0 where
  pub live : get "deleted" rec ≡ none
  pub typed : (type : Text) × (get "type" rec ≡ some (str type)) × (is_type type ≡ true)
  pub created : get "created" rec ≡ some (num now)
  pub updated : get "updated" rec ≡ some (num now)
  pub unused : (get "lastUsed" rec ≡ some (num 0)) × (get "timesUsed" rec ≡ some (num 0))

fresh-IsFresh :
    (type : Text) (fields : Body) (now : ℕ)
    → is_type type ≡ true
    → IsFresh fields now (fresh type fields now)
unfolding fresh
fresh-IsFresh type fields now k = elim (Bool-cases (same type login)) [
  | inl l ↦ rw l (record {
    live = simp body_laws;
    typed = (type, simp body_laws, k);
    created = simp body_laws;
    updated = simp body_laws;
    unused = (simp body_laws, simp body_laws);
  })
  | inr o ↦ rw o (record {
    live = simp body_laws;
    typed = (type, simp body_laws, k);
    created = simp body_laws;
    updated = simp body_laws;
    unused = (simp body_laws, simp body_laws);
  })
]

of_type-IsFresh :
    (v : Value) (fields : Body) (now : ℕ) (rec : Body)
    → of_type v fields now ≡ some rec
    → IsFresh fields now rec
unfolding of_type
of_type-IsFresh (str type) fields now rec h =
    let (k, e) = if-some (is_type type) (fresh type fields now) rec h in
    rw (← e) (fresh-IsFresh type fields now k)
of_type-IsFresh _ fields now rec h = cc

-- A record that is made from any fields is live, of a known type, stamped with the clock, and not
-- yet used, also where the fields say otherwise.
pub new_record-IsFresh :
    (fields : Body) (now : ℕ) (rec : Body)
    → new_record fields now ≡ some rec
    → IsFresh fields now rec
unfolding new_record
new_record-IsFresh fields now rec h =
    of_type-IsFresh (or_else (get "type" fields) (str login)) fields now rec h

-- A login is made from any fields of that type or of none; the history that comes with them is
-- kept, up to 20 entries, and its password counts from now.
pub new_record-history :
    (fields : Body) (now : ℕ)
    → or_else (get "type" fields) (str login) ≡ str login
    → (rec : Body) × (new_record fields now ≡ some rec)
      × (as_old (get "history" rec) ≡ take history_max (as_old (get "history" fields)))
      × (get "passwordChanged" rec ≡ some (num now))
unfolding new_record of_type fresh login_fields same
new_record-history fields now h = rw h (_, refl, simp body_laws, simp body_laws)

-- The password of fields that are laid over an empty login is that of the login made from them.
pub new_record-password :
    (fields : Body) (now : ℕ) (v : Value)
    → or_else (get "type" fields) (str login) ≡ str login
    → get "password" (spread empty_login fields) ≡ some v
    → (rec : Body) × (new_record fields now ≡ some rec) × (get "password" rec ≡ some v)
unfolding new_record of_type fresh login_fields same empty_for
new_record-password fields now v h q = rw h (_, refl, simp body_laws q)
