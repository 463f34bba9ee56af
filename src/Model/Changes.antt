-- ===== src/Model/Changes.antt =====
-- What creating and patching a record do to it (src/core/model.js).
use bencpass.Prelude.{
  ℕ, suc, ◌≡◌, ◌≢◌, ◌∙◌, refl, ap, inl, inr, true, false, Option, none, some, List, [], ◌∷◌, arith,
  Bool-cases, take, take-take,
}
use bencpass.Map.{get}
use bencpass.Text.{Text, same}
use bencpass.Plain.{
  Value, str, num, history, Body, Old, spread, is_truthy, differs, or_else, as_old, as_text, as_num,
  text_is,
}
use bencpass.Plain.Laws.{get-spread-none, body_laws}
use bencpass.Model.{login, history_max, apply_patch}

as_old-or_else : (v : Option Value) → as_old (some (or_else v (history []))) ≡ as_old v
as_old-or_else v = ground arith

module _ (plain patch : Body) (now : ℕ) where
  -- A patch never changes the type of a record, and stamps it.
  pub apply_patch-type :
      (get "type" (apply_patch plain patch now) ≡ get "type" plain)
      × (get "updated" (apply_patch plain patch now) ≡ some (num now))
  unfolding apply_patch
  apply_patch-type = elim (Bool-cases (text_is (get "type" plain) login)) [
    | inr o ↦ rw o (simp body_laws, simp body_laws)
    | inl l ↦ elim (Bool-cases (differs (get "password" patch) (get "password" plain))) [
      | inr s ↦ rw (l, s) (simp body_laws, simp body_laws)
      | inl d ↦ elim (Bool-cases (is_truthy (get "password" plain))) [
        | inl t ↦ rw (l, d, t) (simp body_laws, simp body_laws)
        | inr t ↦ rw (l, d, t) (simp body_laws, simp body_laws)
      ]
    ]
  ]

  -- A login whose password changes, from one that is not empty, keeps the old password, with its
  -- date, at the head of a history of at most 20 entries, and dates the new one.
  pub old_password_kept :
      text_is (get "type" plain) login ≡ true
      → differs (get "password" patch) (get "password" plain) ≡ true
      → is_truthy (get "password" plain) ≡ true
      → (get "passwordChanged" (apply_patch plain patch now) ≡ some (num now))
        × (as_old (get "history" (apply_patch plain patch now))
            ≡ take history_max (
                record {
                  password = as_text (get "password" plain);
                  changed = as_num (get "passwordChanged" plain);
                }
                ∷ as_old (get "history" plain)))
  unfolding apply_patch
  old_password_kept l d t = rw (l, d, t) (simp body_laws, simp body_laws)

  -- A patch that does not change the password of a login and gives no password date, such as a new
  -- title, leaves the login's age and its history alone.
  pub age_kept :
      text_is (get "type" plain) login ≡ true
      → differs (get "password" patch) (get "password" plain) ≡ false
      → get "passwordChanged" patch ≡ none
      → (get "passwordChanged" (apply_patch plain patch now) ≡ get "passwordChanged" plain)
        × (as_old (get "history" (apply_patch plain patch now)) ≡ as_old (get "history" plain))
  unfolding apply_patch
  age_kept l s h =
      rw (l, s)
        (
          simp body_laws (get-spread-none "passwordChanged" plain patch h),
          simp body_laws (as_old-or_else (get "history" plain)),
        )

  -- A patch without a history and a password date leaves those of a record that is not a login,
  -- such as an address, as they are, whatever else it holds.
  pub other_types_ageless :
      text_is (get "type" plain) login ≡ false
      → get "history" patch ≡ none
      → get "passwordChanged" patch ≡ none
      → (get "history" (apply_patch plain patch now) ≡ get "history" plain)
        × (get "passwordChanged" (apply_patch plain patch now) ≡ get "passwordChanged" plain)
  unfolding apply_patch
  other_types_ageless o h c = rw o (
    simp body_laws (get-spread-none "history" plain patch h),
    simp body_laws (get-spread-none "passwordChanged" plain patch c),
  )

-- A sequence of password changes, each with its time.
unfoldable pub rotate : Body → List (Text × ℕ) → Body
rotate body [] = body
rotate body ((p, t) ∷ ps) = rotate (apply_patch body (("password", str p) ∷ []) t) ps

-- Each new password is a text that differs from the one before and is not empty.
abbrev pub Rotates : Text → List (Text × ℕ) → Type 0
Rotates p [] = Unit
Rotates p ((q, t) ∷ ps) = (same q p ≡ false) × (q ≢ []) × Rotates q ps

-- The passwords that were replaced, newest first, before `h`.
abbrev pub replaced : Text → ℕ → List (Text × ℕ) → List Old → List Old
replaced p t [] h = h
replaced p t ((q, u) ∷ ps) h = replaced q u ps (record { password = p; changed = some t } ∷ h)

-- A login with this password, set at this time.
pub record HasPassword (body : Body) (p : Text) (t : ℕ) : Type 0 where
  pub is_login : text_is (get "type" body) login ≡ true
  pub current : get "password" body ≡ some (str p)
  pub since : get "passwordChanged" body ≡ some (num t)
  pub given : p ≢ []

take-cons_take :
    (n : ℕ) (x : Old) (h : List Old) → take (suc n) (x ∷ take (suc n) h) ≡ take (suc n) (x ∷ h)
take-cons_take n x h = ap (λ (l : List Old). x ∷ l) (take-take n h)

truthy_text : (p : Text) → p ≢ [] → is_truthy (some (str p)) ≡ true
truthy_text [] h = absurd (h refl)
truthy_text (c ∷ p) h = refl

module _ (body : Body) (p q : Text) (t u : ℕ) where
  abbrev changed_to : Body
  changed_to = apply_patch body (("password", str q) ∷ []) u

  new_differs :
      HasPassword body p t
      → same q p ≡ false
      → differs (get "password" (("password", str q) ∷ [])) (get "password" body) ≡ true
  unfolding get differs
  new_differs h d = rw (h.current) (rw d)

  old_truthy : HasPassword body p t → is_truthy (get "password" body) ≡ true
  old_truthy h = rw (h.current) (truthy_text p h.given)

  password_now : HasPassword body p t → same q p ≡ false → get "password" changed_to ≡ some (str q)
  unfolding apply_patch spread
  password_now h d = rw (h.is_login, new_differs h d, old_truthy h) (simp body_laws)

  changed : HasPassword body p t → same q p ≡ false → q ≢ [] → HasPassword changed_to q u
  changed h d g = record {
    is_login = rw ((apply_patch-type body (("password", str q) ∷ []) u).0) h.is_login;
    current = password_now h d;
    since =
        (old_password_kept body (("password", str q) ∷ []) u h.is_login (new_differs h d)
          (old_truthy h)).0;
    given = g;
  }

  changed-history :
      HasPassword body p t
      → same q p ≡ false
      → as_old (get "history" changed_to)
        ≡ take history_max (record { password = p; changed = some t } ∷ as_old (get "history" body))
  changed-history h d =
      (old_password_kept body (("password", str q) ∷ []) u h.is_login (new_differs h d)
        (old_truthy h)).1
      ∙ rw (h.current, h.since)

-- Whatever the number of password changes of a login, each to a text that differs from the one
-- before and is not empty, the history holds exactly the last 20 replaced passwords, newest first,
-- each with the date from which it held.
pub rotations_remembered :
    (ps : List (Text × ℕ)) (body : Body) (p : Text) (t : ℕ) (h : List Old)
    → HasPassword body p t
    → Rotates p ps
    → as_old (get "history" body) ≡ take history_max h
    → as_old (get "history" (rotate body ps)) ≡ take history_max (replaced p t ps h)
unfolding rotate
rotations_remembered [] body p t h c r e = e
rotations_remembered ((q, u) ∷ ps) body p t h c r e =
    rotations_remembered ps (changed_to body p q t u) q u
      (record { password = p; changed = some t } ∷ h) (changed body p q t u c r.0 r.1) r.2
      (changed-history body p q t u c r.0
        ∙ ap (λ (l : List Old). take history_max (record { password = p; changed = some t } ∷ l)) e
        ∙ take-cons_take 19 (record { password = p; changed = some t }) h)
