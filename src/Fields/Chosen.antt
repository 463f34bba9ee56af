-- ===== src/Fields/Chosen.antt =====
-- What the fields that are chosen are (src/core/fields.js).
use bencpass.Prelude.{
  Bool, true, false, Bool-cases, not, ◌&&◌, Option, none, some, List, [], ◌∷◌, ◌⊎◌, inl, inr, ◌≡◌,
  refl, All, Any, ◌==◌, arith,
}
use bencpass.Text.Codes.{codes}
use bencpass.Fields.{Field, is_password, is_usable, keep, find, has_token}
use bencpass.Fields.Login.{
  Login, first_field, last_field, or_field, says_new, choose_passwords, is_new, after_field, or_all,
  choose_confirm, is_code, names_user, is_candidate, is_before, hints_user, same_field,
  guess_username, choose_username, classify_visible, classify_login_fields,
}

-- A property of the field that is chosen, if one is
abbrev pub OnField : (Field → Type 0) → Option Field → Type 0
OnField P none = Unit {0}
OnField P (some f) = P f

module _ (P : Field → Type 0) where
  abbrev AllFields : List Field → Type 0
  AllFields fs = All P fs

  or_field-OnField : (o q : Option Field) → OnField P o → OnField P q → OnField P (or_field o q)
  or_field-OnField none q h k = k
  or_field-OnField (some f) q h k = h

  first_field-OnField : (fs : List Field) → AllFields fs → OnField P (first_field fs)
  first_field-OnField [] h = tt
  first_field-OnField (f ∷ fs) h = h.0

  last_field-OnField : (fs : List Field) → AllFields fs → OnField P (last_field fs)
  last_field-OnField [] h = tt
  last_field-OnField (f ∷ []) h = h.0
  last_field-OnField (f ∷ g ∷ fs) h = last_field-OnField (g ∷ fs) h.1

  abbrev OnRest : Option (List Field) → Type 0
  OnRest none = Unit {0}
  OnRest (some fs) = AllFields fs

  after_field-OnRest : (f : Field) (fs : List Field) → AllFields fs → OnRest (after_field f fs)
  unfolding after_field
  after_field-OnRest f [] h = tt
  after_field-OnRest f (g ∷ gs) h = elim (Bool-cases (g.index == f.index)) [
    | inl e ↦ rw e h.1
    | inr e ↦ rw e (after_field-OnRest f gs h.1)
  ]

  or_all-All :
      (o : Option (List Field)) (fs : List Field)
      → OnRest o
      → AllFields fs
      → AllFields (or_all o fs)
  or_all-All none fs h k = k
  or_all-All (some gs) fs h k = h

  module _ (p : Field → Bool) where
    keep-All :
        (fs : List Field) → AllFields fs → All (λ (f : Field). P f × (p f ≡ true)) (keep p fs)
    unfolding keep
    keep-All [] h = tt
    keep-All (f ∷ fs) h = elim (Bool-cases (p f)) [
      | inl e ↦ rw e ((h.0, e), keep-All fs h.1)
      | inr e ↦ rw e (keep-All fs h.1)
    ]

    find-OnField :
        (fs : List Field) → AllFields fs → OnField (λ (f : Field). P f × (p f ≡ true)) (find p fs)
    unfolding find
    find-OnField [] h = tt
    find-OnField (f ∷ fs) h = elim (Bool-cases (p f)) [
      | inl e ↦ rw e (h.0, e)
      | inr e ↦ rw e (find-OnField fs h.1)
    ]

module _ (P Q : Field → Type 0) (k : (f : Field) → P f → Q f) where
  OnField-weaken : (o : Option Field) → OnField P o → OnField Q o
  OnField-weaken none h = tt
  OnField-weaken (some f) h = k f h

  All-weaken : (fs : List Field) → All P fs → All Q fs
  All-weaken [] h = tt
  All-weaken (f ∷ fs) h = (k f h.0, All-weaken fs h.1)

-- A usable field of the page, a password field among them, and one that may be a username
abbrev pub IsUsable : List Field → Field → Type 0
IsUsable fields f = Any (λ (g : Field). g ≡ f) fields × (is_usable f ≡ true)

abbrev pub IsPasswordOf : List Field → Field → Type 0
IsPasswordOf fields f = IsUsable fields f × (is_password f ≡ true)

abbrev pub IsUsernameOf : List Field → Option Field → Field → Type 0
IsUsernameOf fields otp f =
    IsUsable fields f
    × ((names_user f ≡ true) ⊎ ((is_password f ≡ false) × (same_field otp f ≡ false)))

pub record IsChosen (fields : List Field) (l : Login) : Type 0 where
  pub password : OnField (IsPasswordOf fields) l.password
  pub new_password : OnField (IsPasswordOf fields) l.new_password
  pub confirm_password : OnField (IsPasswordOf fields) l.confirm_password
  pub otp : OnField (λ (f : Field). IsUsable fields f × (is_code f ≡ true)) l.otp
  pub username : OnField (IsUsernameOf fields l.otp) l.username

All-self :
    (fields rest : List Field)
    → ((f : Field) → Any (λ (g : Field). g ≡ f) rest → Any (λ (g : Field). g ≡ f) fields)
    → All (λ (f : Field). Any (λ (g : Field). g ≡ f) fields) rest
All-self fields [] k = tt
All-self fields (f ∷ rest) k = (k f (inl refl), All-self fields rest (λ g a. k g (inr a)))

visible-All : (fields : List Field) → All (IsUsable fields) (keep is_usable fields)
visible-All fields =
    keep-All (λ (f : Field). Any (λ (g : Field). g ≡ f) fields) is_usable fields
      (All-self fields fields (λ f a. a))

module _ (P : Field → Type 0) where
  choose_passwords-OnField :
      (cs ns ps : List Field)
      → All P cs
      → All P ns
      → All P ps
      → OnField P (choose_passwords cs ns ps).current × OnField P (choose_passwords cs ns ps).next
  unfolding choose_passwords
  choose_passwords-OnField (c ∷ cs) ns ps h k l = (h.0, first_field-OnField P ns k)
  choose_passwords-OnField [] (n ∷ ns) ps h k l = (tt, k.0)
  choose_passwords-OnField [] [] [] h k l = (tt, tt)
  choose_passwords-OnField [] [] (f ∷ []) h k l = elim (Bool-cases (says_new f)) [
    | inl e ↦ rw e (tt, l.0)
    | inr e ↦ rw e (l.0, tt)
  ]
  choose_passwords-OnField [] [] (f ∷ g ∷ ps) h k l = (tt, l.0)

  found-OnField : (p : Field → Bool) (fs : List Field) → All P fs → OnField P (find p fs)
  found-OnField p fs h =
      OnField-weaken (λ (f : Field). P f × (p f ≡ true)) P (λ f x. x.0) (find p fs)
        (find-OnField P p fs h)

  kept-All : (p : Field → Bool) (fs : List Field) → All P fs → All P (keep p fs)
  kept-All p fs h =
      All-weaken (λ (f : Field). P f × (p f ≡ true)) P (λ f x. x.0) (keep p fs) (keep-All P p fs h)

  choose_confirm-OnField :
      (o : Option Field) (ps : List Field) → All P ps → OnField P (choose_confirm o ps)
  unfolding choose_confirm
  choose_confirm-OnField none ps h = tt
  choose_confirm-OnField (some f) ps h =
      let after = or_all (after_field f ps) ps in
      let k = or_all-All P (after_field f ps) ps (after_field-OnRest P f ps h) h in
      or_field-OnField P (find is_new after) (or_field (find says_new after) (first_field after))
        (found-OnField is_new after k)
        (or_field-OnField P (find says_new after) (first_field after)
          (found-OnField says_new after k) (first_field-OnField P after k))

  guess_username-OnField :
      (anchor : Option Field) (cs : List Field) → All P cs → OnField P (guess_username anchor cs)
  unfolding guess_username
  guess_username-OnField anchor cs h =
      or_field-OnField P (last_field (keep (is_before anchor) cs)) (find hints_user cs)
        (last_field-OnField P (keep (is_before anchor) cs) (kept-All (is_before anchor) cs h))
        (found-OnField hints_user cs h)

both_not : (a b c d : Bool) → (not a && not b && c && d) ≡ true → (a ≡ false) × (b ≡ false)
both_not a b c d h = ground (arith, h)

candidate_lem :
    (otp : Option Field) (f : Field)
    → is_candidate otp f ≡ true
    → (is_password f ≡ false) × (same_field otp f ≡ false)
candidate_lem otp f h = both_not (is_password f) (same_field otp f) _ _ h

choose_username-OnField :
    (fields : List Field) (anchor otp : Option Field) (visible : List Field)
    → All (IsUsable fields) visible
    → OnField (IsUsernameOf fields otp) (choose_username anchor otp visible)
unfolding choose_username
choose_username-OnField fields anchor otp visible h =
    or_field-OnField (IsUsernameOf fields otp) (find names_user visible)
      (guess_username anchor (keep (is_candidate otp) visible))
      (OnField-weaken (λ (f : Field). IsUsable fields f × (names_user f ≡ true))
        (IsUsernameOf fields otp) (λ f k. (k.0, inl k.1)) (find names_user visible)
        (find-OnField (IsUsable fields) names_user visible h))
      (guess_username-OnField (IsUsernameOf fields otp) anchor (keep (is_candidate otp) visible) (
        All-weaken (λ (f : Field). IsUsable fields f × (is_candidate otp f ≡ true))
          (IsUsernameOf fields otp) (λ f k. (k.0, inr (candidate_lem otp f k.1)))
          (keep (is_candidate otp) visible)
          (keep-All (IsUsable fields) (is_candidate otp) visible h)))

classify_visible-IsChosen :
    (fields visible : List Field)
    → All (IsUsable fields) visible
    → IsChosen fields (classify_visible visible)
unfolding classify_visible
classify_visible-IsChosen fields visible h =
    let passwords = keep is_password visible in
    let are = keep-All (IsUsable fields) is_password visible h in
    let chosen =
      choose_passwords-OnField (IsPasswordOf fields)
        (keep (has_token (codes "current-password")) passwords) (keep is_new passwords) passwords
        (kept-All (IsPasswordOf fields) (has_token (codes "current-password")) passwords are)
        (kept-All (IsPasswordOf fields) is_new passwords are) are in
    record {
      password = chosen.0;
      new_password = chosen.1;
      confirm_password =
          choose_confirm-OnField (IsPasswordOf fields)
            (choose_passwords (keep (has_token (codes "current-password")) passwords)
              (keep is_new passwords) passwords).next
            passwords are;
      otp = find-OnField (IsUsable fields) is_code visible h;
      username = choose_username-OnField fields _ (find is_code visible) visible h;
    }

-- The fields of a form that are chosen are visible fillable fields of that form. The password, the
-- new password and its repetition are password fields; the field of a code says so; the username
-- is named so by its autocomplete value, or is no password field and not the field of the code.
pub classify-IsChosen : (fields : List Field) → IsChosen fields (classify_login_fields fields)
unfolding classify_login_fields
classify-IsChosen fields =
    classify_visible-IsChosen fields (keep is_usable fields) (visible-All fields)
