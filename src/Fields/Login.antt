-- ===== src/Fields/Login.antt =====
-- `classifyLoginFields` and `isUsernameOnlyStep` of src/core/fields.js.
use bencpass.Prelude.{
  Bool, true, false, not, ◌&&◌, ◌||◌, Option, none, some, List, [], ◌∷◌, map, ◌==◌, ltb,
  if◌then◌else◌,
}
use bencpass.Text.{same}
use bencpass.Text.Codes.{codes}
use bencpass.Fields.{
  Field, listed, haystack, username_hint, new_hint, otp_hint, no_credential, type_or, is_password,
  is_usable, keep, find, has_token,
}

pub record Login : Type 0 where
  pub username : Option Field
  pub password : Option Field
  pub new_password : Option Field
  pub confirm_password : Option Field
  pub otp : Option Field

pub record Passwords : Type 0 where
  pub current : Option Field
  pub next : Option Field

abbrev pub first_field : List Field → Option Field
first_field [] = none
first_field (f ∷ fs) = some f

abbrev pub last_field : List Field → Option Field
last_field [] = none
last_field (f ∷ []) = some f
last_field (f ∷ g ∷ fs) = last_field (g ∷ fs)

-- `a ?? b`
abbrev pub or_field : Option Field → Option Field → Option Field
or_field none o = o
or_field (some f) o = some f

abbrev pub says_new : Field → Bool
says_new f = new_hint (haystack f)

-- The choice of the password and the new password: those that say they are the current one, those
-- that say they are new, and all.
unfoldable pub choose_passwords : List Field → List Field → List Field → Passwords
choose_passwords (c ∷ cs) news ps = record { current = some c; next = first_field news }
choose_passwords [] (n ∷ ns) ps = record { current = none; next = some n }
choose_passwords [] [] [] = record { current = none; next = none }
choose_passwords [] [] (f ∷ []) =
    if says_new f
    then record { current = none; next = some f }
    else record { current = some f; next = none }
choose_passwords [] [] (f ∷ g ∷ ps) = record { current = none; next = some f }

abbrev pub is_new : Field → Bool
is_new = has_token (codes "new-password")

-- `ps.slice(ps.indexOf(f) + 1)`; where `f` is not listed, that is the whole list.
unfoldable pub after_field : Field → List Field → Option (List Field)
after_field f [] = none
after_field f (g ∷ gs) = let rest = after_field f gs in if g.index == f.index then some gs else rest

abbrev pub or_all : Option (List Field) → List Field → List Field
or_all none ps = ps
or_all (some qs) ps = qs

-- The field that repeats the new password
unfoldable pub choose_confirm : Option Field → List Field → Option Field
unfolding after_field find has_token
choose_confirm none ps = none
choose_confirm (some f) ps =
    let after = or_all (after_field f ps) ps in
    or_field (find is_new after) (or_field (find says_new after) (first_field after))

abbrev pub is_code : Field → Bool
is_code f = has_token (codes "one-time-code") f || (not (is_password f) && otp_hint (haystack f))

abbrev pub names_user : Field → Bool
names_user f = has_token (codes "username") f || has_token (codes "email") f

abbrev pub same_field : Option Field → Field → Bool
same_field none f = false
same_field (some g) f = g.index == f.index

-- A field that may be a username by its place or its name
abbrev pub is_candidate : Option Field → Field → Bool
is_candidate otp f =
    not (is_password f)
    && not (same_field otp f)
    && not (no_credential (haystack f))
    && listed (type_or (codes "text") f) (map codes ("text" ∷ "email" ∷ "tel" ∷ "" ∷ []))

abbrev pub is_before : Option Field → Field → Bool
is_before none f = false
is_before (some a) f = ltb f.index a.index

abbrev pub hints_user : Field → Bool
hints_user f = username_hint (haystack f)

-- The username, without a field that names itself one
unfoldable pub guess_username : Option Field → List Field → Option Field
unfolding keep find
guess_username anchor candidates =
    or_field (last_field (keep (is_before anchor) candidates)) (find hints_user candidates)

unfoldable pub choose_username : Option Field → Option Field → List Field → Option Field
unfolding guess_username find keep has_token
choose_username anchor otp visible =
    or_field (find names_user visible) (guess_username anchor (keep (is_candidate otp) visible))

-- The choice among the visible fields
unfoldable pub classify_visible : List Field → Login
unfolding choose_passwords choose_confirm choose_username keep find has_token
classify_visible visible =
    let passwords = keep is_password visible in
    let chosen =
      choose_passwords (keep (has_token (codes "current-password")) passwords)
        (keep is_new passwords) passwords in
    let otp = find is_code visible in
    record {
      username = choose_username (or_field chosen.current chosen.next) otp visible;
      password = chosen.current;
      new_password = chosen.next;
      confirm_password = choose_confirm chosen.next passwords;
      otp = otp;
    }

-- `classifyLoginFields`
unfoldable pub classify_login_fields : List Field → Login
unfolding classify_visible keep
classify_login_fields fields = classify_visible (keep is_usable fields)

unfoldable pub any_field : (Field → Bool) → List Field → Bool
any_field p [] = false
any_field p (f ∷ fs) = p f || any_field p fs

-- A field of a step that asks for the username alone
abbrev pub asks_user : Field → Bool
asks_user f =
    if names_user f
    then true
    else if no_credential (haystack f)
    then false
    else same (type_or [] f) (codes "email") || hints_user f

-- `isUsernameOnlyStep`
unfoldable pub is_username_only_step : List Field → Bool
unfolding any_field keep
is_username_only_step fields =
    let visible = keep is_usable fields in
    if any_field is_password visible then false else any_field asks_user visible
