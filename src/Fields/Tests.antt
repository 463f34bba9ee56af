-- ===== src/Fields/Tests.antt =====
-- Concrete forms.
use bencpass.Prelude.{ℕ, String, ◌≡◌, refl, false, none, some, List, [], ◌∷◌}
use bencpass.Text.Codes.{codes}
use bencpass.Fields.{Field, is_fillable, is_password, otp_hint, new_hint, haystack, no_credential}
use bencpass.Fields.Login.{classify_login_fields}
use bencpass.Fields.Chosen.{IsChosen, classify-IsChosen}

abbrev field : ℕ → String → String → String → Field
field index type name autocomplete = record {
  index = index;
  tag = codes "input";
  type = some (codes type);
  autocomplete = codes autocomplete;
  hints = codes name ∷ [];
  hidden = false;
  disabled = false;
  read_only = false;
}

-- A search box, a username, a password and its repetition.
abbrev form : List Field
form =
    field 0 "text" "Search" ""
    ∷ field 1 "text" "Login" ""
    ∷ field 2 "password" "pw" ""
    ∷ field 3 "password" "pw2" ""
    ∷ []

classify-IsChosen_example : IsChosen form (classify_login_fields form)
classify-IsChosen_example = classify-IsChosen form

-- Two passwords that say nothing are a new one and its repetition.
registration : classify_login_fields form ≡ record {
  username = some (field 1 "text" "Login" "");
  password = none;
  new_password = some (field 2 "password" "pw" "");
  confirm_password = some (field 3 "password" "pw2" "");
  otp = none;
}
unfolding classify_login_fields is_fillable is_password otp_hint new_hint haystack no_credential
registration = refl
