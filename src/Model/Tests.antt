-- ===== src/Model/Tests.antt =====
-- Concrete records.
use bencpass.Prelude.{ℕ, ◌≡◌, refl, true, some, List, [], ◌∷◌}
use bencpass.Map.{get, set}
use bencpass.Text.{Text, same}
use bencpass.Text.Codes.{codes}
use bencpass.Plain.{str, num, flag, Body, spread, differs, as_old}
use bencpass.Model.{login, address, apply_patch, stamped, mark_used}
use bencpass.Model.Changes.{rotate, rotations_remembered}

abbrev entry : Body
entry = ("type", str login) ∷ ("password", str (codes "old")) ∷ ("passwordChanged", num 100) ∷ []

abbrev rename : Body
rename = ("title", str (codes "Site")) ∷ []

abbrev renew : Body
renew = ("password", str (codes "new")) ∷ []

abbrev home : Body
home = ("type", str address) ∷ ("name", str (codes "Ann")) ∷ []

renewed : get "password" (apply_patch entry renew 200) ≡ some (str (codes "new"))
unfolding apply_patch stamped get set spread differs same
renewed = refl

used_once : get "timesUsed" (mark_used entry 5) ≡ some (num 1)
unfolding mark_used get set
used_once = refl

abbrev two : List (Text × ℕ)
two = (codes "b", 200) ∷ (codes "c", 300) ∷ []

rotations_remembered_example :
    as_old (get "history" (rotate entry two))
    ≡ record { password = codes "b"; changed = some 200 }
      ∷ record { password = codes "old"; changed = some 100 }
      ∷ []
unfolding get same
rotations_remembered_example =
    rotations_remembered two entry (codes "old") 100 []
      (record { is_login = refl; current = refl; since = refl; given = λ e. cc })
      (refl, (λ e. cc), (refl, (λ e. cc), tt)) refl

-- Fields that claim to be a tombstone.
abbrev sly : Body
sly = ("deleted", flag true) ∷ []
