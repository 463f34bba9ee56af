-- ===== src/Vault/Dated.antt =====
-- How an import moves the dates of a record that is there (src/core/vault.js).
use mathlib.Core.Path.{subst}
use bencpass.Prelude.{
  ℕ, String, Bool, false, Bool-cases, ◌&&◌, ◌||◌, Option, none, some, ◌≤◌, ◌<◌, ◌≡◌, refl, sym, ◌∙◌,
  inl, inr, ltb, arith, str_eq, ap,
}
use bencpass.Map.{get, set}
use bencpass.Map.Laws.{get-set, get-set_self}
use bencpass.Plain.{Value, Body, num}
use bencpass.Vault.Importing.{when, earlier_of, later_of, set_when, is_nothing, adopt_dates}

-- A date is not lost, and does not move to a later one.
abbrev pub NotLater : Option ℕ → Option ℕ → Type 0
NotLater none b = Unit {0}
NotLater (some m) none = ⊥
NotLater (some m) (some n) = n ≤ m

-- A date is not lost, and does not move to an earlier one.
abbrev pub NotEarlier : Option ℕ → Option ℕ → Type 0
NotEarlier none b = Unit {0}
NotEarlier (some m) none = ⊥
NotEarlier (some m) (some n) = m ≤ n

abbrev pub is_date : String → Bool
is_date k = str_eq "created" k || str_eq "passwordChanged" k || str_eq "lastUsed" k

-- The record with the dates that were taken over, where any were
abbrev pub DatesOutcome : String → Body → Option Body → Type 0
DatesOutcome k current none = Unit {0}
DatesOutcome k current (some next) =
    NotLater (when (get "created" current)) (when (get "created" next))
    × NotLater (when (get "passwordChanged" current)) (when (get "passwordChanged" next))
    × NotEarlier (when (get "lastUsed" current)) (when (get "lastUsed" next))
    × (get k next ≡ get k current)

abbrev IsPositive : Option ℕ → Type 0
IsPositive none = Unit {0}
IsPositive (some n) = 0 < n

when-IsPositive : (v : Option Value) → IsPositive (when v)
when-IsPositive (some (num n)) = elim (Bool-cases (ltb 0 n)) [
  | inl e ↦ rw e (ground (arith, e))
  | inr e ↦ rw e tt
]
when-IsPositive _ = tt

NotLater-refl : (a : Option ℕ) → NotLater a a
NotLater-refl none = tt
NotLater-refl (some n) = omega arith

NotEarlier-refl : (a : Option ℕ) → NotEarlier a a
NotEarlier-refl none = tt
NotEarlier-refl (some n) = omega arith

get-set_when_other :
    (j k : String) (o : Option ℕ) (b : Body) → str_eq k j ≡ false → get j (set_when k o b) ≡ get j b
get-set_when_other j k none b h = refl
get-set_when_other j k (some n) b h = rw (get-set k j (num n) b, h) refl

when-set : (k : String) (n : ℕ) (b : Body) → 0 < n → when (get k (set k (num n) b)) ≡ some n
when-set k n b h = rw (get-set_self k (num n) b) (ground (arith, h))

module _ (k : String) (b : Body) where
  earlier_set :
      (a o : Option ℕ)
      → when (get k b) ≡ a
      → IsPositive o
      → NotLater a (when (get k (set_when k (earlier_of a o) b)))
  earlier_set a none q h = rw q (NotLater-refl a)
  earlier_set none (some n) q h = tt
  earlier_set (some m) (some n) q h = elim (Bool-cases (ltb n m)) [
    | inl e ↦ rw e (rw (when-set k n b h) (ground (arith, e)))
    | inr e ↦ rw e (rw q (omega arith))
  ]

  later_set :
      (a o : Option ℕ)
      → when (get k b) ≡ a
      → IsPositive o
      → NotEarlier a (when (get k (set_when k (later_of a o) b)))
  later_set a none q h = rw q (NotEarlier-refl a)
  later_set none (some n) q h = tt
  later_set (some m) (some n) q h = elim (Bool-cases (ltb m n)) [
    | inl e ↦ rw e (rw (when-set k n b h) (ground (arith, e)))
    | inr e ↦ rw e (rw q (omega arith))
  ]

module _ (k : String) (current incoming : Body) (h : is_date k ≡ false) where
  abbrev created : Option ℕ
  created = earlier_of (when (get "created" current)) (when (get "created" incoming))

  abbrev changed : Option ℕ
  changed =
      earlier_of (when (get "passwordChanged" current)) (when (get "passwordChanged" incoming))

  abbrev used : Option ℕ
  used = later_of (when (get "lastUsed" current)) (when (get "lastUsed" incoming))

  abbrev with_created : Body
  with_created = set_when "created" created current

  abbrev with_changed : Body
  with_changed = set_when "passwordChanged" changed with_created

  dates_moved : DatesOutcome k current (some (set_when "lastUsed" used with_changed))
  dates_moved = (
    subst (λ (v : Option Value). NotLater (when (get "created" current)) (when v))
        (sym (
          get-set_when_other "created" "lastUsed" used with_changed refl
          ∙ get-set_when_other "created" "passwordChanged" changed with_created refl))
        (earlier_set "created" current (when (get "created" current))
          (when (get "created" incoming)) refl (when-IsPositive (get "created" incoming))),
    subst (λ (v : Option Value). NotLater (when (get "passwordChanged" current)) (when v))
        (sym (get-set_when_other "passwordChanged" "lastUsed" used with_changed refl))
        (earlier_set "passwordChanged" with_created (when (get "passwordChanged" current))
          (when (get "passwordChanged" incoming))
          (ap when (get-set_when_other "passwordChanged" "created" created current refl))
          (when-IsPositive (get "passwordChanged" incoming))),
    later_set "lastUsed" with_changed (when (get "lastUsed" current))
        (when (get "lastUsed" incoming))
        (ap when (
          get-set_when_other "lastUsed" "passwordChanged" changed with_created refl
          ∙ get-set_when_other "lastUsed" "created" created current refl))
        (when-IsPositive (get "lastUsed" incoming)),
    get-set_when_other k "lastUsed" used with_changed (ground (arith, h))
        ∙ get-set_when_other k "passwordChanged" changed with_created (ground (arith, h))
        ∙ get-set_when_other k "created" created current (ground (arith, h)),
  )

-- Where an import takes over dates of the incoming record, the stored creation date and the date
-- of the password are not lost and not moved to a later time, the date of last use is not lost and
-- not moved to an earlier time, and every other field is as it was.
pub adopt_dates-DatesOutcome :
    (k : String) (current incoming : Body)
    → is_date k ≡ false
    → DatesOutcome k current (adopt_dates current incoming)
unfolding adopt_dates
adopt_dates-DatesOutcome k current incoming h =
    elim (Bool-cases (
      is_nothing (created k current incoming h)
      && is_nothing (changed k current incoming h)
      && is_nothing (used k current incoming h))) [
        | inl e ↦ rw e tt
        | inr e ↦ rw e (dates_moved k current incoming h)
      ]
