-- ===== src/Model/Clock.antt =====
-- The dates that `clampTime` and `normalise` let through (src/core/model.js).
use bencpass.Prelude.{
  ℕ, ◌+◌, ◌≤◌, ◌<◌, ◌≡◌, ◌≢◌, refl, ◌⊎◌, inl, inr, true, Option, none, some, arith, Bool-cases,
  ◌==◌,
}
use bencpass.Map.{get, set}
use bencpass.Text.{Text, same}
use bencpass.Plain.{Value, str, num, null, Body, or_else, as_text}
use bencpass.Plain.Laws.{body_laws}
use bencpass.Model.{
  login, skew_tolerance, clamp_time, note_claim, known_type, is_type, normalise, normal_login,
  normal_base, used_time,
}

-- A clamped date is at most the tolerance ahead of the clock. It is the date that came, or the
-- clock's; a claim is a date that came and was too far ahead.
pub clamp_time-range :
    (v : Value) (now tolerance : ℕ)
    → ((clamp_time v now tolerance).t ≤ now + tolerance)
      × ((v ≡ num (clamp_time v now tolerance).t) ⊎ ((clamp_time v now tolerance).t ≡ now))
      × ((c : ℕ)
          → (clamp_time v now tolerance).claimed ≡ some c
          → (v ≡ num c) × (now + tolerance < c))
unfolding clamp_time
clamp_time-range (num t) now tolerance = (ground arith, ground arith, λ c h. ground arith)
clamp_time-range v now tolerance = (omega arith, inr refl, λ c h. cc)

-- A date within the tolerance is kept as it is.
pub clamp_time-kept :
    (t now tolerance : ℕ)
    → t ≢ 0
    → t ≤ now + tolerance
    → clamp_time (num t) now tolerance ≡ record { t = t; claimed = none }
unfolding clamp_time
clamp_time-kept t now tolerance p h = ground arith

-- A numeric field that is not ahead of the clock by more than the tolerance.
abbrev pub IsPast : Option Value → ℕ → Type 0
IsPast v now = (t : ℕ) × (v ≡ some (num t)) × (t ≤ now + skew_tolerance)

pub record IsNormal (now : ℕ) (rec : Body) : Type 0 where
  pub live : get "deleted" rec ≡ none
  pub known : is_type (as_text (get "type" rec)) ≡ true
  pub created : IsPast (get "created" rec) now
  pub updated : IsPast (get "updated" rec) now
  pub last_used : IsPast (get "lastUsed" rec) now

is_type-known_type : (v : Option Value) → is_type (known_type v) ≡ true
unfolding known_type
is_type-known_type (some (str s)) = elim (Bool-cases (is_type s)) [
  | inl e ↦ rw e e
  | inr e ↦ rw e (unfold is_type same in refl)
]
is_type-known_type _ = unfold is_type same in refl

IsNormal-claim :
    (now t : ℕ) (rec : Body) → IsNormal now rec → IsNormal now (set "claimedTime" (num t) rec)
IsNormal-claim now t rec h = record {
  live = simp body_laws h.live;
  known = simp body_laws h.known;
  created = simp body_laws h.created;
  updated = simp body_laws h.updated;
  last_used = simp body_laws h.last_used;
}

IsNormal-note_claim :
    (now : ℕ) (c : Option ℕ) (rec : Body) → IsNormal now rec → IsNormal now (note_claim c rec)
unfolding note_claim
IsNormal-note_claim now none rec h = h
IsNormal-note_claim now (some t) rec h = elim (Bool-cases (t == 0)) [
  | inl e ↦ rw e h
  | inr e ↦ rw e (IsNormal-claim now t rec h)
]

IsNormal-normal_login :
    (now changed : ℕ) (input rec : Body)
    → IsNormal now rec
    → IsNormal now (normal_login input changed rec)
unfolding normal_login
IsNormal-normal_login now changed input rec h = record {
  live = simp body_laws h.live;
  known = simp body_laws h.known;
  created = simp body_laws h.created;
  updated = simp body_laws h.updated;
  last_used = simp body_laws h.last_used;
}

module _ (input : Body) (now : ℕ) where
  IsNormal-normal_base :
      (type : Text) (created updated used : ℕ)
      → is_type type ≡ true
      → created ≤ now + skew_tolerance
      → updated ≤ now + skew_tolerance
      → used ≤ now + skew_tolerance
      → IsNormal now (normal_base type created updated used input)
  unfolding normal_base
  IsNormal-normal_base type created updated used k c u l = record {
    live = simp body_laws;
    known = simp body_laws k;
    created = simp body_laws (created, refl, c);
    updated = simp body_laws (updated, refl, u);
    last_used = simp body_laws (used, refl, l);
  }

  clamped_past : (v : Value) → (clamp_time v now skew_tolerance).t ≤ now + skew_tolerance
  clamped_past v = (clamp_time-range v now skew_tolerance).0

  used_past : used_time input now ≤ now + skew_tolerance
  unfolding used_time
  used_past = ground (arith, clamped_past (or_else (get "lastUsed" input) null))

  -- A normalised record is never a tombstone, has a known type, and its dates of creation, change
  -- and use are numbers at most the tolerance ahead of the clock.
  pub normalise-IsNormal : IsNormal now (normalise input now)
  unfolding normalise
  normalise-IsNormal =
      let base =
        IsNormal-normal_base (known_type (get "type" input)) _ _ _
          (is_type-known_type (get "type" input))
          (clamped_past (or_else (get "created" input) (num now)))
          (clamped_past (
            or_else (get "updated" input)
              (num (clamp_time (or_else (get "created" input) (num now)) now skew_tolerance).t)))
          used_past in
      elim (Bool-cases (same (known_type (get "type" input)) login)) [
        | inl l ↦ rw l (IsNormal-note_claim now _ _ (IsNormal-normal_login now _ input _ base))
        | inr o ↦ rw o (IsNormal-note_claim now _ _ base)
      ]
