-- ===== src/Generate/Chosen.antt =====
-- A generated password against the options it was asked with (src/core/generate.js).
use bencpass.Prelude.{
  ℕ, Bool, true, false, not, Bool-cases, ◌&&◌, ◌||◌, List, [], ◌∷◌, ◌++◌, ◌≡◌, refl, ◌⊎◌, inl, inr,
  All, Any, length, ltb, leb, ◌==◌, arith,
}
use bencpass.Text.{Text, has_char}
use bencpass.Text.Codes.{codes}
use bencpass.Generate.Password.{
  Options, Generated, no_set, too_short, empty_set, gave_up, out_of_draws, password, ambiguous,
  without_ambiguous, filtered, set_if, active_sets, filter_sets, some_empty, joined, shares,
  has_every, or_else_error, attempt, attempts, no_sets, generate,
}
use bencpass.Generate.Classes.{IsOfSets, attempt-IsOfSets}

-- The classes of characters, as what they are called.
abbrev pub is_lower : ℕ → Bool
is_lower c = leb b'a' c && leb c b'z'

abbrev pub is_upper : ℕ → Bool
is_upper c = leb b'A' c && leb c b'Z'

abbrev pub is_decimal : ℕ → Bool
is_decimal c = leb b'0' c && leb c b'9'

-- Printable, and none of the others
abbrev pub is_symbol : ℕ → Bool
is_symbol c = leb b'!' c && leb c b'~' && not (is_lower c) && not (is_upper c) && not (is_decimal c)

-- Characters that look like others
abbrev pub looks_alike : ℕ → Bool
looks_alike c =
    (c == b'I')
    || (c == b'l')
    || (c == b'1')
    || (c == b'O')
    || (c == b'0')
    || (c == b'o')
    || (c == b'S')
    || (c == b'5')
    || (c == b'B')
    || (c == b'8')
    || (c == b'|')

-- A character of a chosen class that may be used
abbrev pub may_occur : Options → ℕ → Bool
may_occur o c =
    ((o.lower && is_lower c)
      || (o.upper && is_upper c)
      || (o.digits && is_decimal c)
      || (o.symbols && is_symbol c))
    && not (o.avoid_ambiguous && looks_alike c)

abbrev pub Occurs : Bool → (ℕ → Bool) → Text → Type 0
Occurs chosen is_of t = chosen ≡ true → Any (λ (c : ℕ). is_of c ≡ true) t

-- What a password has, by its options
abbrev pub IsAsChosen : Options → Generated → Type 0
IsAsChosen o (password t xs) =
    (length t ≡ o.length)
    × All (λ (c : ℕ). may_occur o c ≡ true) t
    × Occurs o.lower is_lower t
    × Occurs o.upper is_upper t
    × Occurs o.digits is_decimal t
    × Occurs o.symbols is_symbol t
IsAsChosen o _ = Unit {0}

abbrev all_are : (ℕ → Bool) → Text → Bool
all_are p [] = true
all_are p (c ∷ s) = p c && all_are p s

has_char-all_are :
    (p : ℕ → Bool) (c : ℕ) (s : Text) → all_are p s ≡ true → has_char c s ≡ true → p c ≡ true
unfolding has_char
has_char-all_are p c [] h k = cc
has_char-all_are p c (x ∷ s) h k = elim (Bool-cases (x == c)) [
  | inl e ↦ let same : x ≡ c = ground (arith, e) in rw (← same) (ground (arith, h))
  | inr e ↦ has_char-all_are p c s (ground (arith, h)) (rw e at k)
]

has_char-append :
    (c : ℕ) (s t : Text)
    → has_char c (s ++ t) ≡ true
    → (has_char c s ≡ true) ⊎ (has_char c t ≡ true)
unfolding has_char
has_char-append c [] t h = inr h
has_char-append c (x ∷ s) t h = elim (Bool-cases (x == c)) [
  | inl e ↦ inl (rw e refl)
  | inr e ↦ rw e (has_char-append c s t (rw e at h))
]

has_char-joined :
    (c : ℕ) (ss : List Text)
    → has_char c (joined ss) ≡ true
    → Any (λ (s : Text). has_char c s ≡ true) ss
unfolding joined has_char
has_char-joined c [] h = ground (arith, h)
has_char-joined c (s ∷ ss) h = elim (has_char-append c s (joined ss) h) [
  | inl k ↦ inl k
  | inr k ↦ inr (has_char-joined c ss k)
]

has_char-without_ambiguous :
    (c : ℕ) (s : Text)
    → has_char c (without_ambiguous s) ≡ true
    → (has_char c s ≡ true) × (has_char c ambiguous ≡ false)
unfolding without_ambiguous has_char
has_char-without_ambiguous c [] h = cc
has_char-without_ambiguous c (x ∷ s) h = elim (Bool-cases (has_char x ambiguous)) [
  | inl e ↦ let k = has_char-without_ambiguous c s (rw e at h) in (ground (arith, k.0), k.1)
  | inr e ↦ elim (Bool-cases (x == c)) [
    | inl q ↦ let same : x ≡ c = ground (arith, q) in (rw q refl, rw (← same) e)
    | inr q ↦
        let k = has_char-without_ambiguous c s (rw (e, q) at h) in (ground (arith, k.0, q), k.1)
  ]
]

has_char-filtered :
    (avoid : Bool) (c : ℕ) (s : Text)
    → has_char c (filtered avoid s) ≡ true
    → (has_char c s ≡ true) × ((avoid && has_char c ambiguous) ≡ false)
has_char-filtered false c s h = (h, refl)
has_char-filtered true c s h = has_char-without_ambiguous c s h

filtered_sets :
    (avoid : Bool) (c : ℕ) (ss : List Text)
    → Any (λ (s : Text). has_char c s ≡ true) (filter_sets avoid ss)
    → Any (λ (s : Text). has_char c s ≡ true) ss × ((avoid && has_char c ambiguous) ≡ false)
unfolding filter_sets
filtered_sets avoid c [] h = absurd h
filtered_sets avoid c (s ∷ ss) (inl h) = let k = has_char-filtered avoid c s h in (inl k.0, k.1)
filtered_sets avoid c (s ∷ ss) (inr h) = let k = filtered_sets avoid c ss h in (inr k.0, k.1)

-- A character of the chosen sets is of this class, which is chosen, or of the others.
of_class :
    (b : Bool) (p : ℕ → Bool) (c : ℕ) (s : Text) (rest : List Text) (d : Bool)
    → all_are p s ≡ true
    → (Any (λ (u : Text). has_char c u ≡ true) rest → d ≡ true)
    → Any (λ (u : Text). has_char c u ≡ true) (set_if b s rest)
    → ((b && p c) || d) ≡ true
of_class false p c s rest d h k l = k l
of_class true p c s rest d h k (inl l) = rw (has_char-all_are p c s h l) refl
of_class true p c s rest d h k (inr l) = ground (arith, k l)

no_class : (c : ℕ) → Any (λ (u : Text). has_char c u ≡ true) [] → false ≡ true
no_class c h = absurd h

not_alike : (c : ℕ) → has_char c ambiguous ≡ false → looks_alike c ≡ false
unfolding has_char
not_alike c h = ground (arith, h)

allowed :
    (p q r s avoid : Bool) (c : ℕ)
    → (p || (q || (r || (s || false)))) ≡ true
    → (avoid && has_char c ambiguous) ≡ false
    → ((p || q || r || s) && not (avoid && looks_alike c)) ≡ true
allowed p q r s false c h k = ground (arith, h)
allowed p q r s true c h k = rw (not_alike c k) (ground (arith, h))

joined-may_occur :
    (o : Options) (c : ℕ)
    → has_char c (joined (filter_sets o.avoid_ambiguous (active_sets o))) ≡ true
    → may_occur o c ≡ true
unfolding active_sets
joined-may_occur o c h =
    let k =
      filtered_sets o.avoid_ambiguous c (active_sets o)
        (has_char-joined c (filter_sets o.avoid_ambiguous (active_sets o)) h) in
    let one : ((o.lower && is_lower c)
          || ((o.upper && is_upper c)
              || ((o.digits && is_decimal c) || ((o.symbols && is_symbol c) || false))))
        ≡ true =
      of_class o.lower is_lower c (codes "abcdefghijklmnopqrstuvwxyz") _ _ refl
        (of_class o.upper is_upper c (codes "ABCDEFGHIJKLMNOPQRSTUVWXYZ") _ _ refl (
          of_class o.digits is_decimal c (codes "0123456789") _ _ refl (
            of_class o.symbols is_symbol c (codes "!#$%&()*+,-./:;<=>?@[]^_{|}~") [] false refl
              (no_class c))))
        k.0 in
    allowed (o.lower && is_lower c) (o.upper && is_upper c) (o.digits && is_decimal c)
      (o.symbols && is_symbol c) o.avoid_ambiguous c one k.1

shares-Any :
    (p : ℕ → Bool) (s t : Text)
    → ((c : ℕ) → has_char c s ≡ true → p c ≡ true)
    → shares s t ≡ true
    → Any (λ (c : ℕ). p c ≡ true) t
unfolding shares
shares-Any p s [] h k = ground (arith, k)
shares-Any p s (c ∷ t) h k = elim (Bool-cases (has_char c s)) [
  | inl e ↦ inl (h c e)
  | inr e ↦ inr (shares-Any p s t h (rw e at k))
]

every_class :
    (avoid b : Bool) (p : ℕ → Bool) (s t : Text) (rest : List Text)
    → all_are p s ≡ true
    → has_every (filter_sets avoid (set_if b s rest)) t ≡ true
    → Occurs b p t × (has_every (filter_sets avoid rest) t ≡ true)
unfolding filter_sets has_every
every_class avoid false p s t rest h k = ((λ e. cc), k)
every_class avoid true p s t rest h k = (
  (λ e.
      shares-Any p (filtered avoid s) t
        (λ c l. has_char-all_are p c s h (has_char-filtered avoid c s l).0) (ground (arith, k))),
  ground (arith, k),
)

All-may_occur :
    (o : Options) (t : Text)
    → All (λ (c : ℕ). has_char c (joined (filter_sets o.avoid_ambiguous (active_sets o))) ≡ true) t
    → All (λ (c : ℕ). may_occur o c ≡ true) t
All-may_occur o [] h = tt
All-may_occur o (c ∷ t) h = (joined-may_occur o c h.0, All-may_occur o t h.1)

made-IsAsChosen :
    (o : Options) (g : Generated)
    → IsOfSets (filter_sets o.avoid_ambiguous (active_sets o)) o.length g
    → IsAsChosen o g
unfolding active_sets
made-IsAsChosen o (password t xs) h =
    let avoid = o.avoid_ambiguous in
    let k = every_class avoid o.lower is_lower (codes "abcdefghijklmnopqrstuvwxyz") t _ refl h.2 in
    let l = every_class avoid o.upper is_upper (codes "ABCDEFGHIJKLMNOPQRSTUVWXYZ") t _ refl k.1 in
    let m = every_class avoid o.digits is_decimal (codes "0123456789") t _ refl l.1 in
    let n =
      every_class avoid o.symbols is_symbol (codes "!#$%&()*+,-./:;<=>?@[]^_{|}~") t [] refl m.1 in
    (h.0, All-may_occur o t h.1, k.0, l.0, m.0, n.0)
made-IsAsChosen o no_set h = tt
made-IsAsChosen o too_short h = tt
made-IsAsChosen o empty_set h = tt
made-IsAsChosen o gave_up h = tt
made-IsAsChosen o out_of_draws h = tt

or_else_error-IsAsChosen :
    (o : Options) (b : Bool) (e g : Generated)
    → IsAsChosen o e
    → IsAsChosen o g
    → IsAsChosen o (or_else_error b e g)
or_else_error-IsAsChosen o true e g h k = h
or_else_error-IsAsChosen o false e g h k = k

-- A generated password has the length that was asked for; each character is a lower case letter,
-- an upper case letter, a digit or a symbol whose class was chosen, and none of those that look
-- alike where these are to be avoided; and each chosen class occurs in it.
pub generate-IsAsChosen : (o : Options) (xs : List ℕ) → IsAsChosen o (generate o xs)
unfolding generate
generate-IsAsChosen o xs =
    let sets = filter_sets o.avoid_ambiguous (active_sets o) in
    let tries = attempt sets o.length attempts xs in
    let full = or_else_error (some_empty sets) empty_set tries in
    let short = ltb o.length (length (active_sets o)) in
    or_else_error-IsAsChosen o (no_sets (active_sets o)) no_set (or_else_error short too_short full)
      tt
      (or_else_error-IsAsChosen o short too_short full tt (
        or_else_error-IsAsChosen o (some_empty sets) empty_set tries tt
          (made-IsAsChosen o tries (attempt-IsOfSets sets o.length attempts xs))))
