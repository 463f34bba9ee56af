-- ===== src/Vault/Forking.antt =====
-- Parked envelopes become records that a person can see (src/core/vault.js).
use bencpass.Prelude.{
  ℕ, String, Bool, true, false, ◌&&◌, ◌||◌, ◌-◌, Option, none, some, List, [], ◌∷◌, ◌++◌, ◌⊎◌, inl,
  inr, ◌==◌, str_eq, length, if◌then◌else◌,
}
use bencpass.Map.{get, set}
use bencpass.Envelope.{Envelope}
use bencpass.Text.{Text, same}
use bencpass.Text.Codes.{codes}
use bencpass.Plain.{
  Value, str, num, neg, not_finite, flag, null, urls, history, custom, Body, Old, is_truthy,
  or_else, as_text, as_num, flag_eq,
}
use bencpass.Crypto.{Platform, is_dead, open_envelope}
use bencpass.Vault.{Vault, Fault, vault_locked, mark, drop}
use bencpass.Vault.Records.{write}

abbrev pub marks_max : ℕ
marks_max = 512

-- Two values that print alike. A number that is not finite prints as null.
abbrev texts_eq : List Text → List Text → Bool
texts_eq [] [] = true
texts_eq (s ∷ ss) (t ∷ ts) = same s t && texts_eq ss ts
texts_eq _ _ = false

abbrev dates_eq : Option ℕ → Option ℕ → Bool
dates_eq none none = true
dates_eq (some m) (some n) = m == n
dates_eq _ _ = false

abbrev olds_eq : List Old → List Old → Bool
olds_eq [] [] = true
olds_eq (a ∷ as') (b ∷ bs) =
    same a.password b.password && dates_eq a.changed b.changed && olds_eq as' bs
olds_eq _ _ = false

abbrev fields_eq : List (Text × Text) → List (Text × Text) → Bool
fields_eq [] [] = true
fields_eq ((a, b) ∷ fs) ((c, d) ∷ gs) = same a c && same b d && fields_eq fs gs
fields_eq _ _ = false

unfoldable pub prints_alike : Value → Value → Bool
unfolding same
prints_alike (str s) (str t) = same s t
prints_alike (num m) (num n) = m == n
prints_alike (neg m) (neg n) = m == n
prints_alike not_finite not_finite = true
prints_alike not_finite null = true
prints_alike null not_finite = true
prints_alike null null = true
prints_alike (flag b) (flag c) = flag_eq b c
prints_alike (urls us) (urls vs) = texts_eq us vs
prints_alike (history as') (history bs) = olds_eq as' bs
prints_alike (custom fs) (custom gs) = fields_eq fs gs
prints_alike _ _ = false

abbrev alike_at : Value → Option Value → Bool
alike_at v none = false
alike_at v (some w) = prints_alike v w

-- What a touch moves, and the comparison leaves out.
abbrev is_clock : String → Bool
is_clock k = str_eq k "updated" || str_eq k "lastUsed" || str_eq k "timesUsed"

unfoldable pub covers : Body → Body → Bool
unfolding prints_alike get
covers b [] = true
covers b ((k, v) ∷ a) = (is_clock k || alike_at v (get k b)) && covers b a

-- `sameContent`: the bodies print alike, with their keys sorted, but for the clocks.
unfoldable pub same_content : Body → Body → Bool
unfolding covers
same_content a b = covers b a && covers a b

abbrev pub is_same : Option Body → Body → Bool
is_same none body = false
is_same (some current) body = same_content current body

conflict_note : Text → Text → Text
conflict_note stamp changed =
    codes "Kept from a sync conflict found on "
    ++ stamp
    ++ codes
        ": another machine changed or deleted this entry at the same time as this copy was written. This copy was last changed on "
    ++ changed
    ++ codes
        ". Compare it with the current entry, if one still exists, and delete whichever is wrong."

-- `[notes, note].filter(Boolean).join('\n\n')`
joined_notes : Option Value → Text → Text
joined_notes notes note = if is_truthy notes then as_text notes ++ 10 ∷ 10 ∷ note else note

titled : Option Value → Text
titled title =
    (if is_truthy title then as_text title else codes "(untitled)") ++ codes " (conflict)"

num_or : Option ℕ → ℕ → ℕ
num_or none d = d
num_or (some n) d = n

-- The record that a body is forked into; the code throws where its date is neither missing nor a
-- date. `day` is `toISOString().slice(0, 10)` of a date.
unfoldable pub fork : (ℕ → Text) → ℕ → String → Body → Body
unfolding conflict_note joined_notes titled num_or
fork day now id body =
    let when = num_or (as_num (or_else' (get "updated" body) (get "created" body))) now in
    set "updated" (or_else (get "updated" body) (num now)) (
      set "notes" (str (joined_notes (get "notes" body) (conflict_note (day now) (day when))))
        (set "conflictOf" (str (codes id)) (set "title" (str (titled (get "title" body))) body)))
  where
    or_else' : Option Value → Option Value → Option Value
    or_else' none d = d
    or_else' (some null) d = d
    or_else' (some v) d = some v

-- The random id of a new record, and the nonce of its seal.
pub record Fresh : Type 0 where
  pub id : String
  pub nonce : String

-- The loop: the vault and the ids that were forked.
pub record Forking : Type 0 where
  pub vault : Vault
  pub forked : List String

module _ (p : Platform) (day : ℕ → Text) (fresh : ℕ → Fresh) (now : ℕ) (key : String) where
  abbrev pub add_fork : Fresh → Envelope → Body → Forking → Forking
  add_fork f e body s = record {
    vault = write p f.nonce key f.id 1 (fork day now e.id body) s.vault;
    forked = s.forked ++ f.id ∷ [];
  }

  -- The n-th fork takes the n-th draw.
  unfoldable pub fork_body : Envelope → Option Body → Forking → Forking
  fork_body e none s = s
  fork_body e (some body) s =
      if is_dead body
      then s
      else if is_same (get e.id s.vault.plain) body
      then s
      else add_fork (fresh (length s.forked)) e body s

  unfoldable pub fork_one : Forking → Envelope → Forking
  unfolding fork_body
  fork_one s e =
      fork_body e (open_envelope p key e) (record s {
        vault = record (s.vault) { forked_marks = s.vault.forked_marks ++ mark e ∷ [] };
      })

  unfoldable pub fork_all : Forking → List Envelope → Forking
  unfolding fork_one
  fork_all s [] = s
  fork_all s (e ∷ es) = fork_all (fork_one s e) es

-- At most `marks_max` marks are kept, the newest.
unfoldable pub settled_queue : Vault → Vault
unfolding drop
settled_queue v = record v {
  parked = [];
  forked_marks = drop (length v.forked_marks - marks_max) v.forked_marks;
}

unfoldable pub resolve_with :
    Platform → (ℕ → Text) → (ℕ → Fresh) → ℕ → Option String → Vault → Fault ⊎ Forking
unfolding fork_all settled_queue
resolve_with p day fresh now none v = inl vault_locked
resolve_with p day fresh now (some key) v =
    let s = fork_all p day fresh now key (record { vault = v; forked = [] }) v.parked in
    inr (record s { vault = settled_queue s.vault })

-- `resolveParked`
unfoldable pub resolve_parked : Platform → (ℕ → Text) → (ℕ → Fresh) → ℕ → Vault → Fault ⊎ Forking
unfolding resolve_with
resolve_parked p day fresh now v = resolve_with p day fresh now v.key v
