-- ===== src/Vault/Forked.antt =====
-- What the forking of parked envelopes leaves alone (src/core/vault.js).
use mathlib.Core.Path.{subst}
use bencpass.Prelude.{
  ◌+◌, ◌<◌, length-append, All, if-both, ℕ, String, ◌≡◌, ◌≤◌, ◌-◌, refl, ◌∙◌, false, Option, none,
  some, List, [], ◌∷◌, ◌++◌, ◌⊎◌, inl, inr, arith, Bool-cases, str_eq, length,
}
use bencpass.Map.{get}
use bencpass.Map.Laws.{get-set, get-set_self}
use bencpass.Envelope.{Envelope}
use bencpass.Text.{Text}
use bencpass.Plain.{Value, null, num, Body}
use bencpass.Crypto.{Platform, is_dead, open_envelope}
use bencpass.Vault.{Vault, Fault, mark}
use bencpass.Vault.Parked.{length-drop}
use bencpass.Vault.Records.{write, sealed}
use bencpass.Vault.Forking.{
  Forking, Fresh, is_same, add_fork, fork, fork_body, fork_one, fork_all, settled_queue,
  resolve_with, resolve_parked, marks_max,
}

-- The record `id` is as it was, sealed and in the clear.
abbrev pub IsUntouched : String → Vault → Vault → Type 0
IsUntouched id v w = (get id w.plain ≡ get id v.plain) × (get id w.envelopes ≡ get id v.envelopes)

IsUntouched-trans :
    (id : String) (u v w : Vault) → IsUntouched id u v → IsUntouched id v w → IsUntouched id u w
IsUntouched-trans id u v w h k = (k.0 ∙ h.0, k.1 ∙ h.1)

module _ (p : Platform) (day : ℕ → Text) (fresh : ℕ → Fresh) (now : ℕ) (key id : String)
    (other : (n : ℕ) → str_eq (fresh n).id id ≡ false) where
  add_fork-IsUntouched :
      (e : Envelope) (body : Body) (n : ℕ) (s : Forking)
      → IsUntouched id s.vault (add_fork p day fresh now key (fresh n) e body s).vault
  unfolding write
  add_fork-IsUntouched e body n s = (
    get-set (fresh n).id id (fork day now e.id body) s.vault.plain ∙ rw (other n) refl,
    get-set (fresh n).id id
          (sealed p key (fresh n).nonce (fresh n).id 1 false (fork day now e.id body))
          s.vault.envelopes
        ∙ rw (other n) refl,
  )

  fork_body-IsUntouched :
      (e : Envelope) (o : Option Body) (s : Forking)
      → IsUntouched id s.vault (fork_body p day fresh now key e o s).vault
  unfolding fork_body
  fork_body-IsUntouched e none s = (refl, refl)
  fork_body-IsUntouched e (some body) s = elim (Bool-cases (is_dead body)) [
    | inl t ↦ rw t (refl, refl)
    | inr t ↦ rw t (elim (Bool-cases (is_same (get e.id s.vault.plain) body)) [
      | inl q ↦ rw q (refl, refl)
      | inr q ↦ rw q (add_fork-IsUntouched e body (length s.forked) s)
    ])
  ]

  fork_one-IsUntouched :
      (e : Envelope) (s : Forking) → IsUntouched id s.vault (fork_one p day fresh now key s e).vault
  unfolding fork_one
  fork_one-IsUntouched e s =
      fork_body-IsUntouched e (open_envelope p key e) (record s {
        vault = record (s.vault) { forked_marks = s.vault.forked_marks ++ mark e ∷ [] };
      })

  fork_all-IsUntouched :
      (s : Forking) (es : List Envelope)
      → IsUntouched id s.vault (fork_all p day fresh now key s es).vault
  unfolding fork_all
  fork_all-IsUntouched s [] = (refl, refl)
  fork_all-IsUntouched s (e ∷ es) =
      IsUntouched-trans id s.vault (fork_one p day fresh now key s e).vault
        (fork_all p day fresh now key (fork_one p day fresh now key s e) es).vault
        (fork_one-IsUntouched e s) (fork_all-IsUntouched (fork_one p day fresh now key s e) es)

abbrev some_key : String → Option String
some_key k = some k

some_injective : (j k : String) → some_key j ≡ some_key k → j ≡ k
some_injective j k h = cc

-- A fork that was made stands in the clear.
abbrev Stands : (ℕ → Fresh) → ℕ → Body → Forking → Type 0
Stands fresh n x s = (n < length s.forked) × (get (fresh n).id s.vault.plain ≡ some x)

-- No two of so many draws give the same id.
abbrev pub AreDistinct : ℕ → (ℕ → Fresh) → Type 0
AreDistinct count fresh = (m n : ℕ) → m < n → n < count → str_eq (fresh n).id (fresh m).id ≡ false

-- A copy that opens to a live body, other than what is shown of its record, is forked.
abbrev pub IsForked :
    Platform → (ℕ → Text) → (ℕ → Fresh) → ℕ → String → Vault → Vault → Envelope → Type 0
IsForked p day fresh now key v w e =
    (body : Body)
    → open_envelope p key e ≡ some body
    → is_dead body ≡ false
    → is_same (get e.id v.plain) body ≡ false
    → (n : ℕ) × (get (fresh n).id w.plain ≡ some (fork day now e.id body))

-- No draw gives the id of the envelope.
abbrev pub IsApart : (ℕ → Fresh) → Envelope → Type 0
IsApart fresh e = (n : ℕ) → str_eq (fresh n).id e.id ≡ false

module _ (p : Platform) (day : ℕ → Text) (fresh : ℕ → Fresh) (now : ℕ) (key : String) (count : ℕ)
    (d : AreDistinct count fresh) where
  add_fork-Stands :
      (n : ℕ) (x : Body) (e : Envelope) (body : Body) (s : Forking)
      → length s.forked < count
      → Stands fresh n x s
      → Stands fresh n x (add_fork p day fresh now key (fresh (length s.forked)) e body s)
  unfolding write
  add_fork-Stands n x e body s c h = (
    omega (arith, h.0, length-append s.forked ((fresh (length s.forked)).id ∷ [])),
    get-set (fresh (length s.forked)).id (fresh n).id (fork day now e.id body) s.vault.plain
        ∙ rw (d n (length s.forked) h.0 c) h.1,
  )

  fork_body-Stands :
      (n : ℕ) (x : Body) (e : Envelope) (o : Option Body) (s : Forking)
      → length s.forked < count
      → Stands fresh n x s
      → Stands fresh n x (fork_body p day fresh now key e o s)
  unfolding fork_body
  fork_body-Stands n x e none s c h = h
  fork_body-Stands n x e (some body) s c h =
      if-both (Stands fresh n x) (is_dead body) (λ t. h)
        (λ t.
          if-both (Stands fresh n x) (is_same (get e.id s.vault.plain) body) (λ q. h)
            (λ q. add_fork-Stands n x e body s c h))

  -- An envelope makes one fork at most.
  length-fork_body :
      (e : Envelope) (o : Option Body) (s : Forking)
      → length (fork_body p day fresh now key e o s).forked ≤ length s.forked + 1
  unfolding fork_body
  length-fork_body e none s = omega arith
  length-fork_body e (some body) s =
      let AtMost : Forking → Type 0 = λ r. length r.forked ≤ length s.forked + 1 in
      if-both AtMost (is_dead body) (λ t. omega arith)
        (λ t.
          if-both AtMost (is_same (get e.id s.vault.plain) body) (λ q. omega arith)
            (λ q. omega (arith, length-append s.forked ((fresh (length s.forked)).id ∷ []))))

  length-fork_one :
      (e : Envelope) (s : Forking)
      → length (fork_one p day fresh now key s e).forked ≤ length s.forked + 1
  unfolding fork_one
  length-fork_one e s =
      length-fork_body e (open_envelope p key e) (record s {
        vault = record (s.vault) { forked_marks = s.vault.forked_marks ++ mark e ∷ [] };
      })

  fork_all-Stands :
      (n : ℕ) (x : Body) (s : Forking) (es : List Envelope)
      → length s.forked + length es ≤ count
      → Stands fresh n x s
      → Stands fresh n x (fork_all p day fresh now key s es)
  unfolding fork_all fork_one
  fork_all-Stands n x s [] c h = h
  fork_all-Stands n x s (e ∷ es) c h =
      fork_all-Stands n x (fork_one p day fresh now key s e) es
        (omega (arith, c, length-fork_one e s))
        (fork_body-Stands n x e (open_envelope p key e)
          (record s {
            vault = record (s.vault) { forked_marks = s.vault.forked_marks ++ mark e ∷ [] };
          })
          (omega (arith, c)) h)

  -- The fork of a copy, as it is made
  fork_one-Stands :
      (e : Envelope) (body : Body) (s : Forking)
      → open_envelope p key e ≡ some body
      → is_dead body ≡ false
      → is_same (get e.id s.vault.plain) body ≡ false
      → Stands fresh (length s.forked) (fork day now e.id body) (fork_one p day fresh now key s e)
  unfolding fork_one fork_body write
  fork_one-Stands e body s o t q =
      rw (o, t, q)
        (
          omega (arith, length-append s.forked ((fresh (length s.forked)).id ∷ [])),
          get-set_self (fresh (length s.forked)).id (fork day now e.id body) s.vault.plain,
        )

  abbrev IsUnmoved : Vault → Vault → Envelope → Type 0
  IsUnmoved v w e = get e.id w.plain ≡ get e.id v.plain

  still-IsUnmoved :
      (v : Vault) (s : Forking) (e : Envelope) (es : List Envelope)
      → All (IsApart fresh) es
      → All (IsUnmoved v s.vault) es
      → All (IsUnmoved v (fork_one p day fresh now key s e).vault) es
  still-IsUnmoved v s e [] h k = tt
  still-IsUnmoved v s e (c ∷ es) h k = (
    (fork_one-IsUntouched p day fresh now key c.id h.0 e s).0 ∙ k.0,
    still-IsUnmoved v s e es h.1 k.1,
  )

  fork_all-IsForked :
      (v : Vault) (s : Forking) (es : List Envelope)
      → length s.forked + length es ≤ count
      → All (IsApart fresh) es
      → All (IsUnmoved v s.vault) es
      → All (IsForked p day fresh now key v (fork_all p day fresh now key s es).vault) es
  unfolding fork_all
  fork_all-IsForked v s [] c h k = tt
  fork_all-IsForked v s (e ∷ es) c h k = (
    (λ body o t q. (
      length s.forked,
      (fork_all-Stands (length s.forked) (fork day now e.id body) (fork_one p day fresh now key s e)
          es (omega (arith, c, length-fork_one e s)) (fork_one-Stands e body s o t (rw (k.0) q))).1,
    )),
    fork_all-IsForked v (fork_one p day fresh now key s e) es
        (omega (arith, c, length-fork_one e s)) h.1 (still-IsUnmoved v s e es h.1 k.1),
  )

  IsUnmoved-self : (v : Vault) (es : List Envelope) → All (IsUnmoved v v) es
  IsUnmoved-self v [] = tt
  IsUnmoved-self v (e ∷ es) = (refl, IsUnmoved-self v es)

-- A date that `toISOString` prints, or none
abbrev pub IsDate : Option Value → Type 0
IsDate none = Unit {0}
IsDate (some null) = Unit {0}
IsDate (some (num n)) = n ≤ 8640000000000000
IsDate (some v) = ⊥

abbrev pub HasDates : Platform → String → Envelope → Type 0
HasDates p key e =
    (body : Body)
    → open_envelope p key e ≡ some body
    → IsDate (get "updated" body) × IsDate (get "created" body)

-- Each copy is forked; the queue is empty, the marks are bounded, and the record `id` is as it was.
abbrev pub IsResolved :
    Platform → (ℕ → Text) → (ℕ → Fresh) → ℕ → String → String → Vault → Fault ⊎ Forking → Type 0
IsResolved p day fresh now key id v (inl f) = ⊥
IsResolved p day fresh now key id v (inr s) =
    All (IsForked p day fresh now key v s.vault) v.parked
    × (s.vault.parked ≡ [])
    × (length s.vault.forked_marks ≤ marks_max)
    × IsUntouched id v s.vault

length-settled : (v : Vault) → length (settled_queue v).forked_marks ≤ marks_max
unfolding settled_queue
length-settled v = omega (arith, length-drop (length v.forked_marks - marks_max) v.forked_marks)

resolve_with-IsResolved :
    (p : Platform) (day : ℕ → Text) (fresh : ℕ → Fresh) (now : ℕ) (o : Option String)
    (key id : String) (v : Vault)
    → AreDistinct (length v.parked) fresh
    → All (IsApart fresh) v.parked
    → ((n : ℕ) → str_eq (fresh n).id id ≡ false)
    → o ≡ some key
    → IsResolved p day fresh now key id v (resolve_with p day fresh now o v)
unfolding resolve_with settled_queue
resolve_with-IsResolved p day fresh now none key id v d a h q = ground (arith, q)
resolve_with-IsResolved p day fresh now (some k) key id v d a h q =
    let s = fork_all p day fresh now k (record { vault = v; forked = [] }) v.parked in
    let same : k ≡ key = some_injective k key q in
    (
      subst (λ (x : String). All (IsForked p day fresh now x v s.vault) v.parked) same
          (fork_all-IsForked p day fresh now k (length v.parked) d v
            (record { vault = v; forked = [] }) v.parked (omega arith) a
            (IsUnmoved-self p day fresh now k (length v.parked) d v v.parked)),
      refl,
      length-settled s.vault,
      fork_all-IsUntouched p day fresh now k id h (record { vault = v; forked = [] }) v.parked,
    )

-- In an unlocked vault the parked envelopes are resolved without an error: each that opens to a
-- live body, other than what is shown of its record, is forked into a record that stands in the
-- clear; none is parked any more, at most 512 marks are kept, and a given record is as it was, its
-- envelope and its plaintext. The fresh ids differ from each other, from those of the parked
-- envelopes and from that of the given record, and the dates of the parked bodies are missing or
-- dates.
pub resolve_parked-IsResolved :
    (p : Platform) (day : ℕ → Text) (fresh : ℕ → Fresh) (now : ℕ) (key id : String) (v : Vault)
    → AreDistinct (length v.parked) fresh
    → All (IsApart fresh) v.parked
    → All (HasDates p key) v.parked
    → ((n : ℕ) → str_eq (fresh n).id id ≡ false)
    → v.key ≡ some key
    → IsResolved p day fresh now key id v (resolve_parked p day fresh now v)
unfolding resolve_parked
resolve_parked-IsResolved p day fresh now key id v d a dates h q =
    resolve_with-IsResolved p day fresh now v.key key id v d a h q
