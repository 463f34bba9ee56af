-- ===== src/Vault/Refusing.antt =====
-- What `applyEnvelopes` refuses (src/core/vault.js).
use bencpass.Prelude.{
  String, ◌≡◌, refl, ap, ◌∙◌, Bool, true, false, not, ◌||◌, Option, none, some, [], ◌∷◌, ltb, arith,
  eq_iff, ◌≤◌, ◌⊎◌, Bool-cases, inl, inr, str_eq,
}
use bencpass.Map.{Map, get, set, has}
use bencpass.Map.Laws.{get-set}
use bencpass.Envelope.{Envelope}
use bencpass.Plain.{Body}
use bencpass.Crypto.{Platform, open_envelope}
use bencpass.Merge.{Entries, as_map}
use bencpass.Vault.{Vault, Fault}
use bencpass.Vault.Parked.{OnlyParked, OnlyParked-trans, park-OnlyParked}
use bencpass.Vault.Opening.{corrected}
use bencpass.Vault.Adopting.{
  Adoption, guard, guard_all, settle_opened, adopt_one, adopt_all, is_settled, commit, adoption,
  apply_with, apply_envelopes,
}

-- Not behind `cur`, unless it is a tombstone.
abbrev holds : Envelope → Option Envelope → Bool
holds cur none = true
holds cur (some e) = not (ltb e.rev cur.rev) || e.deleted

guard-holds : (b : Bool) (cur e : Envelope) → holds cur (some (guard b (some cur) e)) ≡ true
unfolding guard
guard-holds b cur e = ground arith

guard_all-holds :
    (b : Bool) (id : String) (cur : Envelope) (current next : Map Envelope)
    → get id current ≡ some cur
    → holds cur (get id (guard_all b current next)) ≡ true
unfolding guard_all get
guard_all-holds b id cur current [] h = refl
guard_all-holds b id cur current ((j, e) ∷ next) h = elim (Bool-cases (str_eq j id)) [
  | inl t ↦ rw (t, (eq_iff j id).0 t, h) (guard-holds b cur e)
  | inr t ↦ rw t (guard_all-holds b id cur current next h)
]

settle_opened-holds :
    (id j : String) (cur : Envelope) (cur' : Option Envelope) (e : Envelope) (o : Option Body)
    (s : Adoption)
    → (str_eq j id ≡ true → cur' ≡ some cur)
    → holds cur (get id s.next) ≡ true
    → holds cur (get id (settle_opened j cur' e o s).next) ≡ true
unfolding settle_opened
settle_opened-holds id j cur cur' e none s h k = k
settle_opened-holds id j cur none e (some body) s h k = ground (arith, h, k)
settle_opened-holds id j cur (some c) e (some body) s h k = ground (
  arith,
  h,
  k,
  get-set j id c s.next,
  get-set j id (corrected e body) s.next,
  get-set j id c (set j (corrected e body) s.next),
)

module _ (p : Platform) (key : String) (current : Map Envelope) where
  adopt_one-holds :
      (id j : String) (cur e : Envelope) (o : Option Fault) (s : Adoption)
      → get id current ≡ some cur
      → holds cur (get id s.next) ≡ true
      → holds cur (get id (adopt_one p key current o s j e).next) ≡ true
  unfolding adopt_one
  adopt_one-holds id j cur e (some f) s h k = k
  adopt_one-holds id j cur e none s h k =
      elim (Bool-cases (is_settled (get j current) e (has j s.committed))) [
        | inl t ↦ rw t k
        | inr t ↦ rw t (
            settle_opened-holds id j cur (get j current) e (open_envelope p key e) s
              (λ q. rw ((eq_iff j id).0 q) h) k)
      ]

  adopt_all-holds :
      (id : String) (cur : Envelope) (s : Adoption) (es : Map Envelope)
      → get id current ≡ some cur
      → holds cur (get id s.next) ≡ true
      → holds cur (get id (adopt_all p key current s es).next) ≡ true
  unfolding adopt_all
  adopt_all-holds id cur s [] h k = k
  adopt_all-holds id cur s ((j, e) ∷ es) h k =
      adopt_all-holds id cur (adopt_one p key current s.fault s j e) es h
        (adopt_one-holds id j cur e s.fault s h k)

holds-get :
    (cur e : Envelope) (o : Option Envelope)
    → holds cur o ≡ true
    → o ≡ some e
    → (cur.rev ≤ e.rev) ⊎ (e.deleted ≡ true)
holds-get cur e none h k = ground arith
holds-get cur e (some f) h k = ground (arith, h, k)

commit-holds :
    (id : String) (cur : Envelope) (o : Option Fault) (s : Adoption)
    → holds cur (get id s.vault.envelopes) ≡ true
    → holds cur (get id s.next) ≡ true
    → holds cur (get id (commit o s).0.envelopes) ≡ true
unfolding commit
commit-holds id cur (some f) s h k = h
commit-holds id cur none s h k = k

-- The loop changes the vault in nothing but the queue.
settle_opened-OnlyParked :
    (j : String) (cur : Option Envelope) (e : Envelope) (o : Option Body) (s : Adoption)
    → OnlyParked s.vault (settle_opened j cur e o s).vault
unfolding settle_opened
settle_opened-OnlyParked j cur e none s = refl
settle_opened-OnlyParked j none e (some body) s = ground (arith, park-OnlyParked (e ∷ []) s.vault)
settle_opened-OnlyParked j (some c) e (some body) s =
    ground (arith, park-OnlyParked (e ∷ []) s.vault)

adopt_one-OnlyParked :
    (p : Platform) (key : String) (current : Map Envelope) (j : String) (e : Envelope)
    (o : Option Fault) (s : Adoption)
    → OnlyParked s.vault (adopt_one p key current o s j e).vault
unfolding adopt_one
adopt_one-OnlyParked p key current j e (some f) s = refl
adopt_one-OnlyParked p key current j e none s =
    elim (Bool-cases (is_settled (get j current) e (has j s.committed))) [
      | inl t ↦ rw t refl
      | inr t ↦ rw t (settle_opened-OnlyParked j (get j current) e (open_envelope p key e) s)
    ]

adopt_all-OnlyParked :
    (p : Platform) (key : String) (current : Map Envelope) (s : Adoption) (es : Map Envelope)
    → OnlyParked s.vault (adopt_all p key current s es).vault
unfolding adopt_all
adopt_all-OnlyParked p key current s [] = refl
adopt_all-OnlyParked p key current s ((j, e) ∷ es) =
    OnlyParked-trans s.vault (adopt_one p key current s.fault s j e).vault
      (adopt_all p key current (adopt_one p key current s.fault s j e) es).vault
      (adopt_one-OnlyParked p key current j e s.fault s)
      (adopt_all-OnlyParked p key current (adopt_one p key current s.fault s j e) es)

adoption-OnlyParked :
    (p : Platform) (key : String) (es : Map Envelope) (v : Vault)
    → OnlyParked v (adoption p key es v).vault
unfolding adoption
adoption-OnlyParked p key es v =
    adopt_all-OnlyParked p key v.envelopes
      (record {
        next = guard_all false v.envelopes es;
        committed = v.plain;
        vault = v;
        fault = none;
      })
      (guard_all false v.envelopes es)

adoption-holds :
    (p : Platform) (key : String) (es : Map Envelope) (v : Vault) (id : String) (cur : Envelope)
    → get id v.envelopes ≡ some cur
    → holds cur (get id (adoption p key es v).next) ≡ true
unfolding adoption
adoption-holds p key es v id cur h =
    adopt_all-holds p key v.envelopes id cur
      (record {
        next = guard_all false v.envelopes es;
        committed = v.plain;
        vault = v;
        fault = none;
      })
      (guard_all false v.envelopes es) h (guard_all-holds false id cur v.envelopes es h)

holds_self : (cur : Envelope) (o : Option Envelope) → o ≡ some cur → holds cur o ≡ true
holds_self cur none h = ground arith
holds_self cur (some e) h = ground (arith, h)

apply_with-holds :
    (p : Platform) (o : Option String) (es : Map Envelope) (v : Vault) (id : String)
    (cur : Envelope)
    → get id v.envelopes ≡ some cur
    → holds cur (get id (apply_with p o es v).0.envelopes) ≡ true
unfolding apply_with
apply_with-holds p none es v id cur h = guard_all-holds true id cur v.envelopes es h
apply_with-holds p (some key) es v id cur h =
    let s = adoption p key es v in
    commit-holds id cur s.fault s
      (holds_self cur (get id s.vault.envelopes)
        (ap (λ (w : Vault). get id w.envelopes) (adoption-OnlyParked p key es v) ∙ h))
      (adoption-holds p key es v id cur h)

-- Whatever envelopes a locked or unlocked vault is given to adopt, an envelope that then stands in
-- place of ours is not at a lower revision than ours, or is flagged as a tombstone.
pub live_forward :
    (p : Platform) (es : Entries) (v : Vault) (id : String) (cur e : Envelope)
    → get id v.envelopes ≡ some cur
    → get id (apply_envelopes p es v).0.envelopes ≡ some e
    → (cur.rev ≤ e.rev) ⊎ (e.deleted ≡ true)
unfolding apply_envelopes
live_forward p es v id cur e h k =
    holds-get cur e (get id (apply_with p v.key (as_map es) v).0.envelopes)
      (apply_with-holds p v.key (as_map es) v id cur h) k

commit-OnlyParked :
    (v : Vault) (f : Fault) (o : Option Fault) (s : Adoption)
    → OnlyParked v s.vault
    → (commit o s).1 ≡ some f
    → OnlyParked v (commit o s).0
unfolding commit
commit-OnlyParked v f (some g) s h k = h
commit-OnlyParked v f none s h k = ground arith

apply_with-OnlyParked :
    (p : Platform) (o : Option String) (es : Map Envelope) (v : Vault) (f : Fault)
    → (apply_with p o es v).1 ≡ some f
    → OnlyParked v (apply_with p o es v).0
unfolding apply_with
apply_with-OnlyParked p none es v f h = ground arith
apply_with-OnlyParked p (some key) es v f h =
    commit-OnlyParked v f (adoption p key es v).fault (adoption p key es v)
      (adoption-OnlyParked p key es v) h

-- Envelopes that the vault refuses with an error leave it as it was, but for its queue of parked
-- envelopes and the count of those dropped from it.
pub refused_unchanged :
    (p : Platform) (es : Entries) (v : Vault) (f : Fault)
    → (apply_envelopes p es v).1 ≡ some f
    → OnlyParked v (apply_envelopes p es v).0
unfolding apply_envelopes
refused_unchanged p es v f h = apply_with-OnlyParked p v.key (as_map es) v f h
