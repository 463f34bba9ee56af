-- ===== src/Vault/Settled.antt =====
-- What one entry of `applyEnvelopes` comes to (src/core/vault.js).
use mathlib.Core.Path.{subst}
use bencpass.Prelude.{
  String, ◌≡◌, refl, sym, ap, Bool, true, Option, none, some, arith, eq_iff, ◌⊎◌, inl, inr,
  Bool-cases, if◌then◌else◌,
}
use bencpass.Map.{Map, get, set, has}
use bencpass.Map.Laws.{get-set_self, get-delete}
use bencpass.Envelope.{Envelope}
use bencpass.Plain.{Body}
use bencpass.Crypto.{Platform, is_dead, open_envelope}
use bencpass.Vault.{Fault}
use bencpass.Vault.Opening.{smuggled, corrected}
use bencpass.Vault.Adopting.{adopt_one, is_settled, Adoption, settle_opened}
use bencpass.Vault.Shown.{IsHonest, Agrees, corrected-Agrees, corrected_same, bool_eq-eq}

-- What stands at `id` after its entry: the envelope and the plaintext.
abbrev after : String → Adoption → Option Envelope × Option Body
after id s = (get id s.next, get id s.committed)

-- The live body, or none.
abbrev live : Body → Option Body
live body = if is_dead body then none else some body

-- The entry was adopted, with the flag of its seal; or it was slipped over a tombstone and shows
-- nothing; or ours was kept.
abbrev Outcome :
    Option Envelope → Envelope → Body → Option Body → Option Envelope × Option Body → Type 0
Outcome cur e body plain r =
    ((r.0 ≡ some (corrected e body)) × (r.1 ≡ live body))
    ⊎ ((r.0 ≡ some e) × (r.1 ≡ none) × (smuggled e body ≡ true))
    ⊎ ((r.0 ≡ cur) × (r.1 ≡ plain))

settle_opened-Outcome :
    (id : String) (cur : Option Envelope) (e : Envelope) (body : Body) (s : Adoption)
    → get id s.next ≡ some e
    → (settle_opened id cur e (some body) s).fault ≡ none
    → Outcome cur e body (get id s.committed) (after id (settle_opened id cur e (some body) s))
unfolding settle_opened
settle_opened-Outcome id none e body s h f = ground (
  arith,
  h,
  f,
  corrected_same e body,
  bool_eq-eq e.deleted (is_dead body),
  get-set_self id body s.committed,
  get-delete id id s.committed,
  eq_iff id id,
)
settle_opened-Outcome id (some c) e body s h f = ground (
  arith,
  h,
  f,
  corrected_same e body,
  bool_eq-eq e.deleted (is_dead body),
  get-set_self id body s.committed,
  get-delete id id s.committed,
  eq_iff id id,
  get-set_self id (corrected e body) s.next,
  get-set_self id c s.next,
  get-set_self id c (set id (corrected e body) s.next),
)

settled_current :
    (o : Option Envelope) (e : Envelope) (here : Bool)
    → is_settled o e here ≡ true
    → ((cur : Envelope) → o ≡ some cur → is_settled (some cur) e true ≡ true → e ≡ cur)
    → o ≡ some e
settled_current none e here t ours = ground (arith, t)
settled_current (some c) e here t ours =
    ap (λ (x : Envelope). some x) (sym (ours c refl (ground (arith, t))))

module _ (p : Platform) (key : String) (honest : IsHonest p key) where
  smuggled-Agrees :
      (e : Envelope) (body : Body)
      → open_envelope p key e ≡ some body
      → smuggled e body ≡ true
      → Agrees p key (some e) none
  smuggled-Agrees e body q t = record {
    is_shown = ground (arith, q, t);
    has_true_flag = λ b x y. ground (arith, q, x, y, t);
  }

  Outcome-Agrees :
      (cur : Option Envelope) (e : Envelope) (body : Body) (plain : Option Body)
      (r : Option Envelope × Option Body)
      → open_envelope p key e ≡ some body
      → Agrees p key cur plain
      → Outcome cur e body plain r
      → Agrees p key r.0 r.1
  Outcome-Agrees cur e body plain r q h (inl t) =
      rw (t.0, t.1) (corrected-Agrees p key honest e body q)
  Outcome-Agrees cur e body plain r q h (inr (inl t)) = rw (t.0, t.1) (smuggled-Agrees e body q t.2)
  Outcome-Agrees cur e body plain r q h (inr (inr t)) = rw (t.0, t.1) h

  settle_opened-Agrees :
      (id : String) (cur : Option Envelope) (e : Envelope) (o : Option Body) (s : Adoption)
      → open_envelope p key e ≡ o
      → Agrees p key cur (get id s.committed)
      → get id s.next ≡ some e
      → (settle_opened id cur e o s).fault ≡ none
      → Agrees p key
          (get id (settle_opened id cur e o s).next)
          (get id (settle_opened id cur e o s).committed)
  unfolding settle_opened
  settle_opened-Agrees id cur e none s q h k f = ground (arith, f)
  settle_opened-Agrees id cur e (some body) s q h k f =
      Outcome-Agrees cur e body (get id s.committed)
        (after id (settle_opened id cur e (some body) s)) q h
        (settle_opened-Outcome id cur e body s k f)

  -- An entry with our bytes is skipped.
  pub adopt_one-Agrees :
      (current : Map Envelope) (id : String) (e : Envelope) (o : Option Fault) (s : Adoption)
      → ((cur : Envelope)
          → get id current ≡ some cur
          → is_settled (some cur) e true ≡ true
          → e ≡ cur)
      → Agrees p key (get id current) (get id s.committed)
      → get id s.next ≡ some e
      → o ≡ none
      → (adopt_one p key current o s id e).fault ≡ none
      → Agrees p key
          (get id (adopt_one p key current o s id e).next)
          (get id (adopt_one p key current o s id e).committed)
  unfolding adopt_one
  adopt_one-Agrees current id e (some g) s ours h k r f = ground (arith, r)
  adopt_one-Agrees current id e none s ours h k r f =
      elim (Bool-cases (is_settled (get id current) e (has id s.committed))) [
        | inl t ↦
            rw (t, k)
              (subst (λ (x : Option Envelope). Agrees p key x (get id s.committed))
                (settled_current (get id current) e (has id s.committed) t ours) h)
        | inr t ↦ rw t (
            settle_opened-Agrees id (get id current) e (open_envelope p key e) s refl h k
              (rw t at f))
      ]
