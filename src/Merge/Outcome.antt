-- ===== src/Merge/Outcome.antt =====
-- What one id comes to, independent of the loop (src/core/merge.js): the tests that the header of
-- the source describes, and the effect of one step of the loop on the maps.
use bencpass.Prelude.{
  ℕ, String, ◌≡◌, refl, ◌⊎◌, Bool, false, not, ◌&&◌, ◌||◌, Option, none, some, [], ◌∷◌, ◌++◌, arith,
  ltb, ◌==◌, str_eq, if◌then◌else◌,
}
use bencpass.Map.{get}
use bencpass.Map.Laws.{get-set, get-set_self}
use bencpass.Envelope.{Envelope}
use bencpass.Merge.{Merged, Conflict, edit, delete, is_unknown, same_bytes, settle, base_is}

-- the same revision with the same bytes
unfoldable pub agree : Envelope → Envelope → Bool
agree l r = (l.rev == r.rev) && same_bytes l r

-- the server went back behind what it had acknowledged
unfoldable pub rolls_back : Envelope → Envelope → Option ℕ → Bool
rolls_back l r none = false
rolls_back l r (some b) = not (l.rev == r.rev) && ltb r.rev b

-- only the remote moved, and not over a deletion of ours
unfoldable pub forwards : Envelope → Envelope → Option ℕ → Bool
forwards l r none = false
forwards l r (some b) = (l.rev == b) && ltb b r.rev && (not l.deleted || r.deleted)

-- the server has our ancestor, so only we moved
unfoldable pub repeats : Envelope → Envelope → Option ℕ → Bool
repeats l r none = false
repeats l r (some b) = not (l.rev == r.rev) && (r.rev == b) && (not r.deleted || l.deleted)

-- both moved
unfoldable pub diverges : Envelope → Envelope → Option ℕ → Bool
unfolding agree rolls_back forwards repeats
diverges l r b =
    not (agree l r) && not (rolls_back l r b) && not (forwards l r b) && not (repeats l r b)

-- The winner of a divergence: a tombstone, and else ours, but for a later push of our own lineage.
unfoldable pub winner : Envelope → Envelope → Option ℕ → Envelope
winner l r b =
    if l.deleted
    then l
    else if r.deleted
    then r
    else if is_unknown b && ltb l.rev r.rev
    then r
    else l

-- The envelope that stays, of two.
unfoldable pub chosen : Envelope → Envelope → Option ℕ → Envelope
unfolding diverges winner forwards
chosen l r b = if diverges l r b then winner l r b else if forwards l r b then r else l

unfoldable pub kept : Option Envelope → Option Envelope → Option ℕ → Option Envelope
unfolding chosen
kept none r b = r
kept (some l) none b = some l
kept (some l) (some r) b = some (chosen l r b)

-- The ancestor advances where the server's revision is taken over or agreed on.
unfoldable pub synced_at : Option Envelope → Option Envelope → Option ℕ → Option ℕ
unfolding diverges
synced_at none none b = b
synced_at none (some r) b = some r.rev
synced_at (some l) none b = b
synced_at (some l) (some r) b =
    if agree l r || forwards l r b
    then some r.rev
    else if diverges l r b && (l.deleted || r.deleted || (is_unknown b && ltb l.rev r.rev))
    then some r.rev
    else b

-- The side of a divergence that is parked for a person.
unfoldable pub loser : Envelope → Envelope → Option ℕ → Envelope
loser l r b =
    if l.deleted
    then r
    else if r.deleted
    then l
    else if is_unknown b && ltb l.rev r.rev
    then l
    else r

unfoldable pub clash : String → Envelope → Envelope → Option ℕ → Conflict
unfolding loser
clash id l r b = record {
  id = id;
  kind = if l.deleted || r.deleted then delete else edit;
  local = l;
  remote = r;
  parked = loser l r b;
}

-- Ours is sent when the server lacks it, went back behind it, or lost to it.
unfoldable pub sends : Envelope → Option Envelope → Option ℕ → Bool
unfolding diverges winner base_is
sends l none b = not (base_is b l.rev)
sends l (some r) b =
    rolls_back l r b
    || repeats l r b
    || (diverges l r b && (l.deleted || (not r.deleted && not (is_unknown b && ltb l.rev r.rev))))

-- A step touches the entry of its own id only.
pub get-settle_ne :
    (id j : String) (l r : Option Envelope) (b : Option ℕ) (s : Merged)
    → str_eq id j ≡ false
    → get j (settle id l r b s).envelopes ≡ get j s.envelopes
unfolding settle
get-settle_ne id j none none b s h = refl
get-settle_ne id j none (some r) b s h = ground (arith, get-set id j r s.envelopes)
get-settle_ne id j (some l) none b s h = ground arith
get-settle_ne id j (some l) (some r) none s h =
    ground (arith, get-set id j r s.envelopes, get-set id j l s.envelopes)
get-settle_ne id j (some l) (some r) (some b) s h =
    ground (arith, get-set id j r s.envelopes, get-set id j l s.envelopes)

-- It writes the final envelope, or leaves ours where that is the final one.
pub get-settle_self :
    (id : String) (l r : Option Envelope) (b : Option ℕ) (s : Merged)
    → (get id s.envelopes ≡ l) ⊎ (get id s.envelopes ≡ kept l r b)
    → get id (settle id l r b s).envelopes ≡ kept l r b
unfolding settle kept
get-settle_self id none none b s h = ground arith
get-settle_self id none (some r) b s h = ground (arith, get-set_self id r s.envelopes)
get-settle_self id (some l) none b s h = ground arith
get-settle_self id (some l) (some r) none s h =
    ground (arith, get-set_self id r s.envelopes, get-set_self id l s.envelopes)
get-settle_self id (some l) (some r) (some b) s h =
    ground (arith, get-set_self id r s.envelopes, get-set_self id l s.envelopes)

pub synced-settle_ne :
    (id j : String) (l r : Option Envelope) (b : Option ℕ) (s : Merged)
    → str_eq id j ≡ false
    → get j (settle id l r b s).synced_rev ≡ get j s.synced_rev
unfolding settle
synced-settle_ne id j none none b s h = refl
synced-settle_ne id j none (some r) b s h = ground (arith, get-set id j r.rev s.synced_rev)
synced-settle_ne id j (some l) none b s h = ground (arith, get-set id j l.rev s.synced_rev)
synced-settle_ne id j (some l) (some r) none s h = ground (arith, get-set id j r.rev s.synced_rev)
synced-settle_ne id j (some l) (some r) (some b) s h =
    ground (arith, get-set id j r.rev s.synced_rev)

pub synced-settle_self :
    (id : String) (l r : Option Envelope) (b : Option ℕ) (s : Merged)
    → (get id s.synced_rev ≡ b) ⊎ (get id s.synced_rev ≡ synced_at l r b)
    → get id (settle id l r b s).synced_rev ≡ synced_at l r b
unfolding settle synced_at
synced-settle_self id none none b s h = ground arith
synced-settle_self id none (some r) b s h = ground (arith, get-set_self id r.rev s.synced_rev)
synced-settle_self id (some l) none none s h = ground arith
synced-settle_self id (some l) none (some b) s h =
    ground (arith, get-set_self id l.rev s.synced_rev)
synced-settle_self id (some l) (some r) none s h =
    ground (arith, get-set_self id r.rev s.synced_rev)
synced-settle_self id (some l) (some r) (some b) s h =
    ground (arith, get-set_self id r.rev s.synced_rev)

pub conflicts-settle :
    (id : String) (l r : Envelope) (b : Option ℕ) (s : Merged)
    → (settle id (some l) (some r) b s).conflicts
      ≡ (if diverges l r b then s.conflicts ++ clash id l r b ∷ [] else s.conflicts)
unfolding settle diverges clash
conflicts-settle id l r none s = ground arith
conflicts-settle id l r (some b) s = ground arith

pub rolled_back-settle :
    (id : String) (l r : Envelope) (b : Option ℕ) (s : Merged)
    → (settle id (some l) (some r) b s).rolled_back ≡ (
        if rolls_back l r b
        then s.rolled_back ++ record { id = id; local = l; remote = r } ∷ []
        else s.rolled_back)
unfolding settle rolls_back
rolled_back-settle id l r none s = ground arith
rolled_back-settle id l r (some b) s = ground arith

pub to_push-settle :
    (id : String) (l : Envelope) (r : Option Envelope) (b : Option ℕ) (s : Merged)
    → (settle id (some l) r b s).to_push ≡ (if sends l r b then s.to_push ++ l ∷ [] else s.to_push)
unfolding settle sends
to_push-settle id l none b s = ground arith
to_push-settle id l (some r) none s = ground arith
to_push-settle id l (some r) (some b) s = ground arith
