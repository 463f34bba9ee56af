-- ===== src/Merge/Tests.antt =====
-- Concrete merges.
use bencpass.Prelude.{
  ℕ, String, ◌≡◌, ◌<◌, refl, ◌⊎◌, inl, Bool, true, false, some, [], ◌∷◌, arith, Any, eq_iff,
}
use bencpass.Map.{Map, get}
use bencpass.Envelope.{Envelope}
use bencpass.Merge.{Entries, a_map, an_array, rollback, as_map, merge}
use bencpass.Merge.Outcome.{agree}
use bencpass.Merge.Safety.{Parked, local_survives, remote_survives, tombstone_sticks}
use bencpass.Merge.Refined.{IsSpecified, merge-IsSpecified}
use bencpass.Merge.Settles.{IsKeyed, first, second, merge_settles}

abbrev env : String → ℕ → Bool → String → Envelope
env id rev deleted ct = record {
  id = id;
  rev = rev;
  deleted = deleted;
  n = "n";
  ct = ct;
  over_tombstone = false;
}

-- Ours: an unpushed edit, an edit that races another, a deletion.
abbrev ours : Entries
ours = an_array (
    env "a" 2 false "a2"
    ∷ env "b" 2 false "ours"
    ∷ env "c" 2 true "gone"
    ∷ env "d" 3 false "d3"
    ∷ [])

abbrev theirs : Entries
theirs = an_array (
    env "b" 2 false "theirs"
    ∷ env "c" 3 false "c3"
    ∷ env "d" 1 false "d1"
    ∷ env "e" 1 false "e1"
    ∷ [])

abbrev acknowledged : Map ℕ
acknowledged = ("a", 1) ∷ ("b", 1) ∷ ("c", 2) ∷ ("d", 3) ∷ []

merged_keeps : get "b" (merge ours theirs acknowledged).envelopes ≡ some (env "b" 2 false "ours")
unfolding merge get
merged_keeps = refl

merged_rollback : get "d" (merge ours theirs acknowledged).actions ≡ some rollback
unfolding merge get
merged_rollback = refl

local_survives_example :
    (get "b" (merge ours theirs acknowledged).envelopes ≡ some (env "b" 2 false "ours"))
    ⊎ Parked "b" (env "b" 2 false "ours") (merge ours theirs acknowledged).conflicts
    ⊎ ((r : Envelope) × (get "b" (merge ours theirs acknowledged).envelopes ≡ some r)
        × (get "b" acknowledged ≡ some 2)
        × (2 < r.rev))
unfolding get as_map
local_survives_example = local_survives ours theirs acknowledged "b" (env "b" 2 false "ours") refl

remote_survives_example :
    (get "b" (merge ours theirs acknowledged).envelopes ≡ some (env "b" 2 false "theirs"))
    ⊎ Parked "b" (env "b" 2 false "theirs") (merge ours theirs acknowledged).conflicts
    ⊎ ((get "b" (merge ours theirs acknowledged).envelopes ≡ some (env "b" 2 false "ours"))
        × ((agree (env "b" 2 false "ours") (env "b" 2 false "theirs") ≡ true)
            ⊎ Any
                (λ c. c ≡ record {
                  id = "b";
                  local = env "b" 2 false "ours";
                  remote = env "b" 2 false "theirs";
                })
                (merge ours theirs acknowledged).rolled_back
            ⊎ (get "b" acknowledged ≡ some 2)))
unfolding get as_map
remote_survives_example =
    remote_survives ours theirs acknowledged "b" (env "b" 2 false "ours") (env "b" 2 false "theirs")
      refl refl

merge-IsSpecified_example :
    IsSpecified (as_map ours) (as_map theirs) acknowledged (merge ours theirs acknowledged)
merge-IsSpecified_example = merge-IsSpecified ours theirs acknowledged

tombstone_sticks_example :
    (e : Envelope) × (get "c" (merge ours theirs acknowledged).envelopes ≡ some e)
    × (e.deleted ≡ true)
unfolding get as_map
tombstone_sticks_example =
    tombstone_sticks ours theirs acknowledged "c" (env "c" 2 true "gone") (env "c" 3 false "c3")
      refl refl (inl refl)

abbrev one : Entries
one = a_map (("a", env "a" 2 false "a2") ∷ [])

one-IsKeyed : IsKeyed (as_map one)
unfolding get as_map
one-IsKeyed = record { own_id = λ j e h. ground (arith, eq_iff "a" j) }

merge_settles_example :
    ((j : String)
      → get j (second one theirs acknowledged).envelopes
        ≡ get j (first one theirs acknowledged).envelopes)
    × ((second one theirs acknowledged).conflicts ≡ [])
    × ((second one theirs acknowledged).rolled_back ≡ [])
    × ((second one theirs acknowledged).to_push ≡ [])
merge_settles_example = merge_settles one theirs acknowledged one-IsKeyed
