-- ===== src/Match/Ranking.antt =====
-- The order of the offered logins (src/core/match.js).
use Prim.Native.Nat.{Ordering}
use mathlib.Core.List.{Perm, map}
use bencpass.Prelude.{◌≡◌, ◌≢◌, refl, true, false, List, arith}
use bencpass.Map.{get}
use bencpass.Text.{Text}
use bencpass.Plain.{Body, as_text}
use bencpass.Sort.{sort, sort-perm, IsSorted, IsOrder, sort-IsSorted}
use bencpass.Match.{Platform, Scored, ranks_before, scored_logins, matches_for}

-- `localeCompare` orders all texts: the documented behaviour of a collation.
pub record IsCollation (platform : Platform) : Type 0 where
  pub total :
      (s t : Text)
      → platform.locale_compare s t ≡ Ordering.gt
      → platform.locale_compare t s ≢ Ordering.gt
  pub trans :
      (s t u : Text)
      → platform.locale_compare s t ≢ Ordering.gt
      → platform.locale_compare t u ≢ Ordering.gt
      → platform.locale_compare s u ≢ Ordering.gt

module _ (platform : Platform) (c : IsCollation platform) where
  ranks_total :
      (a b : Scored) → ranks_before platform a b ≡ false → ranks_before platform b a ≡ true
  unfolding ranks_before
  ranks_total a b h =
      ground (arith, c.total (as_text (get "title" a.body)) (as_text (get "title" b.body)))

  ranks_trans :
      (a b d : Scored)
      → ranks_before platform a b ≡ true
      → ranks_before platform b d ≡ true
      → ranks_before platform a d ≡ true
  unfolding ranks_before
  ranks_trans a b d h k = ground (
    arith,
    c.trans (as_text (get "title" a.body)) (as_text (get "title" b.body))
        (as_text (get "title" d.body)),
  )

  ranks_order : IsOrder (ranks_before platform)
  ranks_order = record { total = ranks_total; trans = ranks_trans }

  -- Where localeCompare is a collation, the logins of a page are offered best match first: they
  -- are the matching logins, each as often as the list holds it, and none stands before one of a
  -- higher score, nor among equals before one used more often, nor among those before one whose
  -- title comes first.
  pub matches_for_ranked :
      (records : List Body) (page_host : Text)
      → (ms : List Scored) × (matches_for platform records page_host ≡ map (λ m. m.body) ms)
        × Perm ms (scored_logins platform records page_host)
        × IsSorted (ranks_before platform) ms
  unfolding matches_for
  matches_for_ranked records page_host = (
    sort (ranks_before platform) (scored_logins platform records page_host),
    refl,
    sort-perm (ranks_before platform) (scored_logins platform records page_host),
    sort-IsSorted (ranks_before platform) ranks_order (scored_logins platform records page_host),
  )
