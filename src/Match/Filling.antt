-- ===== src/Match/Filling.antt =====
-- The gates on filling (src/core/match.js).
use bencpass.Prelude.{◌≡◌, ◌↔◌, ◌⊎◌, true, false, arith, Any}
use bencpass.Map.{get}
use bencpass.Text.{Text, same}
use bencpass.Text.Codes.{codes}
use bencpass.Plain.{Body, as_urls}
use bencpass.Host.{same_site, is_private_host}
use bencpass.Match.{Platform, Frame, fill, is_login, is_insecure, can_fill, can_fill_address}
use bencpass.Match.Score.{BelongsTo, score_record-pos}

-- The password does not cross the network in the clear: the frame is not plain HTTP, or that is
-- allowed, or its host is on a private network.
abbrev pub IsGuarded : Text → Frame → Type 0
IsGuarded frame_host f =
    (same f.protocol (codes "http:") ≡ false)
    ⊎ (f.allow_insecure ≡ true)
    ⊎ (is_private_host frame_host ≡ true)

IsGuarded-iff :
    (frame_host : Text) (f : Frame) → (is_insecure frame_host f ≡ false) ↔ IsGuarded frame_host f
unfolding is_insecure
IsGuarded-iff frame_host f = (λ h. ground arith, λ h. ground arith)

module _ (platform : Platform) (frame_host : Text) (f : Frame) where
  open platform use {has_rule}

  -- A record is filled exactly when it is a login, one of its URLs is of the site of the frame
  -- that receives it, the frame is guarded (not plain HTTP, or allowed, or on a private network),
  -- and the frame is of the site of the page around it.
  pub can_fill_iff :
      (r : Body)
      → (can_fill platform r frame_host f ≡ fill) ↔ (
          (is_login r ≡ true)
          × Any (λ u. BelongsTo platform u frame_host) (as_urls (get "urls" r))
          × IsGuarded frame_host f
          × (same_site has_rule frame_host f.page_host ≡ true))
  unfolding can_fill
  can_fill_iff r =
      let scored = score_record-pos platform r frame_host in
      let guarded = IsGuarded-iff frame_host f in
      (
        λ h. (ground arith, scored.0 (ground arith), guarded.0 (ground arith), ground arith),
        λ h.
            let pos = scored.1 h.1 in
            let safe = guarded.1 h.2 in ground (arith, pos, safe, h.0, h.3),
      )

  -- An address is filled exactly when the frame is guarded and of the site of the page around it.
  pub can_fill_address_iff :
      (can_fill_address platform frame_host f ≡ fill)
      ↔ (IsGuarded frame_host f × (same_site has_rule frame_host f.page_host ≡ true))
  unfolding can_fill_address
  can_fill_address_iff =
      let guarded = IsGuarded-iff frame_host f in
      (
        λ h. (guarded.0 (ground arith), ground arith),
        λ h. let safe = guarded.1 h.0 in ground (arith, safe, h.1),
      )
