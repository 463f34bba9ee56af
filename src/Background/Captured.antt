-- ===== src/Background/Captured.antt =====
-- What a submitted form may lead to (src/ext/background.js).

use bencpass.Prelude.{
  ℕ, true, false, not, ◌||◌, ◌≡◌, refl, ◌⊎◌, inl, inr, Option, none, some, [], arith, if-both,
}
use bencpass.Text.{Text, same}
use bencpass.Text.Codes.{codes}
use bencpass.Plain.{Body}
use bencpass.Host.{is_empty}
use bencpass.Match.{Target, capture_target, addresses_for}
use bencpass.Fields.Captured.{plausible_username, plausible_password}
use bencpass.Vault.{Vault}
use bencpass.Vault.Importing.{some_record}
use bencpass.Background.{
  PageBrowser, Addresses, Sender, Turn, Offer, login_offer, address_offer, Pending, Page, Origin,
  is_shut, text_or, origin_of,
}
use bencpass.Background.Table.{put_at, discard}
use bencpass.Background.Protocol.{Message, as_string, Reply}
use bencpass.Background.Offering.{records_of}
use bencpass.Background.Capturing.{
  same_tab, withdraw, offer, never_for_site, is_known, id_if, or_body, is_password_of,
  offer_capture, capture_found, capture_login, raw_address, capture_address, capture_in,
  handle_capture,
}

module _ (b : PageBrowser) (a : Addresses) where
  -- An offer of what was submitted: plausible, not of a silenced site, and to be written over no
  -- record but that of this site alone or a provisional one.
  abbrev pub IsFair : Text → Text → Text → Target → Page → Offer → Type 0
  IsFair host username pw target s (login_offer url name p existing) =
      (name ≡ username)
      × (p ≡ pw)
      × (plausible_username username ≡ true)
      × (plausible_password pw ≡ true)
      × (never_for_site b a host s ≡ false)
      × (existing ≡ id_if b a (or_body b a target.overwritable target.provisional))
  IsFair host username pw target s (address_offer r name) =
      (a.is_addressish r ≡ true) × (never_for_site b a host s ≡ false)

  -- The offers stay, or that of the sender's tab goes, or is replaced by a fair one.
  abbrev pub OffersFairly : Text → Text → Text → Target → ℕ → Page → Page → Type 0
  OffersFairly host username pw target tab s u =
      (u.pending ≡ s.pending)
      ⊎ (u.pending ≡ discard same_tab tab s.pending)
      ⊎ ((x : Pending) × (x.host ≡ host)
          × (u.pending ≡ put_at same_tab tab x s.pending)
          × IsFair host username pw target s x.offer)

  -- The vault stays, and the offers are fair; or the password is that of the provisional entry.
  abbrev pub CapturesFairly : Text → Text → Text → Target → ℕ → Page → Page → Type 0
  CapturesFairly host username pw target tab s u =
      ((u.vault ≡ s.vault) × OffersFairly host username pw target tab s u)
      ⊎ ((r : Body) × (target.provisional ≡ some r) × (is_password_of b a pw r ≡ true))

  module _ (o : Origin) (username pw : Text) (target : Target) (tab : ℕ) (s : Page) where
    abbrev Fairly : Page × Reply → Type 0
    Fairly r = CapturesFairly o.frame_host username pw target tab s r.0

    offer_capture-Fairly :
        (t : Turn)
        → plausible_password pw ≡ true
        → Fairly (offer_capture b a t o tab username pw target s)
    unfolding offer_capture withdraw offer
    offer_capture-Fairly t q =
        if-both Fairly (not (plausible_username username)) (λ e. inl (refl, inl refl))
          (λ e.
            if-both Fairly (never_for_site b a o.frame_host s) (λ f. inl (refl, inl refl))
              (λ f.
                if-both Fairly (is_known b a target.candidate target.for_host username pw)
                  (λ g. inl (refl, inr (inl refl)))
                  (λ g. inl (
                    refl,
                    inr (inr (_, refl, refl, (refl, refl, ground (arith, e), q, f, refl))),
                  ))))

    capture_found-Fairly :
        (t : Turn) (x : Option Body) (v : Vault)
        → target.provisional ≡ x
        → plausible_password pw ≡ true
        → Fairly (capture_found b a t o tab username pw target x v s)
    unfolding capture_found
    capture_found-Fairly t none v h q = offer_capture-Fairly t q
    capture_found-Fairly t (some r) v h q =
        if-both Fairly (is_password_of b a pw r) (λ e. inr (r, h, e))
          (λ e. offer_capture-Fairly t q)

    capture_address-Fairly :
        (t : Turn) (msg : Message)
        → never_for_site b a o.frame_host s ≡ false
        → Fairly (capture_address b a t msg o tab s)
    unfolding capture_address withdraw offer
    capture_address-Fairly t msg q =
        let incoming = a.normalize_captured (raw_address b a msg.address []) in
        if-both Fairly (not (a.is_addressish incoming)) (λ e. inl (refl, inl refl))
          (λ e.
            if-both Fairly
              (some_record (λ r. a.matches_stored r incoming)
                (addresses_for b.pages (records_of s.vault)))
              (λ f. inl (refl, inr (inl refl)))
              (λ f. inl (refl, inr (inr (_, refl, refl, (ground (arith, e), q))))))

  -- The outcome for the sender's tab, where the vault is `v`; without a tab nothing changes.
  abbrev pub CaptureOutcome : Message → Origin → Option ℕ → Option Vault → Page → Page → Type 0
  CaptureOutcome msg o none v s u = u ≡ s
  CaptureOutcome msg o (some tab) v s u =
      CapturesFairly o.frame_host (as_string msg.username 256) (as_string msg.password 1024)
        (capture_target b.pages (records_of v) o.frame_host (as_string msg.username 256)) tab s u

  module _ (t : Turn) (msg : Message) (o : Origin) (tab : ℕ) (v : Vault) (s : Page) where
    abbrev Ends : Page × Reply → Type 0
    Ends r = CaptureOutcome msg o (some tab) (some v) s r.0

    capture_login-CaptureOutcome : Ends (capture_login b a t msg o tab v s)
    unfolding capture_login
    capture_login-CaptureOutcome =
        let username = as_string msg.username 256 in
        let pw = as_string msg.password 1024 in
        let target = capture_target b.pages (records_of (some v)) o.frame_host username in
        if-both Ends (is_empty pw || not (plausible_password pw)) (λ e. inl (refl, inl refl))
          (λ e.
            capture_found-Fairly o username pw target tab s t target.provisional v refl
              (ground (arith, e)))

    capture_open-CaptureOutcome : Ends (capture_in b a t msg o (some tab) (some v) s)
    capture_open-CaptureOutcome =
        let username = as_string msg.username 256 in
        let pw = as_string msg.password 1024 in
        let target = capture_target b.pages (records_of (some v)) o.frame_host username in
        if-both Ends (is_shut (some v) || is_empty o.frame_host) (λ e. inl (refl, inl refl))
          (λ e.
            if-both Ends (same (text_or msg.kind []) (codes "address"))
              (λ f.
                if-both Ends (never_for_site b a o.frame_host s) (λ g. inl (refl, inl refl))
                  (λ g. capture_address-Fairly o username pw target tab s t msg g))
              (λ f. capture_login-CaptureOutcome))

  capture_in-CaptureOutcome :
      (t : Turn) (msg : Message) (o : Origin) (x : Option ℕ) (y : Option Vault) (s : Page)
      → CaptureOutcome msg o x y s (capture_in b a t msg o x y s).0
  capture_in-CaptureOutcome t msg o none y s = refl
  capture_in-CaptureOutcome t msg o (some tab) none s = inl (refl, inl refl)
  capture_in-CaptureOutcome t msg o (some tab) (some v) s =
      capture_open-CaptureOutcome t msg o tab v s

-- A submitted form changes the vault only where its password is that of the provisional entry for
-- the site. Else the offers stay, or the offer of the sender's tab goes or is replaced by one for
-- the sender's site: of an address, or of the submitted login, which is plausible, with the record
-- of this site alone or the provisional one as the record to be written over. No offer is made for
-- a silenced site. Without a tab nothing changes.
pub handle_capture-CaptureOutcome :
    (b : PageBrowser) (a : Addresses) (t : Turn) (msg : Message) (sender : Sender) (s : Page)
    → CaptureOutcome b a msg
        (origin_of b sender)
        (origin_of b sender).tab
        s.vault
        s
        (handle_capture b a t msg sender s).0
unfolding handle_capture
handle_capture-CaptureOutcome b a t msg sender s =
    capture_in-CaptureOutcome b a t msg (origin_of b sender) (origin_of b sender).tab s.vault s
