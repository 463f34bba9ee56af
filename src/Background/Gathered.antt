-- ===== src/Background/Gathered.antt =====
-- What a capture and a saved offer keep of the page (src/ext/background.js).
use bencpass.Prelude.{
  ℕ, Bool, true, false, not, ◌||◌, ◌≡◌, ◌⊎◌, inl, inr, Option, none, some, [], if-both, arith,
  if◌then◌else◌,
}
use bencpass.Text.{Text, same}
use bencpass.Text.Codes.{codes}
use bencpass.Plain.{Body}
use bencpass.Host.{is_empty}
use bencpass.Match.{Target, addresses_for, capture_target}
use bencpass.Fields.Captured.{plausible_username, plausible_password}
use bencpass.Vault.{Vault, Fault}
use bencpass.Vault.Importing.{entry_of, some_record}
use bencpass.Background.{
  PageBrowser, Addresses, Sender, Turn, Pending, Page, Origin, is_shut, text_or, origin_of,
  persist_vault, is_extension_page,
}
use bencpass.Background.Protocol.{Message, as_string, Reply, done, merged}
use bencpass.Background.Offering.{records_of, record_id}
use bencpass.Background.Capturing.{
  withdraw, offer, never_for_site, conclude_capture, is_other, id_or_blank, rotate_entry, or_kept,
  complete_found, complete_capture, is_known, is_password_of, offer_capture, capture_found,
  capture_login, raw_address, capture_address, capture_in, handle_capture,
}
use bencpass.Background.Saving.{saved, save_in, pending_for, handle_save}
use bencpass.Background.Released.{Moment, Closes, kept-Closes}

module _ (b : PageBrowser) (since : Moment) (a : Addresses) (P Q : Page → Type 0)
    (c : Closes b since P Q) where
  abbrev After : Page × Reply → Type 0
  After r = Q r.0

  withdraw-Closes : (tab : ℕ) (s : Page) → P s → P (withdraw tab s)
  unfolding withdraw
  withdraw-Closes tab s h = c.offers _ s h

  offer-Closes : (tab : ℕ) (o : Pending) (s : Page) → P s → P (offer tab o s)
  unfolding offer
  offer-Closes tab o s h = c.offers _ s h

  conclude_capture-Closes :
      (tab : ℕ) (answer : Reply) (x : Vault × Option Fault) (s : Page)
      → P s
      → After (conclude_capture b a tab answer x s)
  conclude_capture-Closes tab answer (v, some f) s h =
      c.ends (record s { vault = some v }) (c.changes v s h)
  conclude_capture-Closes tab answer (v, none) s h =
      c.ends (withdraw tab (persist_vault (record s { vault = some v }))) (
        withdraw-Closes tab (persist_vault (record s { vault = some v }))
          (kept-Closes b since P Q c v s h))

  complete_capture-Closes :
      (t : Turn) (tab : ℕ) (username pw : Text) (target : Target) (r : Body) (v : Vault) (s : Page)
      → P s
      → After (complete_capture b a t tab username pw target r v s)
  unfolding complete_capture
  complete_capture-Closes t tab username pw target r v s h =
      if-both After (is_other b a target.overwritable r)
        (λ e.
          conclude_capture-Closes tab (merged true)
            (rotate_entry b a t (id_or_blank b a target.overwritable) (record_id r) pw v) s h)
        (λ e.
          conclude_capture-Closes tab done
            (or_kept b a v (
              complete_found b a t r (if plausible_username username then username else [])
                (entry_of (record_id r) v.plain) v))
            s h)

  offer_capture-Closes :
      (t : Turn) (o : Origin) (tab : ℕ) (username pw : Text) (target : Target) (s : Page)
      → P s
      → After (offer_capture b a t o tab username pw target s)
  unfolding offer_capture
  offer_capture-Closes t o tab username pw target s h =
      if-both After (not (plausible_username username)) (λ e. c.ends s h)
        (λ e.
          if-both After (never_for_site b a o.frame_host s) (λ f. c.ends s h)
            (λ f.
              if-both After (is_known b a target.candidate target.for_host username pw)
                (λ g. c.ends (withdraw tab s) (withdraw-Closes tab s h))
                (λ g. c.ends (offer tab _ s) (offer-Closes tab _ s h))))

  capture_found-Closes :
      (t : Turn) (o : Origin) (tab : ℕ) (username pw : Text) (target : Target) (x : Option Body)
      (v : Vault) (s : Page)
      → P s
      → After (capture_found b a t o tab username pw target x v s)
  unfolding capture_found
  capture_found-Closes t o tab username pw target none v s h =
      offer_capture-Closes t o tab username pw target s h
  capture_found-Closes t o tab username pw target (some r) v s h =
      if-both After (is_password_of b a pw r)
        (λ e. complete_capture-Closes t tab username pw target r v s h)
        (λ e. offer_capture-Closes t o tab username pw target s h)

  capture_login-Closes :
      (t : Turn) (msg : Message) (o : Origin) (tab : ℕ) (v : Vault) (s : Page)
      → P s
      → After (capture_login b a t msg o tab v s)
  unfolding capture_login
  capture_login-Closes t msg o tab v s h =
      let username = as_string msg.username 256 in
      let pw = as_string msg.password 1024 in
      let target = capture_target b.pages (records_of (some v)) o.frame_host username in
      if-both After (is_empty pw || not (plausible_password pw)) (λ e. c.ends s h)
        (λ e. capture_found-Closes t o tab username pw target target.provisional v s h)

  capture_address-Closes :
      (t : Turn) (msg : Message) (o : Origin) (tab : ℕ) (s : Page)
      → P s
      → After (capture_address b a t msg o tab s)
  unfolding capture_address
  capture_address-Closes t msg o tab s h =
      let incoming = a.normalize_captured (raw_address b a msg.address []) in
      if-both After (not (a.is_addressish incoming)) (λ e. c.ends s h)
        (λ e.
          if-both After
            (some_record (λ r. a.matches_stored r incoming)
              (addresses_for b.pages (records_of s.vault)))
            (λ f. c.ends (withdraw tab s) (withdraw-Closes tab s h))
            (λ f. c.ends (offer tab _ s) (offer-Closes tab _ s h)))

  capture_in-Closes :
      (t : Turn) (msg : Message) (o : Origin) (x : Option ℕ) (y : Option Vault) (s : Page)
      → Q s
      → (is_shut y ≡ false → P s)
      → After (capture_in b a t msg o x y s)
  capture_in-Closes t msg o none y s q h = q
  capture_in-Closes t msg o (some tab) none s q h = q
  capture_in-Closes t msg o (some tab) (some v) s q h =
      if-both After (is_shut (some v) || is_empty o.frame_host) (λ e. q)
        (λ e.
          let p = h (ground (arith, e)) in
          if-both After (same (text_or msg.kind []) (codes "address"))
            (λ f.
              if-both After (never_for_site b a o.frame_host s) (λ g. q)
                (λ g. capture_address-Closes t msg o tab s p))
            (λ f. capture_login-Closes t msg o tab v s p))

  pub handle_capture-Closes :
      (t : Turn) (msg : Message) (sender : Sender) (s : Page)
      → Q s
      → (is_shut s.vault ≡ false → P s)
      → After (handle_capture b a t msg sender s)
  unfolding handle_capture
  handle_capture-Closes t msg sender s q h =
      capture_in-Closes t msg (origin_of b sender) (origin_of b sender).tab s.vault s q h

  saved-Closes :
      (t : Turn) (tab : ℕ) (x : (Fault ⊎ Vault) × Bool) (s : Page)
      → P s
      → After (saved b a t tab x s)
  saved-Closes t tab (inl f, m) s h = c.ends s h
  saved-Closes t tab (inr v, m) s h =
      c.bumps t.now (withdraw tab (persist_vault (record s { vault = some v }))) (
        withdraw-Closes tab (persist_vault (record s { vault = some v }))
          (kept-Closes b since P Q c v s h))

  save_in-Closes :
      (t : Turn) (msg : Message) (x : Option (ℕ × Pending)) (y : Option Vault) (s : Page)
      → P s
      → After (save_in b a t msg x y s)
  save_in-Closes t msg none y s h = c.ends s h
  save_in-Closes t msg (some (tab, o)) none s h = c.ends s h
  save_in-Closes t msg (some (tab, o)) (some v) s h = saved-Closes t tab _ s h

  pub handle_save-Closes :
      (t : Turn) (msg : Message) (sender : Sender) (s : Page)
      → Q s
      → (is_shut s.vault ≡ false → P s)
      → After (handle_save b a t msg sender s)
  unfolding handle_save
  handle_save-Closes t msg sender s q h =
      if-both After (not (is_extension_page b sender)) (λ e. q)
        (λ e.
          if-both After (is_shut s.vault) (λ f. q)
            (λ f. save_in-Closes t msg (pending_for b a t msg sender s) s.vault s (h f)))
