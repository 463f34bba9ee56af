-- ===== src/Background/Quiet.antt =====
-- A locked page gathers no secret (src/ext/background.js).
use bencpass.Prelude.{
  ℕ, Bool, true, false, not, ◌&&◌, ◌||◌, ◌==◌, ◌≡◌, arith, refl, Option, none, some, if-both,
}
use bencpass.Text.{Text, same}
use bencpass.Host.{is_empty}
use bencpass.Vault.{Vault, locked}
use bencpass.Background.{
  PageBrowser, Addresses, Sender, Turn, Session, Pending, Page, Origin, is_shut, origin_of,
  reap_sessions, is_extension_page,
}
use bencpass.Background.Table.{lookup}
use bencpass.Background.Protocol.{
  save, discard as discard_message, never_site, unlock as unlock_message, lock, bio_unlock, setup,
  MessageType, candidates, capture, session, unlocked, choose, generate as generate_message, close,
  Message, as_string, Reply, is_content_callable,
}
use bencpass.Background.Offering.{
  locked_session, close_found, handle_candidates, handle_close, has_text, handle_session,
}
use bencpass.Background.Choosing.{handle_choose}
use bencpass.Background.Generating.{handle_generate, menu_in, menu_clicked}
use bencpass.Background.Capturing.{site_key, capture_in, handle_capture}
use bencpass.Background.Saving.{
  pending_for, handle_save, discard_in, handle_discard, silence, never_in, handle_never,
}
use bencpass.Background.Unlocking.{handle_unlock, handle_bio_unlock, handle_unlocked}
use bencpass.Background.Machine.{
  Given, dispatch_to, dispatch, listen, Step, hears, times_out, goes_idle, clicks_menu, opens,
  loses_tab, elsewhere,
}
use bencpass.Background.Released.{discard-All, live_sessions-All}
use bencpass.Background.QuietOpening.{
  NamesNone, IsQuiet, open_session-IsQuiet, withdraw-IsQuiet, vault-IsQuiet, bump_autolock-IsQuiet,
  lock_page-IsQuiet, opened_up-IsQuiet, unlock_in-IsQuiet, bio_in-IsQuiet, handle_setup-IsQuiet,
}

not_both : (x y : Bool) → x ≡ true → (x || y) ≡ false → ⊥
not_both x y p e = ground (arith, p, e)

module _ (b : PageBrowser) (a : Addresses) where
  abbrev After : Page × Reply → Type 0
  After r = IsQuiet r.0

  discard_in-IsQuiet :
      (x : Option (ℕ × Pending)) (s : Page) → IsQuiet s → After (discard_in b a x s)
  discard_in-IsQuiet none s h = h
  discard_in-IsQuiet (some (tab, o)) s h = withdraw-IsQuiet b tab s h

  silence-IsQuiet : (site : Text) (s : Page) → IsQuiet s → IsQuiet (silence b a site s)
  unfolding silence
  silence-IsQuiet site s h =
      if-both IsQuiet (is_empty site || has_text site s.settings.never_sites) (λ e. h)
        (λ e. record { no_offer = h.no_offer; unnamed = h.unnamed })

  never_in-IsQuiet : (x : Option (ℕ × Pending)) (s : Page) → IsQuiet s → After (never_in b a x s)
  never_in-IsQuiet none s h = h
  never_in-IsQuiet (some (tab, o)) s h =
      withdraw-IsQuiet b tab (silence b a (site_key b a o.host) s)
        (silence-IsQuiet (site_key b a o.host) s h)

  capture_in-IsQuiet :
      (t : Turn) (msg : Message) (o : Origin) (x : Option ℕ) (y : Option Vault) (s : Page)
      → is_shut y ≡ true
      → IsQuiet s
      → After (capture_in b a t msg o x y s)
  capture_in-IsQuiet t msg o none y s q h = h
  capture_in-IsQuiet t msg o (some tab) none s q h = h
  capture_in-IsQuiet t msg o (some tab) (some v) s q h =
      if-both After (is_shut (some v) || is_empty o.frame_host) (λ e. h)
        (λ e. elim (not_both (is_shut (some v)) (is_empty o.frame_host) q e) [ ])

  close_found-IsQuiet :
      (id : Text) (o : Option Session) (s : Page) → IsQuiet s → After (close_found b a id o s)
  close_found-IsQuiet id none s h = h
  close_found-IsQuiet id (some t) s h = record {
    no_offer = h.no_offer;
    unnamed = discard-All NamesNone id s.sessions h.unnamed;
  }

  menu_in-IsQuiet :
      (t : Turn) (tab frame : ℕ) (source : Text) (o : Option Vault) (s : Page)
      → is_shut o ≡ true
      → IsQuiet s
      → IsQuiet (menu_in b t tab frame source o s)
  menu_in-IsQuiet t tab frame source none s q h = h
  menu_in-IsQuiet t tab frame source (some v) s q h =
      if-both IsQuiet (locked v || (tab == 0)) (λ e. h)
        (λ e. elim (not_both (locked v) (tab == 0) q e) [ ])

  dispatch_to-IsQuiet :
      (k : MessageType) (t : Turn) (g : Given) (msg : Message) (sender : Sender) (s : Page)
      → is_shut s.vault ≡ true
      → IsQuiet s
      → After (dispatch_to b a k t g msg sender s)
  unfolding dispatch_to handle_candidates handle_session handle_choose handle_generate
      handle_capture handle_save handle_discard handle_never handle_close handle_unlock
      handle_bio_unlock handle_unlocked
  dispatch_to-IsQuiet candidates t g msg sender s q h =
      if-both After (is_shut s.vault)
        (λ e. open_session-IsQuiet b t.new_id (locked_session t.now (origin_of b sender)) s refl h)
        (λ e. cc (q, e))
  dispatch_to-IsQuiet session t g msg sender s q h =
      if-both After (not (is_extension_page b sender)) (λ e. h) (λ e. h)
  dispatch_to-IsQuiet choose t g msg sender s q h =
      if-both After (not (is_extension_page b sender)) (λ e. h)
        (λ e. if-both After (is_shut s.vault) (λ f. h) (λ f. cc (q, f)))
  dispatch_to-IsQuiet generate_message t g msg sender s q h =
      if-both After (not (is_extension_page b sender)) (λ e. h)
        (λ e. if-both After (is_shut s.vault) (λ f. h) (λ f. cc (q, f)))
  dispatch_to-IsQuiet capture t g msg sender s q h =
      capture_in-IsQuiet t msg (origin_of b sender) (origin_of b sender).tab s.vault s q h
  dispatch_to-IsQuiet unlock_message t g msg sender s q h =
      if-both After (not (is_extension_page b sender)) (λ e. h)
        (λ e. unlock_in-IsQuiet b t msg s.vault s h)
  dispatch_to-IsQuiet lock t g msg sender s q h = lock_page-IsQuiet b s
  dispatch_to-IsQuiet setup t g msg sender s q h = handle_setup-IsQuiet b t g msg sender s h
  dispatch_to-IsQuiet bio_unlock t g msg sender s q h = bio_in-IsQuiet b t g.secret s.vault s h
  dispatch_to-IsQuiet save t g msg sender s q h =
      if-both After (not (is_extension_page b sender)) (λ e. h)
        (λ e. if-both After (is_shut s.vault) (λ f. h) (λ f. cc (q, f)))
  dispatch_to-IsQuiet discard_message t g msg sender s q h =
      discard_in-IsQuiet (pending_for b a t msg sender s) s h
  dispatch_to-IsQuiet never_site t g msg sender s q h =
      if-both After (not (is_extension_page b sender)) (λ e. h)
        (λ e. never_in-IsQuiet (pending_for b a t msg sender s) s h)
  dispatch_to-IsQuiet close t g msg sender s q h =
      if-both After (not (is_extension_page b sender)) (λ e. h)
        (λ e.
          close_found-IsQuiet (as_string msg.session_id 64)
            (lookup same (as_string msg.session_id 64) s.sessions) s h)
  dispatch_to-IsQuiet unlocked t g msg sender s q h =
      if-both After (not (is_extension_page b sender)) (λ e. h) (λ e. opened_up-IsQuiet b t s h)
  dispatch_to-IsQuiet _ t g msg sender s q h = h

  reap_sessions-IsQuiet : (now : ℕ) (s : Page) → IsQuiet s → IsQuiet (reap_sessions now s)
  unfolding reap_sessions
  reap_sessions-IsQuiet now s h = record {
    no_offer = h.no_offer;
    unnamed = live_sessions-All NamesNone now s.sessions h.unnamed;
  }

  listen-IsQuiet :
      (t : Turn) (g : Given) (msg : Message) (sender : Sender) (s : Page)
      → is_shut s.vault ≡ true
      → IsQuiet s
      → After (listen b a t g msg sender s)
  unfolding listen dispatch reap_sessions
  listen-IsQuiet t g msg sender s q h =
      if-both After (not (is_content_callable msg.type) && not (is_extension_page b sender))
        (λ e. h)
        (λ e.
          dispatch_to-IsQuiet msg.type t g msg sender (reap_sessions t.now s) q
            (reap_sessions-IsQuiet t.now s h))

  -- While the vault is locked, no step of the page makes a captured password wait or opens a menu
  -- that names a record, where there was none.
  pub Step-IsQuiet : (s u : Page) → Step b a s u → is_shut s.vault ≡ true → IsQuiet s → IsQuiet u
  unfolding menu_clicked
  Step-IsQuiet s _ (hears t g msg sender) q h = listen-IsQuiet t g msg sender s q h
  Step-IsQuiet s _ (times_out now d) q h = lock_page-IsQuiet b s
  Step-IsQuiet s _ goes_idle q h = lock_page-IsQuiet b s
  Step-IsQuiet s _ (clicks_menu t tab frame source) q h =
      menu_in-IsQuiet t tab frame source s.vault s q h
  Step-IsQuiet s _ (opens now v e) q h =
      bump_autolock-IsQuiet b now (record s { vault = some v }) (vault-IsQuiet b v s h)
  Step-IsQuiet s _ (loses_tab tab) q h = withdraw-IsQuiet b tab s h
  Step-IsQuiet s _ (elsewhere v settings e) q h = record {
    no_offer = h.no_offer;
    unnamed = h.unnamed;
  }
