-- ===== src/Background/Stored.antt =====
-- The handlers of generated passwords keep what an open page has (src/ext/background.js).
use bencpass.Prelude.{ℕ, false, not, ◌||◌, ◌==◌, ◌≡◌, Option, none, some, if-both, arith}
use bencpass.Text.{Text}
use bencpass.Generate.Password.{
  Generated, no_set, too_short, empty_set, gave_up, out_of_draws, password,
}
use bencpass.Vault.{Vault, locked}
use bencpass.Vault.Provisional.{Keeping, kept, refused, missing}
use bencpass.Background.{
  PageBrowser, Sender, Turn, Session, filled_generated, Page, is_shut, persist_vault,
  is_extension_page,
}
use bencpass.Background.Protocol.{Message, Reply}
use bencpass.Background.Choosing.{send_to}
use bencpass.Background.Generating.{
  fill_generated, keep_password, generate_in, handle_generate, sent_generated, menu_password,
  menu_in, menu_clicked,
}
use bencpass.Background.Released.{Moment, Closes, send_to-Closes, kept-Closes}

module _ (b : PageBrowser) (since : Moment) (P Q : Page → Type 0) (c : Closes b since P Q) where
  abbrev After : Page × Reply → Type 0
  After r = Q r.0

  filled-Closes :
      (tab : Option ℕ) (frame : ℕ) (pw : Text) (v : Vault) (s : Page)
      → P s
      → P (
          send_to tab
            (λ i. filled_generated i frame pw)
            (persist_vault (record s { vault = some v })))
  filled-Closes tab frame pw v s h =
      send_to-Closes b since P Q c tab (λ i. filled_generated i frame pw)
        (persist_vault (record s { vault = some v })) (λ i e. tt) (kept-Closes b since P Q c v s h)

  fill_generated-Closes :
      (t : Turn) (u : Session) (pw : Text) (k : Keeping) (s : Page)
      → P s
      → After (fill_generated b t u pw k s)
  fill_generated-Closes t u pw (kept k v) s h =
      c.ends
        (send_to u.tab (λ i. filled_generated i u.frame pw)
          (persist_vault (record s { vault = some v })))
        (filled-Closes u.tab u.frame pw v s h)
  fill_generated-Closes t u pw (refused f) s h = c.ends s h
  fill_generated-Closes t u pw (missing id) s h = c.ends s h

  keep_password-Closes :
      (t : Turn) (u : Session) (g : Generated) (v : Vault) (s : Page)
      → P s
      → After (keep_password b t u g v s)
  keep_password-Closes t u (password pw draws) v s h = fill_generated-Closes t u pw _ s h
  keep_password-Closes t u no_set v s h = c.ends s h
  keep_password-Closes t u too_short v s h = c.ends s h
  keep_password-Closes t u empty_set v s h = c.ends s h
  keep_password-Closes t u gave_up v s h = c.ends s h
  keep_password-Closes t u out_of_draws v s h = c.ends s h

  generate_in-Closes :
      (t : Turn) (u : Option Session) (v : Option Vault) (s : Page)
      → P s
      → After (generate_in b t u v s)
  generate_in-Closes t none v s h = c.ends s h
  generate_in-Closes t (some u) none s h = c.ends s h
  generate_in-Closes t (some u) (some v) s h = keep_password-Closes t u _ v s h

  pub handle_generate-Closes :
      (t : Turn) (msg : Message) (sender : Sender) (s : Page)
      → Q s
      → (is_shut s.vault ≡ false → P s)
      → After (handle_generate b t msg sender s)
  unfolding handle_generate
  handle_generate-Closes t msg sender s q h =
      if-both After (not (is_extension_page b sender)) (λ e. q)
        (λ e.
          if-both After (is_shut s.vault) (λ f. q) (λ f. generate_in-Closes t _ s.vault s (h f)))

  sent_generated-Closes :
      (tab frame : ℕ) (pw : Text) (k : Keeping) (s : Page)
      → P s
      → Q (sent_generated b tab frame pw k s)
  sent_generated-Closes tab frame pw (kept k v) s h =
      c.ends
        (send_to (some tab) (λ i. filled_generated i frame pw)
          (persist_vault (record s { vault = some v })))
        (filled-Closes (some tab) frame pw v s h)
  sent_generated-Closes tab frame pw (refused f) s h = c.ends s h
  sent_generated-Closes tab frame pw (missing id) s h = c.ends s h

  menu_password-Closes :
      (t : Turn) (tab frame : ℕ) (source : Text) (g : Generated) (v : Vault) (s : Page)
      → P s
      → Q (menu_password b t tab frame source g v s)
  menu_password-Closes t tab frame source (password pw draws) v s h =
      sent_generated-Closes tab frame pw _ s h
  menu_password-Closes t tab frame source no_set v s h = c.ends s h
  menu_password-Closes t tab frame source too_short v s h = c.ends s h
  menu_password-Closes t tab frame source empty_set v s h = c.ends s h
  menu_password-Closes t tab frame source gave_up v s h = c.ends s h
  menu_password-Closes t tab frame source out_of_draws v s h = c.ends s h

  menu_in-Closes :
      (t : Turn) (tab frame : ℕ) (source : Text) (o : Option Vault) (s : Page)
      → Q s
      → (is_shut o ≡ false → P s)
      → Q (menu_in b t tab frame source o s)
  menu_in-Closes t tab frame source none s q h = q
  menu_in-Closes t tab frame source (some v) s q h =
      if-both Q (locked v || (tab == 0)) (λ e. q)
        (λ e. menu_password-Closes t tab frame source _ v s (h (ground (arith, e))))

  pub menu_clicked-Closes :
      (t : Turn) (tab frame : ℕ) (source : Text) (s : Page)
      → Q s
      → (is_shut s.vault ≡ false → P s)
      → Q (menu_clicked b t tab frame source s)
  unfolding menu_clicked
  menu_clicked-Closes t tab frame source s q h = menu_in-Closes t tab frame source s.vault s q h
