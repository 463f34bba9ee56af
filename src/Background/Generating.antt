-- ===== src/Background/Generating.antt =====
-- Generated passwords (src/ext/background.js): handleGenerate, and the item of the context menu.
use bencpass.Prelude.{
  ℕ, true, false, not, ◌||◌, Option, none, some, [], ◌∷◌, ◌++◌, ◌==◌, if◌then◌else◌,
}
use bencpass.Text.{Text, same}
use bencpass.Text.Codes.{codes}
use bencpass.Match.{host_of}
use bencpass.Generate.Password.{Options, Generated, password, generate}
use bencpass.Vault.{locked, Vault}
use bencpass.Vault.Provisional.{Keeping, kept, keep_generated}
use bencpass.Background.{
  PageBrowser, Sender, Turn, Session, filled_generated, Page, https, is_shut, text_or,
  persist_vault, is_extension_page,
}
use bencpass.Background.Table.{lookup}
use bencpass.Background.Protocol.{Message, as_string, Reply, failed, done, threw}
use bencpass.Background.Choosing.{send_to, is_reached}

-- `{ length: 20 }`, with the defaults
abbrev pub generate_options : Options
generate_options = record {
  length = 20;
  lower = true;
  upper = true;
  digits = true;
  symbols = true;
  avoid_ambiguous = false;
}

-- The protocol and the host, or nothing where there is no host
abbrev pub site_url : Text → Text → Text
site_url protocol [] = []
site_url protocol (c ∷ host) = protocol ++ codes "//" ++ c ∷ host

module _ (b : PageBrowser) where
  abbrev pub fill_generated : Turn → Session → Text → Keeping → Page → Page × Reply
  fill_generated t session pw (kept k w) s =
      let sent =
        send_to session.tab (λ tab. filled_generated tab session.frame pw)
          (persist_vault (record s { vault = some w })) in
      (sent, if is_reached session.tab t.reached then done else threw)
  fill_generated t session pw _ s = (s, threw)

  abbrev pub keep_password : Turn → Session → Generated → Vault → Page → Page × Reply
  keep_password t session (password pw draws) v s =
      fill_generated t session pw
        (keep_generated b.crypto t.fresh t.now b.pages session.frame_host
          (site_url session.protocol session.frame_host) pw v)
        s
  keep_password t session _ v s = (s, threw)

  abbrev pub generate_in : Turn → Option Session → Option Vault → Page → Page × Reply
  generate_in t (some session) (some v) s =
      keep_password t session (generate generate_options t.draws) v s
  generate_in t _ _ s = (s, failed [])

  -- `handleGenerate`
  unfoldable pub handle_generate : Turn → Message → Sender → Page → Page × Reply
  unfolding is_extension_page lookup same generate keep_generated
  handle_generate t msg sender s =
      if not (is_extension_page b sender)
      then (s, failed [])
      else if is_shut s.vault
      then (s, failed (codes "locked"))
      else generate_in t (lookup same (as_string msg.session_id 64) s.sessions) s.vault s

  abbrev pub sent_generated : ℕ → ℕ → Text → Keeping → Page → Page
  sent_generated tab frame pw (kept k w) s =
      send_to (some tab) (λ i. filled_generated i frame pw)
        (persist_vault (record s { vault = some w }))
  sent_generated tab frame pw _ s = s

  abbrev pub menu_password : Turn → ℕ → ℕ → Text → Generated → Vault → Page → Page
  menu_password t tab frame source (password pw draws) v s =
      let host = host_of b.pages source in
      sent_generated tab frame pw
        (keep_generated b.crypto t.fresh t.now b.pages host
          (site_url (text_or (b.protocol_of source) https) host) pw v)
        s
  menu_password t tab frame source _ v s = s

  abbrev pub menu_in : Turn → ℕ → ℕ → Text → Option Vault → Page → Page
  menu_in t tab frame source none s = s
  menu_in t tab frame source (some v) s =
      if locked v || (tab == 0)
      then s
      else menu_password t tab frame source (generate generate_options t.draws) v s

  -- The listener of `browser.menus.onClicked`, for a frame of a tab that shows `source`
  unfoldable pub menu_clicked : Turn → ℕ → ℕ → Text → Page → Page
  unfolding generate keep_generated host_of
  menu_clicked t tab frame source s = menu_in t tab frame source s.vault s
