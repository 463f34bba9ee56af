-- ===== src/Background/Choosing.antt =====
-- The only path by which a secret leaves (src/ext/background.js): handleChoose, chooseForActiveTab.
use bencpass.Prelude.{
  ℕ, String, Bool, true, false, not, Option, none, some, [], ◌∷◌, ◌++◌, ◌⊎◌, inl, inr, ◌==◌,
  if◌then◌else◌,
}
use bencpass.Map.{Map, get}
use bencpass.Text.{Text, same}
use bencpass.Text.Codes.{codes}
use bencpass.Plain.{Body, as_text}
use bencpass.Match.{
  Verdict, Reason, fill, refuse, not_a_login, origin_mismatch, insecure_page, cross_origin_frame,
  host_of, can_fill, can_fill_address,
}
use bencpass.Vault.{Vault, Fault}
use bencpass.Vault.Records.{touch_used}
use bencpass.Vault.Importing.{entry_of, with_id, rev_of}
use bencpass.Background.{
  PageBrowser, Addresses, AddressValues, Tab, Sender, Turn, MenuKind, address_menu, Session, Effect,
  filled_login, filled_address, Page, is_shut, text_or, https, persist_vault, bump_autolock,
  is_extension_page,
}
use bencpass.Background.Table.{lookup, discard}
use bencpass.Background.Protocol.{Message, as_string, as_id, Reply, failed, done, threw}
use bencpass.Background.Offering.{frame_of, has_text}

abbrev pub reason_text : Reason → Text
reason_text not_a_login = codes "not-a-login"
reason_text origin_mismatch = codes "origin-mismatch"
reason_text insecure_page = codes "insecure-page"
reason_text cross_origin_frame = codes "cross-origin-frame"

abbrev pub found_in : Vault → Option (String × Body) → Option (String × Body)
found_in v none = none
found_in v (some (k, plain)) = some (k, with_id k (rev_of (get k v.envelopes)) plain)

-- `vault.get(id)`, with the key that the record has in the vault
unfoldable pub record_of : Text → Option Vault → Option (String × Body)
unfolding entry_of with_id get
record_of id none = none
record_of id (some v) = found_in v (entry_of id v.plain)

abbrev pub is_address_menu : MenuKind → Bool
is_address_menu address_menu = true
is_address_menu _ = false

abbrev pub has_values : Map Text → Bool
has_values [] = false
has_values (v ∷ vs) = true

abbrev pub touched : Fault ⊎ Vault → Page → Page
touched (inl f) s = s
touched (inr w) s = persist_vault (record s { vault = some w })

-- What is sent to a tab; without a tab the call throws.
abbrev pub send_to : Option ℕ → (ℕ → Effect) → Page → Page
send_to none e s = s
send_to (some tab) e s = record s { effects = s.effects ++ e tab ∷ [] }

abbrev pub is_reached : Option ℕ → Bool → Bool
is_reached none reached = false
is_reached (some tab) reached = reached

abbrev pub username_of : Body → Text
username_of r = as_text (get "username" r)

abbrev pub password_of : Body → Text
password_of r = as_text (get "password" r)

module _ (b : PageBrowser) (a : Addresses) where
  unfoldable pub touch_in : Turn → String → Option Vault → Page → Page
  unfolding touch_used
  touch_in t k none s = s
  touch_in t k (some v) s = touched (touch_used b.crypto t.fresh.nonce k t.now v) s

  -- `vault.touchUsed(recordId).then(persistVault).catch(() => {})`
  unfoldable pub touch : Turn → String → Page → Page
  unfolding touch_in
  touch t k s = touch_in t k s.vault s

  -- After the message to the tab: the session is used up, unless the tab did not take it.
  unfoldable pub used_up : Turn → Text → Session → Page → Page × Reply
  unfolding bump_autolock discard same
  used_up t id session s =
      if is_reached session.tab t.reached
      then (bump_autolock t.now (record s { sessions = discard same id s.sessions }), done)
      else (s, threw)

  abbrev pub answer_address : Turn → Text → Session → AddressValues → Page → Page × Reply
  answer_address t id session answers s =
      if has_values answers.values
      then used_up t id session
          (send_to session.tab (λ tab. filled_address tab session.frame answers) s)
      else (s, failed (codes "nothing-to-fill"))

  abbrev pub address_verdict : Turn → Text → Session → Body → Verdict → Page → Page × Reply
  address_verdict t id session r fill s =
      answer_address t id session (a.values_for_tokens r session.tokens) s
  address_verdict t id session r (refuse reason) s = (s, failed (reason_text reason))

  unfoldable pub choose_address : Turn → Text → Session → Body → Page → Page × Reply
  unfolding can_fill_address used_up
  choose_address t id session r s =
      address_verdict t id session r
        (can_fill_address b.pages session.frame_host
          (frame_of s.settings.allow_insecure session.page_host session.protocol))
        s

  abbrev pub login_verdict : Turn → Text → Session → String → Body → Verdict → Page → Page × Reply
  login_verdict t id session k r fill s = used_up t id session (
      send_to session.tab (λ tab. filled_login tab session.frame (username_of r) (password_of r))
        (touch t k s))
  login_verdict t id session k r (refuse reason) s = (s, failed (reason_text reason))

  unfoldable pub choose_login : Turn → Text → Session → String → Body → Page → Page × Reply
  unfolding can_fill used_up touch get
  choose_login t id session k r s =
      login_verdict t id session k r
        (can_fill b.pages r session.frame_host
          (frame_of s.settings.allow_insecure session.page_host session.protocol))
        s

  unfoldable pub choose_record :
      Turn → Text → Session → Option (String × Body) → Page → Page × Reply
  unfolding choose_address choose_login
  choose_record t id session none s = (s, failed (codes "gone"))
  choose_record t id session (some (k, r)) s =
      if is_address_menu session.kind
      then choose_address t id session r s
      else choose_login t id session k r s

  abbrev pub stale : Page → Page × Reply
  stale s = (s, failed (codes "stale-session"))

  unfoldable pub choose_in : Turn → Text → Option Session → Option Text → Page → Page × Reply
  unfolding choose_record record_of has_text
  choose_in t id none wanted s = stale s
  choose_in t id (some session) none s = stale s
  choose_in t id (some session) (some wanted) s =
      if has_text wanted session.ids
      then choose_record t id session (record_of wanted s.vault) s
      else stale s

  abbrev pub active_verdict : Turn → Tab → String → Body → Verdict → Page → Page × Reply
  active_verdict t tab k r fill s =
      let sent = send_to (some tab.id) (λ i. filled_login i 0 (username_of r) (password_of r)) s in
      if t.reached then (bump_autolock t.now (touch t k sent), done) else (sent, threw)
  active_verdict t tab k r (refuse reason) s = (s, failed (reason_text reason))

  -- The fill of the tab in front, for the popup
  unfoldable pub fill_active : Turn → Tab → String → Body → Page → Page × Reply
  unfolding can_fill host_of touch bump_autolock get
  fill_active t tab k r s =
      let host = host_of b.pages tab.url in
      active_verdict t tab k r
        (can_fill b.pages r host
          (frame_of s.settings.allow_insecure host (text_or (b.protocol_of tab.url) https)))
        s

  abbrev pub fill_record : Turn → Tab → Option (String × Body) → Page → Page × Reply
  fill_record t tab none s = (s, failed (codes "gone"))
  fill_record t tab (some (k, r)) s = fill_active t tab k r s

  abbrev pub in_front : Turn → Option Tab → Text → Page → Page × Reply
  in_front t none wanted s = (s, failed (codes "no-tab"))
  in_front t (some tab) wanted s =
      if tab.id == 0
      then (s, failed (codes "no-tab"))
      else fill_record t tab (record_of wanted s.vault) s

  -- `chooseForActiveTab`
  unfoldable pub choose_for_active_tab : Turn → Option Text → Page → Page × Reply
  unfolding fill_active record_of
  choose_for_active_tab t none s = (s, failed (codes "gone"))
  choose_for_active_tab t (some wanted) s = in_front t t.active wanted s

  -- `handleChoose`
  unfoldable pub handle_choose : Turn → Message → Sender → Page → Page × Reply
  unfolding is_extension_page choose_for_active_tab choose_in lookup same as_id
  handle_choose t msg sender s =
      let id = as_string msg.session_id 64 in
      if not (is_extension_page b sender)
      then (s, failed (codes "not-extension"))
      else if is_shut s.vault
      then (s, failed (codes "locked"))
      else if msg.active
      then choose_for_active_tab t (as_id msg.record_id) s
      else choose_in t id (lookup same id s.sessions) (as_id msg.record_id) s
