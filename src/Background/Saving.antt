-- ===== src/Background/Saving.antt =====
-- What becomes of an offer (src/ext/background.js): handleSave, handleDiscard and handleNever.
use bencpass.Prelude.{
  ℕ, String, Bool, true, false, not, ◌||◌, ◌&&◌, Option, none, some, [], ◌∷◌, ◌++◌, ◌⊎◌, inl, inr,
  if◌then◌else◌,
}
use bencpass.Map.{get}
use bencpass.Text.{Text, same, trim, to_lower}
use bencpass.Text.Codes.{codes}
use bencpass.Plain.{Body, str, urls, flag, as_text, is_truthy, spread}
use bencpass.Host.{is_empty}
use bencpass.Match.{addresses_for, find}
use bencpass.Vault.{Vault, Fault}
use bencpass.Vault.Records.{add}
use bencpass.Vault.Provisional.{user_of}
use bencpass.Background.{
  PageBrowser, Addresses, Sender, Turn, Offer, login_offer, address_offer, Pending, Page, is_shut,
  tab_id, persist_vault, bump_autolock, is_extension_page,
}
use bencpass.Background.Table.{lookup}
use bencpass.Background.Protocol.{Message, as_string, Reply, failed, done, threw, merged, silenced}
use bencpass.Background.Offering.{records_of, record_id, has_text}
use bencpass.Background.Choosing.{record_of}
use bencpass.Background.Capturing.{same_tab, withdraw, update_at, site_key}

abbrev pub or_tab : Option ℕ → Option ℕ → Option ℕ
or_tab none o = o
or_tab (some t) o = some t

abbrev pub or_title : Text → Text → Text
or_title [] t = t
or_title (c ∷ s) t = c ∷ s

-- The fields of a login that is saved new
abbrev pub login_fields_of : Text → Text → Text → Text → Body
login_fields_of host url username pw =
    ("title", str host)
    ∷ ("username", str username)
    ∷ ("password", str pw)
    ∷ ("urls", urls (url ∷ []))
    ∷ []

-- The patch of a login that is there; a provisional one is completed.
abbrev pub login_patch : Text → Text → Body → Body
login_patch username pw r =
    if is_truthy (get "provisional" r)
    then ("password", str pw)
      ∷ ("username", user_of username (get "username" r))
      ∷ ("provisional", flag false)
      ∷ []
    else ("password", str pw) ∷ []

abbrev pub id_record : Option Text → Option Vault → Option (String × Body)
id_record none v = none
id_record (some id) v = record_of id v

module _ (b : PageBrowser) (a : Addresses) where
  -- The tab that a message is about: its own, or the one in front
  abbrev pub tab_of : Turn → Sender → Option ℕ
  tab_of t sender = or_tab (tab_id sender.tab) (tab_id t.active)

  abbrev pub is_toast : Option Text → Bool
  is_toast none = false
  is_toast (some url) = same url (b.extension_url ++ codes "ext/toast.html")

  abbrev pub vouched : Message → Sender → Option Pending → Option Pending
  vouched msg sender none = none
  vouched msg sender (some o) =
      if is_toast sender.url && not (same (as_string msg.notice_id 64) o.notice_id)
      then none
      else some o

  abbrev pub pending_at : Message → Sender → Option ℕ → Page → Option (ℕ × Pending)
  pending_at msg sender none s = none
  pending_at msg sender (some tab) s = elim (vouched msg sender (lookup same_tab tab s.pending)) [
    | none ↦ none
    | some o ↦ some (tab, o)
  ]

  -- `pendingFor`: the tab and its offer, where there is one that the sender may speak of
  unfoldable pub pending_for : Turn → Message → Sender → Page → Option (ℕ × Pending)
  unfolding lookup same
  pending_for t msg sender s = pending_at msg sender (tab_of t sender) s

  abbrev pub save_title : Message → Text → Body → Text
  save_title msg suggested incoming =
      or_title (trim (as_string msg.title 60))
        (or_title suggested (or_title (a.address_summary incoming) (codes "Address")))

  unfoldable pub has_title : Text → Body → Bool
  unfolding same to_lower get
  has_title title r = same (to_lower (as_text (get "title" r))) (to_lower title)

  abbrev pub add_new : Turn → Body → Vault → Fault ⊎ Vault
  add_new t fields v = add b.crypto t.fresh.nonce t.fresh.id fields t.now v

  abbrev pub save_over : Turn → Text → Body → Option Body → Vault → (Fault ⊎ Vault) × Bool
  save_over t title incoming (some r) v = (
    update_at b a t.fresh.nonce t (record_id r) (spread incoming (("title", str title) ∷ [])) v,
    true,
  )
  save_over t title incoming none v = (
    add_new t (spread (("type", str (codes "address")) ∷ ("title", str title) ∷ []) incoming) v,
    false,
  )

  unfoldable pub save_address : Turn → Message → Body → Text → Vault → (Fault ⊎ Vault) × Bool
  unfolding trim find addresses_for has_title update_at add spread
  save_address t msg incoming suggested v =
      let title = save_title msg suggested incoming in
      save_over t title incoming
        (find (has_title title) (addresses_for b.pages (records_of (some v)))) v

  unfoldable pub save_login :
      Turn → Text → Text → Text → Text → Option (String × Body) → Vault → Fault ⊎ Vault
  unfolding update_at add get
  save_login t host url username pw (some (k, r)) v =
      update_at b a t.fresh.nonce t (record_id r) (login_patch username pw r) v
  save_login t host url username pw none v = add_new t (login_fields_of host url username pw) v

  abbrev pub save_offer : Turn → Message → Text → Offer → Vault → (Fault ⊎ Vault) × Bool
  save_offer t msg host (address_offer incoming suggested) v =
      save_address t msg incoming suggested v
  save_offer t msg host (login_offer url username pw existing) v =
      (save_login t host url username pw (id_record existing (some v)) v, false)

  abbrev pub saved : Turn → ℕ → (Fault ⊎ Vault) × Bool → Page → Page × Reply
  saved t tab (inl f, m) s = (s, threw)
  saved t tab (inr w, m) s =
      (bump_autolock t.now (withdraw tab (persist_vault (record s { vault = some w }))), merged m)

  abbrev pub save_in : Turn → Message → Option (ℕ × Pending) → Option Vault → Page → Page × Reply
  save_in t msg (some (tab, o)) (some v) s = saved t tab (save_offer t msg o.host o.offer v) s
  save_in t msg _ _ s = (s, failed (codes "nothing-pending"))

  -- `handleSave`
  unfoldable pub handle_save : Turn → Message → Sender → Page → Page × Reply
  unfolding is_extension_page pending_for save_address save_login record_of bump_autolock withdraw
  handle_save t msg sender s =
      if not (is_extension_page b sender)
      then (s, failed [])
      else if is_shut s.vault
      then (s, failed (codes "locked"))
      else save_in t msg (pending_for t msg sender s) s.vault s

  abbrev pub discard_in : Option (ℕ × Pending) → Page → Page × Reply
  discard_in none s = (s, done)
  discard_in (some (tab, o)) s = (withdraw tab s, done)

  -- `handleDiscard`
  unfoldable pub handle_discard : Turn → Message → Sender → Page → Page × Reply
  unfolding pending_for withdraw
  handle_discard t msg sender s = discard_in (pending_for t msg sender s) s

  -- The site joins the list, once.
  unfoldable pub silence : Text → Page → Page
  unfolding has_text
  silence site s = if is_empty site || has_text site s.settings.never_sites then s else record s {
    settings = record (s.settings) { never_sites = s.settings.never_sites ++ site ∷ [] };
  }

  abbrev pub never_in : Option (ℕ × Pending) → Page → Page × Reply
  never_in none s = (s, failed [])
  never_in (some (tab, o)) s =
      let site = site_key b a o.host in (withdraw tab (silence site s), silenced site)

  -- `handleNever`
  unfoldable pub handle_never : Turn → Message → Sender → Page → Page × Reply
  unfolding is_extension_page pending_for silence site_key withdraw
  handle_never t msg sender s =
      if not (is_extension_page b sender)
      then (s, failed [])
      else never_in (pending_for t msg sender s) s
