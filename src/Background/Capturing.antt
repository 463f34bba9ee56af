-- ===== src/Background/Capturing.antt =====
-- What a page submits (src/ext/background.js): handleCapture and captureAddress.
use bencpass.Prelude.{
  ℕ, String, Bool, true, false, not, ◌||◌, ◌&&◌, Option, none, some, List, [], ◌∷◌, ◌⊎◌, inl, inr,
  ◌==◌, take, if◌then◌else◌,
}
use bencpass.Map.{Map, get, set}
use bencpass.Text.{Text, same, trim}
use bencpass.Text.Codes.{codes}
use bencpass.Plain.{Value, Body, str, as_text, strict_eq, is_truthy}
use bencpass.Host.{normalise_host, registrable_domain, is_empty}
use bencpass.Match.{Target, capture_target, addresses_for}
use bencpass.Fields.Captured.{plausible_username, plausible_password}
use bencpass.Vault.{Vault, Fault, no_such_record}
use bencpass.Vault.Records.{update, remove}
use bencpass.Vault.Importing.{entry_of, same_value, some_record}
use bencpass.Vault.Provisional.{complete_generated}
use bencpass.Background.{
  PageBrowser, Addresses, Sender, Turn, login_offer, address_offer, Pending, Page, Origin, is_shut,
  text_or, persist_vault, origin_of,
}
use bencpass.Background.Table.{put_at, discard}
use bencpass.Background.Protocol.{Message, as_string, Reply, failed, done, threw, merged}
use bencpass.Background.Generating.{site_url}
use bencpass.Background.Offering.{records_of, record_id, has_text}

abbrev pub same_tab : ℕ → ℕ → Bool
same_tab i j = i == j

-- `pendingCaptures.delete(tabId)`
unfoldable pub withdraw : ℕ → Page → Page
unfolding discard
withdraw tab s = record s { pending = discard same_tab tab s.pending }

unfoldable pub offer : ℕ → Pending → Page → Page
unfolding put_at
offer tab o s = record s { pending = put_at same_tab tab o s.pending }

module _ (b : PageBrowser) (a : Addresses) where
  abbrev pub or_host : Option Text → Text → Text
  or_host (some d) host = d
  or_host none host = normalise_host host

  -- `siteKey`
  unfoldable pub site_key : Text → Text
  unfolding registrable_domain normalise_host
  site_key host = or_host (registrable_domain b.pages.has_rule host) host

  -- `neverForSite`
  unfoldable pub never_for_site : Text → Page → Bool
  unfolding site_key has_text
  never_for_site host s = has_text (site_key host) s.settings.never_sites

  abbrev pub update_found : String → Turn → Body → Option (String × Body) → Vault → Fault ⊎ Vault
  update_found nonce t patch none v = inl (no_such_record "")
  update_found nonce t patch (some (k, r)) v = update b.crypto nonce k patch t.now v

  -- `vault.update(id, patch)`; what the error says is left out
  unfoldable pub update_at : String → Turn → Text → Body → Vault → Fault ⊎ Vault
  unfolding update entry_of
  update_at nonce t id patch v = update_found nonce t patch (entry_of id v.plain) v

  abbrev pub remove_found : Turn → Option (String × Body) → Vault → Fault ⊎ Vault
  remove_found t none v = inl (no_such_record "")
  remove_found t (some (k, r)) v = remove b.crypto t.later_nonce k t.now v

  -- The vault that a change leaves, and the error it may end with
  abbrev pub or_kept : Vault → Fault ⊎ Vault → Vault × Option Fault
  or_kept v (inl f) = (v, some f)
  or_kept v (inr w) = (w, none)

  abbrev pub then_remove : Turn → Text → Vault → Fault ⊎ Vault → Vault × Option Fault
  then_remove t id v (inl f) = (v, some f)
  then_remove t id v (inr w) = or_kept w (remove_found t (entry_of id w.plain) w)

  -- The entry of the account takes the new password, and the provisional one goes; an error of the
  -- second call leaves what the first one did.
  unfoldable pub rotate_entry : Turn → Text → Text → Text → Vault → Vault × Option Fault
  unfolding update_at remove entry_of
  rotate_entry t id scratch pw v =
      then_remove t scratch v (update_at t.fresh.nonce t id (("password", str pw) ∷ []) v)

  abbrev pub complete_found : Turn → Body → Text → Option (String × Body) → Vault → Fault ⊎ Vault
  complete_found t r username none v = inl (no_such_record "")
  complete_found t r username (some (k, plain)) v =
      complete_generated b.crypto t.fresh t.now k r username v

  -- The vault is written to storage and the offer goes; an error rejects the promise.
  abbrev pub conclude_capture : ℕ → Reply → Vault × Option Fault → Page → Page × Reply
  conclude_capture tab answer (w, some f) s = (record s { vault = some w }, threw)
  conclude_capture tab answer (w, none) s =
      (withdraw tab (persist_vault (record s { vault = some w })), answer)

  abbrev pub is_other : Option Body → Body → Bool
  is_other none r = false
  is_other (some e) r = not (same (record_id e) (record_id r))

  abbrev pub id_or_blank : Option Body → Text
  id_or_blank none = []
  id_or_blank (some r) = record_id r

  -- A generated password was submitted.
  unfoldable pub complete_capture :
      Turn → ℕ → Text → Text → Target → Body → Vault → Page → Page × Reply
  unfolding rotate_entry complete_generated entry_of plausible_username withdraw
  complete_capture t tab username pw target r v s =
      if is_other target.overwritable r
      then conclude_capture tab (merged true)
          (rotate_entry t (id_or_blank target.overwritable) (record_id r) pw v) s
      else conclude_capture tab done
          (or_kept v (
            complete_found t r (if plausible_username username then username else [])
              (entry_of (record_id r) v.plain) v))
          s

  abbrev pub is_password_of : Text → Body → Bool
  is_password_of pw r = same_value (get "password" r) (some (str pw))

  -- `alreadyKnown`
  abbrev pub is_known : Option Body → List Body → Text → Text → Bool
  is_known (some r) for_host username pw = is_password_of pw r
  is_known none for_host username pw = is_empty username && some_record (is_password_of pw) for_host

  abbrev pub or_body : Option Body → Option Body → Option Body
  or_body none o = o
  or_body (some r) o = some r

  abbrev pub id_if : Option Body → Option Text
  id_if none = none
  id_if (some r) = some (record_id r)

  -- A password that was typed by hand
  unfoldable pub offer_capture : Turn → Origin → ℕ → Text → Text → Target → Page → Page × Reply
  unfolding plausible_username never_for_site some_record offer withdraw get strict_eq
  offer_capture t o tab username pw target s =
      if not (plausible_username username)
      then (s, failed [])
      else if never_for_site o.frame_host s
      then (s, failed [])
      else if is_known target.candidate target.for_host username pw
      then (withdraw tab s, failed [])
      else (
        offer tab
            (record {
              host = o.frame_host;
              offer =
                  login_offer (site_url o.protocol o.frame_host) username pw
                    (id_if (or_body target.overwritable target.provisional));
              notice_id = t.new_id;
            })
            s,
        done,
      )

  -- Whether the password is that of the provisional entry
  unfoldable pub capture_found :
      Turn → Origin → ℕ → Text → Text → Target → Option Body → Vault → Page → Page × Reply
  unfolding complete_capture offer_capture get strict_eq
  capture_found t o tab username pw target none v s = offer_capture t o tab username pw target s
  capture_found t o tab username pw target (some r) v s =
      if is_password_of pw r
      then complete_capture t tab username pw target r v s
      else offer_capture t o tab username pw target s

  unfoldable pub capture_login : Turn → Message → Origin → ℕ → Vault → Page → Page × Reply
  unfolding plausible_password capture_target capture_found
  capture_login t msg o tab v s =
      let username = as_string msg.username 256 in
      let pw = as_string msg.password 1024 in
      let target = capture_target b.pages (records_of (some v)) o.frame_host username in
      if is_empty pw || not (plausible_password pw)
      then (s, failed [])
      else capture_found t o tab username pw target target.provisional v s

  -- The fields of a submitted address that are tokens
  unfoldable pub raw_address : Map (Option Text) → Map Text → Map Text
  unfolding set
  raw_address [] raw = raw
  raw_address ((k, v) ∷ rest) raw =
      raw_address rest (if a.is_token (codes k) then set k (as_string v 256) raw else raw)

  abbrev pub or_level : Option Value → Option Value → Text
  or_level level line = if is_truthy level then as_text level else as_text line

  -- `suggestAddressName`
  unfoldable pub suggest_address_name : Body → Text
  unfolding trim get
  suggest_address_name r =
      trim (take 60 (or_level (get "address-level2" r) (get "address-line1" r)))

  -- `captureAddress`
  unfoldable pub capture_address : Turn → Message → Origin → ℕ → Page → Page × Reply
  unfolding raw_address addresses_for some_record withdraw offer suggest_address_name
  capture_address t msg o tab s =
      let incoming = a.normalize_captured (raw_address msg.address []) in
      if not (a.is_addressish incoming)
      then (s, failed [])
      else if some_record (λ r. a.matches_stored r incoming)
          (addresses_for b.pages (records_of s.vault))
      then (withdraw tab s, failed [])
      else (
        offer tab
            (record {
              host = o.frame_host;
              offer = address_offer incoming (suggest_address_name incoming);
              notice_id = t.new_id;
            })
            s,
        done,
      )

  abbrev pub capture_in : Turn → Message → Origin → Option ℕ → Option Vault → Page → Page × Reply
  capture_in t msg o (some tab) (some v) s =
      if is_shut (some v) || is_empty o.frame_host
      then (s, failed [])
      else if same (text_or msg.kind []) (codes "address")
      then if never_for_site o.frame_host s then (s, failed []) else capture_address t msg o tab s
      else capture_login t msg o tab v s
  capture_in t msg o _ _ s = (s, failed [])

  -- `handleCapture`
  unfoldable pub handle_capture : Turn → Message → Sender → Page → Page × Reply
  unfolding origin_of never_for_site capture_address capture_login same
  handle_capture t msg sender s = let o = origin_of b sender in capture_in t msg o o.tab s.vault s
