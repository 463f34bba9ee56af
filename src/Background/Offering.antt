-- ===== src/Background/Offering.antt =====
-- Menus (src/ext/background.js): handleCandidates, handleSession and handleClose.
use bencpass.Prelude.{
  ℕ, Bool, true, false, not, ◌||◌, ◌&&◌, Option, none, some, List, [], ◌∷◌, ◌++◌, map, take,
  if◌then◌else◌,
}
use bencpass.Map.{get}
use bencpass.Text.{Text, same}
use bencpass.Text.Codes.{codes}
use bencpass.Plain.{Body, as_text}
use bencpass.Host.{is_empty}
use bencpass.Match.{
  Frame, Verdict, fill, refuse, filter_by, matches_for, addresses_for, can_fill, can_fill_address,
}
use bencpass.Vault.{Vault}
use bencpass.Vault.Importing.{all_records}
use bencpass.Background.{
  PageBrowser, Addresses, Sender, Turn, MenuKind, locked_menu, signup_menu, login_menu,
  address_menu, Session, Origin, Page, is_shut, bump_autolock, origin_of, is_extension_page,
  text_or,
}
use bencpass.Background.Table.{lookup, put_at, discard}
use bencpass.Background.Protocol.{
  Message, as_string, Candidate, bare_row, public_candidate, public_address, Reply, failed, done,
  menu, rows,
}

abbrev pub is_filled : Verdict → Bool
is_filled fill = true
is_filled (refuse r) = false

-- `vault.list()`, of an unlocked vault
abbrev pub records_of : Option Vault → List Body
records_of none = []
records_of (some v) = all_records v.envelopes v.plain

-- `{ pageHost, frameProtocol, allowInsecure }`
abbrev pub frame_of : Bool → Text → Text → Frame
frame_of insecure page_host protocol = record {
  page_host = page_host;
  allow_insecure = insecure;
  protocol = protocol;
}

-- A session that is opened for the frame of a message
abbrev pub new_session : ℕ → Origin → MenuKind → List Text → List Text → Session
new_session now o kind ids tokens = record {
  created = now;
  tab = o.tab;
  frame = o.frame;
  frame_host = o.frame_host;
  page_host = o.page_host;
  protocol = o.protocol;
  kind = kind;
  ids = ids;
  tokens = tokens;
}

-- A session of a locked vault, which names no host
abbrev pub locked_session : ℕ → Origin → Session
locked_session now o = record {
  created = now;
  tab = o.tab;
  frame = o.frame;
  frame_host = [];
  page_host = [];
  protocol = [];
  kind = locked_menu;
  ids = [];
  tokens = [];
}

unfoldable pub open_session : Text → Session → Page → Page
unfolding put_at same
open_session id t s = record s { sessions = put_at same id t s.sessions }

unfoldable pub has_text : Text → List Text → Bool
unfolding same
has_text t [] = false
has_text t (u ∷ us) = same u t || has_text t us

abbrev pub record_id : Body → Text
record_id r = as_text (get "id" r)

module _ (b : PageBrowser) (a : Addresses) where
  -- The loop of `sanitizeTokens`, over what is left and what is kept
  unfoldable pub keep_tokens : List (Option Text) → List Text → List Text
  unfolding has_text
  keep_tokens [] out = out
  keep_tokens (t ∷ ts) out =
      let clean = as_string t 32 in
      keep_tokens ts
        (if a.is_token clean && not (has_text clean out) then out ++ clean ∷ [] else out)

  -- `sanitizeTokens`
  unfoldable pub sanitize_tokens : List (Option Text) → List Text
  unfolding keep_tokens
  sanitize_tokens raw = keep_tokens (take 64 raw) []

  -- The logins that the frame may be filled with
  unfoldable pub logins_for : Bool → Origin → List Body → List Body
  unfolding filter_by matches_for can_fill
  logins_for insecure o records =
      filter_by
        (λ r.
          is_filled (can_fill b.pages r o.frame_host (frame_of insecure o.page_host o.protocol)))
        (matches_for b.pages records o.frame_host)

  -- The addresses, where the frame may be filled with one
  unfoldable pub addresses_here : Bool → Origin → List Body → List Body
  unfolding can_fill_address addresses_for
  addresses_here insecure o records =
      if is_filled
        (can_fill_address b.pages o.frame_host (frame_of insecure o.page_host o.protocol))
      then addresses_for b.pages records
      else []

  abbrev pub offer_menu :
      Turn → Origin → MenuKind → (Body → Candidate) → List Text → List Body → Page → Page × Reply
  offer_menu t o kind shown tokens [] s = (s, menu false none [])
  offer_menu t o kind shown tokens (r ∷ rs) s = (
    open_session t.new_id (new_session t.now o kind (map record_id (r ∷ rs)) tokens) s,
    menu false (some t.new_id) (map shown (r ∷ rs)),
  )

  -- What follows the guard on the host
  unfoldable pub offer_for : Turn → Text → List (Option Text) → Origin → Page → Page × Reply
  unfolding same open_session sanitize_tokens logins_for addresses_here public_candidate
      public_address
  offer_for t kind tokens o s =
      if same kind (codes "signup")
      then (
        open_session t.new_id (new_session t.now o signup_menu [] []) s,
        menu false (some t.new_id) (bare_row (codes "generate") ∷ []),
      )
      else if same kind (codes "address")
      then offer_menu t o address_menu (public_address a) (sanitize_tokens tokens)
          (addresses_here s.settings.allow_insecure o (records_of s.vault)) s
      else offer_menu t o login_menu public_candidate []
          (logins_for s.settings.allow_insecure o (records_of s.vault)) s

  -- `handleCandidates`
  unfoldable pub handle_candidates : Turn → Message → Sender → Page → Page × Reply
  unfolding origin_of open_session offer_for bump_autolock
  handle_candidates t msg sender s =
      let o = origin_of b sender in
      if is_shut s.vault
      then (
        open_session t.new_id (locked_session t.now o) s,
        menu true (some t.new_id) (bare_row (codes "locked") ∷ []),
      )
      else if is_empty o.frame_host
      then (bump_autolock t.now s, menu false none [])
      else offer_for t (text_or msg.kind []) msg.tokens o (bump_autolock t.now s)

  abbrev or_found : Option Body → Option Body → Option Body
  or_found none o = o
  or_found (some r) o = some r

  -- The last record of an id
  unfoldable pub find_record : Text → List Body → Option Body
  unfolding same
  find_record id [] = none
  find_record id (r ∷ rs) =
      or_found (find_record id rs) (if same (record_id r) id then some r else none)

  abbrev pub put_found : Option Body → List Body → List Body
  put_found none rs = rs
  put_found (some r) rs = r ∷ rs

  -- The records of these ids, in their order, of those that are there
  unfoldable pub still_there : List Text → List Body → List Body
  unfolding find_record
  still_there [] records = []
  still_there (id ∷ ids) records = put_found (find_record id records) (still_there ids records)

  abbrev pub menu_rows : MenuKind → List Text → Page → Reply
  menu_rows locked_menu ids s = rows (some locked_menu) []
  menu_rows signup_menu ids s = rows (some signup_menu) []
  menu_rows login_menu ids s =
      rows (some login_menu) (map public_candidate (still_there ids (records_of s.vault)))
  menu_rows address_menu ids s =
      rows (some address_menu) (map (public_address a) (still_there ids (records_of s.vault)))

  abbrev pub session_rows : Option Session → Page → Reply
  session_rows none s = rows none []
  session_rows (some t) s =
      if is_shut s.vault then rows (some locked_menu) [] else menu_rows t.kind t.ids s

  -- `handleSession`, without the state of the fingerprint
  unfoldable pub handle_session : Message → Sender → Page → Page × Reply
  unfolding is_extension_page lookup same public_candidate public_address still_there
  handle_session msg sender s =
      if not (is_extension_page b sender)
      then (s, rows none [])
      else (s, session_rows (lookup same (as_string msg.session_id 64) s.sessions) s)

  abbrev pub close_found : Text → Option Session → Page → Page × Reply
  close_found id none s = (s, failed [])
  close_found id (some t) s = (record s { sessions = discard same id s.sessions }, done)

  -- `handleClose`
  unfoldable pub handle_close : Message → Sender → Page → Page × Reply
  unfolding is_extension_page lookup discard same
  handle_close msg sender s =
      let id = as_string msg.session_id 64 in
      if not (is_extension_page b sender)
      then (s, failed [])
      else close_found id (lookup same id s.sessions) s
