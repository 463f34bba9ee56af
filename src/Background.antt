-- ===== src/Background.antt =====
-- The background page (src/ext/background.js): its state, its lock, and where a message came from.
-- The handlers and the proofs are in the modules below. What is only drawn is left out: the badge,
-- the icon and the notices.
pub mod Table
pub mod Protocol
pub mod Offering
pub mod Choosing
pub mod Generating
pub mod Capturing
pub mod Saving
pub mod Unlocking
pub mod Machine
pub mod Released
pub mod Watched
pub mod Offered
pub mod Chosen
pub mod Stored
pub mod Gathered
pub mod Opened
pub mod Stepped
pub mod Always
pub mod QuietOpening
pub mod Quiet
pub mod Generated
pub mod Captured
mod Tests
use bencpass.Prelude.{
  ℕ, ◌+◌, ◌*◌, String, Bool, true, false, not, ◌||◌, ◌&&◌, Option, none, some, List, [], ◌∷◌, ◌++◌,
  ltb, ◌==◌, if◌then◌else◌,
}
use bencpass.Map.{Map}
use bencpass.Text.{Text, starts_with}
use bencpass.Text.Codes.{codes}
use bencpass.Plain.{Body}
use bencpass.Match
use bencpass.Match.{host_of}
use bencpass.Crypto
use bencpass.Vault.{Vault, locked}
use bencpass.Vault
use bencpass.Vault.Forking.{Fresh}

-- What the page uses of the browser, beside the platforms of matching and of cryptography.
pub record PageBrowser : Type 0 where
  pub pages : Match.Platform
  pub crypto : Crypto.Platform
  pub protocol_of : Text → Option Text  -- `new URL(url).protocol`, none where it throws
  pub extension_url : Text  -- `browser.runtime.getURL('')`

-- The values of an address for the tokens that a form asks for.
pub record AddressValues : Type 0 where
  pub values : Map Text
  pub alts : Map (List Text)

-- What the page uses of src/core/address.js.
pub record Addresses : Type 0 where
  pub is_token : Text → Bool  -- `ADDRESS_TOKENS.has`
  pub values_for_tokens : Body → List Text → AddressValues
  pub normalize_captured : Map Text → Body
  pub is_addressish : Body → Bool
  pub matches_stored : Body → Body → Bool
  pub address_summary : Body → Text

pub record Tab : Type 0 where
  pub id : ℕ
  pub url : Text

-- The browser's account of who sent a message; an extension page in the popup has no tab.
pub record Sender : Type 0 where
  pub url : Option Text
  pub tab : Option Tab
  pub frame : ℕ

-- What the world gives while one message is handled: the clock, random ids, nonces and draws, the
-- text of a day, the tab in front, and whether a tab takes what is sent to it.
pub record Turn : Type 0 where
  pub now : ℕ
  pub new_id : Text  -- `newSessionId`
  pub fresh : Fresh
  pub later_nonce : String
  pub forks : ℕ → Fresh
  pub day : ℕ → Text
  pub draws : List ℕ
  pub active : Option Tab
  pub reached : Bool

pub data MenuKind : Type 0 where
  locked_menu signup_menu login_menu address_menu : MenuKind

pub record Session : Type 0 where
  pub created : ℕ
  pub tab : Option ℕ
  pub frame : ℕ
  pub frame_host : Text
  pub page_host : Text
  pub protocol : Text
  pub kind : MenuKind
  pub ids : List Text
  pub tokens : List Text

-- Credentials that were submitted, or an address, waiting to be saved
pub data Offer : Type 0 where
  login_offer : Text → Text → Text → Option Text → Offer  -- url, username, password, existingId
  address_offer : Body → Text → Offer  -- address, suggestedName

pub record Pending : Type 0 where
  pub host : Text
  pub offer : Offer
  pub notice_id : Text

pub record Settings : Type 0 where
  pub endpoint : Text
  pub fallback_endpoint : Text
  pub autolock_ms : ℕ
  pub allow_insecure : Bool
  pub never_sites : List Text

-- What leaves the page, in order: the vault that is written to storage, and what is sent to a frame
-- of a tab to be filled in.
pub data Effect : Type 0 where
  persisted : Vault → Effect
  filled_login : ℕ → ℕ → Text → Text → Effect  -- tab, frame, username, password
  filled_address : ℕ → ℕ → AddressValues → Effect
  filled_generated : ℕ → ℕ → Text → Effect

pub record Page : Type 0 where
  pub vault : Option Vault
  pub settings : Settings
  pub sessions : List (Text × Session)
  pub pending : List (ℕ × Pending)
  pub autolock_at : Option ℕ
  pub effects : List Effect

abbrev pub default_autolock_ms : ℕ
default_autolock_ms = 15 * 60 * 1000

abbrev pub session_ttl_ms : ℕ
session_ttl_ms = 60 * 1000

-- `!vault || vault.locked`
abbrev pub is_shut : Option Vault → Bool
is_shut none = true
is_shut (some v) = locked v

abbrev pub persist_in : Option Vault → Page → Page
persist_in none s = s
persist_in (some v) s = record s { effects = s.effects ++ persisted v ∷ [] }

-- `persistVault`
abbrev pub persist_vault : Page → Page
persist_vault s = persist_in s.vault s

abbrev pub or_default : ℕ → ℕ
or_default n = if n == 0 then default_autolock_ms else n

-- `bumpAutolock`
unfoldable pub bump_autolock : ℕ → Page → Page
bump_autolock now s = record s {
  autolock_at = if is_shut s.vault then none else some (now + or_default s.settings.autolock_ms);
}

abbrev pub lock_vault : Option Vault → Option Vault
lock_vault none = none
lock_vault (some v) = some (Vault.lock v)

-- `lock`
unfoldable pub lock_page : Page → Page
unfolding Vault.lock
lock_page s = record s {
  vault = lock_vault s.vault;
  sessions = [];
  pending = [];
  autolock_at = none;
}

unfoldable pub live_sessions : ℕ → List (Text × Session) → List (Text × Session)
live_sessions now [] = []
live_sessions now ((id, t) ∷ rest) =
    let live = live_sessions now rest in
    if ltb (t.created + session_ttl_ms) now then live else (id, t) ∷ live

-- `reapSessions`
unfoldable pub reap_sessions : ℕ → Page → Page
unfolding live_sessions
reap_sessions now s = record s { sessions = live_sessions now s.sessions }

pub record Origin : Type 0 where
  pub frame_host : Text
  pub page_host : Text
  pub protocol : Text
  pub tab : Option ℕ
  pub frame : ℕ

abbrev pub text_or : Option Text → Text → Text
text_or none t = t
text_or (some s) t = s

abbrev pub tab_url : Option Tab → Text → Text
tab_url none url = url
tab_url (some t) url = t.url

abbrev pub tab_id : Option Tab → Option ℕ
tab_id none = none
tab_id (some t) = some t.id

abbrev pub https : Text
https = codes "https:"

module _ (b : PageBrowser) where
  -- `originOf`
  unfoldable pub origin_of : Sender → Origin
  unfolding host_of
  origin_of sender =
      let frame_url = text_or sender.url [] in
      record {
        frame_host = host_of b.pages frame_url;
        page_host = host_of b.pages (tab_url sender.tab frame_url);
        protocol = text_or (b.protocol_of frame_url) https;
        tab = tab_id sender.tab;
        frame = sender.frame;
      }

  -- `isExtensionPage`
  unfoldable pub is_extension_page : Sender → Bool
  unfolding starts_with
  is_extension_page sender = elim sender.url [
    | none ↦ false
    | some url ↦ starts_with url b.extension_url
  ]
