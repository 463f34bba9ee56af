-- ===== src/Background/Machine.antt =====
-- The listener of the background page and its steps (src/ext/background.js). A handler runs as one
-- step.
use bencpass.Prelude.{ℕ, Bool, false, not, ◌&&◌, ◌≡◌, ◌≤◌, Option, none, some, if◌then◌else◌}
use bencpass.Text.{Text}
use bencpass.Header.{Kdf}
use bencpass.Vault.{Vault}
use bencpass.Vault.Wrappings.{Draws}
use bencpass.Background.{
  PageBrowser, Addresses, Sender, Turn, Settings, Page, is_shut, reap_sessions, lock_page,
  bump_autolock, is_extension_page,
}
use bencpass.Background.Protocol.{
  MessageType, candidates, session, choose, generate, close, capture, save, discard, never_site,
  unlock, bio_unlock, unlocked, setup, lock, Message, is_content_callable, Reply, no_reply, done,
}
use bencpass.Background.Offering.{handle_candidates, handle_session, handle_close}
use bencpass.Background.Choosing.{handle_choose}
use bencpass.Background.Generating.{handle_generate, menu_clicked}
use bencpass.Background.Capturing.{handle_capture, withdraw}
use bencpass.Background.Saving.{handle_save, handle_discard, handle_never}
use bencpass.Background.Unlocking.{handle_unlock, handle_bio_unlock, handle_unlocked, handle_setup}

-- What else a message brings: the secret in it, and what `Vault.create` draws
pub record Given : Type 0 where
  pub secret : Option Text
  pub draws : Draws
  pub key_bytes : Text
  pub kdf : Kdf
  pub stored : Bool

module _ (b : PageBrowser) (a : Addresses) where
  -- The `switch` of `dispatch`. What the handlers of settings, devices, joining and syncing do is
  -- left to the steps `elsewhere` and `opens`; their messages change nothing here.
  unfoldable pub dispatch_to : MessageType → Turn → Given → Message → Sender → Page → Page × Reply
  unfolding handle_candidates handle_session handle_choose handle_generate handle_capture
      handle_save handle_discard handle_never handle_close handle_unlock handle_bio_unlock
      handle_unlocked handle_setup lock_page
  dispatch_to candidates t g msg sender s = handle_candidates b a t msg sender s
  dispatch_to session t g msg sender s = handle_session b a msg sender s
  dispatch_to choose t g msg sender s = handle_choose b a t msg sender s
  dispatch_to generate t g msg sender s = handle_generate b t msg sender s
  dispatch_to capture t g msg sender s = handle_capture b a t msg sender s
  dispatch_to unlock t g msg sender s = handle_unlock b t msg sender s
  dispatch_to lock t g msg sender s = (lock_page s, done)
  dispatch_to setup t g msg sender s =
      handle_setup b t g.draws g.key_bytes g.kdf g.stored msg sender s
  dispatch_to bio_unlock t g msg sender s = handle_bio_unlock b t g.secret s
  dispatch_to save t g msg sender s = handle_save b a t msg sender s
  dispatch_to discard t g msg sender s = handle_discard b a t msg sender s
  dispatch_to never_site t g msg sender s = handle_never b a t msg sender s
  dispatch_to close t g msg sender s = handle_close b a msg sender s
  dispatch_to unlocked t g msg sender s = handle_unlocked b t sender s
  dispatch_to _ t g msg sender s = (s, no_reply)

  -- `dispatch`
  unfoldable pub dispatch : Turn → Given → Message → Sender → Page → Page × Reply
  unfolding dispatch_to reap_sessions
  dispatch t g msg sender s = dispatch_to msg.type t g msg sender (reap_sessions t.now s)

  -- The listener of `browser.runtime.onMessage`
  unfoldable pub listen : Turn → Given → Message → Sender → Page → Page × Reply
  unfolding dispatch is_extension_page
  listen t g msg sender s =
      if not (is_content_callable msg.type) && not (is_extension_page b sender)
      then (s, no_reply)
      else dispatch t g msg sender s

-- The timer that `bumpAutolock` sets
abbrev pub IsDue : Option ℕ → ℕ → Type 0
IsDue none now = ⊥
IsDue (some at) now = at ≤ now

-- The steps of the page: a message, the timer when it is due, the screen that locks, the menu of the
-- browser, a manager page that opens the vault and sets the timer (enterApp of src/ui/manager.js), a
-- tab that closes, and what a sync or the settings do to the vault and the settings, which opens and
-- shuts nothing.
pub data Step (b : PageBrowser) (a : Addresses) (s : Page) : Page → Type 0 where
  hears :
      (t : Turn) (g : Given) (msg : Message) (sender : Sender)
      → Step b a s (listen b a t g msg sender s).0
  times_out : (now : ℕ) → IsDue s.autolock_at now → Step b a s (lock_page s)
  goes_idle : Step b a s (lock_page s)
  clicks_menu :
      (t : Turn) (tab frame : ℕ) (source : Text) → Step b a s (menu_clicked b t tab frame source s)
  opens :
      (now : ℕ) (v : Vault)
      → is_shut (some v) ≡ false
      → Step b a s (bump_autolock now (record s { vault = some v }))
  loses_tab : (tab : ℕ) → Step b a s (withdraw tab s)
  elsewhere :
      (v : Option Vault) (settings : Settings)
      → is_shut v ≡ is_shut s.vault
      → Step b a s (record s { vault = v; settings = settings })

pub data Reach (b : PageBrowser) (a : Addresses) (s : Page) : Page → Type 0 where
  here : Reach b a s s
  next : {t u : Page} → Reach b a s t → Step b a t u → Reach b a s u
