-- ===== src/Background/Stepped.antt =====
-- Every step keeps the page sound and watched (src/ext/background.js).
use bencpass.Prelude.{
  ℕ, true, false, not, ◌||◌, ◌&&◌, ◌≡◌, refl, sym, ap, ◌∙◌, Option, none, some, List, [], ◌∷◌, ◌++◌,
  All, if-both,
}
use bencpass.Text.{Text}
use bencpass.Host.{is_empty}
use bencpass.Background.{
  is_shut, Effect, PageBrowser, Addresses, Sender, Turn, Pending, Page, reap_sessions,
  is_extension_page,
}
use bencpass.Background.Protocol.{
  as_id, save, discard, never_site, unlock as unlock_message, lock, bio_unlock, setup, MessageType,
  describe, candidates, capture, session, open_manager, unlocked, choose,
  generate as generate_message, close, Message, Reply, is_content_callable,
}
use bencpass.Background.Offering.{has_text, handle_session}
use bencpass.Background.Capturing.{site_key}
use bencpass.Background.Saving.{
  pending_for, discard_in, handle_discard, silence, never_in, handle_never,
}
use bencpass.Background.Unlocking.{handle_unlock, handle_bio_unlock, handle_unlocked}
use bencpass.Background.Machine.{
  Given, dispatch_to, dispatch, listen, Step, hears, times_out, goes_idle, clicks_menu, opens,
  loses_tab, elsewhere, Reach, here, next,
}
use bencpass.Background.Released.{IsOpened, Moment, Closes}
use bencpass.Background.Stored.{handle_generate-Closes, menu_clicked-Closes}
use bencpass.Background.Gathered.{handle_capture-Closes, handle_save-Closes}
use bencpass.Background.Offered.{handle_candidates-IsWatched, handle_close-IsWatched}
use bencpass.Background.Chosen.{handle_choose-Closes}
use bencpass.Background.Watched.{
  IsTimed, IsWatched, IsRunning, running-Closes, runs, bump_autolock-IsWatched,
  reap_sessions-IsWatched, withdraw-IsWatched, lock_page-IsWatched, set-IsWatched,
}
use bencpass.Background.Opened.{
  opened_up-IsWatched, vault-IsSound, unlock_in-IsWatched, bio_in-IsWatched, handle_setup-IsWatched,
}

module _ (b : PageBrowser) (since : Moment) where
  abbrev After : Page × Reply → Type 0
  After r = IsWatched b since r.0

  abbrev closes : Closes b since (IsRunning b since) (IsWatched b since)
  closes = running-Closes b since

  abbrev a : Addresses
  a = since.addresses

  abbrev IsAt : Page → Type 0
  IsAt s =
      (s.vault ≡ since.page.vault)
      × (s.settings.allow_insecure ≡ since.page.settings.allow_insecure)

  -- What a choice names is asked for.
  abbrev Asks : Message → Sender → Type 0
  Asks msg sender =
      is_extension_page b sender ≡ true
      → (id : Text) → as_id msg.record_id ≡ some id
      → since.asked id

  discard_in-IsWatched :
      (x : Option (ℕ × Pending)) (s : Page) → IsWatched b since s → After (discard_in b a x s)
  discard_in-IsWatched none s q = q
  discard_in-IsWatched (some (tab, o)) s q = withdraw-IsWatched b since tab s q

  silence-IsWatched :
      (site : Text) (s : Page) → IsWatched b since s → IsWatched b since (silence b a site s)
  unfolding silence
  silence-IsWatched site s q =
      if-both (IsWatched b since) (is_empty site || has_text site s.settings.never_sites) (λ e. q)
        (λ e. set-IsWatched b since _ s q)

  never_in-IsWatched :
      (x : Option (ℕ × Pending)) (s : Page) → IsWatched b since s → After (never_in b a x s)
  never_in-IsWatched none s q = q
  never_in-IsWatched (some (tab, o)) s q =
      withdraw-IsWatched b since tab (silence b a (site_key b a o.host) s)
        (silence-IsWatched (site_key b a o.host) s q)

  dispatch_to-IsWatched :
      (k : MessageType) (t : Turn) (g : Given) (msg : Message) (sender : Sender) (s : Page)
      → IsAt s
      → (k ≡ choose → Asks msg sender)
      → IsWatched b since s
      → After (dispatch_to b a k t g msg sender s)
  unfolding dispatch_to handle_session handle_unlock handle_bio_unlock handle_unlocked
      handle_discard handle_never
  dispatch_to-IsWatched candidates t g msg sender s z y h =
      handle_candidates-IsWatched b since a t msg sender s h
  dispatch_to-IsWatched session t g msg sender s z y h =
      if-both After (not (is_extension_page b sender)) (λ e. h) (λ e. h)
  dispatch_to-IsWatched choose t g msg sender s z y h =
      handle_choose-Closes b since (IsRunning b since) (IsWatched b since) closes t msg sender s z
        (y refl) h (runs b since s h)
  dispatch_to-IsWatched generate_message t g msg sender s z y h =
      handle_generate-Closes b since (IsRunning b since) (IsWatched b since) closes t msg sender s h
        (runs b since s h)
  dispatch_to-IsWatched capture t g msg sender s z y h =
      handle_capture-Closes b since a (IsRunning b since) (IsWatched b since) closes t msg sender s
        h (runs b since s h)
  dispatch_to-IsWatched unlock_message t g msg sender s z y h =
      if-both After (not (is_extension_page b sender)) (λ e. h)
        (λ e. unlock_in-IsWatched b since t msg s.vault s h h.timed)
  dispatch_to-IsWatched lock t g msg sender s z y h = lock_page-IsWatched b since s h.sound
  dispatch_to-IsWatched setup t g msg sender s z y h =
      handle_setup-IsWatched b since t g msg sender s h
  dispatch_to-IsWatched bio_unlock t g msg sender s z y h =
      bio_in-IsWatched b since t g.secret s.vault s h
  dispatch_to-IsWatched save t g msg sender s z y h =
      handle_save-Closes b since a (IsRunning b since) (IsWatched b since) closes t msg sender s h
        (runs b since s h)
  dispatch_to-IsWatched discard t g msg sender s z y h =
      discard_in-IsWatched (pending_for b a t msg sender s) s h
  dispatch_to-IsWatched never_site t g msg sender s z y h =
      if-both After (not (is_extension_page b sender)) (λ e. h)
        (λ e. never_in-IsWatched (pending_for b a t msg sender s) s h)
  dispatch_to-IsWatched close t g msg sender s z y h =
      handle_close-IsWatched b since a msg sender s h
  dispatch_to-IsWatched unlocked t g msg sender s z y h =
      if-both After (not (is_extension_page b sender)) (λ e. h)
        (λ e. opened_up-IsWatched b since t s h.sound)
  dispatch_to-IsWatched describe t g msg sender s z y h = h
  dispatch_to-IsWatched open_manager t g msg sender s z y h = h
  dispatch_to-IsWatched _ t g msg sender s z y h = h

  listen-IsWatched :
      (t : Turn) (g : Given) (msg : Message) (sender : Sender) (s : Page)
      → IsAt s
      → (msg.type ≡ choose → Asks msg sender)
      → IsWatched b since s
      → After (listen b a t g msg sender s)
  unfolding listen dispatch reap_sessions
  listen-IsWatched t g msg sender s z y h =
      if-both After (not (is_content_callable msg.type) && not (is_extension_page b sender))
        (λ e. h)
        (λ e.
          dispatch_to-IsWatched msg.type t g msg sender (reap_sessions t.now s) z y
            (reap_sessions-IsWatched b since t.now s h))

-- The ids of records that a step is asked to send: those of a choice by a page of the extension
abbrev pub AskedBy : {b : PageBrowser} {a : Addresses} {s u : Page} → Step b a s u → Text → Type 0
AskedBy {b = b} (hears t g msg sender) id =
    (msg.type ≡ choose) × (is_extension_page b sender ≡ true) × (as_id msg.record_id ≡ some id)
AskedBy (times_out now d) id = ⊥
AskedBy goes_idle id = ⊥
AskedBy (clicks_menu t tab frame source) id = ⊥
AskedBy (opens now v e) id = ⊥
AskedBy (loses_tab tab) id = ⊥
AskedBy (elsewhere v settings e) id = ⊥

module _ (b : PageBrowser) (a : Addresses) where
  -- The start of a step
  abbrev pub start_of : {s u : Page} → Step b a s u → Moment
  start_of {s = s} x = record { page = s; addresses = a; asked = AskedBy x }

  pub Step-IsWatched :
      (s u : Page) (x : Step b a s u) → IsWatched b (start_of x) s → IsWatched b (start_of x) u
  Step-IsWatched s _ (hears t g msg sender) h =
      listen-IsWatched b (start_of (hears t g msg sender)) t g msg sender s (refl, refl)
        (λ p e id q. (p, e, q)) h
  Step-IsWatched s _ (times_out now d) h =
      lock_page-IsWatched b (start_of (times_out now d)) s h.sound
  Step-IsWatched s _ goes_idle h = lock_page-IsWatched b (start_of goes_idle) s h.sound
  Step-IsWatched s _ (clicks_menu t tab frame source) h =
      let z = start_of (clicks_menu t tab frame source) in
      menu_clicked-Closes b z (IsRunning b z) (IsWatched b z) (running-Closes b z) t tab frame
        source s h (runs b z s h)
  Step-IsWatched s _ (opens now v e) h =
      bump_autolock-IsWatched b (start_of (opens now v e)) now (record s { vault = some v })
        (vault-IsSound b (start_of (opens now v e)) (some v) s h.sound)
  Step-IsWatched s _ (loses_tab tab) h = withdraw-IsWatched b (start_of (loses_tab tab)) tab s h
  Step-IsWatched s _ (elsewhere v settings e) h = record {
    sound = record { opened = h.sound.opened; released = h.sound.released };
    timed = λ k. h.timed (sym e ∙ k);
  }

  -- What holds of a page between the steps
  pub record IsSteady (s : Page) : Type 0 where
    pub opened : All (IsOpened b) s.sessions
    pub timed : is_shut s.vault ≡ false → IsTimed s

  append_nil : (es : List Effect) → es ≡ es ++ []
  append_nil [] = refl
  append_nil (e ∷ es) = ap (λ (l : List Effect). e ∷ l) (append_nil es)

  -- A step begins with nothing sent.
  pub begins-IsWatched : {s u : Page} → (x : Step b a s u) → IsSteady s → IsWatched b (start_of x) s
  begins-IsWatched {s = s} x h = record {
    sound = record { opened = h.opened; released = ([], append_nil s.effects, tt) };
    timed = h.timed;
  }

  pub Reach-IsSteady : {s u : Page} → Reach b a s u → IsSteady s → IsSteady u
  Reach-IsSteady here h = h
  Reach-IsSteady (next r x) h =
      let w = Step-IsWatched _ _ x (begins-IsWatched x (Reach-IsSteady r h)) in
      record { opened = w.sound.opened; timed = w.timed }
