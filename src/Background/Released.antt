-- ===== src/Background/Released.antt =====
-- What may be sent to a page, and by which session (src/ext/background.js).
use mathlib.Core.Path.{subst}
use bencpass.Prelude.{
  ap, sym, String, ℕ, ◌+◌, ltb, ◌≡◌, refl, ◌⊎◌, inl, inr, Option, none, some, List, [], ◌∷◌, ◌++◌,
  All, All-concat, Bool-cases, if-both,
}
use bencpass.Text.{Text, same}
use bencpass.Plain.{Body}
use bencpass.Match.{Frame, fill, can_fill, can_fill_address}
use bencpass.Vault.{Vault}
use bencpass.Background.{
  PageBrowser, Addresses, Sender, Session, Effect, persisted, filled_login, filled_address,
  filled_generated, Pending, Page, origin_of, persist_in, persist_vault, session_ttl_ms,
  bump_autolock, live_sessions, reap_sessions,
}
use bencpass.Background.Table.{lookup, put_at, discard}
use bencpass.Background.Offering.{frame_of, open_session}
use bencpass.Background.Choosing.{record_of, username_of, password_of, send_to}

append_assoc {ℓ} : {A : Type ℓ} → (xs ys zs : List A) → xs ++ (ys ++ zs) ≡ (xs ++ ys) ++ zs
append_assoc [] ys zs = refl
append_assoc (x ∷ xs) ys zs = ap (λ (l : List _). x ∷ l) (append_assoc xs ys zs)

-- What is sent for a sender goes to the sender's own tab and frame.
abbrev pub IsFrameOf : PageBrowser → Sender → ℕ → ℕ → Type 0
IsFrameOf b sender tab frame =
    ((origin_of b sender).tab ≡ some tab) × ((origin_of b sender).frame ≡ frame)

-- What a step starts from: the page, and the ids of records that the step is asked to send.
pub record Moment : Type 1 where
  pub page : Page
  pub addresses : Addresses
  pub asked : Text → Type 0

-- A record that was asked for, as the vault has it when the step starts.
abbrev pub IsWanted : Moment → Text → String → Body → Type 0
IsWanted since id k r = since.asked id × (record_of id since.page.vault ≡ some (k, r))

-- What the browser reports of a frame and its page, under the settings when the step starts
abbrev pub frame_then : PageBrowser → Moment → Sender → Frame
frame_then b since sender =
    frame_of since.page.settings.allow_insecure (origin_of b sender).page_host
      (origin_of b sender).protocol

-- A login that is sent to a frame is that of the record that was asked for, which may be filled
-- there, by the hosts and the protocol that the browser reports of the frame and its page and by
-- the settings. An address is that of the record that was asked for, in answer to some tokens, and
-- goes where an address may be filled.
abbrev pub IsReleased : PageBrowser → Moment → Effect → Type 0
IsReleased b since (persisted v) = Unit {0}
IsReleased b since (filled_login tab frame username pw) =
    (sender : Sender) × (id : Text) × (k : String) × (r : Body) × IsWanted since id k r
    × IsFrameOf b sender tab frame
    × (can_fill b.pages r (origin_of b sender).frame_host (frame_then b since sender) ≡ fill)
    × (username ≡ username_of r)
    × (pw ≡ password_of r)
IsReleased b since (filled_address tab frame answers) =
    (sender : Sender) × (id : Text) × (k : String) × (r : Body) × (tokens : List Text) × IsWanted
      since id k r
    × IsFrameOf b sender tab frame
    × (can_fill_address b.pages (origin_of b sender).frame_host (frame_then b since sender) ≡ fill)
    × (answers ≡ since.addresses.values_for_tokens r tokens)
IsReleased b since (filled_generated tab frame pw) = Unit {0}

-- What has been sent since then is released.
abbrev pub SendsReleased : PageBrowser → Moment → Page → Type 0
SendsReleased b since s =
    (sent : List Effect) × (s.effects ≡ since.page.effects ++ sent) × All (IsReleased b since) sent

-- The session has what the browser reported of a frame.
pub record IsOf (b : PageBrowser) (t : Session) (sender : Sender) : Type 0 where
  pub tab : t.tab ≡ (origin_of b sender).tab
  pub frame : t.frame ≡ (origin_of b sender).frame
  pub frame_host : t.frame_host ≡ (origin_of b sender).frame_host
  pub page_host : t.page_host ≡ (origin_of b sender).page_host
  pub protocol : t.protocol ≡ (origin_of b sender).protocol

-- A session offers nothing, or it is of the frame that a message came from.
abbrev pub IsOpened : PageBrowser → Text × Session → Type 0
IsOpened b (id, t) = (t.ids ≡ []) ⊎ ((sender : Sender) × IsOf b t sender)

pub record IsSound (b : PageBrowser) (since : Moment) (s : Page) : Type 0 where
  pub opened : All (IsOpened b) s.sessions
  pub released : SendsReleased b since s

-- A property of a page whose vault is open that the changes of a handler keep, and that becomes
-- another one at the handler's end, with the timer set again or not.
pub record Closes (b : PageBrowser) (since : Moment) (P Q : Page → Type 0) : Type 1 where
  pub sound : (s : Page) → P s → IsSound b since s
  pub ends : (s : Page) → P s → Q s
  pub bumps : (now : ℕ) (s : Page) → P s → Q (bump_autolock now s)
  pub changes : (v : Vault) (s : Page) → P s → P (record s { vault = some v })
  pub sends :
      (e : Effect) (s : Page)
      → IsReleased b since e
      → P s
      → P (record s { effects = s.effects ++ e ∷ [] })
  pub offers : (m : List (ℕ × Pending)) (s : Page) → P s → P (record s { pending = m })
  pub drops : (id : Text) (s : Page) → P s → P (record s { sessions = discard same id s.sessions })

module _ {ℓ} {V : Type ℓ} (P : Text × V → Type 0) where
  pub put_at-All :
      (k : Text) (v : V) (m : List (Text × V)) → P (k, v) → All P m → All P (put_at same k v m)
  unfolding put_at
  put_at-All k v [] p h = (p, tt)
  put_at-All k v ((j, w) ∷ m) p h =
      if-both (All P) (same j k) (λ e. (p, h.1)) (λ e. (h.0, put_at-All k v m p h.1))

  pub discard-All : (k : Text) (m : List (Text × V)) → All P m → All P (discard same k m)
  unfolding discard
  discard-All k [] h = tt
  discard-All k ((j, w) ∷ m) h =
      if-both (All P) (same j k) (λ e. discard-All k m h.1) (λ e. (h.0, discard-All k m h.1))

abbrev or_session : Session → Option Session → Session
or_session u none = u
or_session u (some t) = t

-- A session that offers something is of a frame.
abbrev pub IsOpen : PageBrowser → Session → Type 0
IsOpen b t = (t.ids ≡ []) ⊎ ((sender : Sender) × IsOf b t sender)

pub lookup-IsOpen :
    (b : PageBrowser) (k : Text) (m : List (Text × Session)) (t : Session)
    → All (IsOpened b) m
    → lookup same k m ≡ some t
    → IsOpen b t
unfolding lookup
lookup-IsOpen b k [] t h e = cc
lookup-IsOpen b k ((j, u) ∷ m) t h e = elim (Bool-cases (same j k)) [
  | inl q ↦ subst (IsOpen b) (ap (or_session u) (rw q at e)) h.0
  | inr q ↦ lookup-IsOpen b k m t h.1 (rw q at e)
]

pub live_sessions-All :
    (P : Text × Session → Type 0) (now : ℕ) (m : List (Text × Session))
    → All P m
    → All P (live_sessions now m)
unfolding live_sessions
live_sessions-All P now [] h = tt
live_sessions-All P now ((id, t) ∷ m) h =
    let rest = live_sessions-All P now m h.1 in
    if-both (All P) (ltb (t.created + session_ttl_ms) now) {y = (id, t) ∷ live_sessions now m}
      (λ e. rest) (λ e. (h.0, rest))

module _ (b : PageBrowser) (since : Moment) where
  pub reap_sessions-IsSound :
      (now : ℕ) (s : Page) → IsSound b since s → IsSound b since (reap_sessions now s)
  unfolding reap_sessions
  reap_sessions-IsSound now s h = record {
    opened = live_sessions-All (IsOpened b) now s.sessions h.opened;
    released = h.released;
  }

  pub open_session-IsSound :
      (id : Text) (t : Session) (s : Page)
      → IsOpened b (id, t)
      → IsSound b since s
      → IsSound b since (open_session id t s)
  unfolding open_session
  open_session-IsSound id t s p h = record {
    opened = put_at-All (IsOpened b) id t s.sessions p h.opened;
    released = h.released;
  }

  pub bump_autolock-IsSound :
      (now : ℕ) (s : Page) → IsSound b since s → IsSound b since (bump_autolock now s)
  unfolding bump_autolock
  bump_autolock-IsSound now s h = record { opened = h.opened; released = h.released }

  -- What is sent is one effect more.
  pub sends-IsSound :
      (e : Effect) (s : Page)
      → IsReleased b since e
      → IsSound b since s
      → IsSound b since (record s { effects = s.effects ++ e ∷ [] })
  sends-IsSound e s p h = record {
    opened = h.opened;
    released =
        let (sent, q, r) = h.released in
        (
          sent ++ e ∷ [],
          rw q (sym (append_assoc since.page.effects sent (e ∷ []))),
          All-concat (IsReleased b since) sent e r p,
        );
  }

module _ (b : PageBrowser) (since : Moment) (P Q : Page → Type 0) (c : Closes b since P Q) where
  pub send_to-Closes :
      (tab : Option ℕ) (e : ℕ → Effect) (s : Page)
      → ((i : ℕ) → tab ≡ some i → IsReleased b since (e i))
      → P s
      → P (send_to tab e s)
  send_to-Closes none e s p h = h
  send_to-Closes (some i) e s p h = c.sends (e i) s (p i refl) h

  persist_in-Closes : (o : Option Vault) (s : Page) → P s → P (persist_in o s)
  persist_in-Closes none s h = h
  persist_in-Closes (some v) s h = c.sends (persisted v) s tt h

  pub persist_vault-Closes : (s : Page) → P s → P (persist_vault s)
  persist_vault-Closes s h = persist_in-Closes s.vault s h

  -- The vault is changed, and written to storage.
  pub kept-Closes : (v : Vault) (s : Page) → P s → P (persist_vault (record s { vault = some v }))
  kept-Closes v s h = persist_vault-Closes (record s { vault = some v }) (c.changes v s h)
