-- ===== src/Background/Always.antt =====
-- What holds of the page at any time (src/ext/background.js).
use bencpass.Prelude.{ℕ, ◌≤◌, true, false, ◌≡◌, refl, Option, none, some, []}
use bencpass.Vault
use bencpass.Vault.{Vault}
use bencpass.Background.{PageBrowser, Addresses, Page, is_shut, lock_vault, lock_page}
use bencpass.Background.Machine.{
  Step, hears, times_out, goes_idle, clicks_menu, opens, loses_tab, elsewhere, Reach,
}
use bencpass.Background.Stepped.{IsSteady, Reach-IsSteady}

-- A page that has just started: its vault, if there is one, is locked.
pub record IsStarted (s : Page) : Type 0 where
  pub shut : is_shut s.vault ≡ true
  pub no_session : s.sessions ≡ []

started-IsSteady : (b : PageBrowser) (a : Addresses) (s : Page) → IsStarted s → IsSteady b a s
started-IsSteady b a s h = record { opened = rw h.no_session tt; timed = λ e. cc (e, h.shut) }

-- Nothing that is secret is left in the page.
pub record IsClean (s : Page) : Type 0 where
  pub shut : is_shut s.vault ≡ true
  pub no_session : s.sessions ≡ []
  pub no_offer : s.pending ≡ []
  pub no_timer : s.autolock_at ≡ none

-- The step is that of the timer.
abbrev pub IsTimeout : {b : PageBrowser} {a : Addresses} {s u : Page} → Step b a s u → Type 0
IsTimeout (times_out now d) = Unit {0}
IsTimeout (hears t g msg sender) = ⊥
IsTimeout goes_idle = ⊥
IsTimeout (clicks_menu t tab frame source) = ⊥
IsTimeout (opens now v e) = ⊥
IsTimeout (loses_tab tab) = ⊥
IsTimeout (elsewhere v settings e) = ⊥

-- The timer is set, and from its time on it leads to a page that is locked.
abbrev pub LocksInTime : PageBrowser → Addresses → Page → Type 0
LocksInTime b a s =
    (at : ℕ) × (s.autolock_at ≡ some at)
    × ((now : ℕ) → at ≤ now → (w : Page) × (x : Step b a s w) × IsTimeout x × IsClean w)

lock_vault-shut : (o : Option Vault) → is_shut (lock_vault o) ≡ true
unfolding Vault.lock
lock_vault-shut none = refl
lock_vault-shut (some v) = refl

lock_page-IsClean : (s : Page) → IsClean (lock_page s)
unfolding lock_page
lock_page-IsClean s = record {
  shut = lock_vault-shut s.vault;
  no_session = refl;
  no_offer = refl;
  no_timer = refl;
}

-- At any time after a start with a locked vault, if the vault is open the timer is set; and from
-- the time it is set to, the step of the timer leads to a page that is locked, without a menu,
-- without a captured password and without a timer. A manager page that opens the vault is taken to
-- set the timer in the same step, as enterApp does, and a write to storage to succeed.
pub Reach-LocksInTime :
    (b : PageBrowser) (a : Addresses) (s u : Page)
    → IsStarted s
    → Reach b a s u
    → is_shut u.vault ≡ false
    → LocksInTime b a u
Reach-LocksInTime b a s u h r e =
    let (at, q) = (Reach-IsSteady b a r (started-IsSteady b a s h)).timed e in
    (at, q, λ now l. (lock_page u, times_out now (rw q l), tt, lock_page-IsClean u))
