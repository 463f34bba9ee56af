-- ===== src/Background/Watched.antt =====
-- A vault that is open has a timer that shuts it (src/ext/background.js).
use bencpass.Prelude.{ℕ, ◌+◌, false, ◌≡◌, refl, Option, none, some}
use bencpass.Text.{Text, same}
use bencpass.Vault.{Vault}
use bencpass.Vault
use bencpass.Background.{
  PageBrowser, Session, Settings, Page, is_shut, or_default, bump_autolock, lock_page, lock_vault,
  reap_sessions,
}
use bencpass.Background.Table.{discard}
use bencpass.Background.Offering.{open_session}
use bencpass.Background.Capturing.{withdraw}
use bencpass.Background.Released.{
  Moment, IsOpened, IsSound, Closes, discard-All, open_session-IsSound, bump_autolock-IsSound,
  reap_sessions-IsSound, sends-IsSound,
}

-- The timer is set.
abbrev pub IsTimed : Page → Type 0
IsTimed s = (at : ℕ) × (s.autolock_at ≡ some at)

pub record IsWatched (b : PageBrowser) (since : Moment) (s : Page) : Type 0 where
  pub sound : IsSound b since s
  pub timed : is_shut s.vault ≡ false → IsTimed s

-- A page whose vault is open
pub record IsRunning (b : PageBrowser) (since : Moment) (s : Page) : Type 0 where
  pub sound : IsSound b since s
  pub timed : IsTimed s

lock_vault-shut : (o : Option Vault) → is_shut (lock_vault o) ≡ false → ⊥
unfolding Vault.lock
lock_vault-shut none e = cc e
lock_vault-shut (some v) e = cc e

module _ (b : PageBrowser) (since : Moment) where
  pub bump_autolock-IsWatched :
      (now : ℕ) (s : Page) → IsSound b since s → IsWatched b since (bump_autolock now s)
  unfolding bump_autolock
  bump_autolock-IsWatched now s h = record {
    sound = bump_autolock-IsSound b since now s h;
    timed = λ e. (now + or_default s.settings.autolock_ms, rw e refl);
  }

  pub running-Closes : Closes b since (IsRunning b since) (IsWatched b since)
  running-Closes = record {
    sound = λ s h. h.sound;
    ends = λ s h. record { sound = h.sound; timed = λ e. h.timed };
    bumps = λ now s h. bump_autolock-IsWatched now s h.sound;
    changes = λ v s h. record {
      sound = record { opened = h.sound.opened; released = h.sound.released };
      timed = h.timed;
    };
    sends = λ e s p h. record { sound = sends-IsSound b since e s p h.sound; timed = h.timed };
    offers = λ m s h. record {
      sound = record { opened = h.sound.opened; released = h.sound.released };
      timed = h.timed;
    };
    drops = λ id s h. record {
      sound = record {
        opened = discard-All (IsOpened b) id s.sessions h.sound.opened;
        released = h.sound.released;
      };
      timed = h.timed;
    };
  }

  pub runs : (s : Page) → IsWatched b since s → is_shut s.vault ≡ false → IsRunning b since s
  runs s h e = record { sound = h.sound; timed = h.timed e }

  pub reap_sessions-IsWatched :
      (now : ℕ) (s : Page) → IsWatched b since s → IsWatched b since (reap_sessions now s)
  unfolding reap_sessions
  reap_sessions-IsWatched now s h = record {
    sound = reap_sessions-IsSound b since now s h.sound;
    timed = h.timed;
  }

  pub open_session-IsWatched :
      (id : Text) (t : Session) (s : Page)
      → IsOpened b (id, t)
      → IsWatched b since s
      → IsWatched b since (open_session id t s)
  unfolding open_session
  open_session-IsWatched id t s p h = record {
    sound = open_session-IsSound b since id t s p h.sound;
    timed = h.timed;
  }

  pub drop_session-IsWatched :
      (id : Text) (s : Page)
      → IsWatched b since s
      → IsWatched b since (record s { sessions = discard same id s.sessions })
  drop_session-IsWatched id s h = record {
    sound = record {
      opened = discard-All (IsOpened b) id s.sessions h.sound.opened;
      released = h.sound.released;
    };
    timed = h.timed;
  }

  pub withdraw-IsWatched :
      (tab : ℕ) (s : Page) → IsWatched b since s → IsWatched b since (withdraw tab s)
  unfolding withdraw
  withdraw-IsWatched tab s h = record {
    sound = record { opened = h.sound.opened; released = h.sound.released };
    timed = h.timed;
  }

  pub lock_page-IsWatched : (s : Page) → IsSound b since s → IsWatched b since (lock_page s)
  unfolding lock_page
  lock_page-IsWatched s h = record {
    sound = record { opened = tt; released = h.released };
    timed = λ e. elim (lock_vault-shut s.vault e) [ ];
  }

  -- The settings change.
  pub set-IsWatched :
      (x : Settings) (s : Page)
      → IsWatched b since s
      → IsWatched b since (record s { settings = x })
  set-IsWatched x s h = record {
    sound = record { opened = h.sound.opened; released = h.sound.released };
    timed = h.timed;
  }
