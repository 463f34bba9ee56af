-- ===== src/Background/Opened.antt =====
-- What is owed while the vault is opened (src/ext/background.js).
use bencpass.Prelude.{
  true, false, not, ◌||◌, ◌≡◌, arith, ◌⊎◌, inl, inr, Option, none, some, if-both,
}
use bencpass.Text.{Text}
use bencpass.Host.{is_empty}
use bencpass.Vault.{Vault, Fault, locked}
use bencpass.Vault.Password.{unlock, biometric_wrap}
use bencpass.Vault.Wrappings.{create, unlock_with_biometric_secret, forget_biometric}
use bencpass.Vault.Forking.{Forking, resolve_parked}
use bencpass.Background.{
  PageBrowser, Sender, Turn, persisted, Page, is_shut, persist_vault, bump_autolock,
  is_extension_page,
}
use bencpass.Background.Protocol.{Message, as_string, Reply}
use bencpass.Background.Unlocking.{
  has_any, is_given, forked_into, settle_meta, fork_in, fork_parked_conflicts, opened_up,
  unlocked_with, unlock_in, bio_opened, bio_with, bio_in, set_up, handle_setup,
}
use bencpass.Background.Machine.{Given}
use bencpass.Background.Released.{Moment, IsSound, Closes, kept-Closes, sends-IsSound}
use bencpass.Background.Watched.{
  IsTimed, IsWatched, IsRunning, running-Closes, runs, bump_autolock-IsWatched,
}
use bencpass.Vault.Failing.{OpensNothing, unlock-OpensNothing, unlock_biometric_secret-OpensNothing}

module _ (b : PageBrowser) (since : Moment) where
  abbrev After : Page × Reply → Type 0
  After r = IsWatched b since r.0

  abbrev closes : Closes b since (IsRunning b since) (IsWatched b since)
  closes = running-Closes b since

  abbrev written :
      (v : Vault) (s : Page)
      → IsRunning b since s
      → IsRunning b since (persist_vault (record s { vault = some v }))
  written = kept-Closes b since (IsRunning b since) (IsWatched b since) closes

  forked_into-IsRunning :
      (x : Fault ⊎ Forking) (s : Page) → IsRunning b since s → IsRunning b since (forked_into x s)
  forked_into-IsRunning (inl f) s h = h
  forked_into-IsRunning (inr r) s h =
      if-both (IsRunning b since) (has_any r.forked) (λ e. written r.vault s h)
        (λ e. closes.changes r.vault s h)

  fork_in-IsWatched :
      (t : Turn) (o : Option Vault) (s : Page)
      → IsWatched b since s
      → (is_shut o ≡ false → IsRunning b since s)
      → IsWatched b since (fork_in b t o s)
  fork_in-IsWatched t none s q h = q
  fork_in-IsWatched t (some v) s q h =
      if-both (IsWatched b since) (locked v || not (has_any v.parked)) (λ e. q)
        (λ e. closes.ends (forked_into (resolve_parked b.crypto t.day t.forks t.now v) s) (
          forked_into-IsRunning (resolve_parked b.crypto t.day t.forks t.now v) s
            (h (ground (arith, e)))))

  -- The timer is set before the forks are made.
  pub opened_up-IsWatched :
      (t : Turn) (s : Page) → IsSound b since s → IsWatched b since (opened_up b t s)
  unfolding opened_up fork_parked_conflicts
  opened_up-IsWatched t s h =
      let q = bump_autolock-IsWatched b since t.now s h in
      fork_in-IsWatched t (bump_autolock t.now s).vault (bump_autolock t.now s) q
        (runs b since (bump_autolock t.now s) q)

  pub vault-IsSound :
      (v : Option Vault) (s : Page) → IsSound b since s → IsSound b since (record s { vault = v })
  vault-IsSound v s h = record { opened = h.opened; released = h.released }

  kept-IsSound :
      (v : Vault) (s : Page)
      → IsSound b since s
      → IsSound b since (persist_vault (record s { vault = some v }))
  kept-IsSound v s h =
      sends-IsSound b since (persisted v) (record s { vault = some v }) tt
        (vault-IsSound (some v) s h)

  settle_meta-IsSound :
      (v : Vault) (s : Page) → IsSound b since s → IsSound b since (settle_meta v s)
  settle_meta-IsSound v s h =
      if-both (IsSound b since) v.meta_updated
        (λ e. kept-IsSound (record v { meta_updated = false }) s h)
        (λ e. vault-IsSound (some v) s h)

  -- A failure opens nothing, so the timer is not needed where it was not set.
  unlocked_with-IsWatched :
      (t : Turn) (v : Vault) (x : Vault × Option Fault) (s : Page)
      → OpensNothing v x
      → IsWatched b since s
      → (locked v ≡ false → IsTimed s)
      → After (unlocked_with b t x s)
  unlocked_with-IsWatched t v (w, none) s o q h =
      opened_up-IsWatched t (settle_meta w s) (settle_meta-IsSound w s q.sound)
  unlocked_with-IsWatched t v (w, some f) s o q h = record {
    sound = vault-IsSound (some w) s q.sound;
    timed = λ e. h (o e);
  }

  pub unlock_in-IsWatched :
      (t : Turn) (msg : Message) (o : Option Vault) (s : Page)
      → IsWatched b since s
      → (is_shut o ≡ false → IsTimed s)
      → After (unlock_in b t msg o s)
  unlock_in-IsWatched t msg none s q h = q
  unlock_in-IsWatched t msg (some v) s q h =
      unlocked_with-IsWatched t v (unlock b.crypto (as_string msg.password 1024) v) s
        (unlock-OpensNothing b.crypto v (as_string msg.password 1024)) q h

  bio_opened-IsWatched :
      (t : Turn) (v : Vault) (x : Vault × Option Fault) (s : Page)
      → OpensNothing v x
      → locked v ≡ true
      → IsWatched b since s
      → After (bio_opened b t x s)
  unfolding forget_biometric
  bio_opened-IsWatched t v (w, none) s o l q =
      opened_up-IsWatched t (record s { vault = some w }) (vault-IsSound (some w) s q.sound)
  bio_opened-IsWatched t v (w, some f) s o l q = record {
    sound = kept-IsSound (forget_biometric w) s q.sound;
    timed = λ e. cc (o e, l);
  }

  bio_with-IsWatched :
      (t : Turn) (o : Option Text) (v : Vault) (s : Page)
      → locked v ≡ true
      → IsWatched b since s
      → After (bio_with b t o v s)
  bio_with-IsWatched t none v s l q = q
  bio_with-IsWatched t (some secret) v s l q =
      bio_opened-IsWatched t v (unlock_with_biometric_secret b.crypto secret v) s
        (unlock_biometric_secret-OpensNothing b.crypto v secret) l q

  pub bio_in-IsWatched :
      (t : Turn) (x : Option Text) (o : Option Vault) (s : Page)
      → IsWatched b since s
      → After (bio_in b t x o s)
  bio_in-IsWatched t x none s q = q
  bio_in-IsWatched t x (some v) s q =
      if-both After (not (locked v)) (λ e. q)
        (λ e.
          if-both After (not (is_given (biometric_wrap v.meta))) (λ f. q)
            (λ f. bio_with-IsWatched t x v s (ground (arith, e)) q))

  set_up-IsWatched :
      (t : Turn) (x : Fault ⊎ Vault) (s : Page) → IsWatched b since s → After (set_up b t x s)
  set_up-IsWatched t (inl f) s q = q
  set_up-IsWatched t (inr v) s q =
      bump_autolock-IsWatched b since t.now (persist_vault (record s { vault = some v }))
        (kept-IsSound v s q.sound)

  pub handle_setup-IsWatched :
      (t : Turn) (g : Given) (msg : Message) (sender : Sender) (s : Page)
      → IsWatched b since s
      → After (handle_setup b t g.draws g.key_bytes g.kdf g.stored msg sender s)
  unfolding handle_setup
  handle_setup-IsWatched t g msg sender s q =
      let password = as_string msg.password 1024 in
      if-both After (not (is_extension_page b sender)) (λ e. q)
        (λ e.
          if-both After (is_given s.vault || g.stored) (λ f. q)
            (λ f.
              if-both After (is_empty password) (λ k. q)
                (λ k.
                  set_up-IsWatched t (create b.crypto g.draws g.key_bytes password g.kdf t.now) s
                    q)))
