-- ===== src/Background/QuietOpening.antt =====
-- Opening the vault gathers no secret (src/ext/background.js).
use bencpass.Prelude.{
  ℕ, false, not, ◌||◌, ◌≡◌, ap, refl, ◌⊎◌, inl, inr, Option, none, some, [], All, if-both,
}
use bencpass.Text.{Text}
use bencpass.Host.{is_empty}
use bencpass.Vault.{Vault, Fault, locked}
use bencpass.Vault.Password.{unlock, biometric_wrap}
use bencpass.Vault.Wrappings.{create, unlock_with_biometric_secret, forget_biometric}
use bencpass.Vault.Forking.{Forking, resolve_parked}
use bencpass.Background.{
  PageBrowser, Sender, Turn, Session, Page, lock_page, persist_in, persist_vault, bump_autolock,
  is_extension_page,
}
use bencpass.Background.Table.{discard}
use bencpass.Background.Protocol.{Message, as_string, Reply}
use bencpass.Background.Offering.{open_session}
use bencpass.Background.Capturing.{same_tab, withdraw}
use bencpass.Background.Unlocking.{
  has_any, is_given, forked_into, settle_meta, fork_in, fork_parked_conflicts, opened_up,
  unlocked_with, unlock_in, bio_opened, bio_with, bio_in, set_up, handle_setup,
}
use bencpass.Background.Machine.{Given}
use bencpass.Background.Released.{put_at-All}

-- A menu that names no record
abbrev pub NamesNone : Text × Session → Type 0
NamesNone (id, t) = t.ids ≡ []

-- No captured password waits, and no menu names a record.
pub record IsQuiet (s : Page) : Type 0 where
  pub no_offer : s.pending ≡ []
  pub unnamed : All NamesNone s.sessions

module _ (b : PageBrowser) where
  abbrev After : Page × Reply → Type 0
  After r = IsQuiet r.0

  pub open_session-IsQuiet :
      (id : Text) (t : Session) (s : Page) → t.ids ≡ [] → IsQuiet s → IsQuiet (open_session id t s)
  unfolding open_session
  open_session-IsQuiet id t s p h = record {
    no_offer = h.no_offer;
    unnamed = put_at-All NamesNone id t s.sessions p h.unnamed;
  }

  pub withdraw-IsQuiet : (tab : ℕ) (s : Page) → IsQuiet s → IsQuiet (withdraw tab s)
  unfolding withdraw discard
  withdraw-IsQuiet tab s h = record {
    no_offer = ap (discard same_tab tab) h.no_offer;
    unnamed = h.unnamed;
  }

  persist_in-IsQuiet : (o : Option Vault) (s : Page) → IsQuiet s → IsQuiet (persist_in o s)
  persist_in-IsQuiet none s h = h
  persist_in-IsQuiet (some v) s h = record { no_offer = h.no_offer; unnamed = h.unnamed }

  pub vault-IsQuiet : (v : Vault) (s : Page) → IsQuiet s → IsQuiet (record s { vault = some v })
  vault-IsQuiet v s h = record { no_offer = h.no_offer; unnamed = h.unnamed }

  kept-IsQuiet :
      (v : Vault) (s : Page) → IsQuiet s → IsQuiet (persist_vault (record s { vault = some v }))
  kept-IsQuiet v s h =
      persist_in-IsQuiet (some v) (record s { vault = some v }) (vault-IsQuiet v s h)

  pub bump_autolock-IsQuiet : (now : ℕ) (s : Page) → IsQuiet s → IsQuiet (bump_autolock now s)
  unfolding bump_autolock
  bump_autolock-IsQuiet now s h = record { no_offer = h.no_offer; unnamed = h.unnamed }

  pub lock_page-IsQuiet : (s : Page) → IsQuiet (lock_page s)
  unfolding lock_page
  lock_page-IsQuiet s = record { no_offer = refl; unnamed = tt }

  forked_into-IsQuiet : (x : Fault ⊎ Forking) (s : Page) → IsQuiet s → IsQuiet (forked_into x s)
  forked_into-IsQuiet (inl f) s h = h
  forked_into-IsQuiet (inr r) s h =
      if-both IsQuiet (has_any r.forked) (λ e. kept-IsQuiet r.vault s h)
        (λ e. vault-IsQuiet r.vault s h)

  fork_in-IsQuiet : (t : Turn) (o : Option Vault) (s : Page) → IsQuiet s → IsQuiet (fork_in b t o s)
  fork_in-IsQuiet t none s h = h
  fork_in-IsQuiet t (some v) s h =
      if-both IsQuiet (locked v || not (has_any v.parked)) (λ e. h)
        (λ e. forked_into-IsQuiet (resolve_parked b.crypto t.day t.forks t.now v) s h)

  pub opened_up-IsQuiet : (t : Turn) (s : Page) → IsQuiet s → IsQuiet (opened_up b t s)
  unfolding opened_up fork_parked_conflicts
  opened_up-IsQuiet t s h =
      fork_in-IsQuiet t (bump_autolock t.now s).vault (bump_autolock t.now s)
        (bump_autolock-IsQuiet t.now s h)

  settle_meta-IsQuiet : (v : Vault) (s : Page) → IsQuiet s → IsQuiet (settle_meta v s)
  settle_meta-IsQuiet v s h =
      if-both IsQuiet v.meta_updated (λ e. kept-IsQuiet (record v { meta_updated = false }) s h)
        (λ e. vault-IsQuiet v s h)

  unlocked_with-IsQuiet :
      (t : Turn) (x : Vault × Option Fault) (s : Page) → IsQuiet s → After (unlocked_with b t x s)
  unlocked_with-IsQuiet t (w, none) s h =
      opened_up-IsQuiet t (settle_meta w s) (settle_meta-IsQuiet w s h)
  unlocked_with-IsQuiet t (w, some f) s h = vault-IsQuiet w s h

  pub unlock_in-IsQuiet :
      (t : Turn) (msg : Message) (o : Option Vault) (s : Page)
      → IsQuiet s
      → After (unlock_in b t msg o s)
  unlock_in-IsQuiet t msg none s h = h
  unlock_in-IsQuiet t msg (some v) s h =
      unlocked_with-IsQuiet t (unlock b.crypto (as_string msg.password 1024) v) s h

  bio_opened-IsQuiet :
      (t : Turn) (x : Vault × Option Fault) (s : Page) → IsQuiet s → After (bio_opened b t x s)
  bio_opened-IsQuiet t (w, none) s h =
      opened_up-IsQuiet t (record s { vault = some w }) (vault-IsQuiet w s h)
  bio_opened-IsQuiet t (w, some f) s h = kept-IsQuiet (forget_biometric w) s h

  bio_with-IsQuiet :
      (t : Turn) (o : Option Text) (v : Vault) (s : Page) → IsQuiet s → After (bio_with b t o v s)
  bio_with-IsQuiet t none v s h = h
  bio_with-IsQuiet t (some secret) v s h =
      bio_opened-IsQuiet t (unlock_with_biometric_secret b.crypto secret v) s h

  pub bio_in-IsQuiet :
      (t : Turn) (x : Option Text) (o : Option Vault) (s : Page)
      → IsQuiet s
      → After (bio_in b t x o s)
  bio_in-IsQuiet t x none s h = h
  bio_in-IsQuiet t x (some v) s h =
      if-both After (not (locked v)) (λ e. h)
        (λ e.
          if-both After (not (is_given (biometric_wrap v.meta))) (λ f. h)
            (λ f. bio_with-IsQuiet t x v s h))

  set_up-IsQuiet : (t : Turn) (x : Fault ⊎ Vault) (s : Page) → IsQuiet s → After (set_up b t x s)
  set_up-IsQuiet t (inl f) s h = h
  set_up-IsQuiet t (inr v) s h =
      bump_autolock-IsQuiet t.now (persist_vault (record s { vault = some v })) (kept-IsQuiet v s h)

  pub handle_setup-IsQuiet :
      (t : Turn) (g : Given) (msg : Message) (sender : Sender) (s : Page)
      → IsQuiet s
      → After (handle_setup b t g.draws g.key_bytes g.kdf g.stored msg sender s)
  unfolding handle_setup
  handle_setup-IsQuiet t g msg sender s h =
      let password = as_string msg.password 1024 in
      if-both After (not (is_extension_page b sender)) (λ e. h)
        (λ e.
          if-both After (is_given s.vault || g.stored) (λ f. h)
            (λ f.
              if-both After (is_empty password) (λ k. h)
                (λ k.
                  set_up-IsQuiet t (create b.crypto g.draws g.key_bytes password g.kdf t.now) s h)))
