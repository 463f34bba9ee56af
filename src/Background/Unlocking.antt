-- ===== src/Background/Unlocking.antt =====
-- How the vault is opened (src/ext/background.js): handleSetup, handleUnlock, handleBioUnlock and
-- handleUnlocked.
use bencpass.Prelude.{
  Bool, true, false, not, ◌||◌, Option, none, some, List, [], ◌∷◌, ◌⊎◌, inl, inr, if◌then◌else◌,
}
use bencpass.Text.{Text}
use bencpass.Text.Codes.{codes}
use bencpass.Header.{Kdf}
use bencpass.Host.{is_empty}
use bencpass.Vault.{Vault, Fault, unwrap_failed, locked}
use bencpass.Vault.Password.{unlock, biometric_wrap}
use bencpass.Vault.Wrappings.{Draws, create, forget_biometric, unlock_with_biometric_secret}
use bencpass.Vault.Forking.{Forking, resolve_parked}
use bencpass.Background.{
  PageBrowser, Sender, Turn, Page, persist_vault, bump_autolock, is_extension_page,
}
use bencpass.Background.Protocol.{Message, as_string, Reply, failed, done, threw}

abbrev pub is_given {ℓ} : {A : Type ℓ} → Option A → Bool
is_given none = false
is_given (some x) = true

abbrev pub has_any {ℓ} : {A : Type ℓ} → List A → Bool
has_any [] = false
has_any (x ∷ xs) = true

abbrev pub forked_into : Fault ⊎ Forking → Page → Page
forked_into (inl f) s = s
forked_into (inr r) s =
    let next = record s { vault = some r.vault } in
    if has_any r.forked then persist_vault next else next

-- The flag that an unlock took over a header
abbrev pub settle_meta : Vault → Page → Page
settle_meta v s =
    if v.meta_updated
    then persist_vault (record s { vault = some (record v { meta_updated = false }) })
    else record s { vault = some v }

abbrev pub unlock_reason : Fault → Text
unlock_reason unwrap_failed = codes "bad-password"
unlock_reason _ = codes "error"

module _ (b : PageBrowser) where
  abbrev pub fork_in : Turn → Option Vault → Page → Page
  fork_in t none s = s
  fork_in t (some v) s =
      if locked v || not (has_any v.parked)
      then s
      else forked_into (resolve_parked b.crypto t.day t.forks t.now v) s

  -- `forkParkedConflicts`
  unfoldable pub fork_parked_conflicts : Turn → Page → Page
  unfolding resolve_parked
  fork_parked_conflicts t s = fork_in t s.vault s

  -- What follows an unlock
  unfoldable pub opened_up : Turn → Page → Page
  unfolding fork_parked_conflicts bump_autolock
  opened_up t s = fork_parked_conflicts t (bump_autolock t.now s)

  abbrev pub unlocked_with : Turn → Vault × Option Fault → Page → Page × Reply
  unlocked_with t (v, none) s = (opened_up t (settle_meta v s), done)
  unlocked_with t (v, some f) s = (record s { vault = some v }, failed (unlock_reason f))

  abbrev pub unlock_in : Turn → Message → Option Vault → Page → Page × Reply
  unlock_in t msg none s = (s, failed (codes "no-vault"))
  unlock_in t msg (some v) s = unlocked_with t (unlock b.crypto (as_string msg.password 1024) v) s

  -- `handleUnlock`; the number of damaged records in its answer is left out
  unfoldable pub handle_unlock : Turn → Message → Sender → Page → Page × Reply
  unfolding is_extension_page unlock opened_up
  handle_unlock t msg sender s =
      if not (is_extension_page b sender)
      then (s, failed (codes "error"))
      else unlock_in t msg s.vault s

  abbrev pub bio_opened : Turn → Vault × Option Fault → Page → Page × Reply
  bio_opened t (v, none) s = (opened_up t (record s { vault = some v }), done)
  bio_opened t (v, some f) s = (
    persist_vault (record s { vault = some (forget_biometric v) }),
    failed (codes "stale-secret"),
  )

  abbrev pub bio_with : Turn → Option Text → Vault → Page → Page × Reply
  bio_with t none v s = (s, failed (codes "no-secret"))
  bio_with t (some secret) v s = bio_opened t (unlock_with_biometric_secret b.crypto secret v) s

  abbrev pub bio_in : Turn → Option Text → Option Vault → Page → Page × Reply
  bio_in t secret none s = (s, failed (codes "no-vault"))
  bio_in t secret (some v) s =
      if not (locked v)
      then (s, done)
      else if not (is_given (biometric_wrap v.meta))
      then (s, failed (codes "not-enrolled"))
      else bio_with t secret v s

  -- `handleBioUnlock`; the secret is what `secretFrom` reads from the message.
  unfoldable pub handle_bio_unlock : Turn → Option Text → Page → Page × Reply
  unfolding unlock_with_biometric_secret forget_biometric opened_up
  handle_bio_unlock t secret s = bio_in t secret s.vault s

  -- `handleUnlocked`, without the return to another tab
  unfoldable pub handle_unlocked : Turn → Sender → Page → Page × Reply
  unfolding is_extension_page opened_up
  handle_unlocked t sender s =
      if not (is_extension_page b sender) then (s, failed []) else (opened_up t s, done)

  abbrev pub set_up : Turn → Fault ⊎ Vault → Page → Page × Reply
  set_up t (inl f) s = (s, threw)
  set_up t (inr v) s = (bump_autolock t.now (persist_vault (record s { vault = some v })), done)

  -- `handleSetup`: the vault key, the draws and the kdf are what `Vault.create` draws and defaults
  -- to, and `stored` says whether storage has a vault.
  unfoldable pub handle_setup :
      Turn → Draws → Text → Kdf → Bool → Message → Sender → Page → Page × Reply
  unfolding is_extension_page create bump_autolock
  handle_setup t d bytes k stored msg sender s =
      let password = as_string msg.password 1024 in
      if not (is_extension_page b sender)
      then (s, failed (codes "error"))
      else if is_given s.vault || stored
      then (s, failed (codes "already-a-vault"))
      else if is_empty password
      then (s, failed (codes "no-password"))
      else set_up t (create b.crypto d bytes password k t.now) s
