-- ===== src/Background/Generated.antt =====
-- A generated password is written to storage before it is filled (src/ext/background.js).
use mathlib.Core.Path.{subst}
use bencpass.Prelude.{
  sym, ap, ℕ, String, not, ◌≡◌, refl, ◌⊎◌, inl, inr, Option, none, some, List, [], ◌∷◌, ◌++◌,
  if-both,
}
use bencpass.Text.{Text, same}
use bencpass.Generate.Password.{
  Generated, no_set, too_short, empty_set, gave_up, out_of_draws, password, generate,
}
use bencpass.Vault.{Vault}
use bencpass.Vault.Listed.{OwnEntries}
use bencpass.Vault.Provisional.{Keeping, kept, refused, missing, keep_generated}
use bencpass.Vault.Kept.{HasText, IsKept, KeepOutcome, keep_generated-KeepOutcome}
use bencpass.Background.{
  PageBrowser, Sender, Turn, Session, Effect, persisted, filled_generated, Page, persist_vault,
  is_shut, is_extension_page,
}
use bencpass.Background.Table.{lookup}
use bencpass.Background.Protocol.{Message, as_string, Reply}
use bencpass.Background.Choosing.{send_to}
use bencpass.Background.Generating.{
  generate_options, site_url, fill_generated, keep_password, generate_in, handle_generate,
}

-- The vault was written to storage, and then the password was sent to one frame, or to none.
abbrev pub IsSentAfter : Vault → Text → List Effect → List Effect → Type 0
IsSentAfter w pw before after =
    (after ≡ before ++ persisted w ∷ [])
    ⊎ ((tab frame : ℕ) × (after
          ≡ (before ++ persisted w ∷ []) ++ filled_generated tab frame pw ∷ []))

-- Nothing left the page, or a vault that has the password was written before the password was sent.
abbrev pub IsKeptFirst : String → Page → Page → Type 0
IsKeptFirst key s u =
    (u.effects ≡ s.effects)
    ⊎ ((w : Vault) × (id : String) × (pw : Text) × (u.vault ≡ some w)
        × IsKept key id (HasText pw) w
        × IsSentAfter w pw s.effects u.effects)

abbrev or_vault : Vault → Option Vault → Vault
or_vault v none = v
or_vault v (some w) = w

module _ (b : PageBrowser) (key : String) where
  abbrev After : Page → Page × Reply → Type 0
  After s r = IsKeptFirst key s r.0

  sent-IsKeptFirst :
      (o : Option ℕ) (frame : ℕ) (pw : Text) (w : Vault) (id : String) (s : Page)
      → IsKept key id (HasText pw) w
      → IsKeptFirst key s (
          send_to o
            (λ i. filled_generated i frame pw)
            (persist_vault (record s { vault = some w })))
  sent-IsKeptFirst none frame pw w id s h = inr (w, id, pw, refl, h, inl refl)
  sent-IsKeptFirst (some tab) frame pw w id s h = inr (w, id, pw, refl, h, inr (tab, frame, refl))

  fill_generated-IsKeptFirst :
      (t : Turn) (u : Session) (pw : Text) (k : Keeping) (s : Page)
      → KeepOutcome key pw k
      → After s (fill_generated b t u pw k s)
  fill_generated-IsKeptFirst t u pw (kept id w) s h = sent-IsKeptFirst u.tab u.frame pw w id s h
  fill_generated-IsKeptFirst t u pw (refused f) s h = elim h [ ]
  fill_generated-IsKeptFirst t u pw (missing id) s h = elim h [ ]

  module _ (v : Vault) (q : v.key ≡ some key) (own : OwnEntries v.envelopes v.plain) where
    keep_password-IsKeptFirst :
        (t : Turn) (u : Session) (g : Generated) (s : Page) → After s (keep_password b t u g v s)
    keep_password-IsKeptFirst t u (password pw draws) s =
        let url = site_url u.protocol u.frame_host in
        fill_generated-IsKeptFirst t u pw
          (keep_generated b.crypto t.fresh t.now b.pages u.frame_host url pw v) s
          (keep_generated-KeepOutcome b.crypto t.fresh t.now b.pages u.frame_host url pw key v q
            own)
    keep_password-IsKeptFirst t u no_set s = inl refl
    keep_password-IsKeptFirst t u too_short s = inl refl
    keep_password-IsKeptFirst t u empty_set s = inl refl
    keep_password-IsKeptFirst t u gave_up s = inl refl
    keep_password-IsKeptFirst t u out_of_draws s = inl refl

    generate_in-IsKeptFirst :
        (t : Turn) (o : Option Session) (x : Option Vault) (s : Page)
        → x ≡ some v
        → After s (generate_in b t o x s)
    generate_in-IsKeptFirst t none x s e = inl refl
    generate_in-IsKeptFirst t (some u) none s e = inl refl
    generate_in-IsKeptFirst t (some u) (some w) s e =
        subst (λ (x : Vault). After s (keep_password b t u (generate generate_options t.draws) x s))
          (sym (ap (or_vault v) e))
          (keep_password-IsKeptFirst t u (generate generate_options t.draws) s)

-- In an unlocked vault whose records have no field `id` of their own and each their envelope, a
-- request for a generated password sends nothing, or writes a vault with a record of that password
-- to storage before it sends the password to a frame.
pub handle_generate-IsKeptFirst :
    (b : PageBrowser) (t : Turn) (msg : Message) (sender : Sender) (key : String) (v : Vault)
    (s : Page)
    → s.vault ≡ some v
    → v.key ≡ some key
    → OwnEntries v.envelopes v.plain
    → IsKeptFirst key s (handle_generate b t msg sender s).0
unfolding handle_generate
handle_generate-IsKeptFirst b t msg sender key v s e q own =
    if-both (λ (r : Page × Reply). IsKeptFirst key s r.0) (not (is_extension_page b sender))
      (λ f. inl refl)
      (λ f.
        if-both (λ (r : Page × Reply). IsKeptFirst key s r.0) (is_shut s.vault) (λ g. inl refl)
          (λ g.
            generate_in-IsKeptFirst b key v q own t
              (lookup same (as_string msg.session_id 64) s.sessions) s.vault s e))
