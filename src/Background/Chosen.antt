-- ===== src/Background/Chosen.antt =====
-- The handlers that send keep what an open page has (src/ext/background.js).
use bencpass.Prelude.{
  ℕ, String, true, false, not, ◌==◌, ◌≡◌, refl, sym, ◌∙◌, ◌⊎◌, inl, inr, Option, none, some,
  if-both, ap, arith,
}
use bencpass.Text.{Text, same}
use bencpass.Plain.{Body}
use bencpass.Match.{Verdict, fill, refuse, can_fill, can_fill_address, host_of}
use bencpass.Vault.{Vault, Fault}
use bencpass.Vault.Records.{touch_used}
use bencpass.Background.{
  PageBrowser, Addresses, Tab, Sender, Turn, Session, filled_login, filled_address, Page, is_shut,
  text_or, https, origin_of, is_extension_page,
}
use bencpass.Background.Table.{lookup, discard}
use bencpass.Background.Protocol.{Message, as_string, as_id, Reply}
use bencpass.Background.Offering.{frame_of, has_text}
use bencpass.Background.Choosing.{
  record_of, username_of, password_of, send_to, is_reached, touched, touch_in, touch, used_up,
  answer_address, choose_address, choose_login, choose_record, choose_in, is_address_menu,
  has_values, address_verdict, login_verdict, active_verdict, fill_active, fill_record, in_front,
  choose_for_active_tab, handle_choose,
}
use bencpass.Background.Released.{
  Moment, IsWanted, IsFrameOf, IsOf, Closes, IsOpen, lookup-IsOpen, send_to-Closes, kept-Closes,
}

module _ (b : PageBrowser) (since : Moment) (P Q : Page → Type 0) (c : Closes b since P Q) where
  abbrev After : Page × Reply → Type 0
  After r = Q r.0

  abbrev a : Addresses
  a = since.addresses

  -- The settings of the step's start
  abbrev IsSameRule : Page → Type 0
  IsSameRule s = s.settings.allow_insecure ≡ since.page.settings.allow_insecure

  touched-Closes : (x : Fault ⊎ Vault) (s : Page) → P s → P (touched x s)
  touched-Closes (inl f) s h = h
  touched-Closes (inr w) s h = kept-Closes b since P Q c w s h

  touch_in-Closes :
      (t : Turn) (k : String) (o : Option Vault) (s : Page) → P s → P (touch_in b a t k o s)
  unfolding touch_in
  touch_in-Closes t k none s h = h
  touch_in-Closes t k (some v) s h =
      touched-Closes (touch_used b.crypto t.fresh.nonce k t.now v) s h

  touch-Closes : (t : Turn) (k : String) (s : Page) → P s → P (touch b a t k s)
  unfolding touch
  touch-Closes t k s h = touch_in-Closes t k s.vault s h

  used_up-Closes :
      (t : Turn) (id : Text) (session : Session) (s : Page)
      → P s
      → After (used_up b a t id session s)
  unfolding used_up
  used_up-Closes t id session s h =
      if-both After (is_reached session.tab t.reached)
        (λ e. c.bumps t.now (record s { sessions = discard same id s.sessions }) (c.drops id s h))
        (λ e. c.ends s h)

  module _ (sender : Sender) (session : Session) (o : IsOf b session sender) where
    is_frame : (i : ℕ) → session.tab ≡ some i → IsFrameOf b sender i session.frame
    is_frame i e = (sym o.tab ∙ e, sym o.frame)

    module _ (wanted : Text) (k : String) (r : Body) (q : IsWanted since wanted k r) where
      answer_address-Closes :
          (t : Turn) (id : Text) (s : Page)
          → IsSameRule s
          → can_fill_address b.pages session.frame_host
              (frame_of s.settings.allow_insecure session.page_host session.protocol)
            ≡ fill
          → P s
          → After (answer_address b a t id session (a.values_for_tokens r session.tokens) s)
      answer_address-Closes t id s e v h =
          let answers = a.values_for_tokens r session.tokens in
          if-both After (has_values answers.values)
            (λ f.
              used_up-Closes t id session
                (send_to session.tab (λ tab. filled_address tab session.frame answers) s)
                (send_to-Closes b since P Q c session.tab
                  (λ tab. filled_address tab session.frame answers) s
                  (λ i g. (
                    sender,
                    wanted,
                    k,
                    r,
                    session.tokens,
                    q,
                    is_frame i g,
                    rw (← e, ← o.frame_host, ← o.page_host, ← o.protocol) v,
                    refl,
                  ))
                  h))
            (λ f. c.ends s h)

      address_verdict-Closes :
          (t : Turn) (id : Text) (x : Verdict) (s : Page)
          → IsSameRule s
          → can_fill_address b.pages session.frame_host
              (frame_of s.settings.allow_insecure session.page_host session.protocol)
            ≡ x
          → P s
          → After (address_verdict b a t id session r x s)
      address_verdict-Closes t id fill s e v h = answer_address-Closes t id s e v h
      address_verdict-Closes t id (refuse reason) s e v h = c.ends s h

      login_verdict-Closes :
          (t : Turn) (id : Text) (x : Verdict) (s : Page)
          → IsSameRule s
          → can_fill b.pages r session.frame_host
              (frame_of s.settings.allow_insecure session.page_host session.protocol)
            ≡ x
          → P s
          → After (login_verdict b a t id session k r x s)
      login_verdict-Closes t id fill s e v h =
          let send = λ (tab : ℕ). filled_login tab session.frame (username_of r) (password_of r) in
          used_up-Closes t id session (send_to session.tab send (touch b a t k s)) (
            send_to-Closes b since P Q c session.tab send (touch b a t k s)
              (λ i g. (
                sender,
                wanted,
                k,
                r,
                q,
                is_frame i g,
                rw (← e, ← o.frame_host, ← o.page_host, ← o.protocol) v,
                refl,
                refl,
              ))
              (touch-Closes t k s h))
      login_verdict-Closes t id (refuse reason) s e v h = c.ends s h

    choose_record-Closes :
        (t : Turn) (id wanted : Text) (x : Option (String × Body)) (s : Page)
        → IsSameRule s
        → since.asked wanted
        → record_of wanted since.page.vault ≡ x
        → P s
        → After (choose_record b a t id session x s)
    unfolding choose_record choose_address choose_login
    choose_record-Closes t id wanted none s e w q h = c.ends s h
    choose_record-Closes t id wanted (some (k, r)) s e w q h =
        if-both After (is_address_menu session.kind)
          (λ f. address_verdict-Closes wanted k r (w, q) t id _ s e refl h)
          (λ f. login_verdict-Closes wanted k r (w, q) t id _ s e refl h)

  -- The vault and the settings are those of the step's start.
  abbrev IsAt : Page → Type 0
  IsAt s = (s.vault ≡ since.page.vault) × IsSameRule s

  then_of :
      (wanted : Text) (s : Page)
      → IsAt s
      → record_of wanted since.page.vault ≡ record_of wanted s.vault
  then_of wanted s e = ap (λ (v : Option Vault). record_of wanted v) (sym e.0)

  -- A session without ids is stale.
  choose_open-Closes :
      (t : Turn) (id wanted : Text) (session : Session) (s : Page)
      → IsAt s
      → since.asked wanted
      → IsOpen b session
      → has_text wanted session.ids ≡ true
      → P s
      → After (choose_record b a t id session (record_of wanted s.vault) s)
  unfolding has_text
  choose_open-Closes t id wanted session s z w (inl e) q h = cc (rw e at q)
  choose_open-Closes t id wanted session s z w (inr (sender, o)) q h =
      choose_record-Closes sender session o t id wanted (record_of wanted s.vault) s z.1 w
        (then_of wanted s z) h

  choose_in-Closes :
      (t : Turn) (id : Text) (x : Option Session) (w : Option Text) (s : Page)
      → IsAt s
      → ((id : Text) → w ≡ some id → since.asked id)
      → ((session : Session) → x ≡ some session → IsOpen b session)
      → P s
      → After (choose_in b a t id x w s)
  unfolding choose_in
  choose_in-Closes t id none w s z y q h = c.ends s h
  choose_in-Closes t id (some session) none s z y q h = c.ends s h
  choose_in-Closes t id (some session) (some wanted) s z y q h =
      if-both After (has_text wanted session.ids)
        (λ e. choose_open-Closes t id wanted session s z (y wanted refl) (q session refl) e h)
        (λ e. c.ends s h)

  -- The popup fills the main frame of the tab in front, as if that frame had asked.
  abbrev main_frame : Tab → Sender
  main_frame tab = record { url = some tab.url; tab = some tab; frame = 0 }

  active_verdict-Closes :
      (t : Turn) (tab : Tab) (wanted : Text) (k : String) (r : Body) (x : Verdict) (s : Page)
      → IsWanted since wanted k r
      → IsSameRule s
      → can_fill b.pages r (host_of b.pages tab.url) (
          frame_of s.settings.allow_insecure
            (host_of b.pages tab.url)
            (text_or (b.protocol_of tab.url) https))
        ≡ x
      → P s
      → After (active_verdict b a t tab k r x s)
  unfolding origin_of
  active_verdict-Closes t tab wanted k r fill s q z v h =
      let send = λ (i : ℕ). filled_login i 0 (username_of r) (password_of r) in
      let sent =
        send_to-Closes b since P Q c (some tab.id) send s
          (λ i e. (main_frame tab, wanted, k, r, q, (e, refl), rw (← z) v, refl, refl)) h in
      if-both After t.reached
        (λ e.
          c.bumps t.now (touch b a t k (send_to (some tab.id) send s))
            (touch-Closes t k (send_to (some tab.id) send s) sent))
        (λ e. c.ends (send_to (some tab.id) send s) sent)
  active_verdict-Closes t tab wanted k r (refuse reason) s q z v h = c.ends s h

  fill_record-Closes :
      (t : Turn) (tab : Tab) (wanted : Text) (x : Option (String × Body)) (s : Page)
      → IsSameRule s
      → since.asked wanted
      → record_of wanted since.page.vault ≡ x
      → P s
      → After (fill_record b a t tab x s)
  unfolding fill_active
  fill_record-Closes t tab wanted none s z w q h = c.ends s h
  fill_record-Closes t tab wanted (some (k, r)) s z w q h =
      active_verdict-Closes t tab wanted k r _ s (w, q) z refl h

  in_front-Closes :
      (t : Turn) (x : Option Tab) (wanted : Text) (s : Page)
      → IsAt s
      → since.asked wanted
      → P s
      → After (in_front b a t x wanted s)
  in_front-Closes t none wanted s z w h = c.ends s h
  in_front-Closes t (some tab) wanted s z w h =
      if-both After (tab.id == 0) (λ e. c.ends s h)
        (λ e.
          fill_record-Closes t tab wanted (record_of wanted s.vault) s z.1 w (then_of wanted s z) h)

  choose_for_active_tab-Closes :
      (t : Turn) (w : Option Text) (s : Page)
      → IsAt s
      → ((id : Text) → w ≡ some id → since.asked id)
      → P s
      → After (choose_for_active_tab b a t w s)
  unfolding choose_for_active_tab
  choose_for_active_tab-Closes t none s z y h = c.ends s h
  choose_for_active_tab-Closes t (some wanted) s z y h =
      in_front-Closes t t.active wanted s z (y wanted refl) h

  -- Where the vault is open the page has P.
  pub handle_choose-Closes :
      (t : Turn) (msg : Message) (sender : Sender) (s : Page)
      → (s.vault ≡ since.page.vault)
        × (s.settings.allow_insecure ≡ since.page.settings.allow_insecure)
      → (is_extension_page b sender ≡ true
          → (id : Text) → as_id msg.record_id ≡ some id
          → since.asked id)
      → Q s
      → (is_shut s.vault ≡ false → P s)
      → After (handle_choose b a t msg sender s)
  unfolding handle_choose
  handle_choose-Closes t msg sender s z y q h =
      let id = as_string msg.session_id 64 in
      if-both After (not (is_extension_page b sender)) (λ e. q)
        (λ e.
          if-both After (is_shut s.vault) (λ f. q)
            (λ f.
              if-both After msg.active
                (λ g.
                  choose_for_active_tab-Closes t (as_id msg.record_id) s z (y (ground (arith, e)))
                    (h f))
                (λ g.
                  choose_in-Closes t id (lookup same id s.sessions) (as_id msg.record_id) s z
                    (y (ground (arith, e)))
                    (λ session e. lookup-IsOpen b id s.sessions session (c.sound s (h f)).opened e)
                    (h f))))
