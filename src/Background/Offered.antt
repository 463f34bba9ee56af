-- ===== src/Background/Offered.antt =====
-- The handlers of menus keep the page sound and watched (src/ext/background.js).
use bencpass.Prelude.{ℕ, not, refl, inl, inr, Option, none, some, List, [], ◌∷◌, map, if-both}
use bencpass.Text.{Text, same}
use bencpass.Text.Codes.{codes}
use bencpass.Plain.{Body}
use bencpass.Host.{is_empty}
use bencpass.Background.{
  PageBrowser, Addresses, Sender, Turn, MenuKind, signup_menu, login_menu, address_menu, Session,
  Page, is_shut, text_or, origin_of, bump_autolock, is_extension_page,
}
use bencpass.Background.Table.{lookup}
use bencpass.Background.Protocol.{
  public_candidate, public_address, Message, Candidate, as_string, Reply,
}
use bencpass.Background.Offering.{
  new_session, locked_session, record_id, offer_menu, offer_for, handle_candidates, handle_close,
  close_found, sanitize_tokens, logins_for, addresses_here, records_of,
}
use bencpass.Background.Released.{Moment, IsOpened}
use bencpass.Background.Watched.{
  IsWatched, open_session-IsWatched, bump_autolock-IsWatched, drop_session-IsWatched,
}

module _ (b : PageBrowser) (since : Moment) (a : Addresses) where
  abbrev After : Page × Reply → Type 0
  After r = IsWatched b since r.0

  -- A session that is opened for a message has what the browser reported.
  new_session-IsOpened :
      (id : Text) (now : ℕ) (sender : Sender) (kind : MenuKind) (ids tokens : List Text)
      → IsOpened b (id, new_session now (origin_of b sender) kind ids tokens)
  new_session-IsOpened id now sender kind ids tokens = inr (
    sender,
    record { tab = refl; frame = refl; frame_host = refl; page_host = refl; protocol = refl },
  )

  offer_menu-IsWatched :
      (t : Turn) (sender : Sender) (kind : MenuKind) (shown : Body → Candidate) (tokens : List Text)
      (rs : List Body) (s : Page)
      → IsWatched b since s
      → After (offer_menu b a t (origin_of b sender) kind shown tokens rs s)
  offer_menu-IsWatched t sender kind shown tokens [] s h = h
  offer_menu-IsWatched t sender kind shown tokens (r ∷ rs) s h =
      open_session-IsWatched b since t.new_id
        (new_session t.now (origin_of b sender) kind (map record_id (r ∷ rs)) tokens) s
        (new_session-IsOpened t.new_id t.now sender kind (map record_id (r ∷ rs)) tokens) h

  offer_for-IsWatched :
      (t : Turn) (kind : Text) (tokens : List (Option Text)) (sender : Sender) (s : Page)
      → IsWatched b since s
      → After (offer_for b a t kind tokens (origin_of b sender) s)
  unfolding offer_for
  offer_for-IsWatched t kind tokens sender s h =
      let o = origin_of b sender in
      if-both After (same kind (codes "signup"))
        (λ e.
          open_session-IsWatched b since t.new_id (new_session t.now o signup_menu [] []) s
            (new_session-IsOpened t.new_id t.now sender signup_menu [] []) h)
        (λ e.
          if-both After (same kind (codes "address"))
            (λ f.
              offer_menu-IsWatched t sender address_menu (public_address a)
                (sanitize_tokens b a tokens)
                (addresses_here b a s.settings.allow_insecure o (records_of s.vault)) s h)
            (λ f.
              offer_menu-IsWatched t sender login_menu public_candidate []
                (logins_for b a s.settings.allow_insecure o (records_of s.vault)) s h))

  pub handle_candidates-IsWatched :
      (t : Turn) (msg : Message) (sender : Sender) (s : Page)
      → IsWatched b since s
      → After (handle_candidates b a t msg sender s)
  unfolding handle_candidates
  handle_candidates-IsWatched t msg sender s h =
      if-both After (is_shut s.vault)
        (λ e.
          open_session-IsWatched b since t.new_id (locked_session t.now (origin_of b sender)) s
            (inl refl) h)
        (λ e.
          if-both After (is_empty (origin_of b sender).frame_host)
            (λ f. bump_autolock-IsWatched b since t.now s h.sound)
            (λ f.
              offer_for-IsWatched t (text_or msg.kind []) msg.tokens sender (bump_autolock t.now s)
                (bump_autolock-IsWatched b since t.now s h.sound)))

  close_found-IsWatched :
      (id : Text) (o : Option Session) (s : Page)
      → IsWatched b since s
      → After (close_found b a id o s)
  close_found-IsWatched id none s h = h
  close_found-IsWatched id (some t) s h = drop_session-IsWatched b since id s h

  pub handle_close-IsWatched :
      (msg : Message) (sender : Sender) (s : Page)
      → IsWatched b since s
      → After (handle_close b a msg sender s)
  unfolding handle_close
  handle_close-IsWatched msg sender s h =
      if-both After (not (is_extension_page b sender)) (λ e. h)
        (λ e.
          close_found-IsWatched (as_string msg.session_id 64)
            (lookup same (as_string msg.session_id 64) s.sessions) s h)
