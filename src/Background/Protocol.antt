-- ===== src/Background/Protocol.antt =====
-- The messages of src/ext/protocol.js, and what of a record a reply may show.

use bencpass.Prelude.{
  ℕ, Bool, true, false, ◌||◌, ◌&&◌, Option, none, some, List, [], ◌∷◌, length, leb, take,
  if◌then◌else◌,
}
use bencpass.Map.{Map, get}
use bencpass.Text.{Text}
use bencpass.Text.Codes.{codes}
use bencpass.Plain.{Body, as_text}
use bencpass.Match.{type_of}
use bencpass.Background.{MenuKind, Addresses}

-- `MSG`; the last line has the types that the background page sends and does not hear
pub data MessageType : Type 0 where
  describe candidates capture : MessageType
  session open_manager unlocked choose generate close : MessageType
  state notice_state save discard never_site unlock lock search sync : MessageType
  settings_get settings_set setup join devices mint_code device_forget device_rename sync_forget :
      MessageType
  bio_state bio_enrol bio_unlock bio_forget : MessageType
  fill fill_target dismiss lockstate prompt_bio notice : MessageType

-- A message; a field that is missing, or is no text, is none.
pub record Message : Type 0 where
  pub type : MessageType
  pub session_id : Option Text
  pub record_id : Option Text
  pub kind : Option Text
  pub active : Bool
  pub username : Option Text
  pub password : Option Text
  pub title : Option Text
  pub notice_id : Option Text
  pub tokens : List (Option Text)
  pub address : Map (Option Text)

-- `CONTENT_CALLABLE`: what a content script may send
abbrev pub is_content_callable : MessageType → Bool
is_content_callable describe = true
is_content_callable candidates = true
is_content_callable capture = true
is_content_callable _ = false

-- `asString`
abbrev pub as_string : Option Text → ℕ → Text
as_string none n = []
as_string (some t) n = take n t

abbrev pub is_id_char : ℕ → Bool
is_id_char c =
    (leb b'0' c && leb c b'9')
    || (leb b'a' c && leb c b'f')
    || (leb b'A' c && leb c b'F')
    || leb b'-' c && leb c b'-'

unfoldable pub all_id_chars : Text → Bool
all_id_chars [] = true
all_id_chars (c ∷ s) = is_id_char c && all_id_chars s

abbrev pub id_of : Text → Option Text
id_of t = if all_id_chars t && leb 1 (length t) && leb (length t) 64 then some t else none

-- `asId`
unfoldable pub as_id : Option Text → Option Text
unfolding all_id_chars
as_id none = none
as_id (some t) = id_of t

-- What a menu may know of an entry; an address has its summary in place of a username.
pub record Candidate : Type 0 where
  pub id : Text
  pub title : Text
  pub username : Text
  pub type : Text

-- A row that stands for no record
abbrev pub bare_row : Text → Candidate
bare_row id = record { id = id; title = []; username = []; type = [] }

-- `publicCandidate`
unfoldable pub public_candidate : Body → Candidate
unfolding get
public_candidate r = record {
  id = as_text (get "id" r);
  title = as_text (get "title" r);
  username = as_text (get "username" r);
  type = type_of (get "type" r);
}

-- `publicAddress`
unfoldable pub public_address : Addresses → Body → Candidate
unfolding get
public_address a r = record {
  id = as_text (get "id" r);
  title = as_text (get "title" r);
  username = a.address_summary r;
  type = codes "address";
}

-- What is answered. `failed` has the reason, or the empty text; `threw` is a rejected promise.
pub data Reply : Type 0 where
  no_reply done threw : Reply
  failed : Text → Reply
  merged : Bool → Reply  -- `{ ok: true, merged }`
  silenced : Text → Reply  -- `{ ok: true, site }`
  menu : Bool → Option Text → List Candidate → Reply  -- locked, sessionId, candidates
  rows : Option MenuKind → List Candidate → Reply  -- kind, candidates
