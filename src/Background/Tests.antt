-- ===== src/Background/Tests.antt =====
-- A concrete page: a login form asks for a menu, and the record that is chosen is filled.
use Prim.Native.Nat.{Ordering}
use bencpass.Prelude.{ℕ, true, false, ◌≡◌, refl, none, some, List, [], ◌∷◌, if◌then◌else◌}
use bencpass.Map.{get, set}
use bencpass.Text.{Text, same}
use bencpass.Text.Codes.{codes}
use bencpass.Plain.{Body, str, urls}
use bencpass.Model.{login}
use bencpass.Host.{is_ip_host}
use bencpass.Vault.{Vault}
use bencpass.Vault.Listed.{OwnEntries}
use bencpass.Vault.Tests.{named, kdf, shut, opened}
use bencpass.Background.{
  PageBrowser, Addresses, Sender, Turn, Effect, filled_login, Page, bump_autolock, origin_of,
}
use bencpass.Background.Protocol.{MessageType, candidates, choose, generate, capture, Message}
use bencpass.Background.Generating.{handle_generate}
use bencpass.Background.Capturing.{handle_capture}
use bencpass.Background.Machine.{
  Step, Given, dispatch_to, dispatch, listen, hears, opens, Reach, here, next,
}
use bencpass.Background.Always.{IsStarted, LocksInTime, Reach-LocksInTime}
use bencpass.Background.QuietOpening.{IsQuiet}
use bencpass.Background.Quiet.{Step-IsQuiet}
use bencpass.Background.Generated.{IsKeptFirst, handle_generate-IsKeptFirst}
use bencpass.Background.Captured.{CaptureOutcome, handle_capture-CaptureOutcome}

abbrev browser : PageBrowser
browser = record {
  pages = record {
    has_rule = λ t. same t (codes "com");
    url_hostname =
        λ u. if same u (codes "https://bank.com/in") then some (codes "bank.com") else none;
    locale_compare = λ s t. Ordering.eq;
  };
  crypto = named;
  protocol_of = λ u. some (codes "https:");
  extension_url = codes "moz-extension:";
}

abbrev addresses : Addresses
addresses = record {
  is_token = λ t. true;
  values_for_tokens = λ r tokens. record { values = []; alts = [] };
  normalize_captured = λ raw. [];
  is_addressish = λ r. false;
  matches_stored = λ r s. false;
  address_summary = λ r. [];
}

abbrev turn : ℕ → Text → Turn
turn now id = record {
  now = now;
  new_id = id;
  fresh = record { id = "f"; nonce = "n" };
  later_nonce = "m";
  forks = λ n. record { id = "g"; nonce = "n" };
  day = λ n. [];
  draws = [];
  active = none;
  reached = true;
}

abbrev given : Given
given = record {
  secret = none;
  draws = record { salt = "s"; wrap_nonce = "n"; proof_nonce = "n" };
  key_bytes = [];
  kdf = kdf;
  stored = true;
}

abbrev message : MessageType → Message
message type = record {
  type = type;
  session_id = some (codes "5");
  record_id = some (codes "a");
  kind = some (codes "login");
  active = false;
  username = some (codes "ann");
  password = some (codes "secret");
  title = none;
  notice_id = none;
  tokens = [];
  address = [];
}

-- The third frame of a tab, and the menu of the extension
abbrev form : Sender
form = record {
  url = some (codes "https://bank.com/in");
  tab = some (record { id = 7; url = codes "https://bank.com/in" });
  frame = 3;
}

abbrev overlay : Sender
overlay = record { url = some (codes "moz-extension:overlay"); tab = none; frame = 0 }

abbrev bank_record : Body
bank_record =
    ("type", str login)
    ∷ ("username", str (codes "ann"))
    ∷ ("password", str (codes "pw"))
    ∷ ("urls", urls (codes "https://bank.com/in" ∷ []))
    ∷ []

abbrev bank_vault : Vault
bank_vault = record opened { plain = ("a", bank_record) ∷ [] }

abbrev start : Page
start = record {
  vault = some shut;
  settings = record {
    endpoint = [];
    fallback_endpoint = [];
    autolock_ms = 0;
    allow_insecure = false;
    never_sites = [];
  };
  sessions = [];
  pending = [];
  autolock_at = none;
  effects = [];
}

start-IsStarted : IsStarted start
start-IsStarted = record { shut = refl; no_session = refl }

abbrev open_page : Page
open_page = bump_autolock 1000 (record start { vault = some bank_vault })

abbrev asked : Page
asked =
    (listen browser addresses (turn 2000 (codes "5")) given (message candidates) form open_page).0

abbrev chosen : Page
chosen = (listen browser addresses (turn 3000 (codes "6")) given (message choose) overlay asked).0

to_open : Reach browser addresses start open_page
to_open = next here (opens 1000 bank_vault refl)

abbrev choosing : Step browser addresses asked chosen
choosing = hears (turn 3000 (codes "6")) given (message choose) overlay

Reach-LocksInTime_example : LocksInTime browser addresses open_page
unfolding bump_autolock
Reach-LocksInTime_example =
    Reach-LocksInTime browser addresses start open_page start-IsStarted to_open refl

start-IsQuiet : IsQuiet start
start-IsQuiet = record { no_offer = refl; unnamed = tt }

Step-IsQuiet_example :
    IsQuiet (listen browser addresses (turn 2000 (codes "5")) given (message capture) form start).0
Step-IsQuiet_example =
    Step-IsQuiet browser addresses start
      (listen browser addresses (turn 2000 (codes "5")) given (message capture) form start).0
      (hears (turn 2000 (codes "5")) given (message capture) form) refl start-IsQuiet

bank_vault-OwnEntries : OwnEntries bank_vault.envelopes bank_vault.plain
unfolding get set
bank_vault-OwnEntries = (refl, (_, refl), tt)

abbrev drawing : Turn
drawing = record (turn 3000 (codes "6")) {
  draws =
      1 ∷ 2 ∷ 3 ∷ 4 ∷ 5 ∷ 6 ∷ 7 ∷ 8 ∷ 9 ∷ 10 ∷ 11 ∷ 12 ∷ 13 ∷ 14 ∷ 15 ∷ 16 ∷ 17 ∷ 18 ∷ 19 ∷ 20 ∷ [];
}

handle_generate-IsKeptFirst_example :
    IsKeptFirst "key" asked (handle_generate browser drawing (message generate) overlay asked).0
unfolding listen dispatch dispatch_to bump_autolock is_ip_host
handle_generate-IsKeptFirst_example =
    handle_generate-IsKeptFirst browser drawing (message generate) overlay "key" bank_vault asked
      refl refl bank_vault-OwnEntries

handle_capture-CaptureOutcome_example :
    CaptureOutcome browser addresses
      (message capture)
      (origin_of browser form)
      (some 7)
      open_page.vault
      open_page
      (handle_capture browser addresses (turn 2000 (codes "5")) (message capture) form open_page).0
unfolding origin_of
handle_capture-CaptureOutcome_example =
    handle_capture-CaptureOutcome browser addresses (turn 2000 (codes "5")) (message capture) form
      open_page

-- The passwords of the logins that were filled
abbrev passwords : List Effect → List Text
passwords [] = []
passwords (filled_login tab frame username pw ∷ es) = pw ∷ passwords es
passwords (_ ∷ es) = passwords es

filled : passwords chosen.effects ≡ codes "pw" ∷ []
unfolding listen dispatch dispatch_to bump_autolock is_ip_host
filled = refl
