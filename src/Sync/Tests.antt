-- ===== src/Sync/Tests.antt =====
-- Concrete codes and rounds.
use bencpass.Prelude.{
  ℕ, String, ◌≡◌, refl, ◌+◌, false, none, some, List, [], ◌∷◌, ◌++◌, inl, Bool, Option,
  if◌then◌else◌,
}
use bencpass.Envelope.{Envelope}
use bencpass.Header.{whole}
use bencpass.Crypto.{Platform}
use bencpass.Vault.{Vault, park}
use bencpass.Merge.{merge, confirm_pushed}
use bencpass.Vault.Adopting.{apply_envelopes}
use bencpass.Sync.Client.{World, Server, dropped_push}
use bencpass.Sync.Round.{Supply, all_served, from_wire, take_round}
use bencpass.Sync.Once.{conclude, sync_once}
use bencpass.Sync.Routes.{Routes, reach}
use bencpass.Sync.Reached.{ReachOutcome, reach-ReachOutcome}
use bencpass.Sync.Joining.{loaded}
use bencpass.Sync.Marks.{Marks}
use bencpass.Sync.Marked.{sync_once-Marks}
use bencpass.Sync.Served.{
  OnSuccess, IsConcluded, IsHonestReport, conclude-IsConcluded, sync_once-IsHonestReport,
}
use bencpass.Text.{trim, trim_start, has_char, Text, same}
use bencpass.Text.Codes.{codes}
use bencpass.Recovery.{upper_char}
use bencpass.Sync.Codes.{
  encode_floor, digit_of, decode_from, decode_floor, pack_enrol_code, split_enrol_code, the_code,
}
use bencpass.Sync.Codes.RoundTrip.{split-pack_enrol_code}

split-pack_enrol_code_example :
    split_enrol_code (codes " k3J9fJq2QxYz.BB ") ≡ the_code (codes "k3J9fJq2QxYz") 32
unfolding pack_enrol_code encode_floor trim trim_start has_char
split-pack_enrol_code_example =
    split-pack_enrol_code (codes "k3J9fJq2QxYz") (codes " k3J9fJq2QxYz.BB ") 32 refl refl

-- An unreadable floor is none.
no_floor : decode_floor (codes "M0") ≡ 0
unfolding decode_floor decode_from digit_of upper_char
no_floor = refl

-- A server that keeps what it is sent.
abbrev kept : Server
kept = record {
  State = List Envelope × ℕ;
  get_meta = λ s. (some (200, record { meta = none; seq = some s.1 }), s);
  put_meta = λ h seq s. (some (200, some (s.1 + 1)), (s.0, s.1 + 1));
  get_records = λ since s. (some (200, record { records = s.0; seq = some s.1 }), s);
  put_records = λ es known s. (some (200, some (s.1 + 1)), (s.0 ++ es, s.1 + 1));
}

-- A server that answers 200 and keeps nothing.
abbrev forgetful : Server
forgetful = record kept { put_records = λ es known s. (some (200, some (s.1 + 1)), (s.0, s.1 + 1)) }

-- A server that leaves out its sequence number.
abbrev numberless : Server
numberless = record kept {
  get_records = λ since s. (some (200, record { records = s.0; seq = none }), s);
}

abbrev platform : Platform
platform = record {
  encrypt = λ key nonce aad t. "ct";
  decrypt = λ key nonce aad ct. none;
  argon2id = λ password salt m i l. password;
  import_key = λ bytes. "key";
  quote = λ s. codes s;
  stringify = λ body. [];
  parse = λ t. none;
}

abbrev supply : Supply
supply = record {
  fresh = λ round k. record { id = "f"; nonce = "n" };
  nonce = λ round k. "n";
  now = 1;
  day = λ t. [];
}

abbrev envelope : ℕ → String → Envelope
envelope rev ct = record {
  id = "a";
  rev = rev;
  deleted = false;
  n = "n";
  ct = ct;
  over_tombstone = false;
}

abbrev vault : Vault
vault =
    record (loaded (record {
      format = 2;
      created = none;
      gen = whole 0;
      changed_at = none;
      kdf = record {
        name = "argon2id";
        memory_kib = 1;
        iterations = 1;
        parallelism = 1;
        salt = "s";
      };
      wraps = none;
      proof = none;
    })) { envelopes = ("a", envelope 2 "ours") ∷ [] }

abbrev world : List Envelope → ℕ → World (List Envelope × ℕ)
world served seq = record {
  vault = vault;
  state = record { seq = some 0; highest_seq = some 3; synced_rev = [] };
  server = (served, seq);
}

sync_once-Marks_example :
    Marks (world [] 5).state (sync_once kept platform supply (world [] 5)).1.state
sync_once-Marks_example = sync_once-Marks kept platform supply (world [] 5)

sync_once-IsHonestReport_example :
    OnSuccess (IsHonestReport kept platform supply) (sync_once kept platform supply (world [] 5))
sync_once-IsHonestReport_example = sync_once-IsHonestReport kept platform supply (world [] 5)

conclude-IsConcluded_example :
    IsConcluded forgetful
      (some 6)
      (envelope 2 "ours" ∷ [])
      (world [] 6)
      (conclude forgetful (some 6) (envelope 2 "ours" ∷ []) (world [] 6))
conclude-IsConcluded_example =
    conclude-IsConcluded forgetful (some 6) (envelope 2 "ours" ∷ []) (world [] 6)

-- A push is seen on the server, with the ancestor moved and the mark raised.
pushed_once :
    (sync_once kept platform supply (world [] 5)).1.state
    ≡ record { seq = some 7; highest_seq = some 7; synced_rev = ("a", 2) ∷ [] }
unfolding sync_once merge from_wire apply_envelopes all_served confirm_pushed
pushed_once = refl

-- A push that is answered with 200 and not kept is found out, and no ancestor moves.
push_dropped :
    let r = sync_once forgetful platform supply (world [] 5) in
    (r.0 ≡ inl dropped_push) × (r.1.state.synced_rev ≡ [])
unfolding sync_once merge from_wire apply_envelopes all_served confirm_pushed
push_dropped = (refl, refl)

-- A reply without a sequence number takes the mark away, and with it the refusal of a rollback.
mark_lost :
    let first = take_round numberless platform supply 0 (some 0) (world [] 5) in
    let second = take_round kept platform supply 0 (some 0) (record first.1 { server = ([], 1) }) in
    (first.1.state.highest_seq ≡ none) × (second.1.state.seq ≡ some 1)
unfolding take_round merge from_wire apply_envelopes park
mark_lost = (refl, refl)

-- A network in which one address is reached.
abbrev fetch : Text → Bool → ℕ → Option ℕ × ℕ
fetch e last s = if same e (codes "b") then (some s, s + 1) else (none, s + 1)

abbrev routes : Routes
routes = record { endpoints = codes "a" ∷ codes "b" ∷ codes "c" ∷ []; preferred = 2 }

reach-ReachOutcome_example : ReachOutcome fetch routes 0 (reach fetch routes 0)
reach-ReachOutcome_example = reach-ReachOutcome fetch routes 0

-- The address that answered comes first from then on.
reached : reach fetch routes 0 ≡ (some 2, record routes { preferred = 1 }, 3)
unfolding reach same
reached = refl
