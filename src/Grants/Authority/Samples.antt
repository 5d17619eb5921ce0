-- ===== src/Grants/Authority/Samples.antt =====
-- Data for the runs of grants/authority.py: a house, a grant that was issued, and the disk with it.
-- Every digest is one text, and an entry is written as its detail.
use threshold_node.Core.Types.{
  restricted, read_layout, cmd_navigate, active, EventType, grant_event, revoke_event, estop_event,
  Coordinate, Housefile, Grant,
}
use threshold_node.Base.{
  if◌then◌else◌, codes, ℕ, String, true, false, Option, none, some, List, [], ◌∷◌, ◌++◌,
}
use threshold_node.Grants.Authority.Changes.{Attempt}
use threshold_node.Grants.Authority.{Authority}
use threshold_node.Grants.Platform.{Platform, Disk, Ends}
use threshold_node.Grants.Store.Envelope.{saved, rolled_back}
use threshold_node.Grants.Store.{GrantStoreState}
use threshold_node.Core.Ledger.Prepared.{bytes_eq}
use threshold_node.Core.Ledger.{newline, written}
use threshold_node.Core.LedgerEntry.{Payload, Entry, payload_of}
use threshold_node.Core.Timestamp.{aware}

abbrev pub one_digest : String
one_digest = "00000000000000000000000000000000000000000000000000000000000000aa"

abbrev origin : Coordinate
origin = record { negative = false; mantissa = 0; halvings = 0 }

abbrev pub kitchen_house : Housefile
kitchen_house = record {
  dwelling_name = "Demo";
  zones =
      record {
        id = "kitchen";
        name = "Kitchen";
        access = restricted;
        boundary = record { x = origin; y = origin; w = origin; h = origin };
        note = "";
        outdoor = false;
      }
      ∷ [];
  systems = [];
  inventory = [];
  quirks = [];
  policies = record {
    quiet_start = "21:30";
    quiet_end = "06:30";
    timezone = "Etc/UTC";
    teleop = "per-session";
    residency = "local-first";
  };
  schema = "ths/0.1";
  rev = "A";
}

abbrev pub visitor : Grant
visitor = record {
  id = "g-visitor";
  name = "Visitor";
  kind = "human";
  scopes = read_layout ∷ cmd_navigate ∷ [];
  zones = "kitchen" ∷ [];
  window = "standing";
  expires = "revocable";
  status = active;
  issued = "2026-07-15T08:00:00Z";
  credential_digest = one_digest;
}

abbrev pub first_id : String
first_id = "tx-0123456789abcdef0123456789abcdef"

abbrev pub second_id : String
second_id = "tx-0123456789abcdef0123456789abcdee"

abbrev pub entry_of : String → String → EventType → ℕ → Entry
entry_of detail transaction type revision = record {
  ts = "2026-07-15T10:00:00Z";
  type = type;
  agent = "g-visitor";
  detail = detail;
  tier = none;
  commit = some (transaction, revision);
}

abbrev pub issued_line : List ℕ
issued_line = codes "grant issued" ++ newline ∷ []

abbrev read_line : List ℕ → Option Payload
read_line line = some (
    if bytes_eq line issued_line
    then payload_of (entry_of "grant issued" first_id grant_event 1)
    else if bytes_eq line (codes "grant revoked" ++ newline ∷ [])
    then payload_of (entry_of "grant revoked" second_id revoke_event 2)
    else payload_of
        (record (entry_of "simulated interlock tripped; active grants suspended" second_id
          estop_event 2) { agent = "system" }))

abbrev pub plain_env : Platform
plain_env = record {
  is_printable = λ c. true;
  fromisoformat = λ v. some (aware 0);
  utc_text = λ t. "2026-07-15T10:00:00Z";
  strip = λ t. t;
  snapshot_sha256 = λ gs. one_digest;
  sha256 = λ bytes. one_digest;
  token_sha256 = λ t. one_digest;
  dumps = λ e. codes e.detail;
  loads = read_line;
}

abbrev pub issued_state : GrantStoreState
issued_state = record {
  revision = 1;
  grants = ("g-visitor", visitor) ∷ [];
  ledger_witness = some (record {
    transaction = first_id;
    revision = 1;
    ledger_offset = 0;
    receipt_sha256 = one_digest;
    target_sha256 = one_digest;
  });
  pending = none;
}

abbrev pub issued_disk : Disk
issued_disk = record { store = some issued_state; ledger = some issued_line }

abbrev pub issued_authority : Authority
issued_authority = record { ready = true; grants = issued_state.grants; state = some issued_state }

abbrev pub good_ends : Ends
good_ends = record { safe = true; first_save = saved; append_end = written; final_save = saved }

-- The settled state cannot be saved.
abbrev pub torn_ends : Ends
torn_ends = record {
  safe = true;
  first_save = saved;
  append_end = written;
  final_save = rolled_back;
}

abbrev pub new_authority : Authority
new_authority = record { ready = false; grants = []; state = none }

abbrev pub second_attempt : Attempt
second_attempt = record { ends = good_ends; transaction = second_id }

abbrev pub supplied_token : Option String
supplied_token = some "0123456789abcdef0123456789abcdef"
