-- ===== src/Grants/Authority/Examples.antt =====
-- Runs of grants/authority.py, and its theorems at concrete inputs: a pending issue of which the
-- ledger has no receipt, and a node without files. Every digest is one text.
use threshold_node.Grants.Authority.Settling.{Stored}
use threshold_node.Grants.Authority.Recovery.{Reaches, recover-target}
use threshold_node.Core.LedgerEntry.{
  Payload, Entry, is_digest, is_transaction_id, event_of, valid_timestamp, normalize, payload_of,
}
use threshold_node.Core.Ledger.Prepared.{
  PreparedLedgerEvent, encode_entry, inspect_prepared, has_history, rebuild_prepared_event,
}
use threshold_node.Base.{
  codes, ok, ℕ, String, ◌≡◌, refl, Bool, true, false, Option, none, some, List, [], ◌∷◌,
}
use threshold_node.Grants.Authority.Reload.{FailsClosed, ensure_ready-FailsClosed}
use threshold_node.Core.Timestamp.{Moment, aware, is_rfc3339}
use threshold_node.Core.Ledger.{written, checkpoint_digest}
use threshold_node.Grants.Store.Envelope.{saved, empty_state, valid_state, save_state}
use threshold_node.Grants.Store.{
  issue_kind, PendingGrantTransaction, GrantStoreState, target_digest, pending_semantics,
  base_grants, pending_base,
}
use threshold_node.Grants.Record.{
  is_grant_id, is_zone_id, bounded_text, timestamp_of, valid_window, validate_record, valid_grants,
}
use threshold_node.Core.Types.{read_layout, active, grant_event, Housefile, Grant}
use threshold_node.Grants.Platform.{Platform, Disk, Ends}
use threshold_node.Grants.Authority.{
  Authority, bindings_valid, verify_clean_state, settle, recover, install, ensure_ready,
}

abbrev one_digest : String
one_digest = "00000000000000000000000000000000000000000000000000000000000000aa"

abbrev bare_house : Housefile
bare_house = record {
  dwelling_name = "Demo";
  zones = [];
  systems = [];
  inventory = [];
  quirks = [];
  policies = record {
    quiet_start = "21:30";
    quiet_end = "06:30";
    timezone = "Etc/UTC";
    teleop = "per-session";
    residency = "local-first";
  };
  schema = "ths/0.1";
  rev = "A";
}

abbrev visitor : Grant
visitor = record {
  id = "g-visitor";
  name = "Visitor";
  kind = "human";
  scopes = read_layout ∷ [];
  zones = "kitchen" ∷ [];
  window = "standing";
  expires = "revocable";
  status = active;
  issued = "2026-07-15T08:00:00Z";
  credential_digest = one_digest;
}

abbrev pending_issue : PendingGrantTransaction
pending_issue = record {
  transaction = "tx-0123456789abcdef0123456789abcdef";
  kind = issue_kind;
  base_revision = 0;
  target_revision = 1;
  ledger_offset = 0;
  ledger_tail_sha256 = one_digest;
  target_sha256 = one_digest;
  receipt_sha256 = one_digest;
  event = record {
    ts = "2026-07-15T10:00:00Z";
    type = grant_event;
    agent = "g-visitor";
    detail = "grant issued";
    tier = none;
    commit = some ("tx-0123456789abcdef0123456789abcdef", 1);
  };
  target_grants = ("g-visitor", visitor) ∷ [];
  previous_statuses = [];
}

abbrev interrupted : GrantStoreState
interrupted = record {
  revision = 0;
  grants = [];
  ledger_witness = none;
  pending = some pending_issue;
}

abbrev disk_with : Option GrantStoreState → Disk
disk_with store = record { store = store; ledger = none }

abbrev good_ends : Ends
good_ends = record { safe = true; first_save = saved; append_end = written; final_save = saved }

abbrev new_authority : Authority
new_authority = record { ready = false; grants = []; state = none }

abbrev empty_authority : Authority
empty_authority = record { ready = true; grants = []; state = some empty_state }

abbrev printable_any : ℕ → Bool
printable_any c = true

abbrev at_zero : List ℕ → Option Moment
at_zero v = some (aware 0)

abbrev same_text : String → String
same_text t = t

abbrev snapshot_digest : List Grant → String
snapshot_digest gs = one_digest

abbrev byte_digest : List ℕ → String
byte_digest bytes = one_digest

abbrev detail_bytes : Entry → List ℕ
detail_bytes e = codes e.detail

abbrev read_nothing : List ℕ → Option Payload
read_nothing line = none

abbrev sample_env : Platform
sample_env = record {
  is_printable = printable_any;
  fromisoformat = at_zero;
  utc_text = λ t. "2026-07-15T10:00:00Z";
  strip = same_text;
  snapshot_sha256 = snapshot_digest;
  sha256 = byte_digest;
  token_sha256 = λ t. one_digest;
  dumps = detail_bytes;
  loads = read_nothing;
}

run_recover :
    recover sample_env bare_house good_ends (disk_with (some interrupted)) interrupted pending_issue
    ≡ (some empty_state, disk_with (some empty_state))
unfolding recover settle save_state verify_clean_state bindings_valid valid_state valid_grants
    rebuild_prepared_event inspect_prepared normalize payload_of encode_entry is_digest event_of
    valid_timestamp is_rfc3339 is_transaction_id checkpoint_digest timestamp_of bounded_text
    validate_record is_grant_id is_zone_id valid_window target_digest pending_semantics pending_base
    base_grants
run_recover = refl

run_no_files :
    ensure_ready sample_env bare_house good_ends new_authority (disk_with none)
    ≡ (empty_authority, disk_with none)
unfolding ensure_ready install verify_clean_state bindings_valid has_history
run_no_files = refl

recover-target_example :
    Stored sample_env (disk_with (some empty_state)) empty_state
    × ((prepared : PreparedLedgerEvent) × ((rebuild_prepared_event byte_digest detail_bytes
              read_nothing same_text at_zero
              (payload_of pending_issue.event)
              0
              one_digest
              one_digest
            ≡ ok prepared)
          × Reaches sample_env bare_house good_ends
              (disk_with (some interrupted))
              (disk_with (some empty_state))
              interrupted
              empty_state
              pending_issue
              prepared
              (inspect_prepared byte_digest detail_bytes read_nothing true prepared none)))
recover-target_example =
    recover-target sample_env bare_house good_ends (disk_with (some interrupted))
      (disk_with (some empty_state)) interrupted empty_state pending_issue run_recover

ensure_ready-FailsClosed_example :
    FailsClosed sample_env bare_house good_ends empty_authority (disk_with none)
ensure_ready-FailsClosed_example =
    ensure_ready-FailsClosed sample_env bare_house good_ends new_authority empty_authority
      (disk_with none) (disk_with none) run_no_files
