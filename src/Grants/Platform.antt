-- ===== src/Grants/Platform.antt =====
-- What src/threshold/grants/authority.py runs on: its clock, digests and JSON, which are the
-- standard library's, and the two files that it keeps.
use threshold_node.Base.{ℕ, String, Bool, Option, List, [], ◌∷◌, ◌++◌}
use threshold_node.Core.Types.{Grant}
use threshold_node.Core.Timestamp.{Moment}
use threshold_node.Core.LedgerEntry.{Payload, Entry}
use threshold_node.Core.Ledger.{newline, WriteEnd}
use threshold_node.Grants.Store.{GrantStoreState}
use threshold_node.Grants.Store.Envelope.{SaveEnd}

-- `datetime.fromisoformat`, `isoformat(timespec="seconds").replace("+00:00", "Z")`, `str.strip` and `isprintable`, `hashlib.sha256` of bytes and of a
-- token's UTF-8, and the
-- canonical JSON of an entry, of a line and of the grants' records.
pub record Platform : Type 0 where
  pub is_printable : ℕ → Bool
  pub fromisoformat : List ℕ → Option Moment
  pub utc_text : ℕ → String
  pub strip : String → String
  pub snapshot_sha256 : List Grant → String
  pub sha256 : List ℕ → String
  pub token_sha256 : String → String
  pub dumps : Entry → List ℕ
  pub loads : List ℕ → Option Payload

-- The digest of the canonical line of an event.
abbrev pub event_sha256 : Platform → Entry → String
event_sha256 env e = env.sha256 (env.dumps e ++ newline ∷ [])

-- The two files.
pub record Disk : Type 0 where
  pub store : Option GrantStoreState
  pub ledger : Option (List ℕ)

-- Whether the ledger's file is private, and how the writes end: the save of a pending transaction,
-- the append, and the save of a settled state.
pub record Ends : Type 0 where
  pub safe : Bool
  pub first_save : SaveEnd
  pub append_end : WriteEnd
  pub final_save : SaveEnd
