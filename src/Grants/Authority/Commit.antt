-- ===== src/Grants/Authority/Commit.antt =====
-- src/threshold/grants/authority.py: `_commit`, the protocol by which a change of the grants reaches
-- the two files: pending state, ledger line, settled state. The random transaction id is part of the
-- change. Every error inside it leaves the authority unavailable over the files as they are then.
pub mod Between
pub mod Reloads
pub mod Outcomes
pub mod Atomic
mod Examples
use threshold_node.Grants.Authority.{
  Authority, bindings_valid, final_state, mark_unavailable, install,
}
use threshold_node.Grants.Platform.{Platform, event_sha256, Disk, Ends}
use threshold_node.Grants.Store.Envelope.{save_state}
use threshold_node.Grants.Store.{
  TransactionKind, issue_kind, demo_seed_kind, PendingGrantTransaction, GrantStoreState,
  target_digest,
}
use threshold_node.Grants.Record.{valid_grants}
use threshold_node.Core.Timestamp.{Moment}
use threshold_node.Core.Ledger.{Outcome}
use threshold_node.Core.LedgerEntry.{text, number, Payload, Entry, EntryError, normalize}
use threshold_node.Core.Types.{GrantStatus, EventType, event_value, Housefile, Grant}
use threshold_node.Base.{
  if◌then◌else◌, is_some, Dict, Result, ok, err, ℕ, ◌+◌, String, Bool, true, false, not, ◌||◌,
  Option, none, some, List,
}
use threshold_node.Core.Ledger.Prepared.{
  PreparedLedgerEvent, receipt_sha256_of, prepare_entry, append_prepared,
}
use threshold_node.Grants.Manager.{Refusal, normalize_time}

-- What a call of the authority raises: its one error, or one of the callers' errors, which pass
-- through `_exclusive`.
pub data AuthorityError : Type 0 where
  unavailable credential_conflict authentication_failed unknown_grant : AuthorityError
  refused : Refusal → AuthorityError

-- The arguments of `_commit`, and the transaction's id.
pub record Change : Type 0 where
  pub kind : TransactionKind
  pub target : Dict Grant
  pub previous_statuses : Dict GrantStatus
  pub event_type : EventType
  pub agent : String
  pub detail : String
  pub transaction : String

-- A call returns or raises, and leaves the authority and the files.
abbrev pub Step : Type 0 → Type 0
Step A = Result AuthorityError A × (Authority × Disk)

-- `_mark_unavailable` and the error.
abbrev pub fail : {A : Type 0} → Authority → Disk → Result AuthorityError A × (Authority × Disk)
fail a disk = (err unavailable, (mark_unavailable a, disk))

-- The event of a change.
abbrev pub event_payload : String → ℕ → Change → Payload
event_payload ts target_revision c = record {
  ts = some (text ts);
  type = some (text (event_value c.event_type));
  agent = some (text c.agent);
  detail = some (text c.detail);
  tier = none;
  transaction = some (text c.transaction);
  grant_revision = some (number target_revision);
}

-- `kind in {"issue", "demo_seed"}`
abbrev pub keeps_grants : TransactionKind → Bool
keeps_grants issue_kind = true
keeps_grants demo_seed_kind = true
keeps_grants _ = false

-- `prepared_state`: the effective grants are the old ones, or already the target.
abbrev pub prepared_state : GrantStoreState → PendingGrantTransaction → GrantStoreState
prepared_state s p = record {
  revision = s.revision;
  grants = if keeps_grants p.kind then s.grants else p.target_grants;
  ledger_witness = s.ledger_witness;
  pending = some p;
}

module _ (env : Platform) where
  -- `PendingGrantTransaction(…)`
  abbrev pub pending_of : GrantStoreState → Change → PreparedLedgerEvent → PendingGrantTransaction
  pending_of s c prepared = record {
    transaction = c.transaction;
    kind = c.kind;
    base_revision = s.revision;
    target_revision = s.revision + 1;
    ledger_offset = prepared.checkpoint.offset;
    ledger_tail_sha256 = prepared.checkpoint.tail_sha256;
    target_sha256 = target_digest env.snapshot_sha256 c.target;
    receipt_sha256 = receipt_sha256_of env.sha256 env.dumps env.loads prepared;
    event = prepared.entry;
    target_grants = c.target;
    previous_statuses = c.previous_statuses;
  }

  module _ (file : Housefile) where
    pub report : Authority × Disk → Step (Unit {0})
    report (a, disk) = (if a.ready then ok tt else err unavailable, (a, disk))

    finish :
        Ends
        → Authority
        → PendingGrantTransaction
        → Option (List ℕ)
        → Bool × Option GrantStoreState
        → Step (Unit {0})
    unfolding report
    finish ends a p ledger (false, store) = fail a (record { store = store; ledger = ledger })
    finish ends a p ledger (true, store) =
        report (
          install env file ends a (some (final_state p), record { store = store; ledger = ledger }))

    after_append :
        Ends
        → Authority
        → PendingGrantTransaction
        → Option GrantStoreState
        → Outcome (Unit {0})
        → Step (Unit {0})
    unfolding finish
    after_append ends a p store (err x, ledger) = fail a (record { store = store; ledger = ledger })
    after_append ends a p store (ok x, ledger) = finish ends a p ledger (
        save_state env.is_printable env.fromisoformat env.snapshot_sha256 (event_sha256 env)
          ends.final_save (final_state p) store)

    after_first_save :
        Ends
        → Authority
        → GrantStoreState
        → PendingGrantTransaction
        → PreparedLedgerEvent
        → Option (List ℕ)
        → Bool × Option GrantStoreState
        → Step (Unit {0})
    unfolding after_append
    after_first_save ends a s p prepared ledger (false, store) =
        fail a (record { store = store; ledger = ledger })
    after_first_save ends a s p prepared ledger (true, store) =
        after_append ends (record a { ready = false; state = some (prepared_state s p) }) p store
          (append_prepared env.sha256 env.dumps env.loads env.strip env.fromisoformat ends.safe
            ends.append_end prepared ledger)

    commit_prepared :
        Ends
        → Authority
        → GrantStoreState
        → Change
        → Option GrantStoreState
        → Outcome PreparedLedgerEvent
        → Step (Unit {0})
    unfolding after_first_save
    commit_prepared ends a s c store (err x, ledger) =
        fail a (record { store = store; ledger = ledger })
    commit_prepared ends a s c store (ok prepared, ledger) =
        let p = pending_of s c prepared in
        if valid_grants env.is_printable env.fromisoformat c.target
        then after_first_save ends a s p prepared ledger (
            save_state env.is_printable env.fromisoformat env.snapshot_sha256 (event_sha256 env)
              ends.first_save (prepared_state s p) store)
        else fail a (record { store = store; ledger = ledger })

    commit_event :
        Ends
        → Authority
        → Disk
        → GrantStoreState
        → Change
        → Result EntryError Entry
        → Step (Unit {0})
    unfolding commit_prepared
    commit_event ends a disk s c (err x) = fail a disk
    commit_event ends a disk s c (ok entry) =
        commit_prepared ends a s c disk.store
          (prepare_entry env.sha256 env.dumps env.loads ends.safe entry disk.ledger)

    commit_at :
        Ends → Authority → Disk → GrantStoreState → Change → Result Refusal ℕ → Step (Unit {0})
    unfolding commit_event
    commit_at ends a disk s c (err x) = (err (refused x), (a, disk))
    commit_at ends a disk s c (ok now) = commit_event ends a disk s c (
        normalize env.strip env.fromisoformat "" false
          (event_payload (env.utc_text now) (s.revision + 1) c))

    commit_from :
        Ends → Authority → Disk → Moment → Change → Option GrantStoreState → Step (Unit {0})
    unfolding commit_at
    commit_from ends a disk now c none = fail a disk
    commit_from ends a disk now c (some s) =
        if is_some s.pending || not (bindings_valid file c.target)
        then fail a disk
        else commit_at ends a disk s c (normalize_time now)

    -- `_commit`, in `_exclusive`, whose errors make the authority unavailable.
    unfoldable pub commit : Ends → Authority → Disk → Moment → Change → Step (Unit {0})
    unfolding commit_from
    commit ends a disk now c = commit_from ends a disk now c a.state
