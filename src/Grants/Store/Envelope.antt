-- ===== src/Grants/Store/Envelope.antt =====
-- src/threshold/grants/store.py: what `_decode_state` asks of a whole state, and `save_state`.
-- `event_sha256` is the digest of the canonical line of an event.
pub mod Saves
mod Examples
use threshold_node.Base.{
  leb, eqb, if◌then◌else◌, is_some, length, all, codes, Dict, keys, ℕ, ◌+◌, String, Bool, true,
  false, not, ◌&&◌, Option, none, some, List, [], ◌==◌,
}
use threshold_node.Core.LedgerEntry.{Entry, is_digest, is_transaction_id, max_revision}
use threshold_node.Core.Timestamp.{Moment}
use threshold_node.Core.Types.{GrantStatus, EventType, read_event, Grant}
use threshold_node.Grants.Record.{
  max_grants, max_name_length, max_policy_length, is_grant_id, bounded_text, stored_timestamp,
  valid_grants,
}
use threshold_node.Grants.Store.{
  GrantLedgerWitness, PendingGrantTransaction, GrantStoreState, target_digest, pending_semantics,
  pending_base,
}

-- How the atomic replacement of `_save_encoded` ends.
pub data SaveEnd : Type 0 where
  saved rolled_back left_live : SaveEnd

-- `GrantStoreState.empty()`
abbrev pub empty_state : GrantStoreState
empty_state = record { revision = 0; grants = []; ledger_witness = none; pending = none }

-- `_valid_offset`
valid_offset : ℕ → Bool
valid_offset n = leb n max_revision

module _ (is_printable : ℕ → Bool) (fromisoformat : List ℕ → Option Moment)
    (snapshot_sha256 : List Grant → String) (event_sha256 : Entry → String) where
  -- `_decode_witness`
  valid_witness : ℕ → Option GrantLedgerWitness → Bool
  unfolding valid_offset
  valid_witness revision none = true
  valid_witness revision (some w) =
      is_transaction_id w.transaction
      && eqb w.revision revision
      && valid_offset w.ledger_offset
      && is_digest w.receipt_sha256
      && is_digest w.target_sha256

  commits_as : Option (String × ℕ) → String → ℕ → Bool
  commits_as none transaction revision = false
  commits_as (some (t, r)) transaction revision = (t == transaction) && eqb r revision

  is_store_event : EventType → Bool
  is_store_event read_event = false
  is_store_event _ = true

  -- `_validate_event`: exactly the six fields, so no `tier`.
  valid_event : Entry → String → ℕ → Bool
  unfolding commits_as is_store_event
  valid_event e transaction revision =
      not (is_some e.tier)
      && stored_timestamp is_printable fromisoformat e.ts
      && is_store_event e.type
      && bounded_text is_printable fromisoformat e.agent max_name_length
      && leb (length (codes e.detail)) max_policy_length
      && all is_printable (codes e.detail)
      && commits_as e.commit transaction revision

  valid_previous : Dict GrantStatus → Bool
  valid_previous previous = leb (length previous) max_grants && all is_grant_id (keys previous)

  -- `_decode_pending`
  valid_pending : ℕ → Dict Grant → Option GrantLedgerWitness → Option PendingGrantTransaction → Bool
  unfolding valid_offset valid_event valid_previous
  valid_pending revision effective witness none = true
  valid_pending revision effective witness (some p) =
      is_transaction_id p.transaction
      && eqb p.base_revision revision
      && eqb p.target_revision (p.base_revision + 1)
      && valid_offset p.ledger_offset
      && is_digest p.ledger_tail_sha256
      && is_digest p.target_sha256
      && is_digest p.receipt_sha256
      && valid_event p.event p.transaction p.target_revision
      && (event_sha256 p.event == p.receipt_sha256)
      && valid_grants is_printable fromisoformat p.target_grants
      && (target_digest snapshot_sha256 p.target_grants == p.target_sha256)
      && valid_previous p.previous_statuses
      && pending_semantics snapshot_sha256 p.kind effective p.target_grants p.previous_statuses
          p.event.type
      && pending_base snapshot_sha256 p.kind revision effective p.target_grants p.previous_statuses
          witness

  -- `_decode_state`, which `_encode_state` runs on what it has encoded.
  unfoldable pub valid_state : GrantStoreState → Bool
  unfolding valid_witness valid_pending
  valid_state s =
      leb s.revision max_revision
      && valid_grants is_printable fromisoformat s.grants
      && valid_witness s.revision s.ledger_witness
      && valid_pending s.revision s.grants s.ledger_witness s.pending
      && (if eqb s.revision 0 then not (is_some s.ledger_witness) else is_some s.ledger_witness)

  -- `_save_encoded` reads what the file holds and refuses to replace an invalid state.
  replaceable : Option GrantStoreState → Bool
  replaceable none = true
  replaceable (some previous) = valid_state previous

  -- `save_state`: refused before a byte is written unless the new state is valid, and then unless
  -- the old one is; then the file is replaced, or the replacement fails, with the new name gone or,
  -- if its rollback fails too, live. A refusal for the size of the encoding is such a failure.
  unfoldable pub save_state :
      SaveEnd → GrantStoreState → Option GrantStoreState → Bool × Option GrantStoreState
  unfolding replaceable
  save_state end s disk =
      if valid_state s && replaceable disk
      then (elim end [
        | saved ↦ (true, some s)
        | rolled_back ↦ (false, disk)
        | left_live ↦ (false, some s)
      ])
      else (false, disk)
