-- ===== src/Grants/Authority.antt =====
-- src/threshold/grants/authority.py: how GrantAuthority loads, verifies and recovers its state,
-- over the store of Grants/Store and the ledger of Core/Ledger. Any of its errors is its one error,
-- `none`. The observer, which may not change the outcome, and the seeds of the demo mode, which is
-- off, are not modelled. Its changes of the grants are in the modules below.
pub mod Verified
pub mod Settling
pub mod Recovery
pub mod Reload
pub mod Commit
pub mod Changes
pub mod Mutations
pub mod Samples
mod Examples
use threshold_node.Base.{
  eqb, if◌then◌else◌, is_some, is_empty, Dict, Result, ok, err, ℕ, String, Bool, true, false, not,
  ◌&&◌, Option, none, some, List, [], ◌∷◌, ◌==◌,
}
use threshold_node.Core.Types.{is_no_go, Housefile, zone_of, Grant}
use threshold_node.Core.LedgerEntry.{payload_of}
use threshold_node.Core.Ledger.{LedgerError}
use threshold_node.Core.Ledger.Prepared.{
  PreparedLedgerEvent, LedgerWitness, inspect_prepared, has_history, append_prepared,
  rebuild_prepared_event, verify_witness,
}
use threshold_node.Grants.Record.{valid_grants}
use threshold_node.Grants.Store.{
  TransactionKind, issue_kind, GrantLedgerWitness, PendingGrantTransaction, GrantStoreState,
  target_digest,
}
use threshold_node.Grants.Platform.{Platform, event_sha256, Disk, Ends}
use threshold_node.Grants.Store.Envelope.{empty_state, valid_state, save_state}

-- `_ready`, the manager's grants and `_state`.
pub record Authority : Type 0 where
  pub ready : Bool
  pub grants : Dict Grant
  pub state : Option GrantStoreState

-- `kind == "issue"`
abbrev pub is_issue : TransactionKind → Bool
is_issue issue_kind = true
is_issue _ = false

-- `zone is None or zone.access == Access.NO_GO`, for no zone.
unfoldable pub zones_bound : Housefile → List String → Bool
zones_bound file [] = true
zones_bound file (zid ∷ rest) =
    (elim (zone_of file zid) [ none ↦ false | some z ↦ not (is_no_go z.access) ])
    && zones_bound file rest

-- `_validate_housefile_bindings`
unfoldable pub bindings_valid : Housefile → Dict Grant → Bool
unfolding zones_bound
bindings_valid file [] = true
bindings_valid file ((k, g) ∷ rest) =
    not (is_empty g.scopes)
    && not (is_empty g.zones)
    && not (g.credential_digest == "")
    && zones_bound file g.zones
    && bindings_valid file rest

-- The `LedgerWitness` of a store's witness.
abbrev pub ledger_witness_of : GrantLedgerWitness → LedgerWitness
ledger_witness_of w = record {
  transaction = w.transaction;
  grant_revision = w.revision;
  ledger_offset = w.ledger_offset;
  receipt_sha256 = w.receipt_sha256;
}

-- `_final_state`
abbrev pub final_state : PendingGrantTransaction → GrantStoreState
final_state p = record {
  revision = p.target_revision;
  grants = p.target_grants;
  ledger_witness = some (record {
    transaction = p.transaction;
    revision = p.target_revision;
    ledger_offset = p.ledger_offset;
    receipt_sha256 = p.receipt_sha256;
    target_sha256 = p.target_sha256;
  });
  pending = none;
}

-- `aborted`
abbrev pub aborted_state : GrantStoreState → GrantStoreState
aborted_state s = record {
  revision = s.revision;
  grants = s.grants;
  ledger_witness = s.ledger_witness;
  pending = none;
}

-- `_mark_unavailable`
abbrev pub mark_unavailable : Authority → Authority
mark_unavailable a = record a { ready = false; grants = [] }

module _ (env : Platform) (file : Housefile) where
  witness_stands : Bool → Option (List ℕ) → GrantLedgerWitness → Bool
  witness_stands safe ledger w =
      verify_witness env.sha256 env.dumps env.loads env.strip env.fromisoformat safe
        (ledger_witness_of w) ledger

  witness_commits : Bool → Option (List ℕ) → Dict Grant → Option GrantLedgerWitness → Bool
  unfolding witness_stands
  witness_commits safe ledger grants none = false
  witness_commits safe ledger grants (some w) =
      valid_grants env.is_printable env.fromisoformat grants
      && (target_digest env.snapshot_sha256 grants == w.target_sha256)
      && witness_stands safe ledger w

  -- `_verify_clean_state`; `false` is any of its errors.
  unfoldable pub verify_clean_state : Bool → Option (List ℕ) → GrantStoreState → Bool
  unfolding witness_commits
  verify_clean_state safe ledger s =
      not (is_some s.pending)
      && (if eqb s.revision 0
          then is_empty s.grants && not (is_some s.ledger_witness)
          else witness_commits safe ledger s.grants s.ledger_witness)
      && bindings_valid file s.grants

  base_stands : Bool → Option (List ℕ) → Option GrantLedgerWitness → Bool
  unfolding witness_stands
  base_stands safe ledger none = false
  base_stands safe ledger (some w) = witness_stands safe ledger w

  -- `_verify_pending_base_receipt`
  unfoldable pub verify_pending_base :
      Bool → Option (List ℕ) → GrantStoreState → PendingGrantTransaction → Bool
  unfolding base_stands
  verify_pending_base safe ledger s p =
      eqb p.base_revision s.revision
      && bindings_valid file p.target_grants
      && (if eqb s.revision 0
          then not (is_some s.ledger_witness)
          else base_stands safe ledger s.ledger_witness)

  -- The end of `_recover`: the state is saved and verified.
  unfoldable pub settle : Ends → Disk → GrantStoreState → Option GrantStoreState × Disk
  settle ends disk s =
      let (reported, store) =
        save_state env.is_printable env.fromisoformat env.snapshot_sha256 (event_sha256 env)
          ends.final_save s disk.store in
      let after = record disk { store = store } in
      if reported && verify_clean_state ends.safe disk.ledger s
      then (some s, after)
      else (none, after)

  settle_appended :
      Ends
      → Disk
      → PendingGrantTransaction
      → Result LedgerError (Unit {0}) × Option (List ℕ)
      → Option GrantStoreState × Disk
  unfolding settle
  settle_appended ends disk p (ok x, ledger) =
      settle ends (record disk { ledger = ledger }) (final_state p)
  settle_appended ends disk p (err x, ledger) = (none, record disk { ledger = ledger })

  recover_inspected :
      Ends
      → Disk
      → GrantStoreState
      → PendingGrantTransaction
      → PreparedLedgerEvent
      → Result LedgerError Bool
      → Option GrantStoreState × Disk
  unfolding settle settle_appended
  recover_inspected ends disk s p prepared (err x) = (none, disk)
  recover_inspected ends disk s p prepared (ok true) = settle ends disk (final_state p)
  recover_inspected ends disk s p prepared (ok false) =
      if is_issue p.kind
      then settle ends disk (aborted_state s)
      else settle_appended ends disk p (
          append_prepared env.sha256 env.dumps env.loads env.strip env.fromisoformat ends.safe
            ends.append_end prepared disk.ledger)

  -- `_recover`
  unfoldable pub recover :
      Ends → Disk → GrantStoreState → PendingGrantTransaction → Option GrantStoreState × Disk
  unfolding recover_inspected
  recover ends disk s p =
      elim (rebuild_prepared_event env.sha256 env.dumps env.loads env.strip env.fromisoformat
        (payload_of p.event) p.ledger_offset p.ledger_tail_sha256 p.receipt_sha256) [
          | err x ↦ (none, disk)
          | ok prepared ↦
              recover_inspected ends disk s p prepared
                (inspect_prepared env.sha256 env.dumps env.loads ends.safe prepared disk.ledger)
        ]

  -- `_install_state` on the state that a reload has reached.
  unfoldable pub install : Ends → Authority → Option GrantStoreState × Disk → Authority × Disk
  install ends a (none, disk) = (mark_unavailable a, disk)
  install ends a (some s, disk) =
      if verify_clean_state ends.safe disk.ledger s
      then (record { ready = true; grants = s.grants; state = some (aborted_state s) }, disk)
      else (mark_unavailable a, disk)

  reload_pending :
      Ends → Disk → GrantStoreState → Option PendingGrantTransaction → Option GrantStoreState × Disk
  reload_pending ends disk s none =
      if verify_clean_state ends.safe disk.ledger s then (some s, disk) else (none, disk)
  reload_pending ends disk s (some p) =
      if verify_pending_base ends.safe disk.ledger s p then recover ends disk s p else (none, disk)

  pub reload_from : Ends → Disk → Option GrantStoreState → Option GrantStoreState × Disk
  unfolding reload_pending
  reload_from ends disk none =
      elim (has_history env.sha256 env.dumps env.loads ends.safe disk.ledger) [
        | err x ↦ (none, disk)
        | ok true ↦ (none, disk)
        | ok false ↦ (some empty_state, disk)
      ]
  reload_from ends disk (some s) =
      if valid_state env.is_printable env.fromisoformat env.snapshot_sha256 (event_sha256 env) s
      then reload_pending ends disk s s.pending
      else (none, disk)

  -- `ensure_ready`: `_reload` inside `_exclusive`, whose errors make the authority unavailable.
  unfoldable pub ensure_ready : Ends → Authority → Disk → Authority × Disk
  unfolding reload_from
  ensure_ready ends a disk = install ends a (reload_from ends disk disk.store)
