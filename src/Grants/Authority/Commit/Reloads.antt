-- ===== src/Grants/Authority/Commit/Reloads.antt =====
-- What a reload of grants/authority.py leaves in the store of an interrupted commit.
use threshold_node.Grants.Authority.Settling.{is_issue_lem}
use threshold_node.Base.{
  Bool-cases, Dict, Result, ok, err, Result-cases, ℕ, ◌≡◌, refl, sym, ap, ◌∙◌, subst, ◌⊎◌, inl, inr,
  Bool, true, false, ◌&&◌, Option, none, some, List, arith,
}
use threshold_node.Grants.Authority.Commit.Between.{
  Stage, before, no_file, pending_stage, committed, save, save_store, install_disk,
}
use threshold_node.Grants.Authority.Commit.{prepared_state}
use threshold_node.Grants.Authority.{
  Authority, is_issue, final_state, aborted_state, verify_clean_state, verify_pending_base, settle,
  settle_appended, recover_inspected, recover, reload_pending, reload_from, ensure_ready,
}
use threshold_node.Grants.Platform.{Platform, event_sha256, Disk, Ends}
use threshold_node.Grants.Store.Envelope.{valid_state}
use threshold_node.Grants.Store.{
  TransactionKind, issue_kind, PendingGrantTransaction, GrantStoreState,
}
use threshold_node.Core.Ledger.Prepared.{
  PreparedLedgerEvent, inspect_prepared, has_history, append_prepared, rebuild_prepared_event,
}
use threshold_node.Core.Ledger.{LedgerError}
use threshold_node.Core.LedgerEntry.{payload_of}
use threshold_node.Core.Types.{Housefile, Grant}

module _ (env : Platform) (file : Housefile) where
  -- What a recovery of `p` over `s` may leave in the store.
  data Recovered (s : GrantStoreState) (p : PendingGrantTransaction)
      (old store : Option GrantStoreState) : Type 0 where
    untouched : store ≡ old → Recovered s p old store
    undone : p.kind ≡ issue_kind → store ≡ some (aborted_state s) → Recovered s p old store
    completed : store ≡ some (final_state p) → Recovered s p old store

  settle_store :
      (ends : Ends) (disk : Disk) (t : GrantStoreState)
      → ((settle env file ends disk t).1.store ≡ some t)
        ⊎ ((settle env file ends disk t).1.store ≡ disk.store)
  unfolding settle
  settle_store ends disk t =
      let result = save env file ends.final_save t disk.store in
      let stored = save_store env file ends.final_save t disk.store in
      elim (Bool-cases (result.0 && verify_clean_state env file ends.safe disk.ledger t)) [
        | inl h ↦ ground (arith, stored)
        | inr h ↦ ground (arith, stored)
      ]

  completed_by :
      (ends : Ends) (s : GrantStoreState) (p : PendingGrantTransaction) (disk : Disk)
      → Recovered s p disk.store ((settle env file ends disk (final_state p)).1.store)
  completed_by ends s p disk = elim (settle_store ends disk (final_state p)) [
    | inl e ↦ completed e
    | inr e ↦ untouched e
  ]

  appended-Recovered :
      (ends : Ends) (s : GrantStoreState) (p : PendingGrantTransaction) (disk : Disk)
      (result : Result LedgerError (Unit {0}) × Option (List ℕ))
      → Recovered s p disk.store ((settle_appended env file ends disk p result).1.store)
  unfolding settle_appended
  appended-Recovered ends s p disk (ok x, ledger) =
      completed_by ends s p (record disk { ledger = ledger })
  appended-Recovered ends s p disk (err x, ledger) = untouched refl

  inspected-Recovered :
      (ends : Ends) (s : GrantStoreState) (p : PendingGrantTransaction) (disk : Disk)
      (prepared : PreparedLedgerEvent) (present : Result LedgerError Bool)
      → Recovered s p disk.store
          ((recover_inspected env file ends disk s p prepared present).1.store)
  unfolding recover_inspected
  inspected-Recovered ends s p disk prepared (err x) = untouched refl
  inspected-Recovered ends s p disk prepared (ok true) = completed_by ends s p disk
  inspected-Recovered ends s p disk prepared (ok false) = elim (Bool-cases (is_issue p.kind)) [
    | inl i ↦ elim (settle_store ends disk (aborted_state s)) [
      | inl e ↦ undone (is_issue_lem p.kind i) (ground arith)
      | inr e ↦ untouched (ground arith)
    ]
    | inr k ↦ subst (Recovered s p disk.store) (ground arith) (
        appended-Recovered ends s p disk (
          append_prepared env.sha256 env.dumps env.loads env.strip env.fromisoformat ends.safe
            ends.append_end prepared disk.ledger))
  ]

  recover-Recovered :
      (ends : Ends) (disk : Disk) (s : GrantStoreState) (p : PendingGrantTransaction)
      → Recovered s p disk.store ((recover env file ends disk s p).1.store)
  unfolding recover
  recover-Recovered ends disk s p =
      elim (Result-cases (
        rebuild_prepared_event env.sha256 env.dumps env.loads env.strip env.fromisoformat
          (payload_of p.event) p.ledger_offset p.ledger_tail_sha256 p.receipt_sha256)) [
            | inl (prepared, r) ↦ subst (Recovered s p disk.store) (ground arith) (
                inspected-Recovered ends s p disk prepared
                  (inspect_prepared env.sha256 env.dumps env.loads ends.safe prepared disk.ledger))
            | inr (x, r) ↦ untouched (ground arith)
          ]

  -- A reload touches the store only where it holds a pending transaction.
  reload-none : (ends : Ends) (disk : Disk) → (reload_from env file ends disk none).1 ≡ disk
  unfolding reload_from
  reload-none ends disk =
      elim (Result-cases (has_history env.sha256 env.dumps env.loads ends.safe disk.ledger)) [
        | inl (true, e) ↦ ground arith
        | inl (false, e) ↦ ground arith
        | inr (x, e) ↦ ground arith
      ]

  reload-clean :
      (ends : Ends) (disk : Disk) (s : GrantStoreState)
      → s.pending ≡ none
      → (reload_from env file ends disk (some s)).1 ≡ disk
  unfolding reload_from reload_pending
  reload-clean ends disk s clean =
      elim (Bool-cases
        (valid_state env.is_printable env.fromisoformat env.snapshot_sha256 (event_sha256 env) s)) [
          | inl v ↦ elim (Bool-cases (verify_clean_state env file ends.safe disk.ledger s)) [
            | inl u ↦ ground arith
            | inr u ↦ ground arith
          ]
          | inr v ↦ ground arith
        ]

  reload-Recovered :
      (ends : Ends) (disk : Disk) (s : GrantStoreState) (p : PendingGrantTransaction)
      → s.pending ≡ some p
      → Recovered s p disk.store ((reload_from env file ends disk (some s)).1.store)
  unfolding reload_from reload_pending
  reload-Recovered ends disk s p at =
      elim (Bool-cases
        (valid_state env.is_printable env.fromisoformat env.snapshot_sha256 (event_sha256 env) s)) [
          | inl v ↦ elim (Bool-cases (verify_pending_base env file ends.safe disk.ledger s p)) [
            | inl u ↦
                subst (Recovered s p disk.store) (ground arith) (recover-Recovered ends disk s p)
            | inr u ↦ untouched (ground arith)
          ]
          | inr v ↦ untouched (ground arith)
        ]

  module _ (s : GrantStoreState) (kind : TransactionKind) (target : Dict Grant) where
    recovered-Stage :
        (p : PendingGrantTransaction) (old store : Option GrantStoreState)
        → s.pending ≡ none
        → p.kind ≡ kind
        → p.target_grants ≡ target
        → old ≡ some (prepared_state s p)
        → Recovered (prepared_state s p) p old store
        → Stage s kind target store
    recovered-Stage p old store clean k t at (untouched e) = pending_stage p k t (e ∙ at)
    recovered-Stage p old store clean k t at (undone i e) = before (ground arith)
    recovered-Stage p old store clean k t at (completed e) = committed p t e

    reload-Stage :
        (ends : Ends) (disk : Disk) (old : Option GrantStoreState)
        → disk.store ≡ old
        → s.pending ≡ none
        → Stage s kind target old
        → Stage s kind target ((reload_from env file ends disk old).1.store)
    reload-Stage ends disk old at clean (before e) =
        subst (λ o. Stage s kind target ((reload_from env file ends disk o).1.store)) (sym e)
          (before (ap (λ d. d.store) (reload-clean ends disk s clean) ∙ at ∙ e))
    reload-Stage ends disk old at clean (no_file e f) =
        subst (λ o. Stage s kind target ((reload_from env file ends disk o).1.store)) (sym e)
          (no_file (ap (λ d. d.store) (reload-none ends disk) ∙ at ∙ e) f)
    reload-Stage ends disk old at clean (pending_stage p k t e) =
        subst (λ o. Stage s kind target ((reload_from env file ends disk o).1.store)) (sym e)
          (recovered-Stage p disk.store
            ((reload_from env file ends disk (some (prepared_state s p))).1.store) clean k t
            (at ∙ e) (reload-Recovered ends disk (prepared_state s p) p refl))
    reload-Stage ends disk old at clean (committed p t e) =
        subst (λ o. Stage s kind target ((reload_from env file ends disk o).1.store)) (sym e)
          (committed p t (ap (λ d. d.store) (reload-clean ends disk (final_state p) refl) ∙ at ∙ e))

    pub ensure_ready-Stage :
        (ends : Ends) (a : Authority) (disk : Disk)
        → s.pending ≡ none
        → Stage s kind target disk.store
        → Stage s kind target ((ensure_ready env file ends a disk).1.store)
    unfolding ensure_ready
    ensure_ready-Stage ends a disk clean w =
        subst (λ (d : Disk). Stage s kind target d.store)
          (sym (install_disk env file ends a (reload_from env file ends disk disk.store)))
          (reload-Stage ends disk disk.store refl clean w)
