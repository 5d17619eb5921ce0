-- ===== src/Grants/Authority/Recovery.antt =====
-- What the recovery of grants/authority.py reaches from a pending transaction.
use threshold_node.Base.{
  Bool-cases, Result, ok, err, Result-cases, ℕ, ◌≡◌, refl, ap, subst, ◌≢◌, ◌⊎◌, inl, inr, Bool,
  true, false, Option, none, some, List, arith,
}
use threshold_node.Core.Types.{Housefile}
use threshold_node.Core.LedgerEntry.{payload_of}
use threshold_node.Core.Ledger.Prepared.{
  PreparedLedgerEvent, inspect_prepared, append_prepared, rebuild_prepared_event,
}
use threshold_node.Grants.Store.{issue_kind, PendingGrantTransaction, GrantStoreState}
use threshold_node.Grants.Platform.{Platform, Disk, Ends}
use threshold_node.Grants.Authority.{
  is_issue, final_state, aborted_state, settle_appended, recover_inspected, recover,
}
use threshold_node.Core.Ledger.{LedgerError}
use threshold_node.Grants.Authority.Settling.{is_issue_lem, Stored, Settled, settle-Settled}

module _ (env : Platform) (file : Housefile) where
  -- The state has the target's grants at its revision, with the witness of its receipt, or the
  -- grants, the revision and the witness of the state before; and nothing is pending.
  abbrev pub IsTarget : PendingGrantTransaction → GrantStoreState → Type 0
  IsTarget p t =
      (t.grants ≡ p.target_grants)
      × (t.revision ≡ p.target_revision)
      × (t.ledger_witness
          ≡ some (record {
            transaction = p.transaction;
            revision = p.target_revision;
            ledger_offset = p.ledger_offset;
            receipt_sha256 = p.receipt_sha256;
            target_sha256 = p.target_sha256;
          }))
      × (t.pending ≡ none)

  abbrev pub IsUndone : GrantStoreState → GrantStoreState → Type 0
  IsUndone s t =
      (t.grants ≡ s.grants)
      × (t.revision ≡ s.revision)
      × (t.ledger_witness ≡ s.ledger_witness)
      × (t.pending ≡ none)

  final_state-IsTarget :
      (p : PendingGrantTransaction) (t : GrantStoreState) → final_state p ≡ t → IsTarget p t
  final_state-IsTarget p t h = subst (λ x. IsTarget p x) h (refl, refl, refl, refl)

  aborted_state-IsUndone : (s t : GrantStoreState) → aborted_state s ≡ t → IsUndone s t
  aborted_state-IsUndone s t h = subst (λ x. IsUndone s x) h (refl, refl, refl, refl)

  -- What recovery may make of a pending transaction, by what the ledger says of its receipt. With
  -- the receipt the target stands over the same ledger. Without it an issue is undone, over the same
  -- ledger, and any other transaction's receipt is appended and its target stands.
  abbrev pub Reaches :
      Ends
      → Disk
      → Disk
      → GrantStoreState
      → GrantStoreState
      → PendingGrantTransaction
      → PreparedLedgerEvent
      → Result LedgerError Bool
      → Type 0
  Reaches ends disk after s t p prepared present =
      ((present ≡ ok true) × IsTarget p t × (after.ledger ≡ disk.ledger))
      ⊎ (((present ≡ ok false)
            × (p.kind ≡ issue_kind)
            × IsUndone s t
            × (after.ledger ≡ disk.ledger))
          ⊎ ((present ≡ ok false)
              × (p.kind ≢ issue_kind)
              × IsTarget p t
              × (append_prepared env.sha256 env.dumps env.loads env.strip env.fromisoformat
                    ends.safe ends.append_end prepared disk.ledger
                  ≡ (ok tt, after.ledger))))

  appended-Settled :
      (ends : Ends) (disk after : Disk) (s t : GrantStoreState) (p : PendingGrantTransaction)
      (result : Result LedgerError (Unit {0}) × Option (List ℕ))
      → settle_appended env file ends disk p result ≡ (some t, after)
      → Settled env file ends (record disk { ledger = result.1 }) after (final_state p) t
        × (result.0 ≡ ok tt)
  unfolding settle_appended
  appended-Settled ends disk after s t p (ok v, ledger) h = (
    settle-Settled env file ends (record disk { ledger = ledger }) after (final_state p) t h,
    refl,
  )
  appended-Settled ends disk after s t p (err x, ledger) h = absurd (ground arith)

  inspected-Reaches :
      (ends : Ends) (disk after : Disk) (s t : GrantStoreState) (p : PendingGrantTransaction)
      (prepared : PreparedLedgerEvent) (present : Result LedgerError Bool)
      → recover_inspected env file ends disk s p prepared present ≡ (some t, after)
      → Stored env after t × Reaches ends disk after s t p prepared present
  unfolding recover_inspected
  inspected-Reaches ends disk after s t p prepared (err x) h = absurd (ground arith)
  inspected-Reaches ends disk after s t p prepared (ok true) h =
      let e = settle-Settled env file ends disk after (final_state p) t h in
      ((e.stored, e.valid), inl (refl, final_state-IsTarget p t e.same, e.ledger))
  inspected-Reaches ends disk after s t p prepared (ok false) h =
      elim (Bool-cases (is_issue p.kind)) [
        | inl issue ↦
            let e = settle-Settled env file ends disk after (aborted_state s) t (ground arith) in
            (
              (e.stored, e.valid),
              inr (
                  inl
                    (refl, is_issue_lem p.kind issue, aborted_state-IsUndone s t e.same, e.ledger)),
            )
        | inr other_kind ↦
            let result =
              append_prepared env.sha256 env.dumps env.loads env.strip env.fromisoformat ends.safe
                ends.append_end prepared disk.ledger in
            let (e, done) = appended-Settled ends disk after s t p result (ground arith) in
            let kept : after.ledger ≡ result.1 = e.ledger in
            (
              (e.stored, e.valid),
              inr (
                  inr (
                    refl,
                    λ same. absurd (let issue = ap is_issue same in ground arith),
                    final_state-IsTarget p t e.same,
                    ground arith,
                  )),
            )
      ]

  -- When recovery from a pending transaction reaches a state, this state is valid and on the disk,
  -- and the stored event has been rebuilt and looked up in the ledger. Where the receipt is present
  -- the state is the transaction's target. Where it is not, an issue is undone: the grants, the
  -- revision and the witness are those from before it. Any other transaction is completed: its
  -- receipt is appended, and the state is its target. Only the append changes the ledger.
  pub recover-target :
      (ends : Ends) (disk after : Disk) (s t : GrantStoreState) (p : PendingGrantTransaction)
      → recover env file ends disk s p ≡ (some t, after)
      → Stored env after t
        × ((prepared : PreparedLedgerEvent) × ((rebuild_prepared_event env.sha256 env.dumps
                  env.loads env.strip env.fromisoformat
                  (payload_of p.event)
                  p.ledger_offset
                  p.ledger_tail_sha256
                  p.receipt_sha256
                ≡ ok prepared)
              × Reaches ends disk after s t p prepared
                  (inspect_prepared env.sha256 env.dumps env.loads ends.safe prepared disk.ledger)))
  unfolding recover
  recover-target ends disk after s t p h =
      elim (Result-cases (
        rebuild_prepared_event env.sha256 env.dumps env.loads env.strip env.fromisoformat
          (payload_of p.event) p.ledger_offset p.ledger_tail_sha256 p.receipt_sha256)) [
            | inl (prepared, r) ↦
                let (stands, reached) =
                  inspected-Reaches ends disk after s t p prepared
                    (inspect_prepared env.sha256 env.dumps env.loads ends.safe prepared disk.ledger)
                    (ground arith) in
                (stands, (prepared, (r, reached)))
            | inr (x, r) ↦ absurd (ground arith)
          ]
