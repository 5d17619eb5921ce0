-- ===== src/Grants/Authority/Reload.antt =====
-- What a reload of grants/authority.py makes of the authority: verified grants, or none.
use threshold_node.Grants.Authority.Settling.{Stored}
use threshold_node.Grants.Authority.Recovery.{recover-target}
use threshold_node.Grants.Store.Envelope.{empty_state, valid_state}
use threshold_node.Grants.Platform.{Platform, event_sha256, Disk, Ends}
use threshold_node.Grants.Authority.Verified.{Verified, verify_clean_state-Verified}
use threshold_node.Base.{
  Bool-cases, Result-cases, ◌≡◌, refl, sym, ap, ◌∙◌, subst, ◌⊎◌, inl, inr, true, false, Option,
  none, some, [], arith,
}
use threshold_node.Core.Types.{Housefile}
use threshold_node.Core.Ledger.Prepared.{has_history}
use threshold_node.Grants.Store.{PendingGrantTransaction, GrantStoreState}
use threshold_node.Grants.Authority.{
  Authority, verify_clean_state, verify_pending_base, install, reload_pending, reload_from,
  ensure_ready,
}

module _ (env : Platform) (file : Housefile) where
  pending-Stored :
      (ends : Ends) (disk after : Disk) (s t : GrantStoreState) (p : Option PendingGrantTransaction)
      → Stored env disk s
      → reload_pending env file ends disk s p ≡ (some t, after)
      → Stored env after t
  unfolding reload_pending
  pending-Stored ends disk after s t none (at, valid) h =
      elim (Bool-cases (verify_clean_state env file ends.safe disk.ledger s)) [
        | inl v ↦
            let same : s ≡ t = ground arith in
            (
              ground arith,
              ap
                    (valid_state env.is_printable env.fromisoformat env.snapshot_sha256
                      (event_sha256 env))
                    (sym same)
                  ∙ valid,
            )
        | inr v ↦ absurd (ground arith)
      ]
  pending-Stored ends disk after s t (some p) at h =
      elim (Bool-cases (verify_pending_base env file ends.safe disk.ledger s p)) [
        | inl v ↦ (recover-target env file ends disk after s t p (ground arith)).0
        | inr v ↦ absurd (ground arith)
      ]

  -- The state is on the disk and valid, or the disk has none and it is the empty one.
  abbrev pub IsLoaded : Disk → GrantStoreState → Type 0
  IsLoaded disk s = Stored env disk s ⊎ ((disk.store ≡ none) × (s ≡ empty_state))

  reload-IsLoaded :
      (ends : Ends) (disk after : Disk) (t : GrantStoreState) (o : Option GrantStoreState)
      → disk.store ≡ o
      → reload_from env file ends disk o ≡ (some t, after)
      → IsLoaded after t
  unfolding reload_from
  reload-IsLoaded ends disk after t none at h =
      elim (Result-cases (has_history env.sha256 env.dumps env.loads ends.safe disk.ledger)) [
        | inl (true, e) ↦ absurd (ground arith)
        | inl (false, e) ↦ inr (ground arith, ground arith)
        | inr (x, e) ↦ absurd (ground arith)
      ]
  reload-IsLoaded ends disk after t (some s) at h =
      elim (Bool-cases
        (valid_state env.is_printable env.fromisoformat env.snapshot_sha256 (event_sha256 env) s)) [
          | inl v ↦ inl (pending-Stored ends disk after s t s.pending (at, v) (ground arith))
          | inr v ↦ absurd (ground arith)
        ]

  pub reload-stored :
      (ends : Ends) (disk after : Disk) (t : GrantStoreState) (o : Option GrantStoreState)
      → disk.store ≡ o
      → reload_from env file ends disk o ≡ (some t, after)
      → (after.store ≡ some t) ⊎ ((after.store ≡ none) × (t ≡ empty_state))
  reload-stored ends disk after t o at h = elim (reload-IsLoaded ends disk after t o at h) [
    | inl (stored, valid) ↦ inl stored
    | inr fresh ↦ inr fresh
  ]

  abbrev pub FailsClosed : Ends → Authority → Disk → Type 0
  FailsClosed ends b after =
      ((b.ready ≡ false) × (b.grants ≡ []))
      ⊎ ((b.ready ≡ true)
          × ((s : GrantStoreState) × ((b.grants ≡ s.grants)
                × Verified env file ends.safe after.ledger s
                × IsLoaded after s)))

  install-FailsClosed :
      (ends : Ends) (a b : Authority) (after : Disk) (result : Option GrantStoreState × Disk)
      → ((t : GrantStoreState) (d : Disk) → result ≡ (some t, d) → IsLoaded d t)
      → install env file ends a result ≡ (b, after)
      → FailsClosed ends b after
  unfolding install
  install-FailsClosed ends a b after (none, disk) stored h = inl (ground arith, ground arith)
  install-FailsClosed ends a b after (some s, disk) stored h =
      elim (Bool-cases (verify_clean_state env file ends.safe disk.ledger s)) [
        | inl v ↦
            let same : disk ≡ after = ground arith in
            inr (
              ground arith,
              (
                s,
                (
                  ground arith,
                  verify_clean_state-Verified env file ends.safe after.ledger s
                      (ap (λ d. verify_clean_state env file ends.safe d.ledger s) (sym same) ∙ v),
                  subst (λ d. IsLoaded d s) same (stored s disk refl),
                ),
              ),
            )
        | inr v ↦ inl (ground arith, ground arith)
      ]

  -- When an authority is ready after a reload, its grants are those of a state in which no
  -- transaction is pending; at revision 0 it has no grants and no witness, and at any other the
  -- ledger bears out its witness, whose digest is that of the grants, which are valid; every grant
  -- has scopes, zones that the house knows as not no-go, and a credential; and the state is valid
  -- and on the disk, or no state is and it is the empty one. Otherwise the authority has no grants.
  pub ensure_ready-FailsClosed :
      (ends : Ends) (a b : Authority) (disk after : Disk)
      → ensure_ready env file ends a disk ≡ (b, after)
      → FailsClosed ends b after
  unfolding ensure_ready
  ensure_ready-FailsClosed ends a b disk after h =
      install-FailsClosed ends a b after (reload_from env file ends disk disk.store)
        (λ t d e. reload-IsLoaded ends disk d t disk.store refl e) h
