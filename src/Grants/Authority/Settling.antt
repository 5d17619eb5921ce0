-- ===== src/Grants/Authority/Settling.antt =====
-- How a recovery of grants/authority.py saves the state that it has reached.
use threshold_node.Grants.Store.Envelope.{
  SaveEnd, saved, rolled_back, left_live, valid_state, save_state,
}
use threshold_node.Base.{Bool-cases, ◌≡◌, refl, inl, inr, true, Option, some, arith}
use threshold_node.Core.Types.{Housefile}
use threshold_node.Grants.Store.{
  TransactionKind, issue_kind, demo_seed_kind, revoke_kind, expire_kind, suspend_all_kind,
  GrantStoreState,
}
use threshold_node.Grants.Platform.{Platform, event_sha256, Disk, Ends}
use threshold_node.Grants.Authority.{is_issue, settle}

pub is_issue_lem : (k : TransactionKind) → is_issue k ≡ true → k ≡ issue_kind
is_issue_lem issue_kind h = refl
is_issue_lem demo_seed_kind h = cc
is_issue_lem revoke_kind h = cc
is_issue_lem expire_kind h = cc
is_issue_lem suspend_all_kind h = cc

-- The state is on the disk and valid.
abbrev pub Stored : Platform → Disk → GrantStoreState → Type 0
Stored env disk t =
    (disk.store ≡ some t)
    × (valid_state env.is_printable env.fromisoformat env.snapshot_sha256 (event_sha256 env) t
        ≡ true)

module _ (env : Platform) (file : Housefile) where
  -- A save that reports success has stored the new state.
  pub save_reported :
      (end : SaveEnd) (s : GrantStoreState) (disk : Option GrantStoreState)
      → (save_state env.is_printable env.fromisoformat env.snapshot_sha256
          (event_sha256 env)
          end
          s
          disk).0
        ≡ true
      → (save_state env.is_printable env.fromisoformat env.snapshot_sha256
          (event_sha256 env)
          end
          s
          disk).1
        ≡ some s
  unfolding save_state
  save_reported saved s disk h = ground arith
  save_reported rolled_back s disk h = absurd (ground arith)
  save_reported left_live s disk h = absurd (ground arith)

  save_valid :
      (end : SaveEnd) (s : GrantStoreState) (disk : Option GrantStoreState)
      → (save_state env.is_printable env.fromisoformat env.snapshot_sha256
          (event_sha256 env)
          end
          s
          disk).0
        ≡ true
      → valid_state env.is_printable env.fromisoformat env.snapshot_sha256 (event_sha256 env) s
        ≡ true
  unfolding save_state
  save_valid end s disk h = ground arith

  -- A settled state is saved, so it is what the disk holds, and verified over the same ledger.
  pub record Settled (ends : Ends) (disk after : Disk) (s t : GrantStoreState) : Type 0 where
    pub same : s ≡ t
    pub stored : after.store ≡ some t
    pub valid :
        valid_state env.is_printable env.fromisoformat env.snapshot_sha256 (event_sha256 env) t
        ≡ true
    pub ledger : after.ledger ≡ disk.ledger

  pub settle-Settled :
      (ends : Ends) (disk after : Disk) (s t : GrantStoreState)
      → settle env file ends disk s ≡ (some t, after)
      → Settled ends disk after s t
  unfolding settle
  settle-Settled ends disk after s t h =
      let result =
        save_state env.is_printable env.fromisoformat env.snapshot_sha256 (event_sha256 env)
          ends.final_save s disk.store in
      elim (Bool-cases result.0) [
        | inl r ↦
            let there : result.1 ≡ some s = save_reported ends.final_save s disk.store r in
            let valid = save_valid ends.final_save s disk.store r in
            record {
              same = ground arith;
              stored = ground arith;
              valid = ground arith;
              ledger = ground arith;
            }
        | inr r ↦ absurd (ground arith)
      ]
