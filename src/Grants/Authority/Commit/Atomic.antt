-- ===== src/Grants/Authority/Commit/Atomic.antt =====
-- The transactions of grants/authority.py over failures and later reloads.
use threshold_node.Grants.Authority.Commit.Outcomes.{
  Installed, Sound, ensure_ready-Sound, done, failed, declined, commit-Committed, commit-Sound,
}
use threshold_node.Grants.Authority.Commit.Reloads.{ensure_ready-Stage}
use threshold_node.Grants.Authority.Commit.Between.{
  Stage, before, no_file, pending_stage, committed, Based, commit-Stage,
}
use threshold_node.Grants.Authority.Commit.{Change, keeps_grants, commit}
use threshold_node.Grants.Authority.{Authority, final_state, ensure_ready}
use threshold_node.Grants.Platform.{Platform, Disk, Ends}
use threshold_node.Grants.Store.{TransactionKind, GrantStoreState}
use threshold_node.Core.Timestamp.{Moment}
use threshold_node.Core.Types.{Housefile, Grant}
use threshold_node.Base.{
  Bool-cases, Dict, ok, ◌≡◌, refl, ◌∙◌, ◌⊎◌, inl, inr, false, Option, none, List, [], ◌∷◌, arith,
}

module _ (env : Platform) (file : Housefile) where
  -- `ensure_ready` once for each of the ends, whatever they are.
  unfoldable pub reloads : List Ends → Authority × Disk → Authority × Disk
  reloads [] x = x
  reloads (ends ∷ rest) x = reloads rest (ensure_ready env file ends x.0 x.1)

  reloads-Sound :
      (runs : List Ends) (x : Authority × Disk) → Sound env file x → Sound env file (reloads runs x)
  unfolding reloads
  reloads-Sound [] x h = h
  reloads-Sound (ends ∷ rest) x h =
      reloads-Sound rest (ensure_ready env file ends x.0 x.1)
        (ensure_ready-Sound env file ends x.0 x.1)

  module _ (s : GrantStoreState) (kind : TransactionKind) (target : Dict Grant) where
    reloads-Stage :
        (runs : List Ends) (x : Authority × Disk)
        → s.pending ≡ none
        → Stage s kind target x.1.store
        → Stage s kind target (reloads runs x).1.store
    unfolding reloads
    reloads-Stage [] x settled h = h
    reloads-Stage (ends ∷ rest) x settled h =
        reloads-Stage rest (ensure_ready env file ends x.0 x.1) settled
          (ensure_ready-Stage env file s kind target ends x.0 x.1 settled h)

    Stage-grants :
        (t : GrantStoreState) (store : Option GrantStoreState)
        → Based t store
        → Stage s kind target store
        → (t.grants ≡ s.grants) ⊎ (t.grants ≡ target)
    Stage-grants t store (inl e) (before h) = inl (ground arith)
    Stage-grants t store (inl e) (no_file h i) = absurd (ground arith)
    Stage-grants t store (inl e) (pending_stage p k same h) =
        elim (Bool-cases (keeps_grants p.kind)) [
          | inl v ↦ inl (ground arith)
          | inr v ↦ inr (ground arith)
        ]
    Stage-grants t store (inl e) (committed p same h) = inr (ground arith)
    Stage-grants t store (inr (e, i)) (before h) = absurd (ground arith)
    Stage-grants t store (inr (e, i)) (no_file h j) = inl (ground arith)
    Stage-grants t store (inr (e, i)) (pending_stage p k same h) = absurd (ground arith)
    Stage-grants t store (inr (e, i)) (committed p same h) = absurd (ground arith)

    pub reloads_grants :
        (runs : List Ends) (x : Authority × Disk)
        → s.pending ≡ none
        → Sound env file x
        → Stage s kind target x.1.store
        → ((reloads runs x).0.ready ≡ false)
          ⊎ (((reloads runs x).0.grants ≡ s.grants) ⊎ ((reloads runs x).0.grants ≡ target))
    reloads_grants runs x settled sound stage = elim (reloads-Sound runs x sound) [
      | inl e ↦ inl e
      | inr (t, h) ↦
          inr
            (elim (Stage-grants t (reloads runs x).1.store h.based
              (reloads-Stage runs x settled stage)) [
                | inl e ↦ inl (h.grants ∙ e)
                | inr e ↦ inr (h.grants ∙ e)
              ])
    ]

  -- A commit on an authority that has installed a state either takes place as a whole or not at
  -- all: however its writes end, after it and after any reloads, whatever their ends, the authority
  -- is unavailable, or its grants are those from before, or they are the target of the commit.
  pub commit-atomic :
      (ends : Ends) (c : Change) (a : Authority) (disk : Disk) (now : Moment) (s : GrantStoreState)
      (runs : List Ends)
      → Installed env file a disk s
      → let x = reloads runs (commit env file ends a disk now c).1 in
        (x.0.ready ≡ false) ⊎ ((x.0.grants ≡ s.grants) ⊎ (x.0.grants ≡ c.target))
  commit-atomic ends c a disk now s runs h =
      reloads_grants s c.kind c.target runs (commit env file ends a disk now c).1 h.clean
        (commit-Sound env file ends c a disk now (inr (s, h)))
        (commit-Stage env file ends s c a disk now h.state h.based)

  -- A commit that returns is durable: after any reloads, whatever their ends, the authority is
  -- unavailable or its grants are the target of the commit.
  pub commit-durable :
      (ends : Ends) (c : Change) (a : Authority) (disk : Disk) (now : Moment) (runs : List Ends)
      → (commit env file ends a disk now c).0 ≡ ok tt
      → let x = reloads runs (commit env file ends a disk now c).1 in
        (x.0.ready ≡ false) ⊎ (x.0.grants ≡ c.target)
  commit-durable ends c a disk now runs h = elim (commit-Committed env file ends c a disk now) [
    | done p same e stored installed ↦
        elim (reloads_grants (final_state p) c.kind c.target runs
          (commit env file ends a disk now c).1 refl (inr (final_state p, installed))
          (before stored)) [ inl r ↦ inl r | inr (inl r) ↦ inr (r ∙ same) | inr (inr r) ↦ inr r ]
    | failed e r ↦ absurd (ground arith)
    | declined r e ↦ absurd (ground arith)
  ]
