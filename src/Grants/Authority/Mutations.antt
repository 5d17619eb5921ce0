-- ===== src/Grants/Authority/Mutations.antt =====
-- src/threshold/grants/authority.py: the calls of GrantAuthority that take the lock, `_exclusive`,
-- reload, and then read or change the grants. `now` is a `datetime`, so `now or utc_now()` is `now`.
-- Each commit has its own random id and its own ends.
pub mod Denials
pub mod Withdrawals
pub mod Authorized
pub mod Settled
pub mod Snapshot
mod Examples
use threshold_node.Grants.Authority.Changes.{
  Attempt, digest_registered, active_statuses, is_ended, issue_change, revoke_change, expire_change,
  suspend_change, grant_at, then_step, is_due, sorted_ids,
}
use threshold_node.Grants.Authority.Commit.{
  credential_conflict, authentication_failed, unknown_grant, refused, Step, fail, commit,
}
use threshold_node.Grants.Manager.{Refusal, GrantDecision, normalize_time, decision}
use threshold_node.Core.Types.{Housefile, Grant}
use threshold_node.Base.{
  if◌then◌else◌, length, append_text, Dict, lookup, values, keys, Result, ok, err, ℕ, String, Bool,
  true, false, not, ◌||◌, Option, none, some, List, [], ◌∷◌,
}
use threshold_node.Grants.Authority.{Authority, ensure_ready}
use threshold_node.Grants.Platform.{Platform, Disk, Ends}
use threshold_node.Core.Timestamp.{Moment, aware}
use threshold_node.Core.Auth.{is_valid_bearer_token, token_matches}
use threshold_node.Grants.Manager

-- What `revoke` returns after a commit.
abbrev pub changed : Grant → Authority × Disk → Step (Grant × Bool)
changed g x = (ok (g, true), x)

module _ (env : Platform) (file : Housefile) where
  -- `_exclusive` around a call.
  unfoldable pub exclusive :
      {A : Type 0} → Ends → Authority → Disk → (Authority → Disk → Step A) → Step A
  exclusive ends a disk body =
      let x = ensure_ready env file ends a disk in if x.0.ready then body x.0 x.1 else fail x.0 x.1

  decide : Grant → Moment → GrantDecision
  decide grant now = decision env.fromisoformat 0 grant (some now)

  issue_target :
      Attempt → Authority → Disk → Grant → Moment → Result Refusal (Dict Grant) → Step Grant
  issue_target t a disk grant now (err x) = (err (refused x), (a, disk))
  issue_target t a disk grant now (ok target) =
      then_step (commit env file t.ends a disk now (issue_change t.transaction grant target))
        (λ v x. grant_at grant.id x)

  issue_locked : Attempt → Grant → Moment → Authority → Disk → Step Grant
  unfolding issue_target
  issue_locked t grant now a disk =
      if digest_registered grant.credential_digest (values a.grants)
      then (err credential_conflict, (a, disk))
      else issue_target t a disk grant now
          (Manager.issue env.fromisoformat 0 file a.grants grant (some now))

  -- `issue`
  unfoldable pub issue_grant : Ends → Attempt → Authority → Disk → Grant → Moment → Step Grant
  unfolding issue_locked
  issue_grant ends t a disk grant now = exclusive ends a disk (issue_locked t grant now)

  revoke_current : Attempt → Authority → Disk → String → Moment → Grant → Step (Grant × Bool)
  revoke_current t a disk grant_id now current =
      if is_ended current.status
      then (ok (current, false), (a, disk))
      else then_step
          (commit env file t.ends a disk now
            (revoke_change t.transaction grant_id current.status a.grants))
          (λ v x. then_step (grant_at grant_id x) changed)

  pub revoke_locked : Attempt → String → Moment → Authority → Disk → Step (Grant × Bool)
  unfolding revoke_current
  revoke_locked t grant_id now a disk = elim (lookup grant_id a.grants) [
    | none ↦ (err unknown_grant, (a, disk))
    | some current ↦ revoke_current t a disk grant_id now current
  ]

  -- `revoke`
  unfoldable pub revoke_grant :
      Ends → Attempt → Authority → Disk → String → Moment → Step (Grant × Bool)
  unfolding revoke_locked
  revoke_grant ends t a disk grant_id now = exclusive ends a disk (revoke_locked t grant_id now)

  -- `_commit_expiry_locked`
  commit_expiry : Attempt → Authority → Disk → String → Moment → String → Grant → Step Grant
  commit_expiry t a disk grant_id now detail grant =
      then_step
        (commit env file t.ends a disk now
          (expire_change t.transaction grant_id detail grant.status a.grants))
        (λ v x. grant_at grant_id x)

  pub decide_current :
      Attempt → Authority → Disk → String → Moment → String → Grant → Step (Grant × GrantDecision)
  unfolding commit_expiry decide
  decide_current t a disk grant_id now action grant =
      let d = decide grant now in
      if is_due d
      then then_step
          (commit_expiry t a disk grant_id now (append_text action " refused: grant_expired") grant)
          (λ g x. (ok (g, d), x))
      else (ok (grant, d), (a, disk))

  -- `_decision_locked`
  decision_locked :
      Attempt → String → Moment → String → Authority → Disk → Step (Grant × GrantDecision)
  unfolding decide_current
  decision_locked t grant_id now action a disk = elim (lookup grant_id a.grants) [
    | none ↦ (err unknown_grant, (a, disk))
    | some grant ↦ decide_current t a disk grant_id now action grant
  ]

  -- `decision`
  unfoldable pub grant_decision :
      Ends → Attempt → Authority → Disk → String → Moment → String → Step (Grant × GrantDecision)
  unfolding decision_locked
  grant_decision ends t a disk grant_id now action =
      exclusive ends a disk (decision_locked t grant_id now action)

  pub authorized_locked :
      Attempt
      → String
      → Option String
      → Moment
      → String
      → Authority
      → Disk
      → Step (Grant × GrantDecision)
  unfolding decide_current
  authorized_locked t grant_id supplied now action a disk = elim (lookup grant_id a.grants) [
    | none ↦ (err authentication_failed, (a, disk))
    | some grant ↦
        if not (is_valid_bearer_token supplied)
          || not (token_matches env.token_sha256 supplied grant.credential_digest)
        then (err authentication_failed, (a, disk))
        else decide_current t a disk grant_id now action grant
  ]

  -- `authorized`: what it yields.
  unfoldable pub authorized :
      Ends
      → Attempt
      → Authority
      → Disk
      → String
      → Option String
      → Moment
      → String
      → Step (Grant × GrantDecision)
  unfolding authorized_locked
  authorized ends t a disk grant_id supplied now action =
      exclusive ends a disk (authorized_locked t grant_id supplied now action)

  pub suspend_locked : Attempt → Moment → Authority → Disk → Step ℕ
  suspend_locked t now a disk =
      then_step (commit env file t.ends a disk now (suspend_change t.transaction a.grants))
        (λ v x. (ok (length (active_statuses a.grants)), x))

  -- `suspend_all`
  unfoldable pub suspend_grants : Ends → Attempt → Authority → Disk → Moment → Step ℕ
  unfolding suspend_locked
  suspend_grants ends t a disk now = exclusive ends a disk (suspend_locked t now)

  expire_next : Attempt → Authority → Disk → String → Moment → Grant → Step (Unit {0})
  unfolding commit_expiry decide
  expire_next t a disk grant_id now grant =
      if is_due (decide grant now)
      then then_step
          (commit_expiry t a disk grant_id now "owner projection observed: grant_expired" grant)
          (λ g x. (ok tt, x))
      else (ok tt, (a, disk))

  expire_one : Attempt → String → Moment → Authority × Disk → Step (Unit {0})
  unfolding expire_next
  expire_one t grant_id now x = elim (lookup grant_id x.0.grants) [
    | none ↦ (err unknown_grant, x)
    | some grant ↦ expire_next t x.0 x.1 grant_id now grant
  ]

  -- `_expire_due_locked` over the sorted ids; each has its own attempt.
  pub expire_due : (String → Attempt) → List String → Moment → Authority × Disk → Step (Unit {0})
  unfolding expire_one
  expire_due attempt [] now x = (ok tt, x)
  expire_due attempt (k ∷ rest) now x =
      then_step (expire_one (attempt k) k now x) (λ v y. expire_due attempt rest now y)

  snapshot_locked : (String → Attempt) → Moment → Authority → Disk → Step (Dict Grant)
  unfolding expire_due
  snapshot_locked attempt now a disk =
      then_step (expire_due attempt (sorted_ids (keys a.grants)) now (a, disk))
        (λ v x. (ok x.0.grants, x))

  -- `snapshot`, for an aware clock.
  unfoldable pub grant_snapshot :
      Ends → (String → Attempt) → Authority → Disk → Moment → Step (Dict Grant)
  unfolding snapshot_locked
  grant_snapshot ends attempt a disk now = elim (normalize_time now) [
    | err x ↦ (err (refused x), (a, disk))
    | ok current ↦ exclusive ends a disk (snapshot_locked attempt (aware current))
  ]
