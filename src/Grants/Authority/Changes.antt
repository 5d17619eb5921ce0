-- ===== src/Grants/Authority/Changes.antt =====
-- src/threshold/grants/authority.py: the changes of the grants that the calls of GrantAuthority
-- commit. Digests are ASCII, so `compare_digest` is equality.
-- How the commit of a call ends, and its `secrets.token_hex`.
pub mod Denied
pub mod Sorted
use threshold_node.Grants.Authority.Commit.{unknown_grant, Change, Step}
use threshold_node.Grants.Authority.{Authority}
use threshold_node.Grants.Platform.{Disk, Ends}
use threshold_node.Grants.Store.{issue_kind, revoke_kind, expire_kind, suspend_all_kind, status_eq}
use threshold_node.Grants.Record.{text_leb}
use threshold_node.Grants.Manager.{GrantDecision}
use threshold_node.Core.Types.{
  GrantStatus, revoked, expired, suspended, grant_event, deny_event, revoke_event, estop_event,
  is_active, Grant,
}
use threshold_node.Base.{
  if◌then◌else◌, codes, Dict, lookup, insert, ok, err, String, Bool, true, false, ◌||◌, none, some,
  List, [], ◌∷◌, ◌==◌,
}

pub record Attempt : Type 0 where
  pub ends : Ends
  pub transaction : String

-- `compare_digest(grant.credential_digest, existing.credential_digest)` for any existing grant.
unfoldable pub digest_registered : String → List Grant → Bool
digest_registered digest [] = false
digest_registered digest (existing ∷ rest) =
    (digest == existing.credential_digest) || digest_registered digest rest

-- `target[grant_id].status = status`; the callers have checked that the id is there.
abbrev pub set_status : String → GrantStatus → Dict Grant → Dict Grant
set_status grant_id status grants = elim (lookup grant_id grants) [
  | none ↦ grants
  | some g ↦ insert grant_id (record g { status = status }) grants
]

-- `affected`
unfoldable pub active_statuses : Dict Grant → Dict GrantStatus
active_statuses [] = []
active_statuses ((k, g) ∷ rest) =
    if is_active g.status then (k, g.status) ∷ active_statuses rest else active_statuses rest

-- `for grant_id in affected: target[grant_id].status = GrantStatus.SUSPENDED`
unfoldable pub suspend_each : Dict GrantStatus → Dict Grant → Dict Grant
suspend_each [] grants = grants
suspend_each ((k, status) ∷ rest) grants = suspend_each rest (set_status k suspended grants)

-- `current.status in {GrantStatus.REVOKED, GrantStatus.EXPIRED}`
abbrev pub is_ended : GrantStatus → Bool
is_ended revoked = true
is_ended expired = true
is_ended _ = false

abbrev pub issue_change : String → Grant → Dict Grant → Change
issue_change transaction grant target = record {
  kind = issue_kind;
  target = target;
  previous_statuses = [];
  event_type = grant_event;
  agent = grant.id;
  detail = "grant issued";
  transaction = transaction;
}

abbrev pub revoke_change : String → String → GrantStatus → Dict Grant → Change
revoke_change transaction grant_id previous grants = record {
  kind = revoke_kind;
  target = set_status grant_id revoked grants;
  previous_statuses = (grant_id, previous) ∷ [];
  event_type = revoke_event;
  agent = grant_id;
  detail = "grant revoked";
  transaction = transaction;
}

abbrev pub expire_change : String → String → String → GrantStatus → Dict Grant → Change
expire_change transaction grant_id detail previous grants = record {
  kind = expire_kind;
  target = set_status grant_id expired grants;
  previous_statuses = (grant_id, previous) ∷ [];
  event_type = deny_event;
  agent = grant_id;
  detail = detail;
  transaction = transaction;
}

abbrev pub suspend_change : String → Dict Grant → Change
suspend_change transaction grants = record {
  kind = suspend_all_kind;
  target = suspend_each (active_statuses grants) grants;
  previous_statuses = active_statuses grants;
  event_type = estop_event;
  agent = "system";
  detail = "simulated interlock tripped; active grants suspended";
  transaction = transaction;
}

-- `self.grants[grant_id]`
abbrev pub grant_at : String → Authority × Disk → Step Grant
grant_at grant_id x = elim (lookup grant_id x.0.grants) [
  | none ↦ (err unknown_grant, x)
  | some g ↦ (ok g, x)
]

-- What follows a commit that returned.
abbrev pub then_step : {A B : Type 0} → Step A → (A → Authority × Disk → Step B) → Step B
then_step (ok v, x) k = k v x
then_step (err e, x) k = (err e, x)

-- The condition under which `_decision_locked` and `_expire_due_locked` commit an expiry.
abbrev pub is_due : GrantDecision → Bool
is_due d = elim d.next_status [ none ↦ false | some status ↦ status_eq status expired ]

insert_id : String → List String → List String
insert_id k [] = k ∷ []
insert_id k (j ∷ rest) = if text_leb (codes k) (codes j) then k ∷ j ∷ rest else j ∷ insert_id k rest

-- `sorted(self.grants)`
unfoldable pub sorted_ids : List String → List String
unfolding insert_id
sorted_ids [] = []
sorted_ids (k ∷ rest) = insert_id k (sorted_ids rest)
