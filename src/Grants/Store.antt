-- ===== src/Grants/Store.antt =====
-- src/threshold/grants/store.py: the revisioned state of GrantMetadataStore and what its pending
-- transaction must satisfy. JSON and files are not modelled: a state stands for its encoding.
-- `snapshot_sha256` is the digest of a sorted list of records.
pub mod Semantics
pub mod Envelope
mod Examples
use threshold_node.Base.{
  eqb, if◌then◌else◌, is_some, length, is_empty, Dict, lookup, contains, insert, values, ℕ, String,
  Bool, true, false, not, ◌&&◌, Option, none, some, List, [], ◌∷◌, ◌==◌,
}
use threshold_node.Core.Types.{
  Scope, GrantStatus, active, revoked, expired, suspended, EventType, grant_event, deny_event,
  revoke_event, estop_event, provision_event, event_value, is_active, scope_eq, Grant,
}
use threshold_node.Core.LedgerEntry.{Entry}
use threshold_node.Grants.Record.{sorted_records}

pub data TransactionKind : Type 0 where
  issue_kind demo_seed_kind revoke_kind expire_kind suspend_all_kind : TransactionKind

pub record GrantLedgerWitness : Type 0 where
  pub transaction : String
  pub revision : ℕ
  pub ledger_offset : ℕ
  pub receipt_sha256 : String
  pub target_sha256 : String

pub record PendingGrantTransaction : Type 0 where
  pub transaction : String
  pub kind : TransactionKind
  pub base_revision : ℕ
  pub target_revision : ℕ
  pub ledger_offset : ℕ
  pub ledger_tail_sha256 : String
  pub target_sha256 : String
  pub receipt_sha256 : String
  pub event : Entry
  pub target_grants : Dict Grant
  pub previous_statuses : Dict GrantStatus

pub record GrantStoreState : Type 0 where
  pub revision : ℕ
  pub grants : Dict Grant
  pub ledger_witness : Option GrantLedgerWitness
  pub pending : Option PendingGrantTransaction

-- `kind in {"issue", "demo_seed"}`
abbrev pub adds_grants : TransactionKind → Bool
adds_grants issue_kind = true
adds_grants demo_seed_kind = true
adds_grants _ = false

abbrev pub is_suspend : TransactionKind → Bool
is_suspend suspend_all_kind = true
is_suspend _ = false

abbrev pub is_demo_seed : TransactionKind → Bool
is_demo_seed demo_seed_kind = true
is_demo_seed _ = false

-- `expected_event`
abbrev pub expected_event : TransactionKind → EventType
expected_event issue_kind = grant_event
expected_event demo_seed_kind = provision_event
expected_event revoke_kind = revoke_event
expected_event expire_kind = deny_event
expected_event suspend_all_kind = estop_event

-- `expected_to` and `allowed_from`; they are not asked of a kind that adds grants.
expected_to : TransactionKind → GrantStatus
expected_to revoke_kind = revoked
expected_to expire_kind = expired
expected_to _ = suspended

allowed_from : TransactionKind → GrantStatus → Bool
allowed_from revoke_kind active = true
allowed_from revoke_kind suspended = true
allowed_from expire_kind active = true
allowed_from suspend_all_kind active = true
allowed_from _ _ = false

pub status_eq : GrantStatus → GrantStatus → Bool
status_eq active active = true
status_eq revoked revoked = true
status_eq expired expired = true
status_eq suspended suspended = true
status_eq _ _ = false

scopes_eq : List Scope → List Scope → Bool
scopes_eq [] [] = true
scopes_eq [] (t ∷ ts) = false
scopes_eq (s ∷ ss) [] = false
scopes_eq (s ∷ ss) (t ∷ ts) = scope_eq s t && scopes_eq ss ts

texts_eq : List String → List String → Bool
texts_eq [] [] = true
texts_eq [] (t ∷ ts) = false
texts_eq (s ∷ ss) [] = false
texts_eq (s ∷ ss) (t ∷ ts) = (s == t) && texts_eq ss ts

-- Equality of two normalized records.
pub record_eq : Grant → Grant → Bool
unfolding scopes_eq texts_eq status_eq
record_eq a b =
    (a.id == b.id)
    && (a.name == b.name)
    && (a.kind == b.kind)
    && scopes_eq a.scopes b.scopes
    && texts_eq a.zones b.zones
    && (a.window == b.window)
    && (a.expires == b.expires)
    && status_eq a.status b.status
    && (a.issued == b.issued)
    && (a.credential_digest == b.credential_digest)

-- `not (set(effective_map) - set(target_map))`, and every effective record unchanged in the target.
keeps_records : Dict Grant → Dict Grant → Bool
unfolding record_eq
keeps_records [] target = true
keeps_records ((k, g) ∷ rest) target =
    (elim (lookup k target) [ none ↦ false | some h ↦ record_eq h g ]) && keeps_records rest target

-- `set(a) <= set(b)` for the keys of two dicts.
keys_within {ℓ κ} : {V : Type ℓ} {W : Type κ} → Dict V → Dict W → Bool
keys_within [] b = true
keys_within ((k, v) ∷ rest) b = contains k b && keys_within rest b

-- The target's items that the effective grants have not.
added_items : Dict Grant → Dict Grant → Dict Grant
added_items effective [] = []
added_items effective ((k, g) ∷ rest) =
    let more = added_items effective rest in if contains k effective then more else (k, g) ∷ more

all_active : Dict Grant → Bool
all_active [] = true
all_active ((k, g) ∷ rest) = is_active g.status && all_active rest

none_active : Dict Grant → Bool
none_active [] = true
none_active ((k, g) ∷ rest) = not (is_active g.status) && none_active rest

added_fits : TransactionKind → Dict Grant → Dict Grant → Bool
added_fits issue_kind effective added = eqb (length added) 1
added_fits _ effective added = is_empty effective && not (is_empty added)

-- Each status that a transaction names: allowed before, and the expected one after.
moves_fit : TransactionKind → Dict Grant → Dict GrantStatus → Bool
unfolding allowed_from expected_to status_eq
moves_fit kind target [] = true
moves_fit kind target ((k, before) ∷ rest) =
    allowed_from kind before
    && (elim (lookup k target) [ none ↦ false | some g ↦ status_eq g.status (expected_to kind) ])
    && moves_fit kind target rest

count_fits : TransactionKind → ℕ → Bool
count_fits suspend_all_kind n = true
count_fits _ n = eqb n 1

-- `event["type"] == expected_event`
event_eq : EventType → EventType → Bool
event_eq a b = event_value a == event_value b

module _ (snapshot_sha256 : List Grant → String) where
  -- `target_sha256`
  unfoldable pub target_digest : Dict Grant → String
  target_digest grants = snapshot_sha256 (sorted_records (values grants))

  -- `_validate_pending_semantics`
  unfoldable pub pending_semantics :
      TransactionKind → Dict Grant → Dict Grant → Dict GrantStatus → EventType → Bool
  unfolding event_eq keeps_records keys_within added_items all_active none_active added_fits
      moves_fit count_fits
  pending_semantics kind effective target previous event_type =
      event_eq event_type (expected_event kind)
      && (if adds_grants kind
          then (let added = added_items effective target in
              is_empty previous
              && keeps_records effective target
              && added_fits kind effective added
              && all_active added)
          else (keys_within effective target
              && keys_within target effective
              && (target_digest effective == target_digest target)
              && keys_within previous target
              && (if is_suspend kind then none_active target else not (is_empty previous))
              && moves_fit kind target previous
              && count_fits kind (length previous)))

  restore_statuses : Dict GrantStatus → Dict Grant → Dict Grant
  restore_statuses [] grants = grants
  restore_statuses ((k, before) ∷ rest) grants = restore_statuses rest (elim (lookup k grants) [
    | none ↦ grants
    | some g ↦ insert k (record g { status = before }) grants
  ])

  -- The snapshot from which a pending transaction started.
  unfoldable pub base_grants :
      TransactionKind → Dict Grant → Dict Grant → Dict GrantStatus → Dict Grant
  unfolding restore_statuses
  base_grants kind effective target previous =
      if adds_grants kind then effective else restore_statuses previous target

  witness_binds : Option GrantLedgerWitness → String → Bool
  witness_binds none digest = false
  witness_binds (some w) digest = digest == w.target_sha256

  -- `_validate_pending_base`
  unfoldable pub pending_base :
      TransactionKind
      → ℕ
      → Dict Grant
      → Dict Grant
      → Dict GrantStatus
      → Option GrantLedgerWitness
      → Bool
  unfolding witness_binds
  pending_base kind revision effective target previous witness =
      let base = base_grants kind effective target previous in
      not (is_demo_seed kind && not (eqb revision 0))
      && (if eqb revision 0
          then not (is_some witness) && is_empty base
          else witness_binds witness (target_digest base))
