-- ===== src/Grants/Store/Semantics.antt =====
-- What `_validate_pending_semantics` of grants/store.py lets through.
use threshold_node.Base.{
  Option-cases, Dict, lookup, contains, String, ◌≡◌, refl, inl, inr, Bool, true, false, some, List,
  [], ◌∷◌, arith, eq_iff,
}
use threshold_node.Core.Types.{
  Scope, read_layout, read_systems, read_inventory, cmd_navigate, cmd_manipulate, GrantStatus,
  active, revoked, expired, suspended, EventType, event_value, is_active, scope_eq, Grant,
}
use threshold_node.Grants.Store.{
  TransactionKind, suspend_all_kind, adds_grants, expected_event, status_eq, scopes_eq, texts_eq,
  record_eq, keeps_records, keys_within, added_items, all_active, none_active, event_eq,
  pending_semantics,
}

status_eq_lem : (a b : GrantStatus) → status_eq a b ≡ true → a ≡ b
unfolding status_eq
status_eq_lem active active h = refl
status_eq_lem revoked revoked h = refl
status_eq_lem expired expired h = refl
status_eq_lem suspended suspended h = refl
status_eq_lem active revoked h = cc
status_eq_lem active expired h = cc
status_eq_lem active suspended h = cc
status_eq_lem revoked active h = cc
status_eq_lem revoked expired h = cc
status_eq_lem revoked suspended h = cc
status_eq_lem expired active h = cc
status_eq_lem expired revoked h = cc
status_eq_lem expired suspended h = cc
status_eq_lem suspended active h = cc
status_eq_lem suspended revoked h = cc
status_eq_lem suspended expired h = cc

scope_eq_lem : (a b : Scope) → scope_eq a b ≡ true → a ≡ b
scope_eq_lem read_layout read_layout h = refl
scope_eq_lem read_layout read_systems h = cc
scope_eq_lem read_layout read_inventory h = cc
scope_eq_lem read_layout cmd_navigate h = cc
scope_eq_lem read_layout cmd_manipulate h = cc
scope_eq_lem read_systems read_layout h = cc
scope_eq_lem read_systems read_systems h = refl
scope_eq_lem read_systems read_inventory h = cc
scope_eq_lem read_systems cmd_navigate h = cc
scope_eq_lem read_systems cmd_manipulate h = cc
scope_eq_lem read_inventory read_layout h = cc
scope_eq_lem read_inventory read_systems h = cc
scope_eq_lem read_inventory read_inventory h = refl
scope_eq_lem read_inventory cmd_navigate h = cc
scope_eq_lem read_inventory cmd_manipulate h = cc
scope_eq_lem cmd_navigate read_layout h = cc
scope_eq_lem cmd_navigate read_systems h = cc
scope_eq_lem cmd_navigate read_inventory h = cc
scope_eq_lem cmd_navigate cmd_navigate h = refl
scope_eq_lem cmd_navigate cmd_manipulate h = cc
scope_eq_lem cmd_manipulate read_layout h = cc
scope_eq_lem cmd_manipulate read_systems h = cc
scope_eq_lem cmd_manipulate read_inventory h = cc
scope_eq_lem cmd_manipulate cmd_navigate h = cc
scope_eq_lem cmd_manipulate cmd_manipulate h = refl

scopes_eq_lem : (ss ts : List Scope) → scopes_eq ss ts ≡ true → ss ≡ ts
unfolding scopes_eq
scopes_eq_lem [] [] h = refl
scopes_eq_lem [] (t ∷ ts) h = cc
scopes_eq_lem (s ∷ ss) [] h = cc
scopes_eq_lem (s ∷ ss) (t ∷ ts) h = ground (arith, scopes_eq_lem ss ts, scope_eq_lem s t)

texts_eq_lem : (ss ts : List String) → texts_eq ss ts ≡ true → ss ≡ ts
unfolding texts_eq
texts_eq_lem [] [] h = refl
texts_eq_lem [] (t ∷ ts) h = cc
texts_eq_lem (s ∷ ss) [] h = cc
texts_eq_lem (s ∷ ss) (t ∷ ts) h = ground (arith, texts_eq_lem ss ts, eq_iff s t)

record_eq_lem : (a b : Grant) → record_eq a b ≡ true → a ≡ b
unfolding record_eq
record_eq_lem a b h = ground (
  arith,
  eq_iff a.id b.id,
  eq_iff a.name b.name,
  eq_iff a.kind b.kind,
  scopes_eq_lem a.scopes b.scopes,
  texts_eq_lem a.zones b.zones,
  eq_iff a.window b.window,
  eq_iff a.expires b.expires,
  status_eq_lem a.status b.status,
  eq_iff a.issued b.issued,
  eq_iff a.credential_digest b.credential_digest,
)

keeps_records_lem :
    (effective target : Dict Grant) (k : String) (g : Grant)
    → keeps_records effective target ≡ true
    → lookup k effective ≡ some g
    → lookup k target ≡ some g
unfolding keeps_records
keeps_records_lem [] target k g h e = cc
keeps_records_lem ((j, x) ∷ rest) target k g h e = elim (Option-cases (lookup j target)) [
  | inl gone ↦ absurd (ground arith)
  | inr (y, there) ↦
      ground (arith, record_eq_lem y x, keeps_records_lem rest target k g, eq_iff j k)
]

keys_within_lem {ℓ κ} :
    {V : Type ℓ} {W : Type κ} (a : Dict V) (b : Dict W) (k : String)
    → keys_within a b ≡ true
    → contains k a ≡ true
    → contains k b ≡ true
unfolding keys_within
keys_within_lem [] b k h m = cc
keys_within_lem ((j, v) ∷ rest) b k h m = ground (arith, keys_within_lem rest b k, eq_iff j k)

same_answer : (a b : Bool) → (a ≡ true → b ≡ true) → (b ≡ true → a ≡ true) → a ≡ b
same_answer a b f g = ground arith

added_items_lem :
    (effective target : Dict Grant) (k : String) (g : Grant)
    → all_active (added_items effective target) ≡ true
    → lookup k target ≡ some g
    → contains k effective ≡ false
    → is_active g.status ≡ true
unfolding added_items all_active
added_items_lem effective [] k g h e n = cc
added_items_lem effective ((j, x) ∷ rest) k g h e n =
    ground (arith, added_items_lem effective rest k g, eq_iff j k)

none_active_lem :
    (target : Dict Grant) (k : String) (g : Grant)
    → none_active target ≡ true
    → lookup k target ≡ some g
    → is_active g.status ≡ false
unfolding none_active
none_active_lem [] k g h e = cc
none_active_lem ((j, x) ∷ rest) k g h e = ground (arith, none_active_lem rest k g, eq_iff j k)

module _ (snapshot_sha256 : List Grant → String) (effective target : Dict Grant)
    (previous : Dict GrantStatus) where
  -- A pending issue or demo seed that the store accepts stands for a GRANT or PROVISION event,
  -- keeps every grant in force as it is, record for record, and whatever else its target holds is
  -- active.
  pub pending-adds :
      (kind : TransactionKind) (event : EventType)
      → adds_grants kind ≡ true
      → pending_semantics snapshot_sha256 kind effective target previous event ≡ true
      → (event_value event ≡ event_value (expected_event kind))
        × ((k : String) (g : Grant) → lookup k effective ≡ some g → lookup k target ≡ some g)
        × ((k : String) (g : Grant)
            → lookup k target ≡ some g
            → contains k effective ≡ false
            → is_active g.status ≡ true)
  unfolding pending_semantics event_eq
  pending-adds kind event adds h = (
    ground (arith, eq_iff (event_value event) (event_value (expected_event kind))),
    λ k g. keeps_records_lem effective target k g (ground arith),
    λ k g. added_items_lem effective target k g (ground arith),
  )

  -- A pending emergency stop that the store accepts has no active grant in its target, and its
  -- target has exactly the ids in force.
  pub pending-stop :
      (event : EventType)
      → pending_semantics snapshot_sha256 suspend_all_kind effective target previous event ≡ true
      → ((k : String) (g : Grant) → lookup k target ≡ some g → is_active g.status ≡ false)
        × ((k : String) → contains k effective ≡ contains k target)
  unfolding pending_semantics
  pending-stop event h = (
    λ k g. none_active_lem target k g (ground arith),
    λ k.
        same_answer (contains k effective) (contains k target)
          (keys_within_lem effective target k (ground arith))
          (keys_within_lem target effective k (ground arith)),
  )

pub status_eq_refl : (s : GrantStatus) → status_eq s s ≡ true
unfolding status_eq
status_eq_refl active = refl
status_eq_refl suspended = refl
status_eq_refl revoked = refl
status_eq_refl expired = refl
