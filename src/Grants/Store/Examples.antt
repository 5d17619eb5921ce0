-- ===== src/Grants/Store/Examples.antt =====
-- Runs of `_validate_pending_semantics` of grants/store.py, and its theorems at concrete inputs. The
-- digest of a snapshot is its first id.
use threshold_node.Base.{Dict, String, ◌≡◌, refl, true, false, List, [], ◌∷◌}
use threshold_node.Core.Types.{
  read_layout, cmd_navigate, active, revoked, suspended, grant_event, estop_event, Grant,
}
use threshold_node.Grants.Record.{sorted_records}
use threshold_node.Grants.Store.{
  issue_kind, revoke_kind, suspend_all_kind, target_digest, pending_semantics, base_grants,
}

abbrev first_id : List Grant → String
first_id [] = ""
first_id (g ∷ rest) = g.id

abbrev guest : Grant
guest = record {
  id = "g-guest";
  name = "Guest";
  kind = "humanoid";
  scopes = read_layout ∷ cmd_navigate ∷ [];
  zones = "kitchen" ∷ [];
  window = "standing";
  expires = "revocable";
  status = active;
  issued = "2026-07-15T08:00:00Z";
  credential_digest = "00000000000000000000000000000000000000000000000000000000000000aa";
}

abbrev keeper : Grant
keeper = record guest {
  id = "g-keeper";
  credential_digest = "00000000000000000000000000000000000000000000000000000000000000bb";
}

abbrev one_guest : Dict Grant
one_guest = ("g-guest", guest) ∷ []

abbrev both : Dict Grant
both = ("g-guest", guest) ∷ ("g-keeper", keeper) ∷ []

abbrev stopped : Dict Grant
stopped = ("g-guest", record guest { status = suspended }) ∷ []

run_issue : pending_semantics first_id issue_kind one_guest both [] grant_event ≡ true
unfolding pending_semantics
run_issue = refl

run_issue_two : pending_semantics first_id issue_kind [] both [] grant_event ≡ false
unfolding pending_semantics
run_issue_two = refl

run_stop :
    pending_semantics first_id suspend_all_kind stopped stopped
      (("g-guest", active) ∷ [])
      estop_event
    ≡ true
unfolding pending_semantics target_digest sorted_records
run_stop = refl

run_revoke_base :
    base_grants first_id revoke_kind []
      (("g-guest", record guest { status = revoked }) ∷ [])
      (("g-guest", active) ∷ [])
    ≡ one_guest
unfolding base_grants
run_revoke_base = refl
