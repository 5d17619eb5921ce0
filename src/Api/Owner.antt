-- ===== src/Api/Owner.antt =====
-- src/threshold/api/server.py: the owner's projections and the routes of the status and of the
-- snapshot, whose caller has passed `require_owner`. What `LEDGER.read` returns is an argument.
-- `OwnerHousefile`; its parts have the fields of the housefile's.
pub mod Reported
mod Examples
use threshold_node.Api.Issuing.{PublicGrant, public_grant}
use threshold_node.Api.Stop.{appliance_enabled}
use threshold_node.Api.Node.{Server, Node, Reply, with_authority, with_clock}
use threshold_node.Api.Errors.{ledger_unavailable, http_error}
use threshold_node.Hardware.Estop.{InterlockState}
use threshold_node.Hardware.Display.{
  DisplayError, DisplayMode, armed_mode, read_mode, deny_mode, tripped_mode, DisplayFrame, frame,
}
use threshold_node.Grants.Authority.Mutations.{grant_snapshot}
use threshold_node.Grants.Authority.Changes.{Attempt}
use threshold_node.Grants.Authority.Commit.{Step}
use threshold_node.Grants.Platform.{Ends}
use threshold_node.Grants.Record.{sorted_records}
use threshold_node.Core.Timestamp.{Moment, aware}
use threshold_node.Core.LedgerEntry.{Entry}
use threshold_node.Core.Types.{
  is_active, Zone, SystemItem, InventoryItem, Quirk, Policies, Housefile, Grant,
}
use threshold_node.Base.{
  if◌then◌else◌, Dict, values, Result, ok, err, ℕ, ◌+◌, String, Bool, Option, none, some, List, [],
  ◌∷◌, map,
}

pub record OwnerHousefile : Type 0 where
  pub schema : String
  pub rev : String
  pub dwelling : String
  pub zones : List Zone
  pub systems : List SystemItem
  pub inventory : List InventoryItem
  pub quirks : List Quirk
  pub policies : Policies

-- `_owner_housefile`
unfoldable pub owner_housefile : Housefile → OwnerHousefile
owner_housefile file = record {
  schema = file.schema;
  rev = file.rev;
  dwelling = file.dwelling_name;
  zones = file.zones;
  systems = file.systems;
  inventory = file.inventory;
  quirks = file.quirks;
  policies = file.policies;
}

-- `OwnerDisplay`
pub record OwnerDisplay : Type 0 where
  pub state : String
  pub agent : Option (List ℕ)

-- `OwnerStatus`, of whose health these two are not constants.
pub record OwnerStatus : Type 0 where
  pub latched_appliance : Bool
  pub interlock_state : InterlockState
  pub display : OwnerDisplay
  pub active_grants : ℕ

pub record OwnerSnapshot : Type 0 where
  pub housefile : OwnerHousefile
  pub grants : List PublicGrant
  pub status : OwnerStatus
  pub ledger : List Entry

-- `frame.mode.value`
abbrev pub mode_text : DisplayMode → String
mode_text armed_mode = "ARMED"
mode_text read_mode = "READ"
mode_text deny_mode = "DENY"
mode_text tripped_mode = "TRIPPED"

unfoldable pub owner_display : Result DisplayError DisplayFrame → OwnerDisplay
owner_display (ok frame) = record { state = mode_text frame.mode; agent = frame.agent }
owner_display (err e) = record { state = "UNAVAILABLE"; agent = none }

-- `sum(grant.status == GrantStatus.ACTIVE for grant in grants)`
unfoldable pub active_count : List Grant → ℕ
active_count [] = 0
active_count (g ∷ rest) = let n = active_count rest in if is_active g.status then n + 1 else n

module _ {F : Type 0} (srv : Server) where
  -- `_owner_status`
  unfoldable pub owner_status : ℕ → List Grant → Node F → OwnerStatus
  owner_status now grants n = record {
    latched_appliance = appliance_enabled srv.settings;
    interlock_state = n.interlock.state;
    display = owner_display (frame (some (active_count grants)) (aware now) n.display);
    active_grants = active_count grants;
  }

  listed : Node F → Step (Dict Grant) → Reply F (List Grant)
  listed n (ok grants, x) = (ok (sorted_records (values grants)), with_authority n x)
  listed n (err e, x) = (err (http_error e), with_authority n x)

  -- `_owner_grants`; each expiry that is due has its own attempt.
  unfoldable pub owner_grants : Ends → (String → Attempt) → ℕ → Node F → Reply F (List Grant)
  unfolding listed
  owner_grants ends attempt now n =
      listed n (grant_snapshot srv.env srv.file ends attempt n.authority n.disk (aware now))

  status_at : Ends → (String → Attempt) → Node F → ℕ → Reply F OwnerStatus
  status_at ends attempt n now = elim (owner_grants ends attempt now n).0 [
    | err e ↦ (err e, (owner_grants ends attempt now n).1)
    | ok grants ↦ (
      ok (owner_status now grants (owner_grants ends attempt now n).1),
      (owner_grants ends attempt now n).1,
    )
  ]

  -- `owner_status`
  unfoldable pub get_status : Ends → (String → Attempt) → Moment → Node F → Reply F OwnerStatus
  unfolding status_at
  get_status ends attempt now n = with_clock now n (λ t. status_at ends attempt n t)

  snapshot_of : ℕ → List Grant → Option (List Entry) → Node F → Reply F OwnerSnapshot
  snapshot_of now grants none n = (err ledger_unavailable, n)
  snapshot_of now grants (some entries) n = (
    ok (record {
      housefile = owner_housefile srv.file;
      grants = map public_grant grants;
      status = owner_status now grants n;
      ledger = entries;
    }),
    n,
  )

  snapshot_at : Ends → (String → Attempt) → Option (List Entry) → Node F → ℕ → Reply F OwnerSnapshot
  unfolding snapshot_of
  snapshot_at ends attempt entries n now = elim (owner_grants ends attempt now n).0 [
    | err e ↦ (err e, (owner_grants ends attempt now n).1)
    | ok grants ↦ snapshot_of now grants entries (owner_grants ends attempt now n).1
  ]

  -- `owner_snapshot`
  unfoldable pub get_snapshot :
      Ends → (String → Attempt) → Option (List Entry) → Moment → Node F → Reply F OwnerSnapshot
  unfolding snapshot_at
  get_snapshot ends attempt entries now n =
      with_clock now n (λ t. snapshot_at ends attempt entries n t)
