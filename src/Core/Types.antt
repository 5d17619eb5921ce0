-- ===== src/Core/Types.antt =====
-- src/threshold/core/types.py: the data that every component shares.
use threshold_node.Base.{
  if◌then◌else◌, ℕ, String, Bool, true, false, ◌||◌, Option, none, some, List, [], ◌∷◌, ◌==◌,
}

pub data Access : Type 0 where
  open_access restricted no_go : Access

pub data Scope : Type 0 where
  read_layout read_systems read_inventory cmd_navigate cmd_manipulate : Scope

pub data GrantStatus : Type 0 where
  active revoked expired suspended : GrantStatus

pub data Tier : Type 0 where
  enforced gated advisory : Tier

pub data EventType : Type 0 where
  grant_event read_event deny_event revoke_event estop_event provision_event : EventType

-- The `.value` of each enum member.
abbrev pub access_value : Access → String
access_value open_access = "open"
access_value restricted = "restricted"
access_value no_go = "no-go"

abbrev pub scope_value : Scope → String
scope_value read_layout = "read:layout"
scope_value read_systems = "read:systems"
scope_value read_inventory = "read:inventory"
scope_value cmd_navigate = "command:navigate"
scope_value cmd_manipulate = "command:manipulate"

abbrev pub status_value : GrantStatus → String
status_value active = "active"
status_value revoked = "revoked"
status_value expired = "expired"
status_value suspended = "suspended"

abbrev pub event_value : EventType → String
event_value grant_event = "GRANT"
event_value read_event = "READ"
event_value deny_event = "DENY"
event_value revoke_event = "REVOKE"
event_value estop_event = "ESTOP"
event_value provision_event = "PROVISION"

-- Equality of enum members.
abbrev pub is_no_go : Access → Bool
is_no_go no_go = true
is_no_go _ = false

abbrev pub is_active : GrantStatus → Bool
is_active active = true
is_active _ = false

abbrev pub scope_eq : Scope → Scope → Bool
scope_eq read_layout read_layout = true
scope_eq read_systems read_systems = true
scope_eq read_inventory read_inventory = true
scope_eq cmd_navigate cmd_navigate = true
scope_eq cmd_manipulate cmd_manipulate = true
scope_eq _ _ = false

-- `scope in scopes`
abbrev pub has_scope : Scope → List Scope → Bool
has_scope s [] = false
has_scope s (t ∷ ts) = scope_eq s t || has_scope s ts

-- A number of a boundary: a finite float is exactly plus or minus `mantissa / 2 ^ halvings`.
pub record Coordinate : Type 0 where
  pub negative : Bool
  pub mantissa : ℕ
  pub halvings : ℕ

-- `boundary: tuple[float, float, float, float]`; the constructor refuses any other length.
pub record Boundary : Type 0 where
  pub x : Coordinate
  pub y : Coordinate
  pub w : Coordinate
  pub h : Coordinate

pub record Zone : Type 0 where
  pub id : String
  pub name : String
  pub access : Access
  pub boundary : Boundary
  pub note : String
  pub outdoor : Bool

pub record SystemItem : Type 0 where
  pub id : String
  pub name : String
  pub zone : String
  pub tag : String
  pub detail : String

pub record InventoryItem : Type 0 where
  pub id : String
  pub name : String
  pub zone : String
  pub flags : List String
  pub note : String

pub record Quirk : Type 0 where
  pub id : String
  pub zone : String
  pub text : String

pub record Policies : Type 0 where
  pub quiet_start : String
  pub quiet_end : String
  pub timezone : String
  pub teleop : String
  pub residency : String

pub record Housefile : Type 0 where
  pub dwelling_name : String
  pub zones : List Zone
  pub systems : List SystemItem
  pub inventory : List InventoryItem
  pub quirks : List Quirk
  pub policies : Policies
  pub schema : String
  pub rev : String

-- `next((z for z in zones if z.id == zid), None)`
abbrev pub find_zone : String → List Zone → Option Zone
find_zone zid [] = none
find_zone zid (z ∷ zs) = if z.id == zid then some z else find_zone zid zs

-- `Housefile.zone`
abbrev pub zone_of : Housefile → String → Option Zone
zone_of file zid = find_zone zid file.zones

pub record Grant : Type 0 where
  pub id : String
  pub name : String
  pub kind : String
  pub scopes : List Scope
  pub zones : List String
  pub window : String
  pub expires : String
  pub status : GrantStatus
  pub issued : String
  pub credential_digest : String

-- `f in SAFETY_FLAGS`
abbrev pub is_safety_flag : String → Bool
is_safety_flag f = f == "fragile" || f == "do-not-touch"
