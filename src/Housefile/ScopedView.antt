-- ===== src/Housefile/ScopedView.antt =====
-- src/threshold/housefile/scoped_view.py: the projection of the housefile for one grant. The JSON
-- object is a record; a key that is left out is `none`.
pub mod Rules
pub mod Granted
pub mod Disclosure
pub mod Redaction
pub mod NonInterference
mod Examples
use threshold_node.Base.{
  if◌then◌else◌, any, keep, text_in, String, Bool, true, false, not, ◌&&◌, Option, none, some, List,
  [], ◌∷◌, map, ◌==◌,
}
use threshold_node.Core.Types.{
  Scope, read_layout, read_systems, read_inventory, cmd_navigate, cmd_manipulate, access_value,
  scope_value, status_value, is_no_go, is_active, has_scope, Boundary, Zone, SystemItem,
  InventoryItem, Quirk, Housefile, find_zone, Grant, is_safety_flag,
}

pub record GrantView : Type 0 where
  pub id : String
  pub agent : String
  pub scopes : List String
  pub window : String

pub record PoliciesView : Type 0 where
  pub start : String
  pub end : String
  pub timezone : String
  pub teleop : String

pub data ZoneView : Type 0 where
  blocked : String → Boundary → ZoneView
  undisclosed : String → ZoneView
  disclosed : String → String → String → Boundary → Option String → Bool → ZoneView

pub record QuirkView : Type 0 where
  pub zone : String
  pub text : String

pub record SystemView : Type 0 where
  pub name : String
  pub zone : String
  pub detail : String

pub record InventoryView : Type 0 where
  pub name : String
  pub zone : String
  pub flags : List String
  pub note : Option String

pub record SafetyView : Type 0 where
  pub zone : String
  pub flags : List String

pub record Disclosed : Type 0 where
  pub schema : String
  pub grant : GrantView
  pub policies : PoliciesView
  pub zones : Option (List ZoneView)
  pub quirks : Option (List QuirkView)
  pub systems : Option (List SystemView)
  pub inventory : Option (List InventoryView)
  pub safety : List SafetyView
  pub capabilities : List String

pub data View : Type 0 where
  -- the schema, the grant's id and its status, beside `"error": "grant_inactive"`
  inactive_view : String → String → String → View
  active_view : Disclosed → View

-- `(zone := file.zone(zone_id)) is not None and zone.access != Access.NO_GO`
pub grantable : List Zone → String → Bool
grantable zones zid = elim (find_zone zid zones) [ none ↦ false | some z ↦ not (is_no_go z.access) ]

-- The set comprehension `granted`; only membership in it is asked.
pub granted_zones : List Zone → List String → List String
granted_zones zones zids = keep (grantable zones) zids

-- `if value: d[key] = value`
abbrev non_empty : String → Option String
non_empty t = if t == "" then none else some t

pub zone_view : List String → Zone → ZoneView
zone_view granted z =
    if is_no_go z.access
    then blocked z.id z.boundary
    else (if text_in z.id granted
        then disclosed z.id z.name (access_value z.access) z.boundary (non_empty z.note) z.outdoor
        else undisclosed z.id)

quirk_views : List String → List Quirk → List QuirkView
quirk_views granted [] = []
quirk_views granted (q ∷ qs) =
    let rest = quirk_views granted qs in
    if text_in q.zone granted then record { zone = q.zone; text = q.text } ∷ rest else rest

system_views : List String → List SystemItem → List SystemView
system_views granted [] = []
system_views granted (s ∷ ss) =
    let rest = system_views granted ss in
    if text_in s.zone granted
    then record { name = s.name; zone = s.zone; detail = s.detail } ∷ rest
    else rest

inventory_views : List String → List InventoryItem → List InventoryView
inventory_views granted [] = []
inventory_views granted (i ∷ is) =
    let rest = inventory_views granted is in
    if text_in i.zone granted
    then record { name = i.name; zone = i.zone; flags = i.flags; note = non_empty i.note } ∷ rest
    else rest

safety_views : List String → List InventoryItem → List SafetyView
safety_views granted [] = []
safety_views granted (i ∷ is) =
    let rest = safety_views granted is in
    if text_in i.zone granted && any is_safety_flag i.flags
    then record { zone = i.zone; flags = keep is_safety_flag i.flags } ∷ rest
    else rest

-- `s.value.startswith("command:")`
abbrev is_command : Scope → Bool
is_command cmd_navigate = true
is_command cmd_manipulate = true
is_command _ = false

pub capabilities_of : List Scope → List String
capabilities_of scopes = map scope_value (keep is_command scopes)

-- The output for an active grant, given `granted`.
disclose : Housefile → Grant → List String → Disclosed
unfolding zone_view quirk_views system_views inventory_views safety_views capabilities_of
disclose file grant granted = record {
  schema = file.schema;
  grant = record {
    id = grant.id;
    agent = grant.name;
    scopes = map scope_value grant.scopes;
    window = grant.window;
  };
  policies = record {
    start = file.policies.quiet_start;
    end = file.policies.quiet_end;
    timezone = file.policies.timezone;
    teleop = file.policies.teleop;
  };
  zones =
      if has_scope read_layout grant.scopes
      then some (map (zone_view granted) file.zones)
      else none;
  quirks =
      if has_scope read_layout grant.scopes then some (quirk_views granted file.quirks) else none;
  systems =
      if has_scope read_systems grant.scopes
      then some (system_views granted file.systems)
      else none;
  inventory =
      if has_scope read_inventory grant.scopes
      then some (inventory_views granted file.inventory)
      else none;
  safety = safety_views granted file.inventory;
  capabilities = capabilities_of grant.scopes;
}

unfoldable pub scoped_view : Housefile → Grant → View
unfolding disclose granted_zones grantable
scoped_view file grant =
    if is_active grant.status
    then active_view (disclose file grant (granted_zones file.zones grant.zones))
    else inactive_view file.schema grant.id (status_value grant.status)
