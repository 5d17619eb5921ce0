-- ===== src/Housefile/ScopedView/Redaction.antt =====
-- What a grant may know of the housefile that housefile/scoped_view.py projects.
use threshold_node.Core.Types.{
  open_access, no_go, read_layout, read_systems, read_inventory, is_no_go, is_active, has_scope,
  Coordinate, Boundary, Zone, SystemItem, InventoryItem, Quirk, Housefile, Grant, is_safety_flag,
}
use threshold_node.Base.{
  if◌then◌else◌, any, keep, text_in, String, Bool, true, false, ◌&&◌, List, [], ◌∷◌, map,
}
use threshold_node.Housefile.ScopedView.{granted_zones}

abbrev zero_number : Coordinate
zero_number = record { negative = false; mantissa = 0; halvings = 0 }

abbrev nowhere : Boundary
nowhere = record { x = zero_number; y = zero_number; w = zero_number; h = zero_number }

-- A zone with all that the grant may not see blanked: of a no-go zone the name, note and outdoor
-- mark, of a zone that is not granted also the boundary and the kind of access.
unfoldable pub redact_zone : List String → Zone → Zone
redact_zone granted z =
    if is_no_go z.access
    then record z { name = ""; note = ""; outdoor = false }
    else (if text_in z.id granted then z else record z {
      name = "";
      access = open_access;
      boundary = nowhere;
      note = "";
      outdoor = false;
    })

-- The items in granted zones, without the fields that no view has.
unfoldable pub redact_quirks : List String → List Quirk → List Quirk
redact_quirks granted [] = []
redact_quirks granted (q ∷ qs) =
    let rest = redact_quirks granted qs in
    if text_in q.zone granted then record q { id = "" } ∷ rest else rest

unfoldable pub redact_systems : List String → List SystemItem → List SystemItem
redact_systems granted [] = []
redact_systems granted (s ∷ ss) =
    let rest = redact_systems granted ss in
    if text_in s.zone granted then record s { id = ""; tag = "" } ∷ rest else rest

unfoldable pub redact_inventory : List String → List InventoryItem → List InventoryItem
redact_inventory granted [] = []
redact_inventory granted (i ∷ is) =
    let rest = redact_inventory granted is in
    if text_in i.zone granted then record i { id = "" } ∷ rest else rest

-- Of the granted items with a safety flag, where they stand and these flags.
unfoldable pub redact_safety : List String → List InventoryItem → List InventoryItem
redact_safety granted [] = []
redact_safety granted (i ∷ is) =
    let rest = redact_safety granted is in
    if text_in i.zone granted && any is_safety_flag i.flags
    then record i { id = ""; name = ""; flags = keep is_safety_flag i.flags; note = "" } ∷ rest
    else rest

-- Of the zones that the grant names, the id and whether they are no-go zones.
unfoldable pub redact_named : List String → List Zone → List Zone
redact_named zids [] = []
redact_named zids (z ∷ zs) =
    let rest = redact_named zids zs in
    if text_in z.id zids
    then record z {
      name = "";
      access = if is_no_go z.access then no_go else open_access;
      boundary = nowhere;
      note = "";
      outdoor = false;
    }
      ∷ rest
    else rest

-- With or without the scope.
unfoldable pub seen_zones : Bool → List String → List String → List Zone → List Zone
unfolding redact_zone redact_named
seen_zones true zids granted zones = map (redact_zone granted) zones
seen_zones false zids granted zones = redact_named zids zones

unfoldable pub seen_inventory : Bool → List String → List InventoryItem → List InventoryItem
unfolding redact_inventory redact_safety
seen_inventory true granted items = redact_inventory granted items
seen_inventory false granted items = redact_safety granted items

abbrev pub seen_if : {A : Type 0} → Bool → List A → List A
seen_if true xs = xs
seen_if false xs = []

-- What a grant may know of the housefile. An inactive one knows the schema alone. An active one
-- knows the policies but for the residency; with the layout scope the zones, as far as they may be
-- seen, and the quirks of granted zones, and without it only of the zones that it names the id and
-- whether they are no-go; with the systems scope the systems of granted zones; with the inventory
-- scope the inventory of granted zones, and without it only the zones and the safety flags of it.
unfoldable pub redact : Housefile → Grant → Housefile
unfolding redact_quirks redact_systems seen_zones seen_inventory granted_zones
redact file grant =
    let granted = granted_zones file.zones grant.zones in
    let layout = has_scope read_layout grant.scopes in
    if is_active grant.status
    then record file {
      dwelling_name = "";
      zones = seen_zones layout grant.zones granted file.zones;
      systems = seen_if (has_scope read_systems grant.scopes) (redact_systems granted file.systems);
      inventory = seen_inventory (has_scope read_inventory grant.scopes) granted file.inventory;
      quirks = seen_if layout (redact_quirks granted file.quirks);
      policies = record file.policies { residency = "" };
      rev = "";
    }
    else record {
      dwelling_name = "";
      zones = [];
      systems = [];
      inventory = [];
      quirks = [];
      policies = record {
        quiet_start = "";
        quiet_end = "";
        timezone = "";
        teleop = "";
        residency = "";
      };
      schema = file.schema;
      rev = "";
    }
