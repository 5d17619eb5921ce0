-- ===== src/Housefile/ScopedView/Rules.antt =====
-- The rules of housefile/scoped_view.py, said without its code: what may and must stand in the view
-- of a housefile for a grant.
use threshold_node.Base.{
  Selects, text_in, String, ◌≡◌, ◌≢◌, ◌⊎◌, true, false, Option, none, some, List, [], ◌∷◌, map,
}
use threshold_node.Core.Types.{
  no_go, Scope, read_layout, read_systems, read_inventory, cmd_navigate, cmd_manipulate, active,
  access_value, scope_value, status_value, has_scope, Zone, SystemItem, InventoryItem, Quirk,
  Housefile, find_zone, Grant,
}
use threshold_node.Housefile.ScopedView.{
  ZoneView, blocked, undisclosed, disclosed, QuirkView, SystemView, InventoryView, SafetyView,
  Disclosed, View, inactive_view, active_view,
}

-- The grant names the zone, and the housefile knows it under that id as no no-go zone.
abbrev pub NamesZone : List Zone → List String → String → Type 0
NamesZone zones zids zid =
    (text_in zid zids ≡ true) × ((z : Zone) × ((find_zone zid zones ≡ some z) × (z.access ≢ no_go)))

-- A text that is empty is left out.
abbrev pub IsNote : String → Option String → Type 0
IsNote t none = t ≡ ""
IsNote t (some shown) = (t ≢ "") × (shown ≡ t)

abbrev pub IsSafety : String → Type 0
IsSafety f = (f ≡ "fragile") ⊎ (f ≡ "do-not-touch")

abbrev pub IsCommand : Scope → Type 0
IsCommand s = (s ≡ cmd_navigate) ⊎ (s ≡ cmd_manipulate)

module _ (file : Housefile) (grant : Grant) where
  abbrev pub IsGranted : String → Type 0
  IsGranted zid = NamesZone file.zones grant.zones zid

  -- Of a no-go zone the boundary, of a zone that is not granted the id alone, and of a granted one
  -- its whole entry.
  abbrev pub ShowsZone : Zone → ZoneView → Type 0
  ShowsZone z (blocked zid b) = (z.access ≡ no_go) × (zid ≡ z.id) × (b ≡ z.boundary)
  ShowsZone z (undisclosed zid) = (z.access ≢ no_go) × (¬ IsGranted z.id) × (zid ≡ z.id)
  ShowsZone z (disclosed zid name access b note outdoor) =
      (z.access ≢ no_go)
      × IsGranted z.id
      × (zid ≡ z.id)
      × (name ≡ z.name)
      × (access ≡ access_value z.access)
      × (b ≡ z.boundary)
      × IsNote z.note note
      × (outdoor ≡ z.outdoor)

  abbrev pub ShowsZones : List Zone → List ZoneView → Type 0
  ShowsZones [] [] = Unit
  ShowsZones [] (v ∷ vs) = ⊥
  ShowsZones (z ∷ zs) [] = ⊥
  ShowsZones (z ∷ zs) (v ∷ vs) = ShowsZone z v × ShowsZones zs vs

  -- The part stands in the view exactly with its scope, and then as `P` says.
  abbrev pub UnderScope : {A : Type 0} → Scope → (A → Type 0) → Option A → Type 0
  UnderScope s P none = has_scope s grant.scopes ≡ false
  UnderScope s P (some x) = (has_scope s grant.scopes ≡ true) × P x

  abbrev pub QuirkAs : Quirk → QuirkView → Type 0
  QuirkAs q v = (v.zone ≡ q.zone) × (v.text ≡ q.text)

  abbrev pub SystemAs : SystemItem → SystemView → Type 0
  SystemAs s v = (v.name ≡ s.name) × (v.zone ≡ s.zone) × (v.detail ≡ s.detail)

  abbrev pub InventoryAs : InventoryItem → InventoryView → Type 0
  InventoryAs i v =
      (v.name ≡ i.name) × (v.zone ≡ i.zone) × (v.flags ≡ i.flags) × IsNote i.note v.note

  -- Of an item only the zone and the safety flags, not its name.
  abbrev pub SafetyAs : InventoryItem → SafetyView → Type 0
  SafetyAs i v = (v.zone ≡ i.zone) × Selects IsSafety (λ f g. g ≡ f) i.flags v.flags

  abbrev pub HasSafety : InventoryItem → Type 0
  HasSafety i = IsGranted i.zone × ((f : String) × ((text_in f i.flags ≡ true) × IsSafety f))

  abbrev pub Follows : Disclosed → Type 0
  Follows d =
      (d.schema ≡ file.schema)
      × ((d.grant.id ≡ grant.id)
          × (d.grant.agent ≡ grant.name)
          × (d.grant.scopes ≡ map scope_value grant.scopes)
          × (d.grant.window ≡ grant.window))
      × ((d.policies.start ≡ file.policies.quiet_start)
          × (d.policies.end ≡ file.policies.quiet_end)
          × (d.policies.timezone ≡ file.policies.timezone)
          × (d.policies.teleop ≡ file.policies.teleop))
      × UnderScope read_layout (ShowsZones file.zones) d.zones
      × UnderScope read_layout (Selects (λ q. IsGranted q.zone) QuirkAs file.quirks) d.quirks
      × UnderScope read_systems (Selects (λ s. IsGranted s.zone) SystemAs file.systems) d.systems
      × UnderScope read_inventory (Selects (λ i. IsGranted i.zone) InventoryAs file.inventory)
          d.inventory
      × Selects HasSafety SafetyAs file.inventory d.safety
      × Selects IsCommand (λ s c. c ≡ scope_value s) grant.scopes d.capabilities

  abbrev pub MayView : View → Type 0
  MayView (inactive_view schema id status) =
      (grant.status ≢ active)
      × (schema ≡ file.schema)
      × (id ≡ grant.id)
      × (status ≡ status_value grant.status)
  MayView (active_view d) = (grant.status ≡ active) × Follows d
