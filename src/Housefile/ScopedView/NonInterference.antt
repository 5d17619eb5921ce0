-- ===== src/Housefile/ScopedView/NonInterference.antt =====
-- housefile/scoped_view.py shows nothing of what a grant may not see: the view is a function of the
-- redacted housefile.
use threshold_node.Core.Types.{
  read_layout, read_systems, read_inventory, is_active, has_scope, Zone, SystemItem, InventoryItem,
  Quirk, Housefile, Grant, is_safety_flag,
}
use threshold_node.Base.{
  if◌then◌else◌, Bool-cases, any, keep, text_in, String, ◌≡◌, refl, sym, ap, ◌∙◌, inl, inr, Bool,
  true, false, none, some, List, [], ◌∷◌, map, arith, ◌==◌, eq_iff, eq_refl,
}
use threshold_node.Housefile.ScopedView.{
  grantable, granted_zones, zone_view, quirk_views, system_views, inventory_views, safety_views,
  scoped_view,
}
use threshold_node.Housefile.ScopedView.Redaction.{
  redact_zone, redact_quirks, redact_systems, redact_inventory, redact_safety, redact_named,
  seen_zones, seen_inventory, seen_if, redact,
}

grantable_redact :
    (granted : List String) (zones : List Zone) (zid : String)
    → grantable (map (redact_zone granted) zones) zid ≡ grantable zones zid
unfolding grantable redact_zone
grantable_redact granted [] zid = refl
grantable_redact granted (z ∷ zs) zid = ground (arith, grantable_redact granted zs zid)

grantable_named :
    (zids : List String) (zones : List Zone) (zid : String)
    → text_in zid zids ≡ true
    → grantable (redact_named zids zones) zid ≡ grantable zones zid
unfolding grantable redact_named
grantable_named zids [] zid named = refl
grantable_named zids (z ∷ zs) zid named =
    let later = grantable_named zids zs zid named in
    elim (Bool-cases (z.id == zid)) [
      | inl here ↦
          let same = eq_iff z.id zid in
          let there : text_in z.id zids ≡ true = ground arith in ground arith
      | inr apart ↦ ground arith
    ]

keep_same :
    (p q : String → Bool) (xs : List String)
    → ((x : String) → text_in x xs ≡ true → p x ≡ q x)
    → keep p xs ≡ keep q xs
keep_same p q [] h = refl
keep_same p q (x ∷ xs) h =
    let same = eq_refl x in
    let here = h x (ground arith) in
    let later = keep_same p q xs (λ y there. h y (ground arith)) in ground arith

granted_seen :
    (layout : Bool) (zids granted : List String) (zones : List Zone)
    → granted_zones (seen_zones layout zids granted zones) zids ≡ granted_zones zones zids
unfolding granted_zones seen_zones
granted_seen true zids granted zones =
    keep_same _ _ zids (λ zid named. grantable_redact granted zones zid)
granted_seen false zids granted zones =
    keep_same _ _ zids (λ zid named. grantable_named zids zones zid named)

keep_twice : (p : String → Bool) (xs : List String) → keep p (keep p xs) ≡ keep p xs
keep_twice p [] = refl
keep_twice p (x ∷ xs) = ground (arith, keep_twice p xs)

any-keep : (p : String → Bool) (xs : List String) → any p (keep p xs) ≡ any p xs
any-keep p [] = refl
any-keep p (x ∷ xs) = ground (arith, any-keep p xs)

module _ (granted : List String) where
  zones_redact :
      (zones : List Zone)
      → map (zone_view granted) (map (redact_zone granted) zones) ≡ map (zone_view granted) zones
  unfolding zone_view redact_zone
  zones_redact [] = refl
  zones_redact (z ∷ zs) = ground (arith, zones_redact zs)

  quirks_redact :
      (qs : List Quirk) → quirk_views granted (redact_quirks granted qs) ≡ quirk_views granted qs
  unfolding quirk_views redact_quirks
  quirks_redact [] = refl
  quirks_redact (q ∷ qs) = ground (arith, quirks_redact qs)

  systems_redact :
      (ss : List SystemItem)
      → system_views granted (redact_systems granted ss) ≡ system_views granted ss
  unfolding system_views redact_systems
  systems_redact [] = refl
  systems_redact (s ∷ ss) = ground (arith, systems_redact ss)

  inventory_redact :
      (is : List InventoryItem)
      → inventory_views granted (redact_inventory granted is) ≡ inventory_views granted is
  unfolding inventory_views redact_inventory
  inventory_redact [] = refl
  inventory_redact (i ∷ is) = ground (arith, inventory_redact is)

  safety_redact :
      (is : List InventoryItem)
      → safety_views granted (redact_inventory granted is) ≡ safety_views granted is
  unfolding safety_views redact_inventory
  safety_redact [] = refl
  safety_redact (i ∷ is) = ground (arith, safety_redact is)

  safety_only :
      (is : List InventoryItem)
      → safety_views granted (redact_safety granted is) ≡ safety_views granted is
  unfolding safety_views redact_safety
  safety_only [] = refl
  safety_only (i ∷ is) =
      ground
        (arith, safety_only is, keep_twice is_safety_flag i.flags, any-keep is_safety_flag i.flags)

  zones_seen :
      (layout : Bool) (zids : List String) (zones : List Zone)
      → (if layout
          then some (map (zone_view granted) (seen_zones layout zids granted zones))
          else none)
        ≡ (if layout then some (map (zone_view granted) zones) else none)
  unfolding seen_zones
  zones_seen true zids zones = ap some (zones_redact zones)
  zones_seen false zids zones = refl

  quirks_seen :
      (layout : Bool) (qs : List Quirk)
      → (if layout
          then some (quirk_views granted (seen_if layout (redact_quirks granted qs)))
          else none)
        ≡ (if layout then some (quirk_views granted qs) else none)
  quirks_seen true qs = ap some (quirks_redact qs)
  quirks_seen false qs = refl

  systems_seen :
      (systems : Bool) (ss : List SystemItem)
      → (if systems
          then some (system_views granted (seen_if systems (redact_systems granted ss)))
          else none)
        ≡ (if systems then some (system_views granted ss) else none)
  systems_seen true ss = ap some (systems_redact ss)
  systems_seen false ss = refl

  inventory_seen :
      (inventory : Bool) (is : List InventoryItem)
      → (if inventory
          then some (inventory_views granted (seen_inventory inventory granted is))
          else none)
        ≡ (if inventory then some (inventory_views granted is) else none)
  unfolding seen_inventory
  inventory_seen true is = ap some (inventory_redact is)
  inventory_seen false is = refl

  safety_seen :
      (inventory : Bool) (is : List InventoryItem)
      → safety_views granted (seen_inventory inventory granted is) ≡ safety_views granted is
  unfolding seen_inventory
  safety_seen true is = safety_redact is
  safety_seen false is = safety_only is

-- The view of the redacted housefile is the view of the housefile.
pub scoped_view-redact :
    (file : Housefile) (grant : Grant)
    → scoped_view (redact file grant) grant ≡ scoped_view file grant
unfolding scoped_view redact
scoped_view-redact file grant = elim (Bool-cases (is_active grant.status)) [
  | inr down ↦ rw down refl
  | inl up ↦
      let granted = granted_zones file.zones grant.zones in
      let layout = has_scope read_layout grant.scopes in
      let inventory = has_scope read_inventory grant.scopes in
      rw (
        up,
        granted_seen layout grant.zones granted file.zones,
        zones_seen granted layout grant.zones file.zones,
        quirks_seen granted layout file.quirks,
        systems_seen granted (has_scope read_systems grant.scopes) file.systems,
        inventory_seen granted inventory file.inventory,
        safety_seen granted inventory file.inventory,
      )
]

-- Two housefiles that agree on what a grant may know give it one view. An inactive grant may know
-- the schema alone, and an active one the schema, the policies without the residency, which of the
-- zones that it names exist and are no-go, and what its scopes open: with the layout scope the zones
-- in order and the quirks of granted zones, but no name, note or outdoor mark of a no-go zone and
-- nothing but the id of any other zone that is not granted; with the systems scope the systems of
-- granted zones; with the inventory scope the inventory of granted zones, and without it of its
-- items with a safety flag no more than the zone and these flags.
pub scoped_view_blind :
    (a b : Housefile) (grant : Grant)
    → redact a grant ≡ redact b grant
    → scoped_view a grant ≡ scoped_view b grant
scoped_view_blind a b grant h =
    sym (scoped_view-redact a grant)
    ∙ ap (λ file. scoped_view file grant) h
    ∙ scoped_view-redact b grant
