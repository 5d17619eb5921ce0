-- ===== src/Housefile/ScopedView/Disclosure.antt =====
-- What the views of housefile/scoped_view.py hold, by the rules.
use threshold_node.Base.{
  if◌then◌else◌, Bool-cases, any, Selects, selects_none, selects_this, selects_later, text_in,
  String, ◌≡◌, refl, inl, inr, true, false, none, some, List, [], ◌∷◌, map, arith,
}
use threshold_node.Housefile.ScopedView.Rules.{
  IsGranted, ShowsZone, ShowsZones, UnderScope, QuirkAs, SystemAs, InventoryAs, SafetyAs, HasSafety,
  Follows, MayView,
}
use threshold_node.Housefile.ScopedView.Granted.{
  blocks_no_go, spares_no_go, text_in-granted, granted-text_in, non_empty-IsNote, keep-Selects,
  any-IsSafety, IsSafety-any, capabilities-Selects,
}
use threshold_node.Core.Types.{
  Scope, read_layout, read_systems, read_inventory, is_no_go, is_active, has_scope, Zone,
  SystemItem, InventoryItem, Quirk, Housefile, Grant, is_safety_flag,
}
use threshold_node.Housefile.ScopedView.{
  granted_zones, zone_view, quirk_views, system_views, inventory_views, safety_views, disclose,
  scoped_view,
}

module _ (file : Housefile) (grant : Grant) where
  abbrev granted : List String
  granted = granted_zones file.zones grant.zones

  granted_shown : (zid : String) → text_in zid granted ≡ true → IsGranted file grant zid
  granted_shown zid h = text_in-granted file.zones grant.zones zid h

  granted_hidden : (zid : String) → text_in zid granted ≡ false → ¬ IsGranted file grant zid
  granted_hidden zid h g =
      absurd (let there = granted-text_in file.zones grant.zones zid g in ground arith)

  zone_view-ShowsZone : (z : Zone) → ShowsZone file grant z (zone_view granted z)
  unfolding zone_view
  zone_view-ShowsZone z = elim (Bool-cases (is_no_go z.access)) [
    | inl blocks ↦ rw blocks (blocks_no_go z.access blocks, refl, refl)
    | inr fine ↦ elim (Bool-cases (text_in z.id granted)) [
      | inl there ↦
          rw (fine, there)
            (
              spares_no_go z.access fine,
              granted_shown z.id there,
              refl,
              refl,
              refl,
              refl,
              non_empty-IsNote z.note,
              refl,
            )
      | inr away ↦ rw (fine, away) (spares_no_go z.access fine, granted_hidden z.id away, refl)
    ]
  ]

  zones-ShowsZones : (zs : List Zone) → ShowsZones file grant zs (map (zone_view granted) zs)
  zones-ShowsZones [] = tt
  zones-ShowsZones (z ∷ zs) = (zone_view-ShowsZone z, zones-ShowsZones zs)

  quirks-Selects :
      (qs : List Quirk)
      → Selects (λ q. IsGranted file grant q.zone) (QuirkAs file grant) qs (quirk_views granted qs)
  unfolding quirk_views
  quirks-Selects [] = selects_none
  quirks-Selects (q ∷ qs) = elim (Bool-cases (text_in q.zone granted)) [
    | inl there ↦
        rw there
          (selects_this q _ qs _ (granted_shown q.zone there) (refl, refl) (quirks-Selects qs))
    | inr away ↦ rw away (selects_later q qs _ (granted_hidden q.zone away) (quirks-Selects qs))
  ]

  systems-Selects :
      (ss : List SystemItem)
      → Selects
          (λ s. IsGranted file grant s.zone)
          (SystemAs file grant)
          ss
          (system_views granted ss)
  unfolding system_views
  systems-Selects [] = selects_none
  systems-Selects (s ∷ ss) = elim (Bool-cases (text_in s.zone granted)) [
    | inl there ↦
        rw there (
          selects_this s _ ss _ (granted_shown s.zone there) (refl, refl, refl)
            (systems-Selects ss))
    | inr away ↦ rw away (selects_later s ss _ (granted_hidden s.zone away) (systems-Selects ss))
  ]

  inventory-Selects :
      (is : List InventoryItem)
      → Selects
          (λ i. IsGranted file grant i.zone)
          (InventoryAs file grant)
          is
          (inventory_views granted is)
  unfolding inventory_views
  inventory-Selects [] = selects_none
  inventory-Selects (i ∷ is) = elim (Bool-cases (text_in i.zone granted)) [
    | inl there ↦ rw there (
        selects_this i _ is _ (granted_shown i.zone there)
          (refl, refl, refl, non_empty-IsNote i.note) (inventory-Selects is))
    | inr away ↦ rw away (selects_later i is _ (granted_hidden i.zone away) (inventory-Selects is))
  ]

  safety-Selects :
      (is : List InventoryItem)
      → Selects (HasSafety file grant) (SafetyAs file grant) is (safety_views granted is)
  unfolding safety_views
  safety-Selects [] = selects_none
  safety-Selects (i ∷ is) = elim (Bool-cases (text_in i.zone granted)) [
    | inr away ↦ rw away (
        selects_later i is _ (λ (there, flag). granted_hidden i.zone away there)
          (safety-Selects is))
    | inl there ↦ elim (Bool-cases (any is_safety_flag i.flags)) [
      | inl flagged ↦
          rw (there, flagged)
            (selects_this i _ is _ (granted_shown i.zone there, any-IsSafety i.flags flagged)
              (refl, keep-Selects i.flags) (safety-Selects is))
      | inr plain ↦
          rw (there, plain)
            (selects_later i is _
              (λ (g, (f, (has, s))).
                absurd (let some_flag = IsSafety-any i.flags f has s in ground arith))
              (safety-Selects is))
    ]
  ]

  under_scope :
      {A : Type 0} (s : Scope) (P : A → Type 0) (x : A)
      → P x
      → UnderScope file grant s P (if has_scope s grant.scopes then some x else none)
  under_scope s P x h = elim (Bool-cases (has_scope s grant.scopes)) [
    | inl e ↦ rw e (e, h)
    | inr e ↦ rw e e
  ]

  disclose-Follows : Follows file grant (disclose file grant granted)
  unfolding disclose
  disclose-Follows = (
    refl,
    (refl, refl, refl, refl),
    (refl, refl, refl, refl),
    under_scope read_layout (ShowsZones file grant file.zones) _ (zones-ShowsZones file.zones),
    under_scope read_layout
        (Selects (λ q. IsGranted file grant q.zone) (QuirkAs file grant) file.quirks) _
        (quirks-Selects file.quirks),
    under_scope read_systems
        (Selects (λ s. IsGranted file grant s.zone) (SystemAs file grant) file.systems) _
        (systems-Selects file.systems),
    under_scope read_inventory
        (Selects (λ i. IsGranted file grant i.zone) (InventoryAs file grant) file.inventory) _
        (inventory-Selects file.inventory),
    safety-Selects file.inventory,
    capabilities-Selects grant.scopes,
  )

-- The view of an inactive grant holds the schema, the grant's id and its status and no data. In the
-- view of an active grant: the schema, the grant's fields and the policies without the residency;
-- the zones and the quirks exactly with the layout scope, the systems and the inventory exactly with
-- theirs; every zone in order, a no-go zone by its boundary, a zone that is not granted by its id
-- alone and a granted one by its entry; exactly the quirks, systems and inventory items of granted
-- zones; whatever the scopes, of exactly the items in granted zones with a safety flag the zone and
-- these flags alone; and the command scopes as capabilities. A zone is granted when the grant names
-- it and the housefile knows it under that id as not no-go.
pub scoped_view-MayView :
    (file : Housefile) (grant : Grant) → MayView file grant (scoped_view file grant)
unfolding scoped_view
scoped_view-MayView file grant = elim (Bool-cases (is_active grant.status)) [
  | inl up ↦ rw up (ground arith, disclose-Follows file grant)
  | inr down ↦ rw down (ground arith, refl, refl, refl)
]
