-- ===== src/Grants/Manager/Lifecycle.antt =====
-- What `issue`, `revoke` and `suspend_all` of grants/manager.py keep.
use threshold_node.Base.{
  if◌then◌else◌, Bool-cases, Option-cases, text_in, Dict, map_values, ok, ℕ, suc, ◌+◌, String, ◌≡◌,
  refl, ◌∙◌, ◌≢◌, inl, inr, true, false, some, List, [], ◌∷◌, arith, ◌==◌, eq_iff,
}
use threshold_node.Core.Types.{suspended, is_no_go, is_active, Zone, Housefile, zone_of, Grant}
use threshold_node.Grants.Manager.{check_zones, suspend_from, suspend_all}

abbrev pub suspend : Grant → Grant
suspend g = if is_active g.status then record g { status = suspended } else g

pub count_active : Dict Grant → ℕ
count_active [] = 0
count_active ((k, g) ∷ rest) =
    if is_active g.status then suc (count_active rest) else count_active rest

suspend_from_lem :
    (n : ℕ) (grants : Dict Grant)
    → suspend_from n grants ≡ (map_values suspend grants, n + count_active grants)
unfolding suspend_from count_active
suspend_from_lem n [] = ground arith
suspend_from_lem n ((k, g) ∷ rest) =
    ground (arith, suspend_from_lem n rest, suspend_from_lem (n + 1) rest)

-- An emergency stop turns every active grant into a suspended one, leaves every other grant and the
-- order of the grants as they were, and returns how many grants were active.
pub suspend_all_lem :
    (grants : Dict Grant) → suspend_all grants ≡ (map_values suspend grants, count_active grants)
unfolding suspend_all
suspend_all_lem grants = suspend_from_lem 0 grants ∙ ground arith

suspend_none : (grants : Dict Grant) → count_active (map_values suspend grants) ≡ 0
unfolding count_active
suspend_none [] = refl
suspend_none ((k, g) ∷ rest) = ground (arith, suspend_none rest)

-- After an emergency stop no grant is active, and a second one suspends none.
pub suspend_all_twice : (grants : Dict Grant) → (suspend_all (suspend_all grants).0).1 ≡ 0
suspend_all_twice grants =
    rw (suspend_all_lem grants, suspend_all_lem (map_values suspend grants)) (suspend_none grants)

-- A grant that the housefile backs: scopes and zones, each zone known and none of them no-go.
pub record IsBacked (file : Housefile) (g : Grant) : Type 0 where
  pub scoped : g.scopes ≢ []
  pub zoned : g.zones ≢ []
  pub may_be_granted :
      (zid : String)
      → text_in zid g.zones ≡ true
      → (z : Zone) × (zone_of file zid ≡ some z) × (is_no_go z.access ≡ false)

pub check_zones_lem :
    (file : Housefile) (zones : List String)
    → check_zones file zones ≡ ok tt
    → (zid : String) → text_in zid zones ≡ true
    → (z : Zone) × (zone_of file zid ≡ some z) × (is_no_go z.access ≡ false)
unfolding check_zones
check_zones_lem file [] h zid m = absurd (ground arith)
check_zones_lem file (y ∷ ys) h zid m = elim (Option-cases (zone_of file y)) [
  | inl e ↦ absurd (ground arith)
  | inr (z, e) ↦ elim (Bool-cases (zid == y)) [
    | inl same ↦ (z, ground (arith, eq_iff zid y), ground arith)
    | inr other ↦ check_zones_lem file ys (ground arith) zid (ground arith)
  ]
]
