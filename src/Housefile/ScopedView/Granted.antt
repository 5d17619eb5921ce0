-- ===== src/Housefile/ScopedView/Granted.antt =====
-- Which zones and flags housefile/scoped_view.py selects.
use threshold_node.Base.{
  Bool-cases, Option-cases, any, keep, Selects, selects_none, selects_this, selects_later, text_in,
  String, ◌≡◌, refl, sym, ap, ◌∙◌, ◌≢◌, inl, inr, true, false, List, [], ◌∷◌, arith, ◌==◌, eq_iff,
  eq_refl,
}
use threshold_node.Housefile.ScopedView.Rules.{NamesZone, IsNote, IsSafety, IsCommand}
use threshold_node.Housefile.ScopedView.{grantable, granted_zones, non_empty, capabilities_of}
use threshold_node.Core.Types.{
  Access, open_access, restricted, no_go, Scope, read_layout, read_systems, read_inventory,
  cmd_navigate, cmd_manipulate, scope_value, is_no_go, Zone, find_zone, is_safety_flag,
}

pub blocks_no_go : (a : Access) → is_no_go a ≡ true → a ≡ no_go
blocks_no_go open_access h = cc
blocks_no_go restricted h = cc
blocks_no_go no_go h = refl

pub spares_no_go : (a : Access) → is_no_go a ≡ false → a ≢ no_go
spares_no_go a h e = absurd (let blocks = ap is_no_go e in ground arith)

no_go_blocked : (a : Access) → a ≢ no_go → is_no_go a ≡ false
no_go_blocked open_access h = refl
no_go_blocked restricted h = refl
no_go_blocked no_go h = absurd (h refl)

-- A text is in the granted zones exactly when it is one of the grant's and its zone is known and not
-- no-go.
pub text_in-granted :
    (zones : List Zone) (zids : List String) (zid : String)
    → text_in zid (granted_zones zones zids) ≡ true
    → NamesZone zones zids zid
unfolding granted_zones grantable
text_in-granted zones [] zid h = absurd (ground arith)
text_in-granted zones (y ∷ ys) zid h = elim (Bool-cases (zid == y)) [
  | inl same ↦ elim (Option-cases (find_zone y zones)) [
    | inl e ↦ let g = text_in-granted zones ys zid (ground arith) in (ground arith, g.1)
    | inr (z, e) ↦ elim (Bool-cases (is_no_go z.access)) [
      | inl blocks ↦ let g = text_in-granted zones ys zid (ground arith) in (ground arith, g.1)
      | inr fine ↦ (ground arith, (z, (ground (arith, eq_iff zid y), spares_no_go z.access fine)))
    ]
  ]
  | inr other ↦
      let rest : text_in zid (granted_zones zones ys) ≡ true = ground arith in
      let g = text_in-granted zones ys zid rest in (ground arith, g.1)
]

pub granted-text_in :
    (zones : List Zone) (zids : List String) (zid : String)
    → NamesZone zones zids zid
    → text_in zid (granted_zones zones zids) ≡ true
unfolding granted_zones grantable
granted-text_in zones [] zid (named, known) = absurd (ground arith)
granted-text_in zones (y ∷ ys) zid (named, (z, (e, fine))) =
    let spared = no_go_blocked z.access fine in
    elim (Bool-cases (zid == y)) [
      | inl same ↦ let equal = eq_iff zid y in ground arith
      | inr other ↦
          let later = granted-text_in zones ys zid (ground arith, (z, (e, fine))) in ground arith
    ]

pub non_empty-IsNote : (t : String) → IsNote t (non_empty t)
non_empty-IsNote t = elim (Bool-cases (t == "")) [
  | inl e ↦ let same = eq_iff t "" in rw e (ground arith)
  | inr e ↦ let same = eq_iff t "" in rw e ((λ h. absurd (ground arith)), refl)
]

is_safety_flag-IsSafety : (f : String) → is_safety_flag f ≡ true → IsSafety f
is_safety_flag-IsSafety f h = ground (arith, eq_iff f "fragile", eq_iff f "do-not-touch")

IsSafety-is_safety_flag : (f : String) → IsSafety f → is_safety_flag f ≡ true
IsSafety-is_safety_flag f h = ground (arith, eq_iff f "fragile", eq_iff f "do-not-touch")

pub keep-Selects : (fs : List String) → Selects IsSafety (λ f g. g ≡ f) fs (keep is_safety_flag fs)
keep-Selects [] = selects_none
keep-Selects (f ∷ fs) = elim (Bool-cases (is_safety_flag f)) [
  | inl e ↦ rw e (
      selects_this f f fs (keep is_safety_flag fs) (is_safety_flag-IsSafety f e) refl
        (keep-Selects fs))
  | inr e ↦ rw e (
      selects_later f fs (keep is_safety_flag fs)
        (λ s. absurd (let flag = IsSafety-is_safety_flag f s in ground arith)) (keep-Selects fs))
]

pub any-IsSafety :
    (fs : List String)
    → any is_safety_flag fs ≡ true
    → (f : String) × ((text_in f fs ≡ true) × IsSafety f)
any-IsSafety [] h = absurd (ground arith)
any-IsSafety (f ∷ fs) h = elim (Bool-cases (is_safety_flag f)) [
  | inl e ↦ let same = eq_refl f in (f, (ground arith, is_safety_flag-IsSafety f e))
  | inr e ↦ let (g, (there, s)) = any-IsSafety fs (ground arith) in (g, (ground arith, s))
]

pub IsSafety-any :
    (fs : List String) (f : String)
    → text_in f fs ≡ true
    → IsSafety f
    → any is_safety_flag fs ≡ true
IsSafety-any [] f there s = absurd (ground arith)
IsSafety-any (g ∷ fs) f there s = elim (Bool-cases (f == g)) [
  | inl e ↦
      let same : f ≡ g = ground (arith, eq_iff f g) in
      let flag = IsSafety-is_safety_flag f s in
      let flagged : is_safety_flag g ≡ true = ap is_safety_flag (sym same) ∙ flag in ground arith
  | inr e ↦ let later = IsSafety-any fs f (ground arith) s in ground arith
]

pub capabilities-Selects :
    (scopes : List Scope)
    → Selects IsCommand (λ s c. c ≡ scope_value s) scopes (capabilities_of scopes)
unfolding capabilities_of
capabilities-Selects [] = selects_none
capabilities-Selects (cmd_navigate ∷ rest) =
    selects_this cmd_navigate _ rest (capabilities_of rest) (inl refl) refl
      (capabilities-Selects rest)
capabilities-Selects (cmd_manipulate ∷ rest) =
    selects_this cmd_manipulate _ rest (capabilities_of rest) (inr refl) refl
      (capabilities-Selects rest)
capabilities-Selects (read_layout ∷ rest) =
    selects_later read_layout rest (capabilities_of rest) (λ h. ground arith)
      (capabilities-Selects rest)
capabilities-Selects (read_systems ∷ rest) =
    selects_later read_systems rest (capabilities_of rest) (λ h. ground arith)
      (capabilities-Selects rest)
capabilities-Selects (read_inventory ∷ rest) =
    selects_later read_inventory rest (capabilities_of rest) (λ h. ground arith)
      (capabilities-Selects rest)
