-- ===== src/Api/Commands/Boundary.antt =====
-- The policy boundary of a command of api/server.py.
use threshold_node.Core.Types.{
  no_go, cmd_navigate, cmd_manipulate, is_no_go, has_scope, Zone, Housefile, zone_of, Grant,
}
use threshold_node.Api.Commands.{
  navigate, manipulate, CommandRequest, required_scope, within_boundary,
}
use threshold_node.Base.{
  Option-cases, text_in, ◌≡◌, sym, ap, ◌∙◌, ◌≢◌, inl, inr, true, false, some, arith,
}

-- The house has the zone of the command, the grant names it, it is not no-go, and the grant has the
-- scope of the verb.
abbrev pub Covers : Housefile → CommandRequest → Grant → Type 0
Covers file body g =
    (z : Zone) × ((zone_of file body.zone ≡ some z)
      × (text_in z.id g.zones ≡ true)
      × (z.access ≢ no_go)
      × (body.verb ≡ navigate → has_scope cmd_navigate g.scopes ≡ true)
      × (body.verb ≡ manipulate → has_scope cmd_manipulate g.scopes ≡ true))

pub within_boundary_lem :
    (file : Housefile) (body : CommandRequest) (g : Grant)
    → within_boundary file body g ≡ true
    → Covers file body g
unfolding within_boundary
within_boundary_lem file body g h = elim (Option-cases (zone_of file body.zone)) [
  | inl e ↦ absurd (ground arith)
  | inr (z, e) ↦
      let scope : has_scope (required_scope body.verb) g.scopes ≡ true = ground arith in
      let fine : is_no_go z.access ≡ false = ground arith in
      (
        z,
        (
          e,
          ground arith,
          λ same. absurd (let blocks = ap is_no_go same in ground arith),
          λ verb. ap (λ v. has_scope (required_scope v) g.scopes) (sym verb) ∙ scope,
          λ verb. ap (λ v. has_scope (required_scope v) g.scopes) (sym verb) ∙ scope,
        ),
      )
]
