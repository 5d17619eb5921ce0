-- ===== src/Grants/Authority/Verified.antt =====
-- What the checks of grants/authority.py on a clean state, `_verify_clean_state`, establish.
use threshold_node.Base.{
  Bool-cases, Option-cases, is_empty, text_in, Dict, ℕ, String, ◌≡◌, refl, ap, ◌∙◌, ◌≢◌, inl, inr,
  Bool, true, false, Option, none, some, List, [], ◌∷◌, arith, ◌==◌, eq_iff,
}
use threshold_node.Core.Types.{no_go, is_no_go, Zone, Housefile, zone_of, Grant}
use threshold_node.Core.Ledger.Prepared.{verify_witness}
use threshold_node.Grants.Record.{valid_grants}
use threshold_node.Grants.Store.{GrantLedgerWitness, GrantStoreState, target_digest}
use threshold_node.Grants.Platform.{Platform}
use threshold_node.Grants.Authority.{
  zones_bound, bindings_valid, ledger_witness_of, witness_stands, witness_commits,
  verify_clean_state,
}

-- The grant has scopes, zones and a credential, and the house has each of its zones as not no-go.
abbrev pub IsBound : Housefile → Grant → Type 0
IsBound file g =
    (g.scopes ≢ [])
    × (g.zones ≢ [])
    × (g.credential_digest ≢ "")
    × ((zid : String)
        → text_in zid g.zones ≡ true
        → (z : Zone) × ((zone_of file zid ≡ some z) × (z.access ≢ no_go)))

abbrev pub AllBound : Housefile → Dict Grant → Type 0
AllBound file [] = Unit
AllBound file ((k, g) ∷ rest) = IsBound file g × AllBound file rest

zones_bound_lem :
    (file : Housefile) (zones : List String)
    → zones_bound file zones ≡ true
    → (zid : String) → text_in zid zones ≡ true
    → (z : Zone) × ((zone_of file zid ≡ some z) × (z.access ≢ no_go))
unfolding zones_bound
zones_bound_lem file [] h zid there = absurd (ground arith)
zones_bound_lem file (y ∷ rest) h zid there = elim (Bool-cases (zid == y)) [
  | inr later ↦ zones_bound_lem file rest (ground arith) zid (ground arith)
  | inl here ↦ elim (Option-cases (zone_of file y)) [
    | inl e ↦ absurd (ground arith)
    | inr (z, e) ↦
        let same : zid ≡ y = ground (arith, eq_iff zid y) in
        let fine : is_no_go z.access ≡ false = ground arith in
        (
          z,
          (
            ap (λ k. zone_of file k) same ∙ e,
            λ no. absurd (let blocks = ap is_no_go no in ground arith),
          ),
        )
  ]
]

non_empty_list : {A : Type 0} (xs : List A) → is_empty xs ≡ false → xs ≢ []
non_empty_list xs h e = absurd (let none_there = ap is_empty e in ground arith)

bindings_valid-AllBound :
    (file : Housefile) (grants : Dict Grant)
    → bindings_valid file grants ≡ true
    → AllBound file grants
unfolding bindings_valid
bindings_valid-AllBound file [] h = tt
bindings_valid-AllBound file ((k, g) ∷ rest) h =
    let no_text = eq_iff g.credential_digest "" in
    (
      (
        non_empty_list g.scopes (ground arith),
        non_empty_list g.zones (ground arith),
        λ e. absurd (ground arith),
        zones_bound_lem file g.zones (ground arith),
      ),
      bindings_valid-AllBound file rest (ground arith),
    )

module _ (env : Platform) (file : Housefile) where
  -- The witness is the state's, its digest is that of the grants, which are valid, and the ledger
  -- bears it out.
  abbrev pub Witnessed : Bool → Option (List ℕ) → GrantStoreState → Type 0
  Witnessed safe ledger s =
      (w : GrantLedgerWitness) × ((s.ledger_witness ≡ some w)
        × (valid_grants env.is_printable env.fromisoformat s.grants ≡ true)
        × (target_digest env.snapshot_sha256 s.grants ≡ w.target_sha256)
        × (verify_witness env.sha256 env.dumps env.loads env.strip env.fromisoformat safe
              (ledger_witness_of w) ledger
            ≡ true))

  -- No transaction is pending; at revision 0 there are no grants and no witness, at any other the
  -- ledger bears out the witness of the grants; and every grant is bound to the house.
  abbrev pub Verified : Bool → Option (List ℕ) → GrantStoreState → Type 0
  Verified safe ledger s =
      (s.pending ≡ none)
      × (s.revision ≡ 0 → (s.grants ≡ []) × (s.ledger_witness ≡ none))
      × (s.revision ≢ 0 → Witnessed safe ledger s)
      × AllBound file s.grants

  no_grants : (grants : Dict Grant) → is_empty grants ≡ true → grants ≡ []
  no_grants [] h = refl
  no_grants (x ∷ rest) h = absurd (ground arith)

  witness_commits-Witnessed :
      (safe : Bool) (ledger : Option (List ℕ)) (s : GrantStoreState)
      → witness_commits env file safe ledger s.grants s.ledger_witness ≡ true
      → Witnessed safe ledger s
  unfolding witness_commits witness_stands
  witness_commits-Witnessed safe ledger s h = elim (Option-cases s.ledger_witness) [
    | inl e ↦ absurd (ground arith)
    | inr (w, e) ↦
        let digest = eq_iff (target_digest env.snapshot_sha256 s.grants) w.target_sha256 in
        (w, (e, ground arith, ground arith, ground arith))
  ]

  pub verify_clean_state-Verified :
      (safe : Bool) (ledger : Option (List ℕ)) (s : GrantStoreState)
      → verify_clean_state env file safe ledger s ≡ true
      → Verified safe ledger s
  unfolding verify_clean_state
  verify_clean_state-Verified safe ledger s h = (
    ground arith,
    λ zeroth. (no_grants s.grants (ground arith), ground arith),
    λ later. witness_commits-Witnessed safe ledger s (ground arith),
    bindings_valid-AllBound file s.grants (ground arith),
  )
