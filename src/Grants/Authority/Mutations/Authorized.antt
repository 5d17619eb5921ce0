-- ===== src/Grants/Authority/Mutations/Authorized.antt =====
-- When `authorized` of grants/authority.py yields an allowing decision.
use threshold_node.Grants.Authority.Mutations.Denials.{exclusive_cases, decide_current-decision}
use threshold_node.Grants.Authority.Mutations.{
  decide, decide_current, authorized_locked, authorized,
}
use threshold_node.Grants.Authority.Changes.{Attempt, is_due}
use threshold_node.Grants.Authority.{Authority, ensure_ready}
use threshold_node.Grants.Platform.{Platform, Disk, Ends}
use threshold_node.Grants.Manager.Decisions.{due_refuses}
use threshold_node.Grants.Manager.{GrantDecision, decision}
use threshold_node.Core.Timestamp.{Moment}
use threshold_node.Core.Types.{Housefile, Grant}
use threshold_node.Core.Auth.{is_valid_bearer_token, token_matches}
use threshold_node.Base.{
  Bool-cases, Option-cases, lookup, ok, String, ◌≡◌, sym, ap, ◌∙◌, inl, inr, true, not, ◌||◌,
  Option, some, arith,
}

module _ (env : Platform) (file : Housefile) where
  authorized_locked-allowed :
      (t : Attempt) (grant_id : String) (supplied : Option String) (now : Moment) (action : String)
      (a : Authority) (disk : Disk) (g : Grant) (d : GrantDecision)
      → (authorized_locked env file t grant_id supplied now action a disk).0 ≡ ok (g, d)
      → d.allowed ≡ true
      → (lookup grant_id a.grants ≡ some g)
        × (is_valid_bearer_token supplied ≡ true)
        × (token_matches env.token_sha256 supplied g.credential_digest ≡ true)
        × ((decision env.fromisoformat 0 g (some now)).allowed ≡ true)
        × ((authorized_locked env file t grant_id supplied now action a disk).1 ≡ (a, disk))
  unfolding authorized_locked decide_current decide
  authorized_locked-allowed t grant_id supplied now action a disk g d h allowed =
      elim (Option-cases (lookup grant_id a.grants)) [
        | inl e ↦ absurd (ground arith)
        | inr (grant, e) ↦
            let due = due_refuses env.fromisoformat 0 grant (some now) in
            elim (Bool-cases (
              not (is_valid_bearer_token supplied)
              || not (token_matches env.token_sha256 supplied grant.credential_digest))) [
                | inl r ↦ absurd (ground arith)
                | inr r ↦
                    let same =
                      decide_current-decision env file t a disk grant_id now action grant g d
                        (ground arith) in
                    elim (Bool-cases (is_due (decision env.fromisoformat 0 grant (some now)))) [
                      | inl v ↦ absurd (ground arith)
                      | inr v ↦
                          (ground arith, ground arith, ground arith, ground arith, ground arith)
                    ]
              ]
      ]

  -- When `authorized` yields an allowing decision on a grant, the grant is the one that the reloaded
  -- authority has under that id, the supplied credential is a valid bearer token whose digest is the
  -- grant's, and the grant manager's decision at that clock allows it. Nothing is written but what
  -- the reload writes.
  pub authorized-allowed :
      (ends : Ends) (t : Attempt) (a : Authority) (disk : Disk) (grant_id : String)
      (supplied : Option String) (now : Moment) (action : String) (g : Grant) (d : GrantDecision)
      → (authorized env file ends t a disk grant_id supplied now action).0 ≡ ok (g, d)
      → d.allowed ≡ true
      → (lookup grant_id (ensure_ready env file ends a disk).0.grants ≡ some g)
        × (is_valid_bearer_token supplied ≡ true)
        × (token_matches env.token_sha256 supplied g.credential_digest ≡ true)
        × ((decision env.fromisoformat 0 g (some now)).allowed ≡ true)
        × ((authorized env file ends t a disk grant_id supplied now action).1
            ≡ ensure_ready env file ends a disk)
  unfolding authorized
  authorized-allowed ends t a disk grant_id supplied now action g d h allowed =
      let x = ensure_ready env file ends a disk in
      elim (exclusive_cases env file ends a disk
        (authorized_locked env file t grant_id supplied now action)) [
          | inl (same, ready) ↦
              let (at, valid, matches, allows, still) =
                authorized_locked-allowed t grant_id supplied now action x.0 x.1 g d
                  (ap (λ r. r.0) (sym same) ∙ h) allowed in
              (at, valid, matches, allows, ap (λ r. r.1) same ∙ still)
          | inr e ↦ absurd (ground arith)
        ]
