-- ===== src/Grants/Manager/Revoke.antt =====
-- What `revoke` of grants/manager.py does to later decisions.
use threshold_node.Base.{
  Option-cases, Dict, lookup, insert, lookup-insert, ℕ, String, ◌≡◌, ap, ◌≢◌, inl, inr, false,
  Option, some, List, arith, eq_iff, eq_refl,
}
use threshold_node.Core.Types.{revoked, Grant}
use threshold_node.Core.Timestamp.{Moment}
use threshold_node.Grants.Manager.{decision, revoke}

-- After a grant is revoked no decision on it allows it, at any clock, and every other id has the
-- grant that it had.
pub revoke-denies :
    (fromisoformat : List ℕ → Option Moment) (utc_now : ℕ) (grants after : Dict Grant)
    (grant_id : String)
    → revoke grants grant_id ≡ some after
    → ((g : Grant) (now : Option Moment)
        → lookup grant_id after ≡ some g
        → (decision fromisoformat utc_now g now).allowed ≡ false)
      × ((j : String) → grant_id ≢ j → lookup j after ≡ lookup j grants)
unfolding revoke decision
revoke-denies fromisoformat utc_now grants after grant_id h =
    elim (Option-cases (lookup grant_id grants)) [
      | inl e ↦ absurd (ground arith)
      | inr (x, e) ↦
          let made : insert grant_id (record x { status = revoked }) grants ≡ after =
            ground arith in
          (
            λ g now at.
                let there =
                  lookup-insert grant_id grant_id (record x { status = revoked }) grants in
                let same : some (record x { status = revoked }) ≡ some g =
                  ground (arith, eq_refl grant_id, ap (λ d. lookup grant_id d) made) in
                ground arith,
            λ j apart. ground (
              arith,
              eq_iff grant_id j,
              ap (λ d. lookup j d) made,
              lookup-insert grant_id j (record x { status = revoked }) grants,
            ),
          )
    ]
