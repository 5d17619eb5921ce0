-- ===== src/Grants/Authority/Mutations/Withdrawals.antt =====
-- What a revocation and an emergency stop of grants/authority.py promise across reloads.
use threshold_node.Grants.Authority.Changes.Denied.{
  Denied, set_status-withdraws, suspend_change-Denied, ended_inactive,
}
use threshold_node.Grants.Authority.Changes.{
  Attempt, active_statuses, suspend_each, is_ended, revoke_change, suspend_change, grant_at,
  then_step,
}
use threshold_node.Core.Types.{revoked, Housefile, Grant}
use threshold_node.Base.{
  Bool-cases, Option-cases, length, Dict, lookup, ok, Result-cases, ℕ, String, ◌≡◌, refl, sym, ap,
  ◌∙◌, subst, inl, inr, Bool, true, false, Option, List, [], ◌∷◌, ◌++◌, arith,
}
use threshold_node.Grants.Authority.Mutations.{
  changed, revoke_current, revoke_locked, revoke_grant, authorized_locked, authorized,
  suspend_locked, suspend_grants,
}
use threshold_node.Grants.Authority.Mutations.Denials.{
  then_ok, then_err, exclusive_cases, Reaching, reloads-snoc, Installed-Reaching, authorized-Denied,
}
use threshold_node.Grants.Authority.Commit.Atomic.{reloads, commit-durable}
use threshold_node.Grants.Authority.Commit.Outcomes.{Installed, ensure_ready-Sound}
use threshold_node.Grants.Authority.Commit.{Step, commit}
use threshold_node.Grants.Authority.{Authority, ensure_ready}
use threshold_node.Grants.Platform.{Platform, Disk, Ends}
use threshold_node.Grants.Store.{GrantStoreState}
use threshold_node.Grants.Manager.{GrantDecision}
use threshold_node.Core.Timestamp.{Moment}

-- Reading the grant after a commit changes nothing.
grant_at_after :
    (grant_id : String) (x : Authority × Disk) → (then_step (grant_at grant_id x) changed).1 ≡ x
grant_at_after grant_id x = elim (Option-cases (lookup grant_id x.0.grants)) [
  | inl e ↦ ground arith
  | inr (g, e) ↦ ground arith
]

module _ (env : Platform) (file : Housefile) where
  withdrawn :
      (grants : Dict Grant) (x : Authority × Disk) (grant_id : String) (runs : List Ends)
      (ends : Ends) (t : Attempt) (supplied : Option String) (now : Moment) (action : String)
      (g : Grant) (d : GrantDecision)
      → Reaching env file grants x
      → Denied grant_id grants
      → let y = reloads env file runs x in
        (authorized env file ends t y.0 y.1 grant_id supplied now action).0 ≡ ok (g, d)
        → d.allowed ≡ false
  unfolding authorized
  withdrawn grants x grant_id runs ends t supplied now action g d reaching denied h =
      let y = reloads env file runs x in
      let z = ensure_ready env file ends y.0 y.1 in
      let snoc = reloads-snoc env file runs ends x in
      let same_ready = ap (λ (w : Authority × Disk). w.0.ready) snoc in
      let body = authorized_locked env file t grant_id supplied now action in
      elim (exclusive_cases env file ends y.0 y.1 body) [
        | inl (same, ready) ↦
            authorized-Denied env file t grant_id supplied now action z.0 z.1 g d
              (λ k at. elim (reaching (runs ++ ends ∷ [])) [
                | inl e ↦ absurd (ground arith)
                | inr e ↦ denied k (
                    sym (
                      ap (λ w. lookup grant_id w)
                        (ap (λ (w : Authority × Disk). w.0.grants) snoc ∙ e))
                    ∙ at)
              ])
              (ap (λ r. r.0) (sym same) ∙ h)
        | inr e ↦ absurd (ground arith)
      ]

  -- The state that a reload made ready.
  ready-Installed :
      (ends : Ends) (a : Authority) (disk : Disk)
      → let x = ensure_ready env file ends a disk in
        x.0.ready ≡ true → (s : GrantStoreState) × Installed env file x.0 x.1 s
  ready-Installed ends a disk h = elim (ensure_ready-Sound env file ends a disk) [
    | inl e ↦ absurd (ground arith)
    | inr r ↦ r
  ]

  -- The calls below by their body on the reloaded authority.
  revoke_locked-Reaching :
      (t : Attempt) (grant_id : String) (now : Moment) (a : Authority) (disk : Disk)
      (s : GrantStoreState) (v : Grant × Bool)
      → Installed env file a disk s
      → (revoke_locked env file t grant_id now a disk).0 ≡ ok v
      → (grants : Dict Grant) × (Denied grant_id grants
          × Reaching env file grants (revoke_locked env file t grant_id now a disk).1)
  unfolding revoke_locked revoke_current
  revoke_locked-Reaching t grant_id now a disk s v installed h =
      elim (Option-cases (lookup grant_id a.grants)) [
        | inl e ↦ absurd (ground arith)
        | inr (current, e) ↦ elim (Bool-cases (is_ended current.status)) [
          | inl ended ↦ (
            a.grants,
            (
              λ g at. (let gone = ended_inactive current.status ended in ground arith),
              subst (Reaching env file a.grants) (ground arith)
                  (Installed-Reaching env file a disk s installed),
            ),
          )
          | inr live ↦
              let c = revoke_change t.transaction grant_id current.status a.grants in
              let m = commit env file t.ends a disk now c in
              let k : Unit {0} → Authority × Disk → Step (Grant × Bool) =
                λ v x. then_step (grant_at grant_id x) changed in
              elim (Result-cases m.0) [
                | inl (tt, r) ↦ (
                  c.target,
                  (
                    λ g at. set_status-withdraws grant_id revoked a.grants refl g at,
                    subst (Reaching env file c.target)
                        (let step = ap (λ (w : Step (Grant × Bool)). w.1) (then_ok m k tt r) in
                          let after = grant_at_after grant_id m.1 in ground arith)
                        (λ runs. commit-durable env file t.ends c a disk now runs r),
                  ),
                )
                | inr (x, r) ↦ let step = then_err m k x r in absurd (ground arith)
              ]
        ]
      ]

  suspend_locked-Reaching :
      (t : Attempt) (now : Moment) (a : Authority) (disk : Disk) (n : ℕ)
      → (suspend_locked env file t now a disk).0 ≡ ok n
      → Reaching env file
          (suspend_each (active_statuses a.grants) a.grants)
          (suspend_locked env file t now a disk).1
  unfolding suspend_locked
  suspend_locked-Reaching t now a disk n h =
      let c = suspend_change t.transaction a.grants in
      let m = commit env file t.ends a disk now c in
      let k : Unit {0} → Authority × Disk → Step ℕ =
        λ v x. (ok (length (active_statuses a.grants)), x) in
      elim (Result-cases m.0) [
        | inl (tt, r) ↦
            subst (Reaching env file c.target) (sym (ap (λ w. w.1) (then_ok m k tt r)))
              (λ runs. commit-durable env file t.ends c a disk now runs r)
        | inr (x, r) ↦ let step = then_err m k x r in absurd (ground arith)
      ]

  -- After a revocation that returned, whatever reloads follow and however they end, no credential
  -- authorizes the grant: what `authorized` yields for its id, if it yields, is a refusal.
  pub revoke_grant-authorized :
      (ends : Ends) (t : Attempt) (a : Authority) (disk : Disk) (grant_id : String) (now : Moment)
      (v : Grant × Bool) (runs : List Ends) (ends' : Ends) (t' : Attempt) (supplied : Option String)
      (later : Moment) (action : String) (g : Grant) (d : GrantDecision)
      → (revoke_grant env file ends t a disk grant_id now).0 ≡ ok v
      → let y = reloads env file runs (revoke_grant env file ends t a disk grant_id now).1 in
        (authorized env file ends' t' y.0 y.1 grant_id supplied later action).0 ≡ ok (g, d)
        → d.allowed ≡ false
  unfolding revoke_grant
  revoke_grant-authorized ends t a disk grant_id now v runs ends' t' supplied later action g d h
        yielded =
      let x = ensure_ready env file ends a disk in
      elim (exclusive_cases env file ends a disk (revoke_locked env file t grant_id now)) [
        | inl (same, ready) ↦
            let (s, installed) = ready-Installed ends a disk ready in
            let (grants, (denied, reaching)) =
              revoke_locked-Reaching t grant_id now x.0 x.1 s v installed
                (ap (λ r. r.0) (sym same) ∙ h) in
            withdrawn grants (revoke_grant env file ends t a disk grant_id now).1 grant_id runs
              ends' t' supplied later action g d
              (subst (λ w. Reaching env file grants w.1) (sym same) reaching) denied yielded
        | inr e ↦ absurd (ground arith)
      ]

  -- After an emergency stop that returned, whatever reloads follow and however they end, no
  -- credential authorizes any grant: all that `authorized` can yield is a refusal.
  pub suspend_grants-authorized :
      (ends : Ends) (t : Attempt) (a : Authority) (disk : Disk) (now : Moment) (n : ℕ)
      (runs : List Ends) (ends' : Ends) (t' : Attempt) (grant_id : String)
      (supplied : Option String) (later : Moment) (action : String) (g : Grant) (d : GrantDecision)
      → (suspend_grants env file ends t a disk now).0 ≡ ok n
      → let y = reloads env file runs (suspend_grants env file ends t a disk now).1 in
        (authorized env file ends' t' y.0 y.1 grant_id supplied later action).0 ≡ ok (g, d)
        → d.allowed ≡ false
  unfolding suspend_grants
  suspend_grants-authorized ends t a disk now n runs ends' t' grant_id supplied later action g d h
        yielded =
      let x = ensure_ready env file ends a disk in
      elim (exclusive_cases env file ends a disk (suspend_locked env file t now)) [
        | inl (same, ready) ↦
            let grants = suspend_each (active_statuses x.0.grants) x.0.grants in
            let reaching = suspend_locked-Reaching t now x.0 x.1 n (ap (λ r. r.0) (sym same) ∙ h) in
            withdrawn grants (suspend_grants env file ends t a disk now).1 grant_id runs ends' t'
              supplied later action g d
              (subst (λ w. Reaching env file grants w.1) (sym same) reaching)
              (suspend_change-Denied grant_id x.0.grants) yielded
        | inr e ↦ absurd (ground arith)
      ]
