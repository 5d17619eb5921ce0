-- ===== src/Grants/Authority/Mutations/Settled.antt =====
-- What `snapshot` of grants/authority.py returns: grants of which no expiry is due.
use threshold_node.Base.{
  Bool-cases, Option-cases, text_in, Dict, lookup, keys, ok, Result-cases, ℕ, String, ◌≡◌, refl,
  sym, ap, ◌∙◌, subst, ◌⊎◌, inl, inr, true, false, Option, none, some, List, [], ◌∷◌, arith, ◌==◌,
  eq_iff,
}
use threshold_node.Grants.Authority.Mutations.Denials.{then_ok, then_err}
use threshold_node.Grants.Authority.Mutations.{
  decide, commit_expiry, expire_next, expire_one, expire_due,
}
use threshold_node.Grants.Authority.Changes.Denied.{lookup-set_status, set_status-withdraws}
use threshold_node.Grants.Authority.Changes.{Attempt, set_status, expire_change, grant_at, is_due}
use threshold_node.Grants.Authority.Commit.Outcomes.{done, failed, declined, commit-Committed}
use threshold_node.Grants.Authority.Commit.{unavailable, refused, Step, commit}
use threshold_node.Grants.Authority.{Authority}
use threshold_node.Grants.Platform.{Platform, Disk}
use threshold_node.Grants.Manager.{decision}
use threshold_node.Core.Timestamp.{Moment}
use threshold_node.Core.Types.{expired, is_active, Housefile, Grant}

still_inactive :
    (fromisoformat : List ℕ → Option Moment) (g : Grant) (now : Moment)
    → is_active g.status ≡ false
    → is_due (decision fromisoformat 0 g (some now)) ≡ false
unfolding decision
still_inactive fromisoformat g now h = ground arith

pub lookup-keys :
    {V : Type 0} (j : String) (d : Dict V) → text_in j (keys d) ≡ false → lookup j d ≡ none
lookup-keys j [] h = refl
lookup-keys j ((k, v) ∷ rest) h = ground (arith, eq_iff k j, eq_iff j k, lookup-keys j rest)

grant_at_same : (k : String) (x : Authority × Disk) → (grant_at k x).1 ≡ x
grant_at_same k x = elim (Option-cases (lookup k x.0.grants)) [
  | inl e ↦ ground arith
  | inr (g, e) ↦ ground arith
]

module _ (env : Platform) (file : Housefile) (now : Moment) where
  -- No expiry of the id is due.
  abbrev pub Settled : String → Authority × Disk → Type 0
  Settled j x =
      (g : Grant)
      → lookup j x.0.grants ≡ some g
      → is_due (decision env.fromisoformat 0 g (some now)) ≡ false

  expired-Settled :
      (k j : String) (x y : Authority × Disk)
      → y.0.grants ≡ set_status k expired x.0.grants
      → Settled j x
      → Settled j y
  expired-Settled k j x y same settled g at =
      let there = lookup-set_status k j expired x.0.grants in
      let here : lookup j (set_status k expired x.0.grants) ≡ some g =
        ap (λ d. lookup j d) (sym same) ∙ at in
      elim (Option-cases (lookup j x.0.grants)) [
        | inl e ↦ absurd (ground arith)
        | inr (f, e) ↦ elim (Bool-cases (k == j)) [
          | inl same_id ↦ still_inactive env.fromisoformat g now (ground arith)
          | inr apart ↦ settled g (ground arith)
        ]
      ]

  expired_now :
      (k : String) (x y : Authority × Disk)
      → y.0.grants ≡ set_status k expired x.0.grants
      → Settled k y
  expired_now k x y same g at =
      still_inactive env.fromisoformat g now
        (set_status-withdraws k expired x.0.grants refl g (ap (λ d. lookup k d) (sym same) ∙ at))

  commit_expiry_grants :
      (t : Attempt) (x : Authority × Disk) (k detail : String) (grant g : Grant)
      → (commit_expiry env file t x.0 x.1 k now detail grant).0 ≡ ok g
      → (commit_expiry env file t x.0 x.1 k now detail grant).1.0.grants
        ≡ set_status k expired x.0.grants
  unfolding commit_expiry
  commit_expiry_grants t x k detail grant g h =
      let c = expire_change t.transaction k detail grant.status x.0.grants in
      let m = commit env file t.ends x.0 x.1 now c in
      let next : Unit {0} → Authority × Disk → Step Grant = λ v y. grant_at k y in
      elim (commit-Committed env file t.ends c x.0 x.1 now) [
        | done p same r stored installed ↦
            (let step = ap (λ (w : Step Grant). w.1.0.grants) (then_ok m next tt r) in
              let kept = ap (λ (w : Authority × Disk). w.0.grants) (grant_at_same k m.1) in
              step ∙ kept ∙ installed.grants ∙ same)
        | failed r off ↦ (let step = then_err m next unavailable r in absurd (ground arith))
        | declined f r ↦
            (let step = then_err m next (refused f) (ap (λ (w : Step (Unit {0})). w.0) r) in
              absurd (ground arith))
      ]

  -- One id is settled, and every id that was settled still is.
  expire_next_settles :
      (t : Attempt) (k : String) (x : Authority × Disk) (grant : Grant)
      → lookup k x.0.grants ≡ some grant
      → (expire_next env file t x.0 x.1 k now grant).0 ≡ ok tt
      → Settled k (expire_next env file t x.0 x.1 k now grant).1
        × ((j : String) → Settled j x → Settled j (expire_next env file t x.0 x.1 k now grant).1)
  unfolding expire_next decide
  expire_next_settles t k x grant at h =
      let detail : String = "owner projection observed: grant_expired" in
      let y = (expire_next env file t x.0 x.1 k now grant).1 in
      elim (Bool-cases (is_due (decision env.fromisoformat 0 grant (some now)))) [
        | inr calm ↦
            let same : y ≡ x = ground arith in
            (
              subst (Settled k) (sym same) (λ g there. ground arith),
              λ j settled. subst (Settled j) (sym same) settled,
            )
        | inl due ↦
            let m = commit_expiry env file t x.0 x.1 k now detail grant in
            let next : Grant → Authority × Disk → Step (Unit {0}) = λ g z. (ok tt, z) in
            elim (Result-cases m.0) [
              | inr (e, r) ↦ let step = then_err m next e r in absurd (ground arith)
              | inl (g, r) ↦
                  let step = then_ok m next g r in
                  let left : y ≡ m.1 = ground arith in
                  let moved =
                    ap (λ (w : Authority × Disk). w.0.grants) left
                    ∙ commit_expiry_grants t x k detail grant g r in
                  (expired_now k x y moved, λ j settled. expired-Settled k j x y moved settled)
            ]
      ]

  expire_one_settles :
      (t : Attempt) (k : String) (x : Authority × Disk)
      → (expire_one env file t k now x).0 ≡ ok tt
      → Settled k (expire_one env file t k now x).1
        × ((j : String) → Settled j x → Settled j (expire_one env file t k now x).1)
  unfolding expire_one
  expire_one_settles t k x h = elim (Option-cases (lookup k x.0.grants)) [
    | inl e ↦ absurd (ground arith)
    | inr (grant, e) ↦
        let y = (expire_one env file t k now x).1 in
        let z = (expire_next env file t x.0 x.1 k now grant).1 in
        let same : z ≡ y = ground arith in
        let (this, others) = expire_next_settles t k x grant e (ground arith) in
        (subst (Settled k) same this, λ j settled. subst (Settled j) same (others j settled))
  ]

  pub expire_due_settles :
      (attempt : String → Attempt) (ids : List String) (x : Authority × Disk) (j : String)
      → (expire_due env file attempt ids now x).0 ≡ ok tt
      → (text_in j ids ≡ true) ⊎ Settled j x
      → Settled j (expire_due env file attempt ids now x).1
  unfolding expire_due
  expire_due_settles attempt [] x j h (inl there) = absurd (ground arith)
  expire_due_settles attempt [] x j h (inr settled) = settled
  expire_due_settles attempt (k ∷ rest) x j h start =
      let m = expire_one env file (attempt k) k now x in
      let next : Unit {0} → Authority × Disk → Step (Unit {0}) =
        λ v y. expire_due env file attempt rest now y in
      elim (Result-cases m.0) [
        | inr (e, r) ↦ let step = then_err m next e r in absurd (ground arith)
        | inl (tt, r) ↦
            let step = then_ok m next tt r in
            let (this, others) = expire_one_settles (attempt k) k x r in
            subst (Settled j) (ap (λ (w : Step (Unit {0})). w.1) (sym step)) (
              expire_due_settles attempt rest m.1 j
                (ap (λ (w : Step (Unit {0})). w.0) (sym step) ∙ h)
                (elim start [
                  | inr settled ↦ inr (others j settled)
                  | inl there ↦ elim (Bool-cases (j == k)) [
                    | inl same ↦ inr (subst (λ i. Settled i m.1) (ground (arith, eq_iff j k)) this)
                    | inr apart ↦ inl (ground arith)
                  ]
                ]))
      ]
