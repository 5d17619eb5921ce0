-- ===== src/Grants/Authority/Mutations/Snapshot.antt =====
-- What `snapshot` of grants/authority.py returns.
use threshold_node.Base.{
  Bool-cases, Option-cases, text_in, Dict, lookup, keys, ok, Result-cases, ℕ, String, ◌≡◌, refl,
  sym, ap, ◌∙◌, ◌⊎◌, inl, inr, true, false, none, some, arith,
}
use threshold_node.Core.Types.{expired, Housefile, Grant}
use threshold_node.Grants.Store.Semantics.{status_eq_refl}
use threshold_node.Grants.Authority.Mutations.Settled.{lookup-keys, Settled, expire_due_settles}
use threshold_node.Grants.Authority.Mutations.Denials.{then_ok, then_err, exclusive_cases}
use threshold_node.Grants.Authority.Mutations.{expire_due, snapshot_locked, grant_snapshot}
use threshold_node.Grants.Authority.Changes.Sorted.{text_in-sorted_ids}
use threshold_node.Grants.Authority.Changes.{Attempt, is_due, sorted_ids}
use threshold_node.Grants.Authority.Commit.{Step}
use threshold_node.Grants.Authority.{Authority, ensure_ready}
use threshold_node.Grants.Platform.{Platform, Disk, Ends}
use threshold_node.Grants.Manager.Decisions.{next_expired}
use threshold_node.Grants.Manager.{normalize_time, decision}
use threshold_node.Core.Timestamp.{Moment, not_a_datetime, naive, aware}

module _ (env : Platform) (file : Housefile) where
  no_next_status :
      (now : Moment) (g : Grant)
      → is_due (decision env.fromisoformat 0 g (some now)) ≡ false
      → (decision env.fromisoformat 0 g (some now)).next_status ≡ none
  no_next_status now g h =
      elim (Option-cases (decision env.fromisoformat 0 g (some now)).next_status) [
        | inl e ↦ e
        | inr (s, e) ↦
            let same = next_expired env.fromisoformat 0 g (some now) s e in
            let due = status_eq_refl expired in absurd (ground arith)
      ]

  snapshot_settles :
      (attempt : String → Attempt) (now : Moment) (a : Authority) (disk : Disk)
      (grants : Dict Grant)
      → (snapshot_locked env file attempt now a disk).0 ≡ ok grants
      → (k : String) (g : Grant) → lookup k grants ≡ some g
      → is_due (decision env.fromisoformat 0 g (some now)) ≡ false
  unfolding snapshot_locked
  snapshot_settles attempt now a disk grants h k g at =
      let ids = sorted_ids (keys a.grants) in
      let m = expire_due env file attempt ids now (a, disk) in
      let next : Unit {0} → Authority × Disk → Step (Dict Grant) = λ v x. (ok x.0.grants, x) in
      elim (Result-cases m.0) [
        | inr (e, r) ↦ let step = then_err m next e r in absurd (ground arith)
        | inl (tt, r) ↦
            let step = then_ok m next tt r in
            let value : ok m.1.0.grants ≡ ok grants =
              ap (λ (w : Step (Dict Grant)). w.0) (sym step) ∙ h in
            let start : (text_in k ids ≡ true) ⊎ Settled env file now k (a, disk) =
              elim (Bool-cases (text_in k (keys a.grants))) [
                | inl there ↦ inl (text_in-sorted_ids k (keys a.grants) ∙ there)
                | inr absent ↦ inr (λ f has.
                    let none_there = lookup-keys k a.grants absent in absurd (ground arith))
              ] in
            expire_due_settles env file now attempt ids (a, disk) k r start g (ground arith)
      ]

  -- A snapshot is taken only with an aware clock, and no grant in it is due: at that clock the
  -- manager's decision on it asks for no change of its status.
  pub grant_snapshot-settled :
      (ends : Ends) (attempt : String → Attempt) (a : Authority) (disk : Disk) (now : Moment)
      (grants : Dict Grant)
      → (grant_snapshot env file ends attempt a disk now).0 ≡ ok grants
      → (t : ℕ) × ((now ≡ aware t)
          × ((k : String) (g : Grant)
              → lookup k grants ≡ some g
              → (decision env.fromisoformat 0 g (some (aware t))).next_status ≡ none))
  unfolding grant_snapshot normalize_time
  grant_snapshot-settled ends attempt a disk not_a_datetime grants h = absurd (ground arith)
  grant_snapshot-settled ends attempt a disk naive grants h = absurd (ground arith)
  grant_snapshot-settled ends attempt a disk (aware t) grants h =
      let x = ensure_ready env file ends a disk in
      elim (exclusive_cases env file ends a disk (snapshot_locked env file attempt (aware t))) [
        | inr e ↦ absurd (ground arith)
        | inl (same, ready) ↦ (
          t,
          (
            refl,
            λ k g at. no_next_status (aware t) g (
                snapshot_settles attempt (aware t) x.0 x.1 grants
                  (ap (λ (r : Step (Dict Grant)). r.0) (sym same) ∙ h) k g at),
          ),
        )
      ]

  snapshot_current :
      (attempt : String → Attempt) (now : Moment) (a : Authority) (disk : Disk)
      (grants : Dict Grant)
      → (snapshot_locked env file attempt now a disk).0 ≡ ok grants
      → (snapshot_locked env file attempt now a disk).1.0.grants ≡ grants
  unfolding snapshot_locked
  snapshot_current attempt now a disk grants h =
      let m = expire_due env file attempt (sorted_ids (keys a.grants)) now (a, disk) in
      let next : Unit {0} → Authority × Disk → Step (Dict Grant) = λ v x. (ok x.0.grants, x) in
      elim (Result-cases m.0) [
        | inr (e, r) ↦ let step = then_err m next e r in absurd (ground arith)
        | inl (tt, r) ↦ let step = then_ok m next tt r in ground arith
      ]

  -- A snapshot is of the grants that the authority is left with.
  pub grant_snapshot-current :
      (ends : Ends) (attempt : String → Attempt) (a : Authority) (disk : Disk) (now : Moment)
      (grants : Dict Grant)
      → (grant_snapshot env file ends attempt a disk now).0 ≡ ok grants
      → (grant_snapshot env file ends attempt a disk now).1.0.grants ≡ grants
  unfolding grant_snapshot normalize_time
  grant_snapshot-current ends attempt a disk not_a_datetime grants h = absurd (ground arith)
  grant_snapshot-current ends attempt a disk naive grants h = absurd (ground arith)
  grant_snapshot-current ends attempt a disk (aware t) grants h =
      let x = ensure_ready env file ends a disk in
      elim (exclusive_cases env file ends a disk (snapshot_locked env file attempt (aware t))) [
        | inr e ↦ absurd (ground arith)
        | inl (same, ready) ↦
            let current =
              snapshot_current attempt (aware t) x.0 x.1 grants
                (ap (λ (r : Step (Dict Grant)). r.0) (sym same) ∙ h) in
            ap (λ (r : Step (Dict Grant)). r.1.0.grants) same ∙ current
      ]
