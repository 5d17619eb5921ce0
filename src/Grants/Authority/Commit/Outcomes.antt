-- ===== src/Grants/Authority/Commit/Outcomes.antt =====
-- How a reload and a commit of grants/authority.py end: in an installed state or unavailable.
use threshold_node.Grants.Authority.Settling.{save_reported}
use threshold_node.Grants.Authority.Reload.{reload-stored}
use threshold_node.Grants.Authority.Commit.Between.{Based, save, install_disk}
use threshold_node.Grants.Authority.Commit.{
  unavailable, refused, Change, Step, event_payload, prepared_state, pending_of, report, finish,
  after_append, after_first_save, commit_prepared, commit_event, commit_at, commit_from, commit,
}
use threshold_node.Grants.Authority.{
  Authority, bindings_valid, final_state, verify_clean_state, install, reload_from, ensure_ready,
}
use threshold_node.Grants.Store.{PendingGrantTransaction, GrantStoreState}
use threshold_node.Grants.Record.{valid_grants}
use threshold_node.Grants.Manager.{Refusal, normalize_time}
use threshold_node.Core.Ledger.Prepared.{PreparedLedgerEvent, prepare_entry, append_prepared}
use threshold_node.Core.Ledger.{Outcome}
use threshold_node.Core.LedgerEntry.{Entry, EntryError, normalize}
use threshold_node.Core.Timestamp.{Moment}
use threshold_node.Core.Types.{Housefile}
use threshold_node.Base.{
  Bool-cases, Option-cases, is_some, Result, ok, err, ℕ, ◌+◌, ◌≡◌, refl, sym, ap, ◌∙◌, subst, ◌⊎◌,
  inl, inr, Bool, true, false, not, ◌||◌, Option, none, some, List, arith,
}
use threshold_node.Grants.Platform.{Platform, Disk, Ends}

module _ (env : Platform) (file : Housefile) where
  -- What a ready authority has installed: the state without a pending transaction that the disk
  -- holds.
  pub record Installed (a : Authority) (disk : Disk) (s : GrantStoreState) : Type 0 where
    pub grants : a.grants ≡ s.grants
    pub state : a.state ≡ some s
    pub clean : s.pending ≡ none
    pub based : Based s disk.store

  -- An authority has installed a state, or is unavailable.
  abbrev pub Sound : Authority × Disk → Type 0
  Sound x = (x.0.ready ≡ false) ⊎ ((s : GrantStoreState) × Installed x.0 x.1 s)

  clean_state :
      (safe : Bool) (ledger : Option (List ℕ)) (s : GrantStoreState)
      → verify_clean_state env file safe ledger s ≡ true
      → s.pending ≡ none
  unfolding verify_clean_state
  clean_state safe ledger s h = elim (Option-cases s.pending) [
    | inl e ↦ e
    | inr (p, e) ↦ absurd (ground arith)
  ]

  install-Sound :
      (ends : Ends) (a : Authority) (result : Option GrantStoreState × Disk)
      → ((t : GrantStoreState) → result.0 ≡ some t → Based t result.1.store)
      → Sound (install env file ends a result)
  unfolding install
  install-Sound ends a (none, disk) stored = inl refl
  install-Sound ends a (some s, disk) stored =
      elim (Bool-cases (verify_clean_state env file ends.safe disk.ledger s)) [
        | inl v ↦
            let clean : s.pending ≡ none = clean_state ends.safe disk.ledger s v in
            inr (
              s,
              record {
                grants = ground arith;
                state = ground arith;
                clean = clean;
                based = subst (Based s) (ground arith) (stored s refl);
              },
            )
        | inr v ↦ inl (ground arith)
      ]

  pub ensure_ready-Sound :
      (ends : Ends) (a : Authority) (disk : Disk) → Sound (ensure_ready env file ends a disk)
  unfolding ensure_ready
  ensure_ready-Sound ends a disk =
      let result = reload_from env file ends disk disk.store in
      install-Sound ends a result
        (λ t e. reload-stored env file ends disk (result.1) t disk.store refl (ground arith))

  -- How a commit ends: the target is installed and on the disk, or the authority is unavailable, or
  -- the clock was refused and nothing has changed.
  pub data Committed (c : Change) (a : Authority) (disk : Disk) (x : Step (Unit {0})) : Type 0 where
    done :
        (p : PendingGrantTransaction)
        → p.target_grants ≡ c.target
        → x.0 ≡ ok tt
        → x.1.1.store ≡ some (final_state p)
        → Installed x.1.0 x.1.1 (final_state p)
        → Committed c a disk x
    failed : x.0 ≡ err unavailable → x.1.0.ready ≡ false → Committed c a disk x
    declined : (r : Refusal) → x ≡ (err (refused r), (a, disk)) → Committed c a disk x

  module _ (ends : Ends) (c : Change) (a : Authority) (disk : Disk) where
    report-Committed :
        (p : PendingGrantTransaction) (x : Authority × Disk)
        → p.target_grants ≡ c.target
        → x.1.store ≡ some (final_state p)
        → (x.0.ready ≡ false) ⊎ ((x.0.ready ≡ true) × Installed x.0 x.1 (final_state p))
        → Committed c a disk (report env file x)
    unfolding report
    report-Committed p x same stored (inl e) = failed (ground arith) e
    report-Committed p x same stored (inr (e, installed)) =
        done p same (ground arith) stored installed

    finish-Committed :
        (b : Authority) (p : PendingGrantTransaction) (ledger : Option (List ℕ))
        (result : Bool × Option GrantStoreState)
        → p.target_grants ≡ c.target
        → (result.0 ≡ true → result.1 ≡ some (final_state p))
        → Committed c a disk (finish env file ends b p ledger result)
    unfolding finish install
    finish-Committed b p ledger (false, store) same stored = failed refl refl
    finish-Committed b p ledger (true, store) same stored =
        let s = final_state p in
        let d : Disk = record { store = store; ledger = ledger } in
        report-Committed p (install env file ends b (some s, d)) same
          (ap (λ e. e.store) (install_disk env file ends b (some s, d)) ∙ stored refl)
          (elim (Bool-cases (verify_clean_state env file ends.safe ledger s)) [
            | inl v ↦ inr (
              ground arith,
              record {
                grants = ground arith;
                state = ground arith;
                clean = refl;
                based = inl (ground arith);
              },
            )
            | inr v ↦ inl (ground arith)
          ])

    append-Committed :
        (b : Authority) (p : PendingGrantTransaction) (store : Option GrantStoreState)
        (result : Outcome (Unit {0}))
        → p.target_grants ≡ c.target
        → Committed c a disk (after_append env file ends b p store result)
    unfolding after_append
    append-Committed b p store (err x, ledger) same = failed refl refl
    append-Committed b p store (ok x, ledger) same =
        finish-Committed b p ledger (save env file ends.final_save (final_state p) store) same
          (save_reported env file ends.final_save (final_state p) store)

    first-Committed :
        (s : GrantStoreState) (p : PendingGrantTransaction) (prepared : PreparedLedgerEvent)
        (ledger : Option (List ℕ)) (result : Bool × Option GrantStoreState)
        → p.target_grants ≡ c.target
        → Committed c a disk (after_first_save env file ends a s p prepared ledger result)
    unfolding after_first_save
    first-Committed s p prepared ledger (false, store) same = failed refl refl
    first-Committed s p prepared ledger (true, store) same =
        append-Committed (record a { ready = false; state = some (prepared_state s p) }) p store
          (append_prepared env.sha256 env.dumps env.loads env.strip env.fromisoformat ends.safe
            ends.append_end prepared ledger)
          same

    prepared-Committed :
        (s : GrantStoreState) (store : Option GrantStoreState)
        (result : Outcome PreparedLedgerEvent)
        → Committed c a disk (commit_prepared env file ends a s c store result)
    unfolding commit_prepared
    prepared-Committed s store (err x, ledger) = failed refl refl
    prepared-Committed s store (ok prepared, ledger) =
        let p = pending_of env s c prepared in
        elim (Bool-cases (valid_grants env.is_printable env.fromisoformat c.target)) [
          | inl v ↦ subst (Committed c a disk) (ground arith) (
              first-Committed s p prepared ledger
                (save env file ends.first_save (prepared_state s p) store) refl)
          | inr v ↦ failed (ground arith) (ground arith)
        ]

    event-Committed :
        (s : GrantStoreState) (entry : Result EntryError Entry)
        → Committed c a disk (commit_event env file ends a disk s c entry)
    unfolding commit_event
    event-Committed s (err x) = failed refl refl
    event-Committed s (ok entry) =
        prepared-Committed s disk.store
          (prepare_entry env.sha256 env.dumps env.loads ends.safe entry disk.ledger)

    at-Committed :
        (s : GrantStoreState) (now : Result Refusal ℕ)
        → Committed c a disk (commit_at env file ends a disk s c now)
    unfolding commit_at
    at-Committed s (err x) = declined x refl
    at-Committed s (ok now) = event-Committed s (
        normalize env.strip env.fromisoformat "" false
          (event_payload (env.utc_text now) (s.revision + 1) c))

    from-Committed :
        (now : Moment) (state : Option GrantStoreState)
        → Committed c a disk (commit_from env file ends a disk now c state)
    unfolding commit_from
    from-Committed now none = failed refl refl
    from-Committed now (some s) =
        elim (Bool-cases (is_some s.pending || not (bindings_valid file c.target))) [
          | inl v ↦ failed (ground arith) (ground arith)
          | inr v ↦ subst (Committed c a disk) (ground arith) (at-Committed s (normalize_time now))
        ]

    pub commit-Committed : (now : Moment) → Committed c a disk (commit env file ends a disk now c)
    unfolding commit
    commit-Committed now = from-Committed now a.state

    pub commit-Sound :
        (now : Moment) → Sound (a, disk) → Sound (commit env file ends a disk now c).1
    commit-Sound now sound = elim (commit-Committed now) [
      | done p same e stored installed ↦ inr (final_state p, installed)
      | failed e r ↦ inl r
      | declined r e ↦ subst Sound (sym (ap (λ y. y.1) e)) sound
    ]
