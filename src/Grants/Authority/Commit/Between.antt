-- ===== src/Grants/Authority/Commit/Between.antt =====
-- What a commit of grants/authority.py, and the reloads after it, can leave in the store: the state
-- before, the pending state or the settled one.
use threshold_node.Grants.Authority.Commit.{
  Change, event_payload, prepared_state, pending_of, report, finish, after_append, after_first_save,
  commit_prepared, commit_event, commit_at, commit_from, commit,
}
use threshold_node.Grants.Authority.{Authority, bindings_valid, final_state, install}
use threshold_node.Grants.Platform.{Platform, event_sha256, Disk, Ends}
use threshold_node.Grants.Store.Envelope.{
  SaveEnd, saved, rolled_back, left_live, empty_state, save_state,
}
use threshold_node.Grants.Store.{TransactionKind, PendingGrantTransaction, GrantStoreState}
use threshold_node.Grants.Record.{valid_grants}
use threshold_node.Grants.Manager.{Refusal, normalize_time}
use threshold_node.Core.Ledger.Prepared.{PreparedLedgerEvent, prepare_entry, append_prepared}
use threshold_node.Core.Ledger.{Outcome}
use threshold_node.Core.LedgerEntry.{Entry, EntryError, normalize}
use threshold_node.Core.Timestamp.{Moment}
use threshold_node.Core.Types.{Housefile, Grant}
use threshold_node.Base.{
  Bool-cases, is_some, Dict, Result, ok, err, ℕ, ◌+◌, ◌≡◌, refl, sym, subst, ◌⊎◌, inl, inr, Bool,
  true, false, not, ◌||◌, Option, none, some, List, arith,
}

-- Where the store stands on the way from the state `s` to the target of a transaction.
pub data Stage (s : GrantStoreState) (kind : TransactionKind) (target : Dict Grant)
    (store : Option GrantStoreState) : Type 0 where
  before : store ≡ some s → Stage s kind target store
  no_file : store ≡ none → s ≡ empty_state → Stage s kind target store
  pending_stage :
      (p : PendingGrantTransaction)
      → p.kind ≡ kind
      → p.target_grants ≡ target
      → store ≡ some (prepared_state s p)
      → Stage s kind target store
  committed :
      (p : PendingGrantTransaction)
      → p.target_grants ≡ target
      → store ≡ some (final_state p)
      → Stage s kind target store

-- The store holds `s`, or there is none and `s` is the empty state.
abbrev pub Based : GrantStoreState → Option GrantStoreState → Type 0
Based s store = (store ≡ some s) ⊎ ((store ≡ none) × (s ≡ empty_state))

pub Based-Stage :
    (s : GrantStoreState) (kind : TransactionKind) (target : Dict Grant)
    (store : Option GrantStoreState)
    → Based s store
    → Stage s kind target store
Based-Stage s kind target store (inl e) = before e
Based-Stage s kind target store (inr (e, f)) = no_file e f

module _ (env : Platform) (file : Housefile) where
  abbrev pub save :
      SaveEnd → GrantStoreState → Option GrantStoreState → Bool × Option GrantStoreState
  save = save_state env.is_printable env.fromisoformat env.snapshot_sha256 (event_sha256 env)

  -- However a save ends, the store holds the new state or is as it was.
  pub save_store :
      (end : SaveEnd) (s : GrantStoreState) (store : Option GrantStoreState)
      → ((save end s store).1 ≡ some s) ⊎ ((save end s store).1 ≡ store)
  unfolding save_state
  save_store saved s store = elim (Bool-cases ((save saved s store).0)) [
    | inl h ↦ inl (ground arith)
    | inr h ↦ inr (ground arith)
  ]
  save_store rolled_back s store = inr (ground arith)
  save_store left_live s store = elim (Bool-cases ((save saved s store).0)) [
    | inl h ↦ inl (ground arith)
    | inr h ↦ inr (ground arith)
  ]

  pub install_disk :
      (ends : Ends) (a : Authority) (result : Option GrantStoreState × Disk)
      → (install env file ends a result).1 ≡ result.1
  unfolding install
  install_disk ends a (none, disk) = refl
  install_disk ends a (some s, disk) = ground arith

  module _ (ends : Ends) (s : GrantStoreState) (c : Change) where
    abbrev Within : Option GrantStoreState → Type 0
    Within store = Stage s c.kind c.target store

    saved_stage :
        (end : SaveEnd) (t : GrantStoreState) (store : Option GrantStoreState)
        → Within (some t)
        → Within store
        → Within ((save end t store).1)
    saved_stage end t store new old = elim (save_store end t store) [
      | inl e ↦ subst Within (sym e) new
      | inr e ↦ subst Within (sym e) old
    ]

    finish-Stage :
        (a : Authority) (p : PendingGrantTransaction) (ledger : Option (List ℕ))
        (result : Bool × Option GrantStoreState)
        → Within result.1
        → Within ((finish env file ends a p ledger result).1.1.store)
    unfolding finish report
    finish-Stage a p ledger (false, store) w = w
    finish-Stage a p ledger (true, store) w =
        subst (λ d. Within (d.store))
          (sym
            (install_disk ends a (some (final_state p), record { store = store; ledger = ledger })))
          w

    append-Stage :
        (a : Authority) (p : PendingGrantTransaction) (store : Option GrantStoreState)
        (result : Outcome (Unit {0}))
        → p.target_grants ≡ c.target
        → Within store
        → Within ((after_append env file ends a p store result).1.1.store)
    unfolding after_append
    append-Stage a p store (err x, ledger) same w = w
    append-Stage a p store (ok x, ledger) same w =
        finish-Stage a p ledger (save ends.final_save (final_state p) store)
          (saved_stage ends.final_save (final_state p) store (committed p same refl) w)

    first-Stage :
        (a : Authority) (p : PendingGrantTransaction) (prepared : PreparedLedgerEvent)
        (ledger : Option (List ℕ)) (result : Bool × Option GrantStoreState)
        → p.target_grants ≡ c.target
        → Within result.1
        → Within ((after_first_save env file ends a s p prepared ledger result).1.1.store)
    unfolding after_first_save
    first-Stage a p prepared ledger (false, store) same w = w
    first-Stage a p prepared ledger (true, store) same w =
        append-Stage (record a { ready = false; state = some (prepared_state s p) }) p store
          (append_prepared env.sha256 env.dumps env.loads env.strip env.fromisoformat ends.safe
            ends.append_end prepared ledger)
          same w

    prepared-Stage :
        (a : Authority) (store : Option GrantStoreState) (result : Outcome PreparedLedgerEvent)
        → Within store
        → Within ((commit_prepared env file ends a s c store result).1.1.store)
    unfolding commit_prepared
    prepared-Stage a store (err x, ledger) w = w
    prepared-Stage a store (ok prepared, ledger) w =
        let p = pending_of env s c prepared in
        elim (Bool-cases (valid_grants env.is_printable env.fromisoformat c.target)) [
          | inl v ↦ subst Within (ground arith) (
              first-Stage a p prepared ledger (save ends.first_save (prepared_state s p) store) refl
                (saved_stage ends.first_save (prepared_state s p) store
                  (pending_stage p refl refl refl) w))
          | inr v ↦ subst Within (ground arith) w
        ]

    event-Stage :
        (a : Authority) (disk : Disk) (entry : Result EntryError Entry)
        → Within disk.store
        → Within ((commit_event env file ends a disk s c entry).1.1.store)
    unfolding commit_event
    event-Stage a disk (err x) w = w
    event-Stage a disk (ok entry) w =
        prepared-Stage a disk.store
          (prepare_entry env.sha256 env.dumps env.loads ends.safe entry disk.ledger) w

    at-Stage :
        (a : Authority) (disk : Disk) (now : Result Refusal ℕ)
        → Within disk.store
        → Within ((commit_at env file ends a disk s c now).1.1.store)
    unfolding commit_at
    at-Stage a disk (err x) w = w
    at-Stage a disk (ok now) w =
        event-Stage a disk
          (normalize env.strip env.fromisoformat "" false
            (event_payload (env.utc_text now) (s.revision + 1) c))
          w

    -- A commit leaves the store on the way from the authority's state to the target.
    pub commit-Stage :
        (a : Authority) (disk : Disk) (now : Moment)
        → a.state ≡ some s
        → Based s disk.store
        → Stage s c.kind c.target ((commit env file ends a disk now c).1.1.store)
    unfolding commit commit_from
    commit-Stage a disk now at based =
        let w = Based-Stage s c.kind c.target disk.store based in
        subst (λ o. Within ((commit_from env file ends a disk now c o).1.1.store)) (sym at)
          (elim (Bool-cases (is_some s.pending || not (bindings_valid file c.target))) [
            | inl v ↦ subst Within (ground arith) w
            | inr v ↦ subst Within (ground arith) (at-Stage a disk (normalize_time now) w)
          ])
