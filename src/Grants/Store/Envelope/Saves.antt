-- ===== src/Grants/Store/Envelope/Saves.antt =====
-- What sequences of saves of grants/store.py leave on the disk.
use threshold_node.Grants.Store.Envelope.{
  SaveEnd, saved, rolled_back, left_live, valid_state, save_state,
}
use threshold_node.Base.{
  lookup, ℕ, String, ◌≡◌, Bool, true, Option, none, some, List, [], ◌∷◌, arith,
}
use threshold_node.Core.Types.{Grant}
use threshold_node.Core.Timestamp.{Moment}
use threshold_node.Core.LedgerEntry.{Entry}
use threshold_node.Grants.Record.Distinct.{valid_grants-DistinctCredentials}
use threshold_node.Grants.Manager.Issue.{DistinctCredentials}
use threshold_node.Grants.Store.{GrantStoreState}

module _ (is_printable : ℕ → Bool) (fromisoformat : List ℕ → Option Moment)
    (snapshot_sha256 : List Grant → String) (event_sha256 : Entry → String) where
  -- The disk after saves in their order, each with its end.
  unfoldable pub disk_after :
      List (SaveEnd × GrantStoreState) → Option GrantStoreState → Option GrantStoreState
  disk_after [] disk = disk
  disk_after ((end, s) ∷ rest) disk =
      disk_after rest
        (save_state is_printable fromisoformat snapshot_sha256 event_sha256 end s disk).1

  abbrev pub AllValid : Option GrantStoreState → Type 0
  AllValid disk =
      (s : GrantStoreState)
      → disk ≡ some s
      → valid_state is_printable fromisoformat snapshot_sha256 event_sha256 s ≡ true

  save_state-AllValid :
      (end : SaveEnd) (s : GrantStoreState) (disk : Option GrantStoreState)
      → AllValid disk
      → AllValid (save_state is_printable fromisoformat snapshot_sha256 event_sha256 end s disk).1
  unfolding save_state
  save_state-AllValid saved s disk good t e = ground (arith, good t)
  save_state-AllValid rolled_back s disk good t e = ground (arith, good t)
  save_state-AllValid left_live s disk good t e = ground (arith, good t)

  disk_after-AllValid :
      (saves : List (SaveEnd × GrantStoreState)) (disk : Option GrantStoreState)
      → AllValid disk
      → AllValid (disk_after saves disk)
  unfolding disk_after
  disk_after-AllValid [] disk good = good
  disk_after-AllValid ((end, s) ∷ rest) disk good =
      disk_after-AllValid rest
        (save_state is_printable fromisoformat snapshot_sha256 event_sha256 end s disk).1
        (save_state-AllValid end s disk good)

  -- Whatever saves are tried on a disk without a state, and however each ends, a state that is then
  -- on the disk is valid, its grants stand under their own ids, and two of them with one credential
  -- digest, which is not empty, are the same grant.
  pub disk_after-DistinctCredentials :
      (saves : List (SaveEnd × GrantStoreState)) (s : GrantStoreState)
      → disk_after saves none ≡ some s
      → (valid_state is_printable fromisoformat snapshot_sha256 event_sha256 s ≡ true)
        × ((k : String) (g : Grant) → lookup k s.grants ≡ some g → g.id ≡ k)
        × DistinctCredentials s.grants
  unfolding valid_state
  disk_after-DistinctCredentials saves s e =
      let valid : valid_state is_printable fromisoformat snapshot_sha256 event_sha256 s ≡ true =
        disk_after-AllValid saves none (λ t h. cc h) s e in
      let (ids, apart) =
        valid_grants-DistinctCredentials is_printable fromisoformat s.grants (ground arith) in
      (valid, ids, apart)
