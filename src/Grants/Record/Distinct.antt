-- ===== src/Grants/Record/Distinct.antt =====
-- Whatever grants grants/store.py accepts, they satisfy what grants/manager.py keeps.
use threshold_node.Base.{
  Bool-cases, text_in, Dict, lookup, values, ℕ, String, ◌≡◌, ◌≢◌, inl, inr, Bool, true, false,
  Option, some, List, [], ◌∷◌, arith, ◌==◌, eq_iff,
}
use threshold_node.Core.Types.{Grant}
use threshold_node.Core.Timestamp.{Moment}
use threshold_node.Grants.Record.{distinct_records, keys_match, valid_grants}
use threshold_node.Grants.Manager.Issue.{DistinctCredentials}

text_in_tail :
    (x y : String) (ys : List String)
    → text_in x (y ∷ ys) ≡ false
    → (x ≢ y) × (text_in x ys ≡ false)
text_in_tail x y ys h = ground (arith, eq_iff x y)

module _ (is_printable : ℕ → Bool) (fromisoformat : List ℕ → Option Moment) where
  keys_match_lem :
      (grants : Dict Grant) (k : String) (g : Grant)
      → keys_match is_printable fromisoformat grants ≡ true
      → lookup k grants ≡ some g
      → g.id ≡ k
  unfolding keys_match
  keys_match_lem [] k g h e = cc
  keys_match_lem ((j, x) ∷ rest) k g h e =
      ground (arith, keys_match_lem rest k g, eq_iff j k, eq_iff j x.id)

  distinct_records_new :
      (ids digests : List String) (grants : Dict Grant)
      → distinct_records is_printable fromisoformat ids digests (values grants) ≡ true
      → (k : String) (g : Grant) → lookup k grants ≡ some g
      → text_in g.credential_digest digests ≡ false
  unfolding distinct_records
  distinct_records_new ids digests [] h k g e = cc
  distinct_records_new ids digests ((j, x) ∷ rest) h k g e = elim (Bool-cases (j == k)) [
    | inl same ↦ ground arith
    | inr apart ↦
        (text_in_tail g.credential_digest x.credential_digest digests (
          distinct_records_new (x.id ∷ ids) (x.credential_digest ∷ digests) rest (ground arith) k g
            (ground arith))).1
  ]

  distinct_records_lem :
      (ids digests : List String) (grants : Dict Grant)
      → distinct_records is_printable fromisoformat ids digests (values grants) ≡ true
      → DistinctCredentials grants
  unfolding distinct_records
  distinct_records_lem ids digests [] h j k g x at_j at_k n e = cc
  distinct_records_lem ids digests ((i, y) ∷ rest) h j k g x at_j at_k n e =
      let later : distinct_records is_printable fromisoformat (y.id ∷ ids)
            (y.credential_digest ∷ digests) (values rest)
          ≡ true =
        ground arith in
      let new : (key : String) (r : Grant)
          → lookup key rest ≡ some r
          → r.credential_digest ≢ y.credential_digest =
        λ key r there.
          (text_in_tail r.credential_digest y.credential_digest digests (
            distinct_records_new (y.id ∷ ids) (y.credential_digest ∷ digests) rest later key r
              there)).0 in
      ground (
        arith,
        eq_iff i j,
        eq_iff i k,
        new j g,
        new k x,
        distinct_records_lem (y.id ∷ ids) (y.credential_digest ∷ digests) rest later j k g x,
      )

  -- In a dict of grants that the store accepts every grant stands under its own id, and two grants
  -- with one credential digest, which is not empty, are the same grant.
  pub valid_grants-DistinctCredentials :
      (grants : Dict Grant)
      → valid_grants is_printable fromisoformat grants ≡ true
      → ((k : String) (g : Grant) → lookup k grants ≡ some g → g.id ≡ k)
        × DistinctCredentials grants
  unfolding valid_grants
  valid_grants-DistinctCredentials grants h = (
    λ k g. keys_match_lem grants k g (ground arith),
    distinct_records_lem [] [] grants (ground arith),
  )
