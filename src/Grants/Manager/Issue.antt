-- ===== src/Grants/Manager/Issue.antt =====
-- What a grant that `issue` of grants/manager.py accepts is, and what the dict keeps.
use threshold_node.Base.{
  ltb, if◌then◌else◌, Bool-cases, Dict, lookup, contains, insert, values, lookup-insert, ok,
  Result-cases, ℕ, String, ◌≡◌, sym, ◌∙◌, ◌≢◌, ◌⊎◌, inl, inr, false, Option, none, some, List, [],
  ◌∷◌, arith, ◌==◌, eq_iff, eq_refl,
}
use threshold_node.Core.Timestamp.{Moment, not_a_datetime, naive, aware}
use threshold_node.Core.Types.{active, Housefile, Grant}
use threshold_node.Grants.Manager.{
  grant_outside_window, normalize_time, or_now, parse_window, times_fit, refuse, allow, decision,
  credential_in, check_zones, issue,
}
use threshold_node.Grants.Manager.Lifecycle.{IsBacked, check_zones_lem}

-- Every grant stands under its own id and is backed by the housefile.
abbrev pub AllBacked : Housefile → Dict Grant → Type 0
AllBacked file grants =
    (k : String) (g : Grant) → lookup k grants ≡ some g → (g.id ≡ k) × IsBacked file g

-- Two grants with one credential, which is not empty, are one.
abbrev pub DistinctCredentials : Dict Grant → Type 0
DistinctCredentials grants =
    (j k : String) (g h : Grant)
    → lookup j grants ≡ some g
    → lookup k grants ≡ some h
    → g.credential_digest ≢ ""
    → g.credential_digest ≡ h.credential_digest
    → j ≡ k

credential_in_lem :
    (digest k : String) (grants : Dict Grant) (g : Grant)
    → credential_in digest (values grants) ≡ false
    → lookup k grants ≡ some g
    → digest ≢ ""
    → digest ≢ g.credential_digest
unfolding credential_in
credential_in_lem digest k [] g h e n = cc
credential_in_lem digest k ((j, x) ∷ rest) g h e n = ground (
  arith,
  credential_in_lem digest k rest g,
  eq_iff x.credential_digest "",
  eq_iff digest x.credential_digest,
  eq_iff j k,
)

normalize_time_ok : (m : Moment) (t : ℕ) → normalize_time m ≡ ok t → m ≡ aware t
unfolding normalize_time
normalize_time_ok not_a_datetime t h = cc
normalize_time_ok naive t h = cc
normalize_time_ok (aware u) t h = cc

module _ (fromisoformat : List ℕ → Option Moment) (utc_now : ℕ) (file : Housefile) where
  -- What `issue` has checked when it returns.
  pub record Accepted (grants : Dict Grant) (g : Grant) (now : Option Moment) (after : Dict Grant)
      : Type 0 where
    pub fresh : contains g.id grants ≡ false
    pub credential :
        g.credential_digest ≢ "" → credential_in g.credential_digest (values grants) ≡ false
    pub scoped : g.scopes ≢ []
    pub zoned : g.zones ≢ []
    pub zones_checked : check_zones file g.zones ≡ ok tt
    pub clock : ℕ
    pub clock_read : or_now utc_now now ≡ aware clock
    pub times : times_fit fromisoformat g clock ≡ ok tt
    pub stored : after ≡ insert g.id g grants

  pub issue-Accepted :
      (grants after : Dict Grant) (g : Grant) (now : Option Moment)
      → issue fromisoformat utc_now file grants g now ≡ ok after
      → Accepted grants g now after
  unfolding issue
  issue-Accepted grants after g now h = elim (Result-cases (normalize_time (or_now utc_now now))) [
    | inl (t, e) ↦ record {
      fresh = ground arith;
      credential = λ n. ground (arith, eq_iff g.credential_digest "");
      scoped = λ n. ground arith;
      zoned = λ n. ground arith;
      zones_checked = ground arith;
      clock = t;
      clock_read = normalize_time_ok (or_now utc_now now) t e;
      times = ground arith;
      stored = ground arith;
    }
    | inr (x, e) ↦ absurd (ground arith)
  ]

  -- Issuing onto a dict whose every grant is backed by the housefile gives such a dict: the new
  -- grant has scopes and zones, and each of its zones is known and not no-go.
  pub issue-AllBacked :
      (grants after : Dict Grant) (g : Grant) (now : Option Moment)
      → AllBacked file grants
      → issue fromisoformat utc_now file grants g now ≡ ok after
      → AllBacked file after
  issue-AllBacked grants after g now backed h k x found =
      let a = issue-Accepted grants after g now h in
      let there : (if g.id == k then some g else lookup k grants) ≡ some x =
        sym (lookup-insert g.id k g grants) ∙ (rw (← a.stored) found) in
      elim (Bool-cases (g.id == k)) [
        | inl same ↦
            let e : g ≡ x = ground arith in
            rw (← e) (
              (eq_iff g.id k).0 same,
              record {
                scoped = a.scoped;
                zoned = a.zoned;
                may_be_granted = check_zones_lem file g.zones a.zones_checked;
              },
            )
        | inr other ↦ backed k x (ground arith)
      ]

  -- Issuing keeps the credentials apart: two grants with one credential digest, which is not empty,
  -- are the same grant.
  pub issue-DistinctCredentials :
      (grants after : Dict Grant) (g : Grant) (now : Option Moment)
      → DistinctCredentials grants
      → issue fromisoformat utc_now file grants g now ≡ ok after
      → DistinctCredentials after
  issue-DistinctCredentials grants after g now apart h j k x y at_j at_k n e =
      let a = issue-Accepted grants after g now h in
      let there_j : (if g.id == j then some g else lookup j grants) ≡ some x =
        sym (lookup-insert g.id j g grants) ∙ (rw (← a.stored) at_j) in
      let there_k : (if g.id == k then some g else lookup k grants) ≡ some y =
        sym (lookup-insert g.id k g grants) ∙ (rw (← a.stored) at_k) in
      ground (
        arith,
        eq_iff g.id j,
        eq_iff g.id k,
        a.credential,
        credential_in_lem g.credential_digest k grants y,
        credential_in_lem g.credential_digest j grants x,
        apart j k x y,
      )

  times_fit_decides :
      (g : Grant) (t : ℕ)
      → g.status ≡ active
      → times_fit fromisoformat g t ≡ ok tt
      → (decision fromisoformat utc_now g (some (aware t)) ≡ allow)
        ⊎ (decision fromisoformat utc_now g (some (aware t)) ≡ refuse grant_outside_window)
  unfolding decision times_fit
  times_fit_decides g t is h = elim (Result-cases (parse_window fromisoformat g.window)) [
    | inl (none, w) ↦ inl (ground arith)
    | inl (some (s, e), w) ↦ elim (Bool-cases (ltb t s)) [
      | inl early ↦ inr (ground arith)
      | inr late ↦ inl (ground arith)
    ]
    | inr (x, w) ↦ absurd (ground arith)
  ]

  -- An active grant that was just issued stands in the dict under its id, and at the clock of its
  -- issue it is allowed, or its window has not begun: it is not expired, and its times are readable.
  pub issue_decides :
      (grants after : Dict Grant) (g : Grant) (t : ℕ)
      → g.status ≡ active
      → issue fromisoformat utc_now file grants g (some (aware t)) ≡ ok after
      → (lookup g.id after ≡ some g)
        × ((decision fromisoformat utc_now g (some (aware t)) ≡ allow)
            ⊎ (decision fromisoformat utc_now g (some (aware t)) ≡ refuse grant_outside_window))
  issue_decides grants after g t is h =
      let a = issue-Accepted grants after g (some (aware t)) h in
      let same : a.clock ≡ t = cc (a.clock_read) in
      (rw (a.stored, lookup-insert, eq_refl), times_fit_decides g t is (rw (← same) a.times))
