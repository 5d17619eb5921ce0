-- ===== src/Grants/Authority/Mutations/Denials.antt =====
-- What a revocation and an emergency stop of grants/authority.py promise: a grant that was withdrawn
-- authorizes nothing after any reloads.
use threshold_node.Grants.Authority.Changes.Denied.{Denied}
use threshold_node.Core.Types.{is_active, Housefile, Grant}
use threshold_node.Base.{
  Bool-cases, Option-cases, append_text, Dict, lookup, ok, err, Result-cases, String, ◌≡◌, refl,
  sym, ap, ◌∙◌, ◌⊎◌, inl, inr, true, false, not, ◌||◌, Option, some, List, [], ◌∷◌, ◌++◌, arith,
}
use threshold_node.Grants.Authority.Commit.Atomic.{reloads, reloads_grants}
use threshold_node.Grants.Authority.Commit.{AuthorityError, unavailable, Step}
use threshold_node.Grants.Authority.Mutations.{
  exclusive, decide, commit_expiry, decide_current, authorized_locked,
}
use threshold_node.Grants.Authority.Changes.{Attempt, then_step, is_due}
use threshold_node.Grants.Authority.Commit.Outcomes.{Installed}
use threshold_node.Grants.Authority.Commit.Between.{Based-Stage}
use threshold_node.Grants.Authority.{Authority, ensure_ready}
use threshold_node.Grants.Platform.{Platform, Disk, Ends}
use threshold_node.Grants.Store.{issue_kind, GrantStoreState}
use threshold_node.Grants.Manager.{GrantDecision, decision}
use threshold_node.Core.Timestamp.{Moment}
use threshold_node.Core.Auth.{is_valid_bearer_token, token_matches}

pub then_ok :
    {A B : Type 0} (m : Step A) (k : A → Authority × Disk → Step B) (v : A)
    → m.0 ≡ ok v
    → then_step m k ≡ k v m.1
then_ok (ok w, x) k v h = ap (λ r. then_step (r, x) k) h
then_ok (err e, x) k v h = absurd (ground arith)

pub then_err :
    {A B : Type 0} (m : Step A) (k : A → Authority × Disk → Step B) (e : AuthorityError)
    → m.0 ≡ err e
    → then_step m k ≡ (err e, m.1)
then_err (ok w, x) k e h = absurd (ground arith)
then_err (err d, x) k e h = ground arith

module _ (env : Platform) (file : Housefile) where
  -- A call inside the lock is its body on the reloaded authority, or raises.
  pub exclusive_cases :
      {A : Type 0} (ends : Ends) (a : Authority) (disk : Disk) (body : Authority → Disk → Step A)
      → let x = ensure_ready env file ends a disk in
        ((exclusive env file ends a disk body ≡ body x.0 x.1) × (x.0.ready ≡ true))
        ⊎ ((exclusive env file ends a disk body).0 ≡ err unavailable)
  unfolding exclusive
  exclusive_cases ends a disk body =
      elim (Bool-cases ((ensure_ready env file ends a disk).0.ready)) [
        | inl e ↦ inl (ground arith, e)
        | inr e ↦ inr (ground arith)
      ]

  -- Every reload reaches these grants or leaves the authority unavailable.
  abbrev pub Reaching : Dict Grant → Authority × Disk → Type 0
  Reaching grants x =
      (runs : List Ends)
      → ((reloads env file runs x).0.ready ≡ false) ⊎ ((reloads env file runs x).0.grants ≡ grants)

  pub reloads-snoc :
      (runs : List Ends) (ends : Ends) (x : Authority × Disk)
      → ensure_ready env file ends (reloads env file runs x).0 (reloads env file runs x).1
        ≡ reloads env file (runs ++ ends ∷ []) x
  unfolding reloads
  reloads-snoc [] ends x = refl
  reloads-snoc (e ∷ runs) ends x = reloads-snoc runs ends (ensure_ready env file e x.0 x.1)

  pub Installed-Reaching :
      (a : Authority) (disk : Disk) (s : GrantStoreState)
      → Installed env file a disk s
      → Reaching a.grants (a, disk)
  Installed-Reaching a disk s h runs =
      elim (reloads_grants env file s issue_kind s.grants runs (a, disk) h.clean (inr (s, h))
        (Based-Stage s issue_kind s.grants disk.store h.based)) [
          | inl e ↦ inl e
          | inr (inl e) ↦ inr (e ∙ sym h.grants)
          | inr (inr e) ↦ inr (e ∙ sym h.grants)
        ]

  inactive_denied :
      (g : Grant) (now : Option Moment)
      → is_active g.status ≡ false
      → (decision env.fromisoformat 0 g now).allowed ≡ false
  unfolding decision
  inactive_denied g now h = ground arith

  pub decide_current-decision :
      (t : Attempt) (a : Authority) (disk : Disk) (grant_id : String) (now : Moment)
      (action : String) (grant g : Grant) (d : GrantDecision)
      → (decide_current env file t a disk grant_id now action grant).0 ≡ ok (g, d)
      → d ≡ decision env.fromisoformat 0 grant (some now)
  unfolding decide_current decide
  decide_current-decision t a disk grant_id now action grant g d h =
      let e = decision env.fromisoformat 0 grant (some now) in
      let m =
        commit_expiry env file t a disk grant_id now (append_text action " refused: grant_expired")
          grant in
      let k : Grant → Authority × Disk → Step (Grant × GrantDecision) = λ g x. (ok (g, e), x) in
      elim (Bool-cases (is_due e)) [
        | inl due ↦ elim (Result-cases (m.0)) [
          | inl (v, r) ↦ let step = then_ok m k v r in ground arith
          | inr (x, r) ↦ let step = then_err m k x r in absurd (ground arith)
        ]
        | inr due ↦ ground arith
      ]

  pub authorized-Denied :
      (t : Attempt) (grant_id : String) (supplied : Option String) (now : Moment) (action : String)
      (a : Authority) (disk : Disk) (g : Grant) (d : GrantDecision)
      → Denied grant_id a.grants
      → (authorized_locked env file t grant_id supplied now action a disk).0 ≡ ok (g, d)
      → d.allowed ≡ false
  unfolding authorized_locked
  authorized-Denied t grant_id supplied now action a disk g d denied h =
      elim (Option-cases (lookup grant_id a.grants)) [
        | inl e ↦ absurd (ground arith)
        | inr (grant, e) ↦
            elim (Bool-cases (
              not (is_valid_bearer_token supplied)
              || not (token_matches env.token_sha256 supplied grant.credential_digest))) [
                | inl r ↦ absurd (ground arith)
                | inr r ↦
                    ap (λ x. x.allowed)
                      (decide_current-decision t a disk grant_id now action grant g d
                        (ground arith))
                    ∙ inactive_denied grant (some now) (denied grant e)
              ]
      ]
