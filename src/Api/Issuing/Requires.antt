-- ===== src/Api/Issuing/Requires.antt =====
-- What the owner's routes of api/server.py require and do when they answer.
use threshold_node.Api.Issuing.{
  GrantIssueRequest, PublicGrant, public_grant, free_id, check_request, new_grant, issue_reply,
  issue_as, issue_ready, issue_under_lock, post_grant, revoked_reply, revoke_ready, revoke_at,
  post_revoke,
}
use threshold_node.Core.Types.{active, Grant}
use threshold_node.Base.{
  Bool-cases, Option-cases, take, text_in, Dict, contains, values, ok, err, Result-cases, ℕ, String,
  ◌≡◌, refl, sym, ap, ◌∙◌, subst, inl, inr, Bool, true, false, some, List, [], ◌∷◌, arith, eq_refl,
}
use threshold_node.Grants.Authority.Mutations.{issue_grant, revoke_grant}
use threshold_node.Core.Timestamp.{Moment, not_a_datetime, naive, aware}
use threshold_node.Grants.Manager.{normalize_time, credential_in}
use threshold_node.Api.Node.Usable.{is_armed}
use threshold_node.Api.Node.{Server, Node, Fate, Reply, with_authority, files_of, with_clock}
use threshold_node.Hardware.Estop.{armed, is_tripped}
use threshold_node.Grants.Authority.Commit.{Step}
use threshold_node.Grants.Authority.{ensure_ready}
use threshold_node.Grants.Platform.{Ends}
use threshold_node.Api.Issuing.Checks.{IsSound, check_request-IsSound}

free_id_lem :
    (candidates : List String) (grants : Dict Grant) (k : String)
    → free_id candidates grants ≡ some k
    → (text_in k candidates ≡ true) × (contains k grants ≡ false)
unfolding free_id
free_id_lem [] grants k h = absurd (ground arith)
free_id_lem (c ∷ rest) grants k h = elim (Bool-cases (contains c grants)) [
  | inl taken ↦ let (there, free) = free_id_lem rest grants k (ground arith) in (ground arith, free)
  | inr free ↦
      let same : c ≡ k = ground arith in
      let again = eq_refl k in (ground arith, ap (λ i. contains i grants) (sym same) ∙ free)
]

-- The answer shows the fields of the grant but its digest.
abbrev pub Shows : Grant → PublicGrant → Type 0
Shows g p =
    (p.id ≡ g.id)
    × (p.name ≡ g.name)
    × (p.kind ≡ g.kind)
    × (p.scopes ≡ g.scopes)
    × (p.zones ≡ g.zones)
    × (p.window ≡ g.window)
    × (p.expires ≡ g.expires)
    × (p.status ≡ g.status)
    × (p.issued ≡ g.issued)

public_grant-Shows : (g : Grant) → Shows g (public_grant g)
unfolding public_grant
public_grant-Shows g = (refl, refl, refl, refl, refl, refl, refl, refl, refl)

-- The active grant with the request's fields, the clock's time and the credential's digest.
abbrev pub asked_grant : Server → GrantIssueRequest → String → String → ℕ → Grant
asked_grant srv body credential grant_id now = record {
  id = grant_id;
  name = body.name;
  kind = body.kind;
  scopes = body.scopes;
  zones = body.zones;
  window = body.window;
  expires = body.expires;
  status = active;
  issued = srv.env.utc_text now;
  credential_digest = srv.env.token_sha256 credential;
}

module _ {F : Type 0} (srv : Server) where
  replied :
      (n : Node F) (x : Step (Grant × Bool)) (v : PublicGrant × Bool)
      → (revoked_reply srv n x).0 ≡ ok v
      → (w : Grant × Bool) × ((x.0 ≡ ok w) × (files_of (revoked_reply srv n x).1 ≡ x.1))
  unfolding revoked_reply
  replied n (ok w, x) v h = (w, (refl, refl))
  replied n (err e, x) v h = absurd (ground arith)

  -- An answered revocation is one of the authority, on what its reload left.
  pub post_revoke-revokes :
      (first : Ends) (fate : Fate) (grant_id : String) (now : Moment) (n : Node F)
      (v : PublicGrant × Bool)
      → (post_revoke srv first fate grant_id now n).0 ≡ ok v
      → (t : ℕ) × ((k : Node F) × ((w : Grant × Bool) × ((revoke_grant srv.env srv.file fate.reload
                fate.attempt k.authority k.disk grant_id
                (aware t)).0
              ≡ ok w)
            × (files_of (post_revoke srv first fate grant_id now n).1
                ≡ (revoke_grant srv.env srv.file fate.reload fate.attempt k.authority k.disk
                    grant_id
                    (aware t)).1)))
  unfolding post_revoke with_clock normalize_time revoke_at revoke_ready
  post_revoke-revokes first fate grant_id not_a_datetime n v h = absurd (ground arith)
  post_revoke-revokes first fate grant_id naive n v h = absurd (ground arith)
  post_revoke-revokes first fate grant_id (aware t) n v h =
      let k = with_authority n (ensure_ready srv.env srv.file first n.authority n.disk) in
      let x =
        revoke_grant srv.env srv.file fate.reload fate.attempt k.authority k.disk grant_id
          (aware t) in
      elim (Bool-cases k.authority.ready) [
        | inr e ↦ absurd (ground arith)
        | inl e ↦ elim (Bool-cases (contains grant_id k.authority.grants)) [
          | inr f ↦ absurd (ground arith)
          | inl f ↦
              let (w, (there, files)) = replied k x v (ground arith) in
              (t, (k, (w, there, ground arith)))
        ]
      ]

  clocked :
      {A : Type 0} (now : Moment) (n : Node F) (k : ℕ → Reply F A) (p : A)
      → (with_clock now n k).0 ≡ ok p
      → (u : ℕ) × ((now ≡ aware u) × ((k u).0 ≡ ok p))
  unfolding with_clock normalize_time
  clocked not_a_datetime n k p h = absurd (ground arith)
  clocked naive n k p h = absurd (ground arith)
  clocked (aware u) n k p h = (u, (refl, h))

  -- Under the lock: the interlock is armed, the reloaded authority is ready, the credential is new
  -- to its grants, and its issue of the grant with a free id among the first five candidates has
  -- returned the grant that is answered.
  abbrev pub IssuedUnder :
      Ends → Fate → GrantIssueRequest → String → List String → Node F → ℕ → PublicGrant → Type 0
  IssuedUnder first fate body credential candidates n now p =
      let x = ensure_ready srv.env srv.file first n.authority n.disk in
      (n.interlock.state ≡ armed)
      × (x.0.ready ≡ true)
      × (credential_in (srv.env.token_sha256 credential) (values x.0.grants) ≡ false)
      × ((grant_id : String) × ((text_in grant_id (take 5 candidates) ≡ true)
            × (contains grant_id x.0.grants ≡ false)
            × ((g : Grant) × (((issue_grant srv.env srv.file fate.reload fate.attempt x.0 x.1
                      (asked_grant srv body credential grant_id now) (aware now)).0
                    ≡ ok g)
                  × Shows g p))))

  replied_issue :
      (n : Node F) (x : Step Grant) (p : PublicGrant)
      → (issue_reply srv n x).0 ≡ ok p
      → (g : Grant) × ((x.0 ≡ ok g) × Shows g p)
  unfolding issue_reply
  replied_issue n (ok g, x) p h =
      let same : public_grant g ≡ p = ground arith in
      (g, (refl, subst (λ q. Shows g q) same (public_grant-Shows g)))
  replied_issue n (err e, x) p h = absurd (ground arith)

  issued_under :
      (first : Ends) (fate : Fate) (body : GrantIssueRequest) (credential : String)
      (candidates : List String) (n : Node F) (u : ℕ) (p : PublicGrant)
      → (issue_under_lock srv first fate body credential candidates n u).0 ≡ ok p
      → IssuedUnder first fate body credential candidates n u p
  unfolding issue_under_lock issue_ready issue_as new_grant
  issued_under first fate body credential candidates n u p h =
      let x = ensure_ready srv.env srv.file first n.authority n.disk in
      elim (Option-cases (free_id (take 5 candidates) x.0.grants)) [
        | inl e ↦ absurd (ground arith)
        | inr (grant_id, e) ↦
            let m = with_authority n x in
            let result =
              issue_grant srv.env srv.file fate.reload fate.attempt x.0 x.1
                (new_grant srv body credential grant_id u) (aware u) in
            let (there, free) = free_id_lem (take 5 candidates) x.0.grants grant_id e in
            let untripped : is_tripped n.interlock.state ≡ false = ground arith in
            (
              is_armed n.interlock.state untripped,
              ground arith,
              ground arith,
              (grant_id, (there, free, replied_issue m result p (ground arith))),
            )
      ]

  -- A request is answered with a new grant only with an aware clock, while the interlock is armed
  -- and the reloaded authority is ready; the credential is valid, not the owner's and of none of the
  -- authority's grants; the request has 1 to 16 scopes and 1 to 32 zones, each of them once, and its
  -- name and zones have no surrounding whitespace; and the answer shows the grant that the
  -- authority's issue returned for an active grant with the request's fields, the clock's time, the
  -- credential's digest and a free id of the first five candidates.
  pub post_grant-requires :
      (first : Ends) (fate : Fate) (body : GrantIssueRequest) (credential : String)
      (candidates : List String) (now : Moment) (n : Node F) (p : PublicGrant)
      → (post_grant srv first fate body credential candidates now n).0 ≡ ok p
      → IsSound srv body credential
        × ((t : ℕ) × ((now ≡ aware t) × IssuedUnder first fate body credential candidates n t p))
  unfolding post_grant
  post_grant-requires first fate body credential candidates now n p h =
      elim (Result-cases (check_request srv body credential)) [
        | inr (e, r) ↦ absurd (ground arith)
        | inl (tt, r) ↦
            let (u, (clock, ran)) =
              clocked now n (λ u. issue_under_lock srv first fate body credential candidates n u) p
                (ground arith) in
            (
              check_request-IsSound srv body credential r,
              (u, (clock, issued_under first fate body credential candidates n u p ran)),
            )
      ]
