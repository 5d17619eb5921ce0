-- ===== src/Api/Issuing.antt =====
-- src/threshold/api/server.py: the owner's routes that issue and revoke a grant, whose caller has
-- passed `require_owner`. The random ids are an argument; `strip` is `str.strip`.
-- The body of the request, of which the framework has checked the lengths and the enum members.
pub mod Checks
pub mod Requires
mod Examples
use threshold_node.Api.Node.{Server, Node, Fate, Reply, with_authority, with_clock, display_deny}
use threshold_node.Api.Errors.{
  HttpError, authority_unavailable, issuing_stopped, credential_invalid, owner_credential,
  scope_bounds, text_spaces, not_unique, credential_taken, policy_invalid, id_unavailable,
  grant_not_found, internal, http_error,
}
use threshold_node.Core.Auth.{is_valid_bearer_token}
use threshold_node.Core.Types.{Scope, GrantStatus, active, has_scope, Grant}
use threshold_node.Base.{
  ltb, if◌then◌else◌, length, take, all, is_empty, distinct, Dict, contains, values, Result, ok,
  err, ◌>>◌, raise_if, ℕ, String, Bool, true, false, not, ◌&&◌, ◌||◌, Option, none, some, List, [],
  ◌∷◌, ◌==◌,
}
use threshold_node.Hardware.Estop.{is_tripped}
use threshold_node.Grants.Authority.Mutations.{changed, issue_grant, revoke_grant}
use threshold_node.Grants.Authority.Commit.{
  AuthorityError, unavailable, credential_conflict, authentication_failed, unknown_grant, refused,
  Step,
}
use threshold_node.Grants.Authority.{ensure_ready}
use threshold_node.Grants.Platform.{Ends}
use threshold_node.Grants.Manager.{credential_in}
use threshold_node.Core.Timestamp.{Moment, aware}

pub record GrantIssueRequest : Type 0 where
  pub name : String
  pub kind : String
  pub scopes : List Scope
  pub zones : List String
  pub window : String
  pub expires : String

-- `PublicGrant`
pub record PublicGrant : Type 0 where
  pub id : String
  pub name : String
  pub kind : String
  pub scopes : List Scope
  pub zones : List String
  pub window : String
  pub expires : String
  pub status : GrantStatus
  pub issued : String

-- `_public_grant`
unfoldable pub public_grant : Grant → PublicGrant
public_grant g = record {
  id = g.id;
  name = g.name;
  kind = g.kind;
  scopes = g.scopes;
  zones = g.zones;
  window = g.window;
  expires = g.expires;
  status = g.status;
  issued = g.issued;
}

-- The first of the candidates that no grant has.
unfoldable pub free_id : List String → Dict Grant → Option String
free_id [] grants = none
free_id (k ∷ rest) grants = if contains k grants then free_id rest grants else some k

unfoldable pub distinct_scope : List Scope → Bool
distinct_scope [] = true
distinct_scope (s ∷ rest) = not (has_scope s rest) && distinct_scope rest

-- How the routes translate the authority's errors.
abbrev pub issue_error : AuthorityError → HttpError
issue_error credential_conflict = credential_taken
issue_error (refused r) = policy_invalid
issue_error unavailable = authority_unavailable
issue_error authentication_failed = internal
issue_error unknown_grant = internal

module _ (srv : Server) where
  -- The checks of `issue_grant` before its lock.
  unfoldable pub check_request : GrantIssueRequest → String → Result HttpError (Unit {0})
  unfolding distinct_scope
  check_request body credential = do
    raise_if (not (is_valid_bearer_token (some credential))) credential_invalid
    raise_if (elim srv.settings.owner_token [ none ↦ false | some owner ↦ credential == owner ])
        owner_credential
    raise_if
        (is_empty body.scopes
          || ltb 16 (length body.scopes)
          || is_empty body.zones
          || ltb 32 (length body.zones))
        scope_bounds
    raise_if
        (not (body.name == srv.env.strip body.name)
          || not (all (λ zone. zone == srv.env.strip zone) body.zones))
        text_spaces
    raise_if (not (distinct_scope body.scopes) || not (distinct body.zones)) not_unique

  unfoldable pub new_grant : GrantIssueRequest → String → String → ℕ → Grant
  new_grant body credential grant_id now = record {
    id = grant_id;
    name = body.name;
    kind = body.kind;
    scopes = body.scopes;
    zones = body.zones;
    window = body.window;
    expires = body.expires;
    status = active;
    issued = srv.env.utc_text now;
    credential_digest = srv.env.token_sha256 credential;
  }

module _ {F : Type 0} (srv : Server) where
  issue_reply : Node F → Step Grant → Reply F PublicGrant
  issue_reply n (ok g, x) = (ok (public_grant g), with_authority n x)
  issue_reply n (err e, x) = (err (issue_error e), with_authority n x)

  issue_as : Fate → GrantIssueRequest → String → ℕ → Node F → Option String → Reply F PublicGrant
  unfolding new_grant issue_reply
  issue_as fate body credential now n none = (err id_unavailable, n)
  issue_as fate body credential now n (some grant_id) = issue_reply n (
      issue_grant srv.env srv.file fate.reload fate.attempt n.authority n.disk
        (new_grant srv body credential grant_id now) (aware now))

  -- From the reload of `_ensure_authority` on.
  issue_ready : Fate → GrantIssueRequest → String → List String → ℕ → Node F → Reply F PublicGrant
  unfolding issue_as
  issue_ready fate body credential candidates now n =
      if not n.authority.ready
      then (err authority_unavailable, n)
      else if credential_in (srv.env.token_sha256 credential) (values n.authority.grants)
      then (err credential_taken, n)
      else issue_as fate body credential now n (free_id (take 5 candidates) n.authority.grants)

  issue_under_lock :
      Ends → Fate → GrantIssueRequest → String → List String → Node F → ℕ → Reply F PublicGrant
  unfolding issue_ready
  issue_under_lock first fate body credential candidates n now =
      if is_tripped n.interlock.state
      then (err issuing_stopped, display_deny srv "system" now n)
      else issue_ready fate body credential candidates now
          (with_authority n (ensure_ready srv.env srv.file first n.authority n.disk))

  -- `issue_grant`; `first` are the ends of `_ensure_authority`.
  unfoldable pub post_grant :
      Ends → Fate → GrantIssueRequest → String → List String → Moment → Node F → Reply F PublicGrant
  unfolding issue_under_lock
  post_grant first fate body credential candidates now n =
      elim (check_request srv body credential) [
        | err e ↦ (err e, n)
        | ok v ↦ with_clock now n (λ t. issue_under_lock first fate body credential candidates n t)
      ]

  revoked_reply : Node F → Step (Grant × Bool) → Reply F (PublicGrant × Bool)
  revoked_reply n (ok (g, changed), x) = (ok (public_grant g, changed), with_authority n x)
  revoked_reply n (err e, x) = (err (http_error e), with_authority n x)

  revoke_ready : Fate → String → ℕ → Node F → Reply F (PublicGrant × Bool)
  unfolding revoked_reply
  revoke_ready fate grant_id now n =
      if not n.authority.ready
      then (err authority_unavailable, n)
      else if not (contains grant_id n.authority.grants)
      then (err grant_not_found, n)
      else revoked_reply n (
          revoke_grant srv.env srv.file fate.reload fate.attempt n.authority n.disk grant_id
            (aware now))

  revoke_at : Ends → Fate → String → Node F → ℕ → Reply F (PublicGrant × Bool)
  unfolding revoke_ready
  revoke_at first fate grant_id n now =
      revoke_ready fate grant_id now
        (with_authority n (ensure_ready srv.env srv.file first n.authority n.disk))

  -- `revoke_grant`
  unfoldable pub post_revoke : Ends → Fate → String → Moment → Node F → Reply F (PublicGrant × Bool)
  unfolding revoke_at
  post_revoke first fate grant_id now n = with_clock now n (λ t. revoke_at first fate grant_id n t)
