-- ===== src/Api/Issuing/Checks.antt =====
-- What the checks of api/server.py on a request for a grant establish.
use threshold_node.Core.Types.{Scope, has_scope}
use threshold_node.Api.Issuing.{GrantIssueRequest, distinct_scope, check_request}
use threshold_node.Base.{
  length, all, is_empty, All, text_in, distinct, ok, ◌≤◌, String, ◌≡◌, ◌≢◌, true, false, some, List,
  [], ◌∷◌, arith, ◌==◌, eq_iff, eq_refl,
}
use threshold_node.Api.Node.{Server}
use threshold_node.Core.Auth.{is_valid_bearer_token}

some_length : {A : Type 0} (xs : List A) → is_empty xs ≡ false → 1 ≤ length xs
some_length [] h = absurd (ground arith)
some_length (x ∷ xs) h = omega arith

-- No scope stands twice, no zone stands twice, and no text has surrounding whitespace.
abbrev pub DistinctScopes : List Scope → Type 0
DistinctScopes [] = Unit
DistinctScopes (s ∷ rest) = (has_scope s rest ≡ false) × DistinctScopes rest

abbrev pub DistinctTexts : List String → Type 0
DistinctTexts [] = Unit
DistinctTexts (t ∷ rest) = (text_in t rest ≡ false) × DistinctTexts rest

abbrev pub IsStripped : (String → String) → String → Type 0
IsStripped strip t = t ≡ strip t

distinct_scope-DistinctScopes :
    (scopes : List Scope) → distinct_scope scopes ≡ true → DistinctScopes scopes
unfolding distinct_scope
distinct_scope-DistinctScopes [] h = tt
distinct_scope-DistinctScopes (s ∷ rest) h =
    (ground arith, distinct_scope-DistinctScopes rest (ground arith))

distinct-DistinctTexts : (ts : List String) → distinct ts ≡ true → DistinctTexts ts
distinct-DistinctTexts [] h = tt
distinct-DistinctTexts (t ∷ rest) h = (ground arith, distinct-DistinctTexts rest (ground arith))

all-IsStripped :
    (strip : String → String) (ts : List String)
    → all (λ t. t == strip t) ts ≡ true
    → All (IsStripped strip) ts
all-IsStripped strip [] h = tt
all-IsStripped strip (t ∷ rest) h =
    (ground (arith, eq_iff t (strip t)), all-IsStripped strip rest (ground arith))

-- What the checks before the lock ask of a request and of the credential for its grant.
abbrev pub IsSound : Server → GrantIssueRequest → String → Type 0
IsSound srv body credential =
    (is_valid_bearer_token (some credential) ≡ true)
    × (srv.settings.owner_token ≢ some credential)
    × ((1 ≤ length body.scopes) × (length body.scopes ≤ 16))
    × ((1 ≤ length body.zones) × (length body.zones ≤ 32))
    × IsStripped srv.env.strip body.name
    × All (IsStripped srv.env.strip) body.zones
    × DistinctScopes body.scopes
    × DistinctTexts body.zones

pub check_request-IsSound :
    (srv : Server) (body : GrantIssueRequest) (credential : String)
    → check_request srv body credential ≡ ok tt
    → IsSound srv body credential
unfolding check_request
check_request-IsSound srv body credential h =
    let some_scope = some_length body.scopes in
    let some_zone = some_length body.zones in
    let name_same = eq_iff body.name (srv.env.strip body.name) in
    let valid : is_valid_bearer_token (some credential) ≡ true = ground arith in
    let apart : srv.settings.owner_token ≢ some credential =
      λ same. absurd (let again = eq_refl credential in ground arith) in
    (
      valid,
      apart,
      (ground arith, ground arith),
      (ground arith, ground arith),
      ground arith,
      all-IsStripped srv.env.strip body.zones (ground arith),
      distinct_scope-DistinctScopes body.scopes (ground arith),
      distinct-DistinctTexts body.zones (ground arith),
    )
