-- ===== src/Api/Origin.antt =====
-- src/threshold/api/server.py: who may call the owner's routes: the origin policy of the middleware
-- and `require_owner`. A request is what the framework has parsed.
pub mod Owner
use threshold_node.Core.Config.{Settings}
use threshold_node.Core.Auth.{is_valid_bearer_token}
use threshold_node.Base.{
  leb, eqb, if◌then◌else◌, length, drop, codes, text_in, Result, ok, err, ℕ, ◌-◌, String, Bool,
  true, false, not, ◌&&◌, ◌||◌, Option, none, some, List, [], ◌∷◌, ◌==◌,
}

-- `own_origin` is `f"{scheme}://{netloc}"`; the two headers of a preflight are upper-cased and split
-- into stripped, lower-cased names.
pub record Request : Type 0 where
  pub method : String
  pub path : String
  pub origin : Option String
  pub own_origin : String
  pub requested_method : String
  pub requested_headers : List String
  pub owner_header : Option String

-- `OWNER_CONSOLE_ORIGINS`
abbrev pub owner_console_origins : List String
owner_console_origins = "http://127.0.0.1:5173" ∷ []

-- `OWNER_CORS_HEADERS`
abbrev pub owner_cors_headers : List String
owner_cors_headers = "content-type" ∷ "x-threshold-owner-token" ∷ "x-threshold-new-grant-token" ∷ []

pub starts_with : List ℕ → List ℕ → Bool
starts_with [] r = true
starts_with (c ∷ p) [] = false
starts_with (c ∷ p) (d ∷ r) = eqb c d && starts_with p r

pub ends_with : List ℕ → List ℕ → Bool
unfolding starts_with
ends_with p r = leb (length p) (length r) && starts_with p (drop (length r - length p) r)

-- `_owner_methods`
unfoldable pub owner_methods : String → List String
unfolding starts_with ends_with
owner_methods path =
    if text_in path ("/owner/snapshot" ∷ "/owner/status" ∷ "/ledger" ∷ [])
    then "GET" ∷ []
    else if text_in path ("/grants" ∷ "/sim/interlock/trip" ∷ "/sim/interlock/rearm" ∷ [])
    then "POST" ∷ []
    else if starts_with (codes "/grants/") (codes path) && ends_with (codes "/revoke") (codes path)
    then "POST" ∷ []
    else []

-- `_owner_origin_allowed`
unfoldable pub owner_origin_allowed : Request → Bool
owner_origin_allowed r = elim r.origin [
  | none ↦ true
  | some origin ↦ (origin == r.own_origin) || text_in origin owner_console_origins
]

-- What the middleware answers: a refusal, a preflight's answer for an origin and its methods, or the
-- application's response, with the headers for an origin where it names one.
pub data Answer : Type 0 where
  origin_not_allowed headers_not_allowed : Answer
  preflight : String → List String → Answer
  served : Option (String × List String) → Answer

-- `issubset`
abbrev pub all_in : List String → List String → Bool
all_in [] allowed = true
all_in (h ∷ rest) allowed = text_in h allowed && all_in rest allowed

answer_preflight : Request → List String → Option String → Answer
answer_preflight r methods none = origin_not_allowed
answer_preflight r methods (some origin) =
    if all_in r.requested_headers owner_cors_headers
    then preflight origin methods
    else headers_not_allowed

with_origin : List String → Option String → Answer
with_origin methods none = served none
with_origin methods (some origin) = served (some (origin, methods))

abbrev pub asked_method : Request → String
asked_method r = if r.method == "OPTIONS" then r.requested_method else r.method

-- `owner_console_origin_policy`
unfoldable pub origin_policy : Request → Answer
unfolding answer_preflight with_origin
origin_policy r =
    let methods = owner_methods r.path in
    if not (text_in (asked_method r) methods)
    then served none
    else if not (owner_origin_allowed r)
    then origin_not_allowed
    else if r.method == "OPTIONS"
    then answer_preflight r methods r.origin
    else with_origin methods r.origin

-- The refusals of `require_owner`: 403, 503 and 401.
pub data OwnerRefusal : Type 0 where
  foreign_origin not_configured owner_authentication : OwnerRefusal

-- `settings.demo_mode and …`: the demo grant's token may not be the owner's.
abbrev pub demo_clash : Settings → String → Bool
demo_clash settings owner =
    settings.demo_mode
    && (elim settings.demo_grant_token [ none ↦ false | some token ↦ owner == token ])

owner_with : Settings → Option String → String → Result OwnerRefusal (Unit {0})
owner_with settings supplied owner =
    if demo_clash settings owner then err not_configured else (elim supplied [
      | none ↦ err owner_authentication
      | some token ↦ if token == owner then ok tt else err owner_authentication
    ])

-- `require_owner`
unfoldable pub require_owner : Settings → Request → Result OwnerRefusal (Unit {0})
unfolding owner_with
require_owner settings r =
    if not (owner_origin_allowed r)
    then err foreign_origin
    else if not (is_valid_bearer_token settings.owner_token)
    then err not_configured
    else (elim settings.owner_token [
      | none ↦ err not_configured
      | some owner ↦ owner_with settings r.owner_header owner
    ])
