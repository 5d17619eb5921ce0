-- ===== src/Api/Origin/Owner.antt =====
-- Who passes the owner's checks of api/server.py.
use threshold_node.Api.Origin.{
  Request, owner_methods, owner_origin_allowed, preflight, served, answer_preflight, with_origin,
  asked_method, origin_policy,
}
use threshold_node.Base.{
  Option-cases, text_in, String, ◌≡◌, ◌⊎◌, inl, inr, true, none, some, List, arith, eq_iff,
}

-- The request names no origin, its own, or the console's.
abbrev pub FromOwner : Request → Type 0
FromOwner r =
    (r.origin ≡ none) ⊎ ((r.origin ≡ some r.own_origin) ⊎ (r.origin ≡ some "http://127.0.0.1:5173"))

-- The middleware names an origin in its headers only where the request has this origin and the
-- origin is the request's own or the console's; the methods that it then names are those of the
-- path, and the asked one is among them.
pub origin_policy-allowed :
    (r : Request) (origin : String) (methods : List String)
    → ((origin_policy r ≡ preflight origin methods)
        ⊎ (origin_policy r ≡ served (some (origin, methods))))
    → (r.origin ≡ some origin)
      × ((origin ≡ r.own_origin) ⊎ (origin ≡ "http://127.0.0.1:5173"))
      × (methods ≡ owner_methods r.path)
      × (text_in (asked_method r) methods ≡ true)
unfolding origin_policy answer_preflight with_origin owner_origin_allowed
origin_policy-allowed r origin methods h = elim (Option-cases r.origin) [
  | inl e ↦ absurd (ground arith)
  | inr (o, e) ↦
      let own = eq_iff o r.own_origin in
      let vite = eq_iff o "http://127.0.0.1:5173" in
      (ground arith, ground arith, ground arith, ground arith)
]
