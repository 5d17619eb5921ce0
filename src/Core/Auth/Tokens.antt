-- ===== src/Core/Auth/Tokens.antt =====
-- What an accepted credential is: core/auth.py.
use threshold_node.Base.{String, ◌≡◌, ◌≢◌, ◌↔◌, true, some, arith, eq_iff}
use threshold_node.Core.Auth.{token_matches}

-- A token matches exactly when it and the digest are not empty and its digest is the stored one.
pub token_matches_iff :
    (sha256 : String → String) (token digest : String)
    → (token_matches sha256 (some token) digest ≡ true)
      ↔ ((token ≢ "") × (digest ≢ "") × (sha256 token ≡ digest))
unfolding token_matches
token_matches_iff sha256 token digest =
    ground (arith, eq_iff token "", eq_iff digest "", eq_iff (sha256 token) digest)
