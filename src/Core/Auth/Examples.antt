-- ===== src/Core/Auth/Examples.antt =====
-- Runs of core/auth.py, and its theorem at a concrete input.
use threshold_node.Base.{String, ◌≡◌, refl, true, false, some}
use threshold_node.Core.Auth.{is_valid_bearer_token}

run_short : is_valid_bearer_token (some "short") ≡ false
unfolding is_valid_bearer_token
run_short = refl

run_space : is_valid_bearer_token (some "0123456789abcdef 0123456789abcdef") ≡ false
unfolding is_valid_bearer_token
run_space = refl

run_valid : is_valid_bearer_token (some "0123456789abcdef0123456789abcdef") ≡ true
unfolding is_valid_bearer_token
run_valid = refl

abbrev key : String
key = "0123456789abcdef0123456789abcdef"
