-- ===== src/Core/Auth.antt =====
-- src/threshold/core/auth.py: credential helpers. `sha256` stands for `token_digest`'s
-- `sha256(token.encode("utf-8")).hexdigest()`; `compare_digest` is equality of texts.
pub mod Tokens
mod Examples
use threshold_node.Base.{
  leb, if◌then◌else◌, length, all, codes, ℕ, String, Bool, false, ◌&&◌, ◌||◌, Option, none, some,
  ◌==◌,
}

abbrev pub min_bearer_token_length : ℕ
min_bearer_token_length = 32

abbrev pub max_bearer_token_length : ℕ
max_bearer_token_length = 512

is_visible_ascii : ℕ → Bool
is_visible_ascii c = leb 0x21 c && leb c 0x7E

-- `none` is Python's `None`.
unfoldable pub is_valid_bearer_token : Option String → Bool
unfolding is_visible_ascii
is_valid_bearer_token none = false
is_valid_bearer_token (some token) =
    let n = length (codes token) in
    leb min_bearer_token_length n
    && (leb n max_bearer_token_length && all is_visible_ascii (codes token))

module _ (sha256 : String → String) where
  abbrev pub token_digest : String → String
  token_digest token = sha256 token

  unfoldable pub token_matches : Option String → String → Bool
  token_matches none expected_digest = false
  token_matches (some token) expected_digest =
      if token == "" || expected_digest == ""
      then false
      else (token_digest token == expected_digest)
