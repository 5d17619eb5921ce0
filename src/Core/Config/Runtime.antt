-- ===== src/Core/Config/Runtime.antt =====
-- What the settings that core/config.py accepts for a run satisfy.
use threshold_node.Core.Auth.{is_valid_bearer_token}
use threshold_node.Base.{
  Option-cases, is_empty, codes, ok, Result-cases, ℕ, ◌≤◌, String, ◌≡◌, refl, ◌≢◌, ◌⊎◌, inl, inr,
  Bool, true, false, Option, none, some, List, arith, eq_refl,
}
use threshold_node.Core.Config.{
  Settings, rpartition, is_loopback, address_of, bind_address, same_token, validate_runtime,
}

none_invalid : is_valid_bearer_token none ≡ false
unfolding is_valid_bearer_token
none_invalid = refl

module _ (is_decimal : List ℕ → Bool) (int_of : List ℕ → Option ℕ) (s : Settings) where
  -- The port of an address that the settings bind is between 1 and 65535, and its host is not empty.
  pub bind_address-bounds :
      (host : List ℕ) (port : ℕ)
      → bind_address is_decimal int_of s ≡ ok (host, port)
      → (1 ≤ port) × (port ≤ 65535) × (is_empty host ≡ false)
  unfolding bind_address address_of
  bind_address-bounds host port h = elim (Option-cases (rpartition (codes s.bind))) [
    | inl e ↦ absurd (ground arith)
    | inr ((a, b), e) ↦ elim (Option-cases (int_of b)) [
      | inl f ↦ absurd (ground arith)
      | inr (p, f) ↦ (ground arith, ground arith, ground arith)
    ]
  ]

  -- Settings that pass the check before a run have an owner token that is a valid bearer token, a
  -- port between 1 and 65535 and, unless a network address was allowed, a loopback host; in demo mode
  -- the demo grant's token is valid too and is not the owner's.
  pub validate_runtime-safe :
      validate_runtime is_decimal int_of s ≡ ok tt
      → ((owner : String) × (s.owner_token ≡ some owner)
          × (is_valid_bearer_token (some owner) ≡ true))
        × ((host : List ℕ) × ((port : ℕ) × (bind_address is_decimal int_of s ≡ ok (host, port))
              × (1 ≤ port)
              × (port ≤ 65535)
              × ((s.allow_network_bind ≡ true) ⊎ (is_loopback host ≡ true))))
        × (s.demo_mode ≡ true
            → (is_valid_bearer_token s.demo_grant_token ≡ true)
              × (s.owner_token ≢ s.demo_grant_token))
  unfolding validate_runtime same_token
  validate_runtime-safe h = elim (Result-cases (bind_address is_decimal int_of s)) [
    | inr (x, e) ↦ absurd (ground arith)
    | inl ((host, port), e) ↦
        let (low, high, named) = bind_address-bounds host port e in
        elim (Option-cases s.owner_token) [
          | inl o ↦ (let no_token = none_invalid in absurd (ground arith))
          | inr (owner, o) ↦ (
            (owner, o, ground arith),
            (host, (port, e, low, high, ground arith)),
            λ demo. (ground arith, λ same. ground (arith, eq_refl owner)),
          )
        ]
  ]
