-- ===== src/Core/Config.antt =====
-- src/threshold/core/config.py: the settings. `strip`, `lower` and `is_decimal` are `str.strip`,
-- `str.lower` and `str.isdigit`; `int_of` is `int`, `none` where it raises, as it does on a
-- superscript digit, which `isdigit` accepts.
pub mod Runtime
use threshold_node.Core.Ledger.Prepared.{bytes_eq}
use threshold_node.Core.Auth.{is_valid_bearer_token}
use threshold_node.Base.{
  leb, eqb, if◌then◌else◌, is_empty, codes, text_in, Dict, lookup, values, Result, ok, err, ◌>>=◌,
  ◌>>◌, raise_if, ℕ, String, Bool, false, not, ◌&&◌, ◌||◌, Option, none, some, List, [], ◌∷◌, ◌==◌,
}

pub record Settings : Type 0 where
  pub owner_token : Option String
  pub demo_grant_token : Option String
  pub bind : String
  pub ledger_path : String
  pub grant_store_path : String
  pub esp32_serial : String
  pub demo_mode : Bool
  pub allow_network_bind : Bool

-- The `ConfigError`s, and the `ValueError` of `int`.
pub data ConfigError : Type 0 where
  bind_format bind_port port_raises owner_token_invalid : ConfigError
  network_bind demo_token_invalid tokens_equal : ConfigError

-- `values.get(key, default)`
abbrev pub get_or : String → String → Dict String → String
get_or key default values = elim (lookup key values) [ none ↦ default | some v ↦ v ]

-- `text or default`, and `text or None`.
abbrev pub or_text : String → String → String
or_text value default = if value == "" then default else value

abbrev pub non_blank : String → Option String
non_blank value = if value == "" then none else some value

-- `rpartition(":")`: what stands before and after the last colon.
unfoldable pub rpartition : List ℕ → Option (List ℕ × List ℕ)
rpartition [] = none
rpartition (c ∷ r) =
    let rest = rpartition r in
    elim rest [
      | some (host, port) ↦ some (c ∷ host, port)
      | none ↦ if eqb c b':' then some ([], r) else none
    ]

-- `host in {"127.0.0.1", "localhost", "::1"}`
unfoldable pub is_loopback : List ℕ → Bool
is_loopback host =
    bytes_eq host (codes "127.0.0.1")
    || bytes_eq host (codes "localhost")
    || bytes_eq host (codes "::1")

module _ (strip lower : String → String) where
  -- `_is_true`
  is_true : Option String → Bool
  is_true value =
      text_in (lower (strip (elim value [ none ↦ "" | some v ↦ v ])))
        ("1" ∷ "true" ∷ "yes" ∷ "on" ∷ [])

  -- `Settings.from_env`
  unfoldable pub from_env : Dict String → Settings
  unfolding is_true
  from_env values = record {
    owner_token = non_blank (strip (get_or "THS_OWNER_TOKEN" "" values));
    demo_grant_token = non_blank (strip (get_or "THS_DEMO_GRANT_TOKEN" "" values));
    bind = strip (get_or "THS_BIND" "127.0.0.1:8471" values);
    ledger_path =
        or_text (strip (get_or "THS_LEDGER_PATH" "data/ledger.jsonl" values)) "data/ledger.jsonl";
    grant_store_path =
        or_text (strip (get_or "THS_GRANT_STORE_PATH" "data/grants.json" values))
          "data/grants.json";
    esp32_serial = strip (get_or "ESP32_SERIAL" "SIMULATED" values);
    demo_mode = is_true (lookup "THS_DEMO_MODE" values);
    allow_network_bind = is_true (lookup "THS_ALLOW_NETWORK_BIND" values);
  }

module _ (is_decimal : List ℕ → Bool) (int_of : List ℕ → Option ℕ) where
  address_of : Option (List ℕ × List ℕ) → Result ConfigError (List ℕ × ℕ)
  address_of none = err bind_format
  address_of (some (host, raw_port)) =
      if is_empty host || not (is_decimal raw_port)
      then err bind_format
      else (elim (int_of raw_port) [
        | none ↦ err port_raises
        | some port ↦ if leb 1 port && leb port 65535 then ok (host, port) else err bind_port
      ])

  -- `bind_address`
  unfoldable pub bind_address : Settings → Result ConfigError (List ℕ × ℕ)
  unfolding address_of
  bind_address s = address_of (rpartition (codes s.bind))

  -- `owner_token is not None and demo_grant_token is not None and compare_digest(…)`
  same_token : Option String → Option String → Bool
  same_token none demo = false
  same_token (some owner) none = false
  same_token (some owner) (some demo) = owner == demo

  -- `validate_runtime`
  unfoldable pub validate_runtime : Settings → Result ConfigError (Unit {0})
  unfolding same_token
  validate_runtime s = do
    address ← bind_address s
    raise_if (not (is_valid_bearer_token s.owner_token)) owner_token_invalid
    raise_if (not (is_loopback address.0) && not s.allow_network_bind) network_bind
    raise_if (s.demo_mode && not (is_valid_bearer_token s.demo_grant_token)) demo_token_invalid
    raise_if (s.demo_mode && same_token s.owner_token s.demo_grant_token) tokens_equal
