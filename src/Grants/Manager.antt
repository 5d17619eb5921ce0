-- ===== src/Grants/Manager.antt =====
-- src/threshold/grants/manager.py: GrantManager, and the times that its decisions read. A dict of
-- grants is a `Dict Grant`; a method that raises leaves it as it was.
pub mod Decisions
pub mod Lifecycle
pub mod Issue
pub mod Revoke
mod Examples
use threshold_node.Base.{
  ltb, leb, if◌then◌else◌, is_empty, codes, Dict, lookup, contains, insert, values, Result, ok, err,
  ◌>>=◌, ◌>>◌, raise_if, ℕ, ◌+◌, String, Bool, true, false, not, ◌&&◌, ◌||◌, Option, none, some,
  List, [], ◌∷◌, ◌==◌,
}
use threshold_node.Core.Timestamp.{
  Moment, not_a_datetime, naive, aware, is_rfc3339, replace_z, split_first,
}
use threshold_node.Core.Types.{
  GrantStatus, revoked, expired, suspended, is_no_go, is_active, Housefile, zone_of, Grant,
}

-- The `ValidationError`s.
pub data Refusal : Type 0 where
  not_datetime no_offset not_rfc3339 malformed_window empty_window : Refusal
  id_exists credential_registered no_scopes no_zones : Refusal
  unknown_zone ungrantable_zone : String → Refusal
  expires_past window_past expires_before_window : Refusal

pub data Reason : Type 0 where
  grant_inactive : GrantStatus → Reason
  grant_invalid_clock grant_invalid_expiry grant_invalid_window : Reason
  grant_expired grant_outside_window grant_active : Reason

pub record GrantDecision : Type 0 where
  pub allowed : Bool
  pub reason : Reason
  pub next_status : Option GrantStatus

unfoldable pub normalize_time : Moment → Result Refusal ℕ
normalize_time not_a_datetime = err not_datetime
normalize_time naive = err no_offset
normalize_time (aware t) = ok t

-- `now or utc_now()`
abbrev pub or_now : ℕ → Option Moment → Moment
or_now utc_now none = aware utc_now
or_now utc_now (some m) = m

module _ (fromisoformat : List ℕ → Option Moment) where
  parsed_time : Option Moment → Result Refusal ℕ
  unfolding normalize_time
  parsed_time none = err not_rfc3339
  parsed_time (some m) = normalize_time m

  pub parse_codes : List ℕ → Result Refusal ℕ
  unfolding parsed_time
  parse_codes value =
      if is_rfc3339 value then parsed_time (fromisoformat (replace_z value)) else err not_rfc3339

  pub parse_timestamp : String → Result Refusal ℕ
  unfolding parse_codes
  parse_timestamp value = parse_codes (codes value)

  interval : ℕ → ℕ → Result Refusal (Option (ℕ × ℕ))
  interval start end = if leb end start then err empty_window else ok (some (start, end))

  -- `len(parts) != 2` is the first and the last clause.
  window_of_parts : List ℕ × List (List ℕ) → Result Refusal (Option (ℕ × ℕ))
  unfolding interval
  window_of_parts (first, []) = err malformed_window
  window_of_parts (first, second ∷ []) = do
    start ← parse_codes first
    end ← parse_codes second
    interval start end
  window_of_parts (first, second ∷ third ∷ rest) = err malformed_window

  unfoldable pub parse_window : String → Result Refusal (Option (ℕ × ℕ))
  unfolding window_of_parts
  parse_window value =
      if value == "standing" then ok none else window_of_parts (split_first b'/' (codes value))

  expiry_of : String → ℕ → Result Refusal (Option ℕ)
  expiry_of expires current = if expires == "revocable" then ok none else (do
    expires_at ← parse_timestamp expires
    if leb expires_at current then err expires_past else ok (some expires_at))

  window_fits : ℕ → Option ℕ → Option (ℕ × ℕ) → Result Refusal (Unit {0})
  window_fits current expires_at none = ok tt
  window_fits current none (some (start, end)) = raise_if (leb end current) window_past
  window_fits current (some expires_at) (some (start, end)) =
      if leb end current
      then err window_past
      else raise_if (leb expires_at start) expires_before_window

  -- The checks of `issue` on the two times, after the clock has been normalized.
  pub times_fit : Grant → ℕ → Result Refusal (Unit {0})
  unfolding expiry_of window_fits
  times_fit grant current = do
    expires_at ← expiry_of grant.expires current
    window ← parse_window grant.window
    window_fits current expires_at window

abbrev refuse : Reason → GrantDecision
refuse r = record { allowed = false; reason = r; next_status = none }

abbrev expire_now : GrantDecision
expire_now = record { allowed = false; reason = grant_expired; next_status = some expired }

abbrev allow : GrantDecision
allow = record { allowed = true; reason = grant_active; next_status = none }

in_window : ℕ → Result Refusal (Option (ℕ × ℕ)) → GrantDecision
in_window current (err e) = refuse grant_invalid_window
in_window current (ok none) = allow
in_window current (ok (some (start, end))) =
    if leb end current
    then expire_now
    else (if ltb current start then refuse grant_outside_window else allow)

before_expiry : ℕ → Result Refusal ℕ → GrantDecision → GrantDecision
before_expiry current (err e) rest = refuse grant_invalid_expiry
before_expiry current (ok expires_at) rest = if leb expires_at current then expire_now else rest

module _ (fromisoformat : List ℕ → Option Moment) (utc_now : ℕ) where
  at_time : Grant → Result Refusal ℕ → GrantDecision
  unfolding in_window before_expiry
  at_time grant (err e) = refuse grant_invalid_clock
  at_time grant (ok current) =
      let rest = in_window current (parse_window fromisoformat grant.window) in
      if grant.expires == "revocable"
      then rest
      else before_expiry current (parse_timestamp fromisoformat grant.expires) rest

  -- `GrantManager.decision`
  unfoldable pub decision : Grant → Option Moment → GrantDecision
  unfolding at_time normalize_time
  decision grant now =
      if is_active grant.status
      then at_time grant (normalize_time (or_now utc_now now))
      else refuse (grant_inactive grant.status)

-- `any(existing.credential_digest and compare_digest(digest, …) for existing in grants.values())`
unfoldable pub credential_in : String → List Grant → Bool
credential_in digest [] = false
credential_in digest (existing ∷ rest) =
    (not (existing.credential_digest == "") && (digest == existing.credential_digest))
    || credential_in digest rest

unfoldable pub check_zones : Housefile → List String → Result Refusal (Unit {0})
check_zones file [] = ok tt
check_zones file (zid ∷ rest) = elim (zone_of file zid) [
  | none ↦ err (unknown_zone zid)
  | some z ↦ if is_no_go z.access then err (ungrantable_zone zid) else check_zones file rest
]

-- `GrantManager.issue`: the dict with the grant, which is also what the call returns.
unfoldable pub issue :
    (List ℕ → Option Moment)
    → ℕ
    → Housefile
    → Dict Grant
    → Grant
    → Option Moment
    → Result Refusal (Dict Grant)
unfolding times_fit normalize_time
issue fromisoformat utc_now file grants grant now = do
  raise_if (contains grant.id grants) id_exists
  raise_if
      (not (grant.credential_digest == "") && credential_in grant.credential_digest (values grants))
      credential_registered
  raise_if (is_empty grant.scopes) no_scopes
  raise_if (is_empty grant.zones) no_zones
  check_zones file grant.zones
  current ← normalize_time (or_now utc_now now)
  times_fit fromisoformat grant current
  ok (insert grant.id grant grants)

-- `GrantManager.revoke`; `none` is the `KeyError` of an unknown id.
unfoldable pub revoke : Dict Grant → String → Option (Dict Grant)
revoke grants grant_id = elim (lookup grant_id grants) [
  | none ↦ none
  | some g ↦ some (insert grant_id (record g { status = revoked }) grants)
]

suspend_from : ℕ → Dict Grant → Dict Grant × ℕ
suspend_from n [] = ([], n)
suspend_from n ((k, g) ∷ rest) =
    if is_active g.status
    then (let (rest', m) = suspend_from (n + 1) rest in
        ((k, record g { status = suspended }) ∷ rest', m))
    else (let (rest', m) = suspend_from n rest in ((k, g) ∷ rest', m))

-- `GrantManager.suspend_all`: the grants, and how many were suspended.
unfoldable pub suspend_all : Dict Grant → Dict Grant × ℕ
unfolding suspend_from
suspend_all grants = suspend_from 0 grants
