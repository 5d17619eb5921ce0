-- ===== src/Api/Errors.antt =====
-- src/threshold/api/server.py: the errors that the routes answer with, and their texts.
-- The `HTTPException`s by their reason; `internal` is an error that no handler catches.
use threshold_node.Grants.Authority.Commit.{
  AuthorityError, unavailable, credential_conflict, authentication_failed, unknown_grant, refused,
}
use threshold_node.Grants.Manager.{
  Reason, grant_inactive, grant_invalid_clock, grant_invalid_expiry, grant_invalid_window,
  grant_expired, grant_outside_window, grant_active,
}
use threshold_node.Core.QuietHours.{
  QuietReason, quiet_hours_invalid, quiet_hours_clock_invalid, quiet_hours_active,
  outside_quiet_hours,
}
use threshold_node.Core.Types.{status_value}
use threshold_node.Base.{append_text, ℕ, String}

pub data HttpError : Type 0 where
  node_clock_invalid authority_unavailable ledger_unavailable authentication_required : HttpError
  policy_denied : Reason → HttpError
  quiet_denied : QuietReason → HttpError
  interlock_tripped issuing_stopped timezone_invalid unsupported_params gate_refused : HttpError
  adapter_not_configured appliance_disabled suspension_unavailable : HttpError
  credential_invalid owner_credential scope_bounds text_spaces not_unique : HttpError
  credential_taken policy_invalid id_unavailable grant_not_found internal : HttpError

-- The status code of each.
pub status_code : HttpError → ℕ
status_code node_clock_invalid = 503
status_code authority_unavailable = 503
status_code ledger_unavailable = 503
status_code authentication_required = 401
status_code (policy_denied r) = 403
status_code (quiet_denied quiet_hours_active) = 403
status_code (quiet_denied r) = 503
status_code interlock_tripped = 403
status_code issuing_stopped = 423
status_code timezone_invalid = 503
status_code unsupported_params = 403
status_code gate_refused = 403
status_code adapter_not_configured = 503
status_code appliance_disabled = 503
status_code suspension_unavailable = 503
status_code credential_invalid = 422
status_code owner_credential = 422
status_code scope_bounds = 422
status_code text_spaces = 422
status_code not_unique = 422
status_code credential_taken = 409
status_code policy_invalid = 422
status_code id_unavailable = 503
status_code grant_not_found = 404
status_code internal = 500

-- The text of a reason.
abbrev pub reason_text : Reason → String
reason_text (grant_inactive status) = append_text "grant_" (status_value status)
reason_text grant_invalid_clock = "grant_invalid_clock"
reason_text grant_invalid_expiry = "grant_invalid_expiry"
reason_text grant_invalid_window = "grant_invalid_window"
reason_text grant_expired = "grant_expired"
reason_text grant_outside_window = "grant_outside_window"
reason_text grant_active = "grant_active"

abbrev pub quiet_text : QuietReason → String
quiet_text quiet_hours_invalid = "quiet_hours_invalid"
quiet_text quiet_hours_clock_invalid = "quiet_hours_clock_invalid"
quiet_text quiet_hours_active = "quiet_hours_active"
quiet_text outside_quiet_hours = "outside_quiet_hours"

-- How the handlers translate the authority's errors.
abbrev pub http_error : AuthorityError → HttpError
http_error unavailable = authority_unavailable
http_error authentication_failed = authentication_required
http_error credential_conflict = internal
http_error unknown_grant = internal
http_error (refused r) = internal
