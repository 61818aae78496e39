-- ===== src/Gateway/Events.antt =====
-- crates/nxb-gateway/src/lib.rs: the audit event of a decision.
use bound_seal.Common.{
  ℕ, ◌/◌, not, ◌||◌, List, ltb, leb, map, all, is_empty, length, if◌then◌else◌, u64_max,
}
use bound_seal.Std.Text.{Text, text, trim, to_ascii_uppercase, to_ascii_lowercase}
use bound_seal.Std.Ip.{ip_ord}
use bound_seal.Std.Ip.Display.{ip_to_string}
use bound_seal.External.{UrlLib}
use bound_seal.Destination.{DestinationAssessment, assess_destination, is_allowed}
use bound_seal.Destination
use bound_seal.Dns.{is_identifier_byte}
use bound_seal.Audit.Event.{AuditEvent, AuditDestination}
use bound_seal.Gateway.Types.{
  RequestIntent, outcome_code, reason_code, details, GatewayDecision, AuditPinStatus, status_code,
}

-- `as_millis().min(u64::MAX)`
abbrev pub duration_milliseconds_saturated : ℕ → ℕ
duration_milliseconds_saturated duration =
    if leb (duration / 1000000) u64_max then duration / 1000000 else u64_max

unfoldable pub sanitized_dns_identifier : Text → Text
sanitized_dns_identifier value =
    let trimmed = trim value in
    if is_empty trimmed || ltb 128 (length trimmed) || not (all is_identifier_byte trimmed)
    then text "[invalid]"
    else to_ascii_lowercase trimmed

module _ (u : UrlLib) where
  open u use {clear_query, clear_fragment, to_string}

  abbrev sanitized_audit_url : u.Url → Text
  sanitized_audit_url url = to_string (clear_fragment (clear_query url))

  unfoldable pub audit_destination : DestinationAssessment → AuditDestination
  audit_destination a = record {
    ip = ip_to_string a.ip;
    class = Destination.code a.class;
    allowed = is_allowed a.class;
  }

  unfoldable pub audit_event :
      RequestIntent u
      → ℕ
      → List DestinationAssessment
      → GatewayDecision
      → AuditPinStatus
      → AuditEvent
  audit_event intent elapsed assessments decision status = record {
    decision_id = decision.decision_id;
    outcome = outcome_code decision.outcome;
    reason_code = reason_code decision.reason;
    reason_details = details decision.reason;
    method = to_ascii_uppercase (trim intent.method);
    url = sanitized_audit_url intent.url;
    resolved_destinations = map audit_destination assessments;
    dns = record {
      context_id = sanitized_dns_identifier intent.dns_context_id;
      resolver_id = sanitized_dns_identifier intent.dns_resolver_id;
      ttl_seconds = intent.dns_ttl_seconds;
      pin_status = status_code status;
    };
    redirect_depth = intent.redirect_depth;
    elapsed_milliseconds = duration_milliseconds_saturated elapsed;
  }
