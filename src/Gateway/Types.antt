-- ===== src/Gateway/Types.antt =====
-- crates/nxb-gateway/src/lib.rs: intents, decisions, reasons, and the texts that the audit holds.
use bound_seal.Common.{ℕ, List, [], map}
use bound_seal.Std.Text.{Text, text, decimal}
use bound_seal.Std.Ip.{IpAddr}
use bound_seal.Std.Ip.Display.{join, ip_to_string}
use bound_seal.Std.Order.{list_ord, nat_ord}
use bound_seal.Std.Collections.{map_insert}
use bound_seal.External.{UrlLib}
use bound_seal.Destination.{DestinationClass}
use bound_seal.Destination
use bound_seal.Budget.{BudgetError}
use bound_seal.Audit.{AuditError}

pub record RequestIntent (u : UrlLib) : Type 0 where
  pub url : u.Url
  pub method : Text
  pub resolved_ips : List IpAddr
  pub redirect_depth : ℕ
  pub dns_context_id : Text
  pub dns_resolver_id : Text
  pub dns_ttl_seconds : ℕ

pub data DecisionOutcome : Type 0 where
  allow denied : DecisionOutcome

-- `DecisionOutcome::code`
abbrev pub outcome_code : DecisionOutcome → Text
outcome_code allow = text "allow"
outcome_code denied = text "deny"

pub data DnsObservationErrorKind : Type 0 where
  invalid_context_id invalid_resolver_id invalid_host : DnsObservationErrorKind
  empty_address_set clock_regression : DnsObservationErrorKind

-- `DnsObservationErrorKind::code`
abbrev pub kind_code : DnsObservationErrorKind → Text
kind_code invalid_context_id = text "invalid_context_id"
kind_code invalid_resolver_id = text "invalid_resolver_id"
kind_code invalid_host = text "invalid_host"
kind_code empty_address_set = text "empty_address_set"
kind_code clock_regression = text "clock_regression"

pub data DecisionReason : Type 0 where
  authorized url_or_method_out_of_scope missing_dns_resolution : DecisionReason
  non_public_destination : IpAddr → DestinationClass → DecisionReason
  redirect_limit_exceeded : ℕ → ℕ → DecisionReason
  invalid_dns_observation : DnsObservationErrorKind → DecisionReason
  dns_resolver_changed : Text → Text → DecisionReason
  dns_rebinding_detected : Text → List IpAddr → List IpAddr → DecisionReason
  total_budget_exhausted concurrency_exceeded : DecisionReason
  rate_limited : ℕ → DecisionReason

-- `DecisionReason::code`
abbrev pub reason_code : DecisionReason → Text
reason_code authorized = text "authorized"
reason_code url_or_method_out_of_scope = text "url_or_method_out_of_scope"
reason_code missing_dns_resolution = text "missing_dns_resolution"
reason_code (non_public_destination _ _) = text "non_public_destination"
reason_code (redirect_limit_exceeded _ _) = text "redirect_limit_exceeded"
reason_code (invalid_dns_observation _) = text "invalid_dns_observation"
reason_code (dns_resolver_changed _ _) = text "dns_resolver_changed"
reason_code (dns_rebinding_detected _ _ _) = text "dns_rebinding_detected"
reason_code total_budget_exhausted = text "total_budget_exhausted"
reason_code concurrency_exceeded = text "concurrency_exceeded"
reason_code (rate_limited _) = text "rate_limited"

-- `join_ips`
abbrev pub join_ips : List IpAddr → Text
join_ips values = join (text ",") (map ip_to_string values)

-- `DecisionReason::details`
unfoldable pub details : DecisionReason → List (Text × Text)
details (non_public_destination ip class) =
    map_insert (text "class") (Destination.code class) (map_insert (text "ip") (ip_to_string ip) [])
details (redirect_limit_exceeded maximum observed) =
    map_insert (text "observed") (decimal observed)
      (map_insert (text "maximum") (decimal maximum) [])
details (invalid_dns_observation kind) = map_insert (text "kind") (kind_code kind) []
details (dns_resolver_changed expected observed) =
    map_insert (text "observed") observed (map_insert (text "expected") expected [])
details (dns_rebinding_detected host pinned observed) =
    map_insert (text "observed") (join_ips observed)
      (map_insert (text "pinned") (join_ips pinned) (map_insert (text "host") host []))
details (rate_limited retry_after_milliseconds) =
    map_insert (text "retry_after_milliseconds") (decimal retry_after_milliseconds) []
details authorized = []
details url_or_method_out_of_scope = []
details missing_dns_resolution = []
details total_budget_exhausted = []
details concurrency_exceeded = []

pub record GatewayDecision : Type 0 where
  pub decision_id : Text
  pub outcome : DecisionOutcome
  pub reason : DecisionReason

pub data GatewayError : Type 0 where
  budget_error : BudgetError → GatewayError
  audit_error : AuditError → GatewayError
  invalid_redirect_limit : GatewayError

-- The places where `evaluate` can panic: `expect`, `unreachable!`, and `Duration::from_secs_f64`.
pub data Panic : Type 0 where
  no_host invalid_budget bad_duration : Panic

-- How `authorize` fails.
pub data Failure : Type 0 where
  returned : GatewayError → Failure
  panicked : Panic → Failure

pub data AuditPinStatus : Type 0 where
  not_evaluated pinned matched rejected : AuditPinStatus

-- `AuditPinStatus::code`
abbrev pub status_code : AuditPinStatus → Text
status_code not_evaluated = text "not_evaluated"
status_code pinned = text "pinned"
status_code matched = text "matched"
status_code rejected = text "rejected"
