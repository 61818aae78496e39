-- ===== src/Gateway.antt =====
-- crates/nxb-gateway/src/lib.rs: the scope gateway, which decides on each request and commits the
-- decision to the audit chain before it answers.
pub mod Types
pub mod Events
pub mod Stages
pub mod Allowing
pub mod Histories
pub mod Panics
pub mod Granting
use bound_seal.Common.{
  ℕ, ◌+◌, ◌-◌, ◌*◌, ◌/◌, ◌≡◌, Bool, true, false, not, ◌||◌, Option, none, some, List, [], ◌∷◌, ◌++◌,
  ltb, leb, ◌==◌, map, all, is_empty, length, if◌then◌else◌, u64_max, saturating_succ, Result, ok,
  err, ◌>>=◌, ◌>>◌, fail_if,
}
use bound_seal.Std.Text.{Text, text, trim, to_ascii_uppercase, to_ascii_lowercase, padded}
use bound_seal.Std.Ip.{IpAddr, ip_ord}
use bound_seal.Std.Ip.Display.{ip_to_string}
use bound_seal.Std.Float.{Float64}
use bound_seal.Std.Collections.{set_extend}
use bound_seal.External.{UrlLib}
use bound_seal.Policy.Types.{CompiledPolicy}
use bound_seal.Policy.Compile.{allows_request}
use bound_seal.Destination.{DestinationAssessment, assess_destination, is_allowed}
use bound_seal.Destination
use bound_seal.Budget.{
  RequestBudget, BudgetError, exhausted, concurrency_exceeded, rate_limited, invalid_configuration,
}
use bound_seal.Budget
use bound_seal.Dns.{
  DnsObservation, DnsPinSet, DnsPinStatus, DnsPinError, pin_or_validate, release_context,
  is_identifier_byte,
}
use bound_seal.Dns
use bound_seal.Audit.{AuditChain, AuditError, HashLib, append}
use bound_seal.Audit
use bound_seal.Audit.Event.{AuditEvent, AuditDestination, AuditDns}
use bound_seal.Gateway.Types.{
  RequestIntent, DecisionOutcome, allow, denied, outcome_code, DecisionReason, authorized,
  url_or_method_out_of_scope, missing_dns_resolution, non_public_destination,
  redirect_limit_exceeded, invalid_dns_observation, dns_resolver_changed, dns_rebinding_detected,
  total_budget_exhausted, reason_code, details, GatewayDecision, GatewayError, budget_error,
  audit_error, invalid_redirect_limit, Panic, no_host, invalid_budget, bad_duration, Failure,
  returned, panicked, AuditPinStatus, not_evaluated, rejected, status_code,
}
use bound_seal.Gateway.Events.{duration_milliseconds_saturated, audit_event}
use bound_seal.Gateway.Types

-- `format!("decision-{value:020}")`
unfoldable pub decision_id : ℕ → Text
decision_id value = text "decision-" ++ padded 20 value

abbrev pub deny : Text → DecisionReason → GatewayDecision
deny id reason = record { decision_id = id; outcome = denied; reason = reason }

unfoldable pub map_dns_error : DnsPinError → DecisionReason
map_dns_error Dns.invalid_context_id = invalid_dns_observation Types.invalid_context_id
map_dns_error Dns.invalid_resolver_id = invalid_dns_observation Types.invalid_resolver_id
map_dns_error Dns.invalid_host = invalid_dns_observation Types.invalid_host
map_dns_error Dns.empty_address_set = invalid_dns_observation Types.empty_address_set
map_dns_error Dns.clock_regression = invalid_dns_observation Types.clock_regression
map_dns_error (Dns.resolver_changed expected observed) = dns_resolver_changed expected observed
map_dns_error (Dns.rebinding_detected host pinned observed) =
    dns_rebinding_detected host pinned observed

abbrev pin_status : DnsPinStatus → AuditPinStatus
pin_status Dns.pinned = Types.pinned
pin_status Dns.matched = Types.matched

-- `assessments.iter().find(|value| !value.is_allowed())`
abbrev pub first_refused : List DestinationAssessment → Option DestinationAssessment
first_refused [] = none
first_refused (a ∷ rest) = if not (is_allowed a.class) then some a else first_refused rest

-- The decision on the answer of the budget.
unfoldable pub budget_decision :
    Text → Result Budget.Failure (Unit {0}) → Result Panic GatewayDecision
budget_decision id (ok _) = ok (record { decision_id = id; outcome = allow; reason = authorized })
budget_decision id (err (Budget.returned exhausted)) = ok (deny id total_budget_exhausted)
budget_decision id (err (Budget.returned concurrency_exceeded)) =
    ok (deny id Types.concurrency_exceeded)
budget_decision id (err (Budget.returned (rate_limited retry_after))) =
    ok (deny id (Types.rate_limited (duration_milliseconds_saturated retry_after)))
budget_decision id (err (Budget.returned (invalid_configuration _))) = err invalid_budget
budget_decision id (err Budget.panicked) = err bad_duration

module _ (f : Float64) (u : UrlLib) (lib : HashLib AuditEvent) where
  open u use {host_str, clear_query, clear_fragment, to_string}

  pub record ScopeGateway : Type 0 where
    pub policy : CompiledPolicy f.F
    pub budget : RequestBudget f
    pub dns_pins : DnsPinSet
    pub audit : AuditChain AuditEvent
    pub maximum_redirects : ℕ
    pub next_decision_id : ℕ

  -- an error of the budget, by `?`
  abbrev new_budget : Result BudgetError (RequestBudget f) → Result GatewayError (RequestBudget f)
  new_budget (ok b) = ok b
  new_budget (err e) = err (budget_error e)

  -- `ScopeGateway::new`
  unfoldable pub new : CompiledPolicy f.F → ℕ → Result GatewayError ScopeGateway
  new policy maximum_redirects = do
    fail_if (maximum_redirects == 0) invalid_redirect_limit
    budget ← new_budget (
        Budget.new f policy.inner.automation.max_total_requests
          policy.inner.automation.max_concurrency policy.inner.automation.max_requests_per_second)
    ok (record {
      policy = policy;
      budget = budget;
      dns_pins = [];
      audit = Audit.new lib;
      maximum_redirects = maximum_redirects;
      next_decision_id = 1;
    })

  unfoldable pub allocate_decision_id : ScopeGateway → Text × ScopeGateway
  allocate_decision_id g = (
    decision_id g.next_decision_id,
    record g { next_decision_id = saturating_succ u64_max g.next_decision_id },
  )

  unfoldable pub observation : RequestIntent u → Text → ℕ → DnsObservation
  observation intent host elapsed = record {
    context_id = intent.dns_context_id;
    host = host;
    addresses = set_extend [] intent.resolved_ips;
    resolver_id = intent.dns_resolver_id;
    ttl_seconds = intent.dns_ttl_seconds;
    observed_at_milliseconds = duration_milliseconds_saturated elapsed;
  }

  -- `try_start` and its `match`
  unfoldable pub evaluate_budget :
      ScopeGateway
      → Text
      → ℕ
      → AuditPinStatus
      → Result Panic (GatewayDecision × AuditPinStatus) × ScopeGateway
  evaluate_budget g id elapsed status =
      let (started, budget) = Budget.try_start f g.budget elapsed in
      (
        budget_decision id started >>= λ decision. ok (decision, status),
        record g { budget = budget },
      )

  -- the `match` on `pin_or_validate`, and what follows
  unfoldable pub evaluate_pin :
      ScopeGateway
      → Text
      → ℕ
      → Result DnsPinError (DnsPinStatus × DnsPinSet)
      → Result Panic (GatewayDecision × AuditPinStatus) × ScopeGateway
  evaluate_pin g id elapsed (ok (status, pins)) =
      evaluate_budget (record g { dns_pins = pins }) id elapsed (pin_status status)
  evaluate_pin g id elapsed (err e) = (ok (deny id (map_dns_error e), rejected), g)

  -- `evaluate` once its address tests have passed
  unfoldable pub evaluate_dns :
      ScopeGateway
      → Text
      → RequestIntent u
      → ℕ
      → Result Panic (GatewayDecision × AuditPinStatus) × ScopeGateway
  evaluate_dns g id intent elapsed = elim (host_str intent.url) [
    | none ↦ (err no_host, g)
    | some host ↦
        evaluate_pin g id elapsed (pin_or_validate g.dns_pins (observation intent host elapsed))
  ]

  abbrev refuse :
      ScopeGateway
      → Text
      → DecisionReason
      → Result Panic (GatewayDecision × AuditPinStatus) × ScopeGateway
  refuse g id reason = (ok (deny id reason, not_evaluated), g)

  -- `ScopeGateway::evaluate`
  unfoldable pub evaluate :
      ScopeGateway
      → RequestIntent u
      → ℕ
      → List DestinationAssessment
      → Result Panic (GatewayDecision × AuditPinStatus) × ScopeGateway
  evaluate g0 intent elapsed assessments =
      let (id, g) = allocate_decision_id g0 in
      if ltb g.maximum_redirects intent.redirect_depth
      then refuse g id (redirect_limit_exceeded g.maximum_redirects intent.redirect_depth)
      else if not (allows_request u g.policy intent.url intent.method)
      then refuse g id url_or_method_out_of_scope
      else if is_empty assessments
      then refuse g id missing_dns_resolution
      else elim (first_refused assessments) [
        | some a ↦ refuse g id (non_public_destination a.ip a.class)
        | none ↦ evaluate_dns g id intent elapsed
      ]

  -- `self.audit.append(event)?; Ok(decision)`
  unfoldable pub commit :
      ScopeGateway
      → GatewayDecision
      → Result AuditError (AuditChain AuditEvent)
      → Result Failure GatewayDecision × ScopeGateway
  commit g decision (ok audit) = (ok decision, record g { audit = audit })
  commit g decision (err e) = (err (returned (audit_error e)), g)

  unfoldable pub authorize_evaluated :
      RequestIntent u
      → ℕ
      → List DestinationAssessment
      → Result Panic (GatewayDecision × AuditPinStatus) × ScopeGateway
      → Result Failure GatewayDecision × ScopeGateway
  authorize_evaluated intent elapsed assessments (ok (decision, status), g) =
      commit g decision
        (append lib g.audit (audit_event u intent elapsed assessments decision status))
  authorize_evaluated intent elapsed assessments (err p, g) = (err (panicked p), g)

  -- `ScopeGateway::authorize`, which keeps what `evaluate` did also when the audit fails
  unfoldable pub authorize :
      ScopeGateway → RequestIntent u → ℕ → Result Failure GatewayDecision × ScopeGateway
  authorize g intent elapsed =
      let assessments = map assess_destination intent.resolved_ips in
      authorize_evaluated intent elapsed assessments (evaluate g intent elapsed assessments)

  -- `ScopeGateway::complete_request`
  unfoldable pub complete_request : ScopeGateway → ScopeGateway
  complete_request g = record g { budget = Budget.finish f g.budget }

  -- `ScopeGateway::release_dns_context`
  unfoldable pub release_dns_context : ScopeGateway → Text → ℕ × ScopeGateway
  release_dns_context g context_id =
      let (n, pins) = release_context g.dns_pins context_id in (n, record g { dns_pins = pins })
