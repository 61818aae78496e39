-- ===== src/Examples/Decisions.antt =====
-- crates/nxb-gateway: runs on a new gateway.
use bound_seal.Common.{◌+◌, ◌≡◌, ◌≤◌, refl, [], ◌∷◌, ok, err, List, none, map}
use bound_seal.Std.Text.{Text, text}
use bound_seal.Std.Text
use bound_seal.Std.Ip.{v4}
use bound_seal.Std.Collections
use bound_seal.Std.Float.{Float64}
use bound_seal.Policy.Compile
use bound_seal.Policy.Hosts
use bound_seal.Destination
use bound_seal.Destination.{assess_destination}
use bound_seal.Budget
use bound_seal.Budget.{RequestBudget}
use bound_seal.Dns
use bound_seal.Audit
use bound_seal.Audit.{verify, append, AuditChain}
use bound_seal.Audit.Event.{AuditEvent}
use bound_seal.Gateway.Types.{
  RequestIntent, GatewayDecision, allow, authorized, AuditPinStatus, bad_duration,
}
use bound_seal.Gateway
use bound_seal.Gateway.Events.{audit_event}
use bound_seal.Gateway.{ScopeGateway, authorize, evaluate, decision_id}
use bound_seal.Gateway.Allowing.{Cleared, authorize-allow}
use bound_seal.Gateway.Histories.{
  Call, authorizes, completes, releases, run, authorize-recorded, run-bounds,
}
use bound_seal.Gateway.Granting.{authorize-Cleared, granted_event}
use bound_seal.Gateway.Panics.{evaluate-panic}
use bound_seal.Examples.Values.{fixed, urls, plain, compiled}

abbrev start : ScopeGateway fixed urls (plain AuditEvent)
start = record {
  policy = compiled;
  budget = record {
    remaining = 10;
    max_concurrency = 4;
    in_flight = 0;
    tokens = 2000;
    token_capacity = 2000;
    refill_per_second = 2000;
    last_refill = 0;
  };
  dns_pins = [];
  audit = Audit.new (plain AuditEvent);
  maximum_redirects = 5;
  next_decision_id = 1;
}

abbrev intent : RequestIntent urls
intent = record {
  url = (text "https", text "api.example.com");
  method = text "get";
  resolved_ips = v4 0x08080808 ∷ [];
  redirect_depth = 0;
  dns_context_id = text "run-1";
  dns_resolver_id = text "system";
  dns_ttl_seconds = 60;
}

abbrev decision : GatewayDecision
decision = record { decision_id = decision_id 1; outcome = allow; reason = authorized }

started : Gateway.new fixed urls (plain AuditEvent) compiled 5 ≡ ok start
unfolding Gateway.new Budget.new
started = refl

decided : (authorize fixed urls (plain AuditEvent) start intent 7000000).0 ≡ ok decision
unfolding authorize evaluate Gateway.allocate_decision_id Gateway.evaluate_dns Gateway.evaluate_pin
    Gateway.evaluate_budget Gateway.budget_decision Gateway.observation Gateway.authorize_evaluated
    Gateway.commit audit_event decision_id append Audit.new Audit.push_record Audit.hash_material
    Compile.allows_request Compile.allows_host Hosts.matches_host_set assess_destination
    Destination.classify Destination.classify_ipv4 Destination.is_allowed Destination.in_ipv4_prefix
    Budget.try_start Budget.refill Dns.pin_or_validate Dns.validate_observation Dns.place_pin
    Dns.is_valid_identifier Dns.is_valid_host Dns.fresh_pin Collections.contains
    Collections.set_extend Collections.set_insert Collections.map_get Collections.map_insert text
    Text.trim Text.trim_end_matches Text.split Text.ends_with
decided = refl

authorize-allow_example :
    Cleared fixed urls
      (plain AuditEvent)
      start
      intent
      7000000
      (authorize fixed urls (plain AuditEvent) start intent 7000000).1
authorize-allow_example =
    authorize-allow fixed urls (plain AuditEvent) start intent 7000000 decision decided refl

authorize-recorded_example :
    (status : AuditPinStatus) × (append (plain AuditEvent) (Audit.new (plain AuditEvent)) (
        audit_event urls intent 7000000
          (map assess_destination (v4 0x08080808 ∷ []))
          decision
          status)
      ≡ ok (authorize fixed urls (plain AuditEvent) start intent 7000000).1.audit)
authorize-recorded_example =
    authorize-recorded fixed urls (plain AuditEvent) start intent 7000000 decision decided

start-Cleared :
    Cleared fixed urls
      (plain AuditEvent)
      start
      intent
      7000000
      (authorize fixed urls (plain AuditEvent) start intent 7000000).1
start-Cleared =
    authorize-allow fixed urls (plain AuditEvent) start intent 7000000 decision decided refl

start_chain :
    (event : AuditEvent)
    → (chain : AuditChain AuditEvent) × (append
          (plain AuditEvent)
          (Audit.new (plain AuditEvent))
          event
        ≡ ok chain)
unfolding append Audit.new Audit.push_record Audit.hash_material
start_chain event = (_, refl)

authorize-Cleared_example :
    let event =
      granted_event fixed urls
        (plain AuditEvent)
        start
        (authorize fixed urls (plain AuditEvent) start intent 7000000).1
        intent
        7000000
        start-Cleared in
    ((authorize fixed urls (plain AuditEvent) start intent 7000000).0 ≡ ok decision)
    × ((authorize fixed urls (plain AuditEvent) start intent 7000000).1.audit
        ≡ (start_chain event).0)
authorize-Cleared_example =
    authorize-Cleared fixed urls (plain AuditEvent) start
      (authorize fixed urls (plain AuditEvent) start intent 7000000).1 intent 7000000
      (start_chain _).0 start-Cleared (start_chain _).1

abbrev calls : List (Call urls)
calls =
    authorizes intent 0
    ∷ authorizes (record intent { redirect_depth = 9 }) 1
    ∷ completes
    ∷ releases (text "run-1")
    ∷ authorizes intent 2
    ∷ []

run-bounds_example :
    let (allowed, h) = run fixed urls (plain AuditEvent) start 0 calls in
    (allowed + h.budget.remaining ≤ 10)
    × (h.budget.in_flight ≤ 4)
    × (verify (plain AuditEvent) h.audit ≡ ok tt)
run-bounds_example = run-bounds fixed urls (plain AuditEvent) compiled 5 start calls started

-- A delay that is too long for a `Duration`.
abbrev slow : Float64
slow = record fixed { from_secs_f64 = λ _. none }

abbrev drained : ScopeGateway slow urls (plain AuditEvent)
drained = record {
  policy = compiled;
  budget = record {
    remaining = 10;
    max_concurrency = 4;
    in_flight = 0;
    tokens = 0;
    token_capacity = 2000;
    refill_per_second = 2000;
    last_refill = 0;
  };
  dns_pins = [];
  audit = Audit.new (plain AuditEvent);
  maximum_redirects = 5;
  next_decision_id = 1;
}

panics :
    (evaluate slow urls
      (plain AuditEvent)
      drained
      intent
      0
      (map assess_destination (v4 0x08080808 ∷ []))).0
    ≡ err bad_duration
unfolding evaluate Gateway.allocate_decision_id Gateway.evaluate_dns Gateway.evaluate_pin
    Gateway.evaluate_budget Gateway.budget_decision Gateway.observation decision_id
    Compile.allows_request Compile.allows_host Hosts.matches_host_set assess_destination
    Destination.classify Destination.classify_ipv4 Destination.is_allowed Destination.in_ipv4_prefix
    Budget.try_start Budget.refill Budget.rate_refusal Dns.pin_or_validate Dns.validate_observation
    Dns.place_pin Dns.is_valid_identifier Dns.is_valid_host Dns.fresh_pin Collections.contains
    Collections.set_extend Collections.set_insert Collections.map_get Collections.map_insert text
    Text.trim Text.trim_end_matches Text.split Text.ends_with
panics = refl

evaluate-panic_example : bad_duration ≡ bad_duration
evaluate-panic_example =
    evaluate-panic slow urls (plain AuditEvent) drained intent 0
      (map assess_destination (v4 0x08080808 ∷ [])) bad_duration panics
