-- ===== src/Gateway/Allowing.antt =====
-- crates/nxb-gateway/src/lib.rs: which requests `authorize` allows.
use mathlib.Core.Bool.{false≢true}
use bound_seal.Common.{
  ℕ, ◌≤◌, ◌≡◌, ◌≢◌, refl, sym, ◌∙◌, ap, subst, true, none, some, List, [], ◌∷◌, ltb, map, all,
  is_empty, Result, ok, err, arith, Option-cases, Bool-cases, inl, inr, >>=-eq-ok,
}
use bound_seal.Std.Text.{Text}
use bound_seal.Std.Ip.{IpAddr}
use bound_seal.Std.Float.{Float64}
use bound_seal.External.{UrlLib}
use bound_seal.Policy.Compile.{allows_request}
use bound_seal.Destination.{assess_destination, is_public_destination}
use bound_seal.Budget
use bound_seal.Dns.{DnsPinStatus, DnsPinSet, DnsPinError, pin_or_validate}
use bound_seal.Audit.{HashLib}
use bound_seal.Audit.Event.{AuditEvent}
use bound_seal.Gateway.Types.{
  RequestIntent, allow, DecisionReason, no_host, GatewayDecision, Panic, AuditPinStatus,
}
use bound_seal.Gateway.Stages.{authorize_evaluated-ok}
use bound_seal.Gateway.{
  ScopeGateway, deny, budget_decision, first_refused, allocate_decision_id, observation,
  evaluate_budget, evaluate_pin, evaluate_dns, evaluate, authorize,
}

budget_decision-allow :
    (id : Text) (r : Result Budget.Failure (Unit {0})) (d : GatewayDecision)
    → budget_decision id r ≡ ok d
    → d.outcome ≡ allow
    → r ≡ ok tt
unfolding budget_decision
budget_decision-allow id (ok tt) d e a = refl
budget_decision-allow id (err (Budget.returned Budget.exhausted)) d e a = cc
budget_decision-allow id (err (Budget.returned Budget.concurrency_exceeded)) d e a = cc
budget_decision-allow id (err (Budget.returned (Budget.rate_limited n))) d e a = cc
budget_decision-allow id (err (Budget.returned (Budget.invalid_configuration n))) d e a = cc
budget_decision-allow id (err Budget.panicked) d e a = cc

deny-allow :
    (id : Text) (reason : DecisionReason) (given : AuditPinStatus) (d : GatewayDecision)
    (status : AuditPinStatus)
    → Path
        (Result Panic (GatewayDecision × AuditPinStatus))
        (ok (deny id reason, given))
        (ok (d, status))
    → d.outcome ≢ allow
deny-allow id reason given d status e a = cc

pub first_refused-none :
    (ips : List IpAddr)
    → first_refused (map assess_destination ips) ≡ none
    → all is_public_destination ips ≡ true
unfolding is_public_destination
first_refused-none [] e = refl
first_refused-none (ip ∷ ips) e = ground (arith, first_refused-none ips)

module _ (f : Float64) (u : UrlLib) (lib : HashLib AuditEvent) where
  open u use {host_str}

  -- What a request has passed that is allowed, with the pins and the budget that it leaves.
  abbrev pub Cleared : ScopeGateway f u lib → RequestIntent u → ℕ → ScopeGateway f u lib → Type 0
  Cleared g intent elapsed h =
      (intent.redirect_depth ≤ g.maximum_redirects)
      × (allows_request u g.policy intent.url intent.method ≡ true)
      × (intent.resolved_ips ≢ [])
      × (all is_public_destination intent.resolved_ips ≡ true)
      × (host : Text) × (host_str intent.url ≡ some host)
      × (status : DnsPinStatus) × (pin_or_validate g.dns_pins
            (observation f u lib intent host elapsed)
          ≡ ok (status, h.dns_pins))
      × (Budget.try_start f g.budget elapsed ≡ (ok tt, h.budget))

  evaluate_budget-allow :
      (g : ScopeGateway f u lib) (id : Text) (elapsed : ℕ) (given status : AuditPinStatus)
      (d : GatewayDecision)
      → (evaluate_budget f u lib g id elapsed given).0 ≡ ok (d, status)
      → d.outcome ≡ allow
      → Budget.try_start f g.budget elapsed
        ≡ (ok tt, (evaluate_budget f u lib g id elapsed given).1.budget)
  unfolding evaluate_budget
  evaluate_budget-allow g id elapsed given status d e a =
      let started = Budget.try_start f g.budget elapsed in
      let (made, decided, answered) = >>=-eq-ok (budget_decision id started.0) _ e in
      let same_decision : made ≡ d = cc answered in
      ap (λ r. (r, started.1))
        (budget_decision-allow id started.0 made decided (ap (λ x. x.outcome) same_decision ∙ a))

  evaluate_pin-allow :
      (g : ScopeGateway f u lib) (id : Text) (elapsed : ℕ)
      (answer : Result DnsPinError (DnsPinStatus × DnsPinSet)) (status : AuditPinStatus)
      (d : GatewayDecision)
      → (evaluate_pin f u lib g id elapsed answer).0 ≡ ok (d, status)
      → d.outcome ≡ allow
      → (pin : DnsPinStatus) × (answer
          ≡ ok (pin, (evaluate_pin f u lib g id elapsed answer).1.dns_pins))
        × (Budget.try_start f g.budget elapsed
            ≡ (ok tt, (evaluate_pin f u lib g id elapsed answer).1.budget))
  unfolding evaluate_pin evaluate_budget
  evaluate_pin-allow g id elapsed (ok (pin, pins)) status d e a =
      (pin, refl, evaluate_budget-allow (record g { dns_pins = pins }) id elapsed _ status d e a)
  evaluate_pin-allow g id elapsed (err x) status d e a = cc

  -- What the stages behind the address tests have seen.
  abbrev Reached : ScopeGateway f u lib → RequestIntent u → ℕ → ScopeGateway f u lib → Type 0
  Reached g intent elapsed h =
      (host : Text) × (host_str intent.url ≡ some host)
      × (pin : DnsPinStatus) × (pin_or_validate g.dns_pins (observation f u lib intent host elapsed)
          ≡ ok (pin, h.dns_pins))
      × (Budget.try_start f g.budget elapsed ≡ (ok tt, h.budget))

  evaluate_dns-allow :
      (g : ScopeGateway f u lib) (id : Text) (intent : RequestIntent u) (elapsed : ℕ)
      (status : AuditPinStatus) (d : GatewayDecision)
      → (evaluate_dns f u lib g id intent elapsed).0 ≡ ok (d, status)
      → d.outcome ≡ allow
      → Reached g intent elapsed (evaluate_dns f u lib g id intent elapsed).1
  unfolding evaluate_dns
  evaluate_dns-allow g id intent elapsed status d e a = elim (Option-cases (host_str intent.url)) [
    | inl none_there ↦
        let stage : (evaluate_dns f u lib g id intent elapsed).0 ≡ err no_host =
          rw (none_there, evaluate_dns) refl in
        cc (stage, e)
    | inr (host, there) ↦
        let answer = pin_or_validate g.dns_pins (observation f u lib intent host elapsed) in
        let stage : evaluate_dns f u lib g id intent elapsed
            ≡ evaluate_pin f u lib g id elapsed answer =
          rw (there, evaluate_dns) refl in
        let (pin, found, spent) =
          evaluate_pin-allow g id elapsed answer status d (ap (λ r. r.0) (sym stage) ∙ e) a in
        subst (Reached g intent elapsed) (ap (λ r. r.1) (sym stage))
          (host, there, pin, found, spent)
  ]

  -- The tests of `evaluate` before the DNS pins.
  evaluate-allow :
      (g : ScopeGateway f u lib) (intent : RequestIntent u) (elapsed : ℕ) (status : AuditPinStatus)
      (d : GatewayDecision)
      → let r = evaluate f u lib g intent elapsed (map assess_destination intent.resolved_ips) in
        r.0 ≡ ok (d, status) → d.outcome ≡ allow → Cleared g intent elapsed r.1
  unfolding evaluate allocate_decision_id
  evaluate-allow g intent elapsed status d =
      let ips = intent.resolved_ips in
      let assessments = map assess_destination ips in
      elim (Bool-cases (ltb g.maximum_redirects intent.redirect_depth)) [
        | inl deep ↦ rw (evaluate, deep) (λ e a. absurd (deny-allow _ _ _ d status e a))
        | inr shallow ↦ elim (Bool-cases (allows_request u g.policy intent.url intent.method)) [
          | inr out ↦ rw (evaluate, shallow, out) (λ e a. absurd (deny-allow _ _ _ d status e a))
          | inl scoped ↦ elim (Bool-cases (is_empty assessments)) [
            | inl empty ↦
                rw (evaluate, shallow, scoped, empty)
                  (λ e a. absurd (deny-allow _ _ _ d status e a))
            | inr some_address ↦ elim (Option-cases (first_refused assessments)) [
              | inr (x, bad) ↦
                  rw (evaluate, shallow, scoped, some_address, bad)
                    (λ e a. absurd (deny-allow _ _ _ d status e a))
              | inl good ↦
                  rw (evaluate, shallow, scoped, some_address, good)
                    (λ e a.
                      let (host, there, pin, found, spent) =
                        evaluate_dns-allow (allocate_decision_id f u lib g).1 _ intent elapsed
                          status d e a in
                      (
                        ground arith,
                        refl,
                        λ no_ip. absurd (
                            false≢true (
                              sym some_address
                              ∙ ap (λ x. is_empty (map assess_destination x)) no_ip)),
                        first_refused-none ips good,
                        host,
                        there,
                        pin,
                        found,
                        spent,
                      ))
            ]
          ]
        ]
      ]

  -- A request is allowed only if its redirect depth is within the limit, the policy allows its URL
  -- and method, its addresses are there and all public, its host and addresses agree with the DNS
  -- pin of its context or have just been pinned, and the budget had a request left for it.
  pub authorize-allow :
      (g : ScopeGateway f u lib) (intent : RequestIntent u) (elapsed : ℕ) (d : GatewayDecision)
      → (authorize f u lib g intent elapsed).0 ≡ ok d
      → d.outcome ≡ allow
      → Cleared g intent elapsed (authorize f u lib g intent elapsed).1
  unfolding authorize
  authorize-allow g intent elapsed d e a =
      let assessments = map assess_destination intent.resolved_ips in
      let r = evaluate f u lib g intent elapsed assessments in
      let (status, answered, chain, appended, after) =
        authorize_evaluated-ok f u lib intent elapsed assessments r.0 r.1 d e in
      subst (Cleared g intent elapsed) (sym after)
        (evaluate-allow g intent elapsed status d answered a)
