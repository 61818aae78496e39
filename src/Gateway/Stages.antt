-- ===== src/Gateway/Stages.antt =====
-- crates/nxb-gateway/src/lib.rs: what the stages of `authorize` change.

use bound_seal.Common.{
  ℕ, ◌+◌, ◌≤◌, ◌≡◌, refl, sym, ◌∙◌, ap, true, List, ltb, is_empty, Result, ok, err, ◌>>=◌, arith,
  Option-cases, Bool-cases, Result-cases, inl, inr,
}
use bound_seal.Std.Text.{Text}
use bound_seal.Std.Float.{Float64}
use bound_seal.External.{UrlLib}
use bound_seal.Policy.Compile.{allows_request}
use bound_seal.Destination.{DestinationAssessment}
use bound_seal.Budget
use bound_seal.Budget.Accounting.{start-counts}
use bound_seal.Dns.{DnsPinStatus, DnsPinSet, DnsPinError}
use bound_seal.Audit.{AuditChain, HashLib, append}
use bound_seal.Audit.Event.{AuditEvent}
use bound_seal.Gateway.Types.{
  RequestIntent, DecisionOutcome, allow, denied, DecisionReason, GatewayDecision, Panic,
  AuditPinStatus,
}
use bound_seal.Gateway.Events.{audit_event}
use bound_seal.Gateway.{
  ScopeGateway, refuse, budget_decision, first_refused, allocate_decision_id, evaluate_budget,
  evaluate_pin, evaluate_dns, evaluate, commit, authorize_evaluated,
}

-- 1 for an outcome that allows.
abbrev pub outcome_count : DecisionOutcome → ℕ
outcome_count allow = 1
outcome_count denied = 0

abbrev pub allows : Result Panic (GatewayDecision × AuditPinStatus) → ℕ
allows (ok (d, _)) = outcome_count d.outcome
allows (err _) = 0

module _ (f : Float64) (u : UrlLib) (lib : HashLib AuditEvent) where
  open u use {host_str}

  -- What `authorize` has done when it answers a decision.
  pub authorize_evaluated-ok :
      (intent : RequestIntent u) (elapsed : ℕ) (assessments : List DestinationAssessment)
      (r : Result Panic (GatewayDecision × AuditPinStatus)) (h : ScopeGateway f u lib)
      (d : GatewayDecision)
      → (authorize_evaluated f u lib intent elapsed assessments (r, h)).0 ≡ ok d
      → (status : AuditPinStatus) × (r ≡ ok (d, status))
        × (chain : AuditChain AuditEvent) × (append lib h.audit
              (audit_event u intent elapsed assessments d status)
            ≡ ok chain)
        × ((authorize_evaluated f u lib intent elapsed assessments (r, h)).1
            ≡ record h { audit = chain })
  unfolding authorize_evaluated commit
  authorize_evaluated-ok intent elapsed assessments (err p) h d = λ e. cc e
  authorize_evaluated-ok intent elapsed assessments (ok (d0, status)) h d =
      elim (Result-cases
        (append lib h.audit (audit_event u intent elapsed assessments d0 status))) [
          | inl (chain, e) ↦ rw e (λ same_d.
              let here : d0 ≡ d = cc same_d in
              (
                status,
                ap (λ x. ok (x, status)) here,
                chain,
                ap (λ x. append lib h.audit (audit_event u intent elapsed assessments x status))
                      (sym here)
                    ∙ e,
                refl,
              ))
          | inr (x, e) ↦ rw e (λ same_d. cc same_d)
        ]

  -- `evaluate` refuses before the DNS pins, or goes on to them.
  pub evaluate-elim :
      (g : ScopeGateway f u lib) (intent : RequestIntent u) (elapsed : ℕ)
      (assessments : List DestinationAssessment)
      (P : Result Panic (GatewayDecision × AuditPinStatus) × ScopeGateway f u lib → Type 0)
      → ((reason : DecisionReason)
          → P (
              refuse f u lib
                (allocate_decision_id f u lib g).1
                (allocate_decision_id f u lib g).0
                reason))
      → (allows_request u (allocate_decision_id f u lib g).1.policy intent.url intent.method ≡ true
          → P (
              evaluate_dns f u lib
                (allocate_decision_id f u lib g).1
                (allocate_decision_id f u lib g).0
                intent
                elapsed))
      → P (evaluate f u lib g intent elapsed assessments)
  unfolding evaluate
  evaluate-elim g intent elapsed assessments P refused passed =
      let h = (allocate_decision_id f u lib g).1 in
      elim (Bool-cases (ltb h.maximum_redirects intent.redirect_depth)) [
        | inl deep ↦ rw (evaluate, deep) (refused _)
        | inr shallow ↦ elim (Bool-cases (allows_request u h.policy intent.url intent.method)) [
          | inr out ↦ rw (evaluate, shallow, out) (refused _)
          | inl scoped ↦ elim (Bool-cases (is_empty assessments)) [
            | inl empty ↦ rw (evaluate, shallow, scoped, empty) (refused _)
            | inr some_address ↦ elim (Option-cases (first_refused assessments)) [
              | inr (x, bad) ↦ rw (evaluate, shallow, scoped, some_address, bad) (refused _)
              | inl good ↦ rw (evaluate, shallow, scoped, some_address, good) (passed scoped)
            ]
          ]
        ]
      ]

  -- The state keeps its policy, its limit and its audit chain, and its budget counts an allowed
  -- request and nothing else.
  abbrev pub Charged :
      ScopeGateway f u lib
      → Result Panic (GatewayDecision × AuditPinStatus) × ScopeGateway f u lib
      → Type 0
  Charged g (r, h) =
      (h.audit ≡ g.audit)
      × (h.policy ≡ g.policy)
      × (h.maximum_redirects ≡ g.maximum_redirects)
      × (allows r + h.budget.remaining ≡ g.budget.remaining)
      × (h.budget.in_flight ≡ g.budget.in_flight + allows r)
      × (h.budget.max_concurrency ≡ g.budget.max_concurrency)
      × (g.budget.in_flight ≤ g.budget.max_concurrency
          → h.budget.in_flight ≤ g.budget.max_concurrency)

  refuse-Charged :
      (g : ScopeGateway f u lib) (id : Text) (reason : DecisionReason)
      → Charged g (refuse f u lib g id reason)
  refuse-Charged g id reason = (refl, refl, refl, omega arith, omega arith, refl, λ h. h)

  budget_decision-allows :
      (id : Text) (r : Result Budget.Failure (Unit {0})) (status : AuditPinStatus)
      → allows (budget_decision id r >>= λ d. ok (d, status)) ≡ Budget.count_ok r 0
  unfolding budget_decision
  budget_decision-allows id (ok tt) status = refl
  budget_decision-allows id (err (Budget.returned Budget.exhausted)) status = refl
  budget_decision-allows id (err (Budget.returned Budget.concurrency_exceeded)) status = refl
  budget_decision-allows id (err (Budget.returned (Budget.rate_limited n))) status = refl
  budget_decision-allows id (err (Budget.returned (Budget.invalid_configuration x))) status = refl
  budget_decision-allows id (err Budget.panicked) status = refl

  evaluate_budget-Charged :
      (g : ScopeGateway f u lib) (id : Text) (elapsed : ℕ) (status : AuditPinStatus)
      → Charged g (evaluate_budget f u lib g id elapsed status)
  unfolding evaluate_budget
  evaluate_budget-Charged g id elapsed status =
      let started = Budget.try_start f g.budget elapsed in
      let (left, running, capped, room) = start-counts f g.budget elapsed in
      let count = budget_decision-allows id started.0 status in
      (refl, refl, refl, omega (arith, left, count), omega (arith, running, count), capped, room)

  evaluate_pin-Charged :
      (g : ScopeGateway f u lib) (id : Text) (elapsed : ℕ)
      (answer : Result DnsPinError (DnsPinStatus × DnsPinSet))
      → Charged g (evaluate_pin f u lib g id elapsed answer)
  unfolding evaluate_pin
  evaluate_pin-Charged g id elapsed (ok (pin, pins)) =
      evaluate_budget-Charged (record g { dns_pins = pins }) id elapsed _
  evaluate_pin-Charged g id elapsed (err x) =
      (refl, refl, refl, omega arith, omega arith, refl, λ h. h)

  evaluate_dns-Charged :
      (g : ScopeGateway f u lib) (id : Text) (intent : RequestIntent u) (elapsed : ℕ)
      → Charged g (evaluate_dns f u lib g id intent elapsed)
  unfolding evaluate_dns
  evaluate_dns-Charged g id intent elapsed = elim (Option-cases (host_str intent.url)) [
    | inl e ↦ rw (evaluate_dns, e) (refl, refl, refl, omega arith, omega arith, refl, λ h. h)
    | inr (host, e) ↦ rw (evaluate_dns, e) (evaluate_pin-Charged g id elapsed _)
  ]

  pub evaluate-Charged :
      (g : ScopeGateway f u lib) (intent : RequestIntent u) (elapsed : ℕ)
      (assessments : List DestinationAssessment)
      → Charged g (evaluate f u lib g intent elapsed assessments)
  unfolding allocate_decision_id
  evaluate-Charged g intent elapsed assessments =
      evaluate-elim g intent elapsed assessments (Charged g)
        (refuse-Charged (allocate_decision_id f u lib g).1 (allocate_decision_id f u lib g).0)
        (λ _.
          evaluate_dns-Charged (allocate_decision_id f u lib g).1 (allocate_decision_id f u lib g).0
            intent elapsed)
