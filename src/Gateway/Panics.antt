-- ===== src/Gateway/Panics.antt =====
-- crates/nxb-gateway/src/lib.rs: which of the panics of `evaluate` can come.
use mathlib.Core.Bool.{false≢true}
use bound_seal.Common.{
  ℕ, ◌≡◌, ◌≢◌, refl, sym, ◌∙◌, true, false, none, List, Result, ok, err, ◌>>=◌, arith, Option-cases,
  inl, inr,
}
use bound_seal.Std.Text.{Text}
use bound_seal.Std.Float.{Float64}
use bound_seal.External.{UrlLib}
use bound_seal.Policy.Compile.{allows_request}
use bound_seal.Destination.{DestinationAssessment}
use bound_seal.Budget
use bound_seal.Budget.Accounting.{try_start-valid}
use bound_seal.Gateway.Stages.{evaluate-elim}
use bound_seal.Policy.Types.{CompiledPolicy}
use bound_seal.Gateway.Types.{bad_duration, RequestIntent, GatewayDecision, Panic, AuditPinStatus}
use bound_seal.Dns.{DnsPinStatus, DnsPinSet, DnsPinError}
use bound_seal.Audit.{HashLib}
use bound_seal.Audit.Event.{AuditEvent}
use bound_seal.Gateway.{
  ScopeGateway, budget_decision, allocate_decision_id, evaluate_budget, evaluate_pin, evaluate_dns,
  evaluate,
}

allows_request-host :
    (u : UrlLib) {R : Type 0} (policy : CompiledPolicy R) (url : u.Url) (method : Text)
    → allows_request u policy url method ≡ true
    → u.host_str url ≢ none
unfolding allows_request
allows_request-host u policy url method allowed missing =
    let out : allows_request u policy url method ≡ false =
      rw (allows_request, missing) (ground arith) in
    absurd (false≢true (sym out ∙ allowed))

abbrev answered :
    AuditPinStatus → Result Panic GatewayDecision → Result Panic (GatewayDecision × AuditPinStatus)
answered status r = r >>= λ decision. ok (decision, status)

budget_decision-panic :
    (id : Text) (r : Result Budget.Failure (Unit {0})) (status : AuditPinStatus) (p : Panic)
    → ((e : Budget.InvalidBudget) → r ≢ err (Budget.returned (Budget.invalid_configuration e)))
    → answered status (budget_decision id r) ≡ err p
    → p ≡ bad_duration
unfolding budget_decision
budget_decision-panic id (ok _) status p valid e = cc
budget_decision-panic id (err (Budget.returned Budget.exhausted)) status p valid e = cc
budget_decision-panic id (err (Budget.returned Budget.concurrency_exceeded)) status p valid e = cc
budget_decision-panic id (err (Budget.returned (Budget.rate_limited n))) status p valid e = cc
budget_decision-panic id (err (Budget.returned (Budget.invalid_configuration x))) status p valid e =
    absurd (valid x refl)
budget_decision-panic id (err Budget.panicked) status p valid e = cc

module _ (f : Float64) (u : UrlLib) (lib : HashLib AuditEvent) where
  open u use {host_str}

  abbrev OnlyDuration :
      Result Panic (GatewayDecision × AuditPinStatus) × ScopeGateway f u lib → Type 0
  OnlyDuration (r, _) = (p : Panic) → r ≡ err p → p ≡ bad_duration

  evaluate_pin-OnlyDuration :
      (g : ScopeGateway f u lib) (id : Text) (elapsed : ℕ)
      (answer : Result DnsPinError (DnsPinStatus × DnsPinSet))
      → OnlyDuration (evaluate_pin f u lib g id elapsed answer)
  unfolding evaluate_pin evaluate_budget
  evaluate_pin-OnlyDuration g id elapsed (ok (pin, pins)) p e =
      budget_decision-panic id (Budget.try_start f g.budget elapsed).0 _ p
        (try_start-valid f g.budget elapsed) e
  evaluate_pin-OnlyDuration g id elapsed (err x) p e = cc

  evaluate_dns-OnlyDuration :
      (g : ScopeGateway f u lib) (id : Text) (intent : RequestIntent u) (elapsed : ℕ)
      → allows_request u g.policy intent.url intent.method ≡ true
      → OnlyDuration (evaluate_dns f u lib g id intent elapsed)
  unfolding evaluate_dns
  evaluate_dns-OnlyDuration g id intent elapsed allowed =
      elim (Option-cases (host_str intent.url)) [
        | inl e ↦ absurd (allows_request-host u g.policy intent.url intent.method allowed e)
        | inr (host, e) ↦ rw (evaluate_dns, e) (evaluate_pin-OnlyDuration g id elapsed _)
      ]

  -- Neither the `expect` on the host nor the `unreachable!` on the budget's configuration is ever
  -- reached: if `evaluate` panics, it is in the conversion of the delay to a duration.
  pub evaluate-panic :
      (g : ScopeGateway f u lib) (intent : RequestIntent u) (elapsed : ℕ)
      (assessments : List DestinationAssessment) (p : Panic)
      → (evaluate f u lib g intent elapsed assessments).0 ≡ err p
      → p ≡ bad_duration
  evaluate-panic g intent elapsed assessments =
      evaluate-elim f u lib g intent elapsed assessments OnlyDuration (λ reason p e. cc)
        (evaluate_dns-OnlyDuration (allocate_decision_id f u lib g).1
          (allocate_decision_id f u lib g).0 intent elapsed)
