-- ===== src/Gateway/Granting.antt =====
-- crates/nxb-gateway/src/lib.rs: a request that passes every test is allowed.

use bound_seal.Common.{
  ℕ, ◌≡◌, ◌≢◌, refl, ◌∙◌, ap, true, none, List, [], ◌∷◌, ltb, map, all, is_empty, Result, ok, arith,
  false,
}
use bound_seal.Std.Ip.{IpAddr}
use bound_seal.Std.Float.{Float64}
use bound_seal.External.{UrlLib}
use bound_seal.Destination.{assess_destination, is_public_destination}
use bound_seal.Audit.{HashLib, AuditChain, append}
use bound_seal.Audit.Event.{AuditEvent}
use bound_seal.Gateway.Types.{
  RequestIntent, allow, GatewayDecision, Panic, AuditPinStatus, authorized,
}
use bound_seal.Gateway.Stages.{evaluate-Charged}
use bound_seal.Gateway.Allowing.{Cleared}
use bound_seal.Gateway.Events.{audit_event}
use bound_seal.Gateway.{
  ScopeGateway, budget_decision, first_refused, allocate_decision_id, evaluate_budget, evaluate_pin,
  evaluate_dns, evaluate, authorize, pin_status, decision_id, authorize_evaluated, commit,
}

public-first_refused :
    (ips : List IpAddr)
    → all is_public_destination ips ≡ true
    → first_refused (map assess_destination ips) ≡ none
unfolding is_public_destination
public-first_refused [] e = refl
public-first_refused (ip ∷ ips) e = ground (arith, public-first_refused ips)

is_empty-map : (ips : List IpAddr) → ips ≢ [] → is_empty (map assess_destination ips) ≡ false
is_empty-map [] h = absurd (h refl)
is_empty-map (ip ∷ ips) h = refl

module _ (f : Float64) (u : UrlLib) (lib : HashLib AuditEvent) where
  -- The decision that allows, under the next identifier.
  abbrev pub granted : ScopeGateway f u lib → GatewayDecision
  granted g = record {
    decision_id = decision_id g.next_decision_id;
    outcome = allow;
    reason = authorized;
  }

  evaluate-Cleared :
      (g h : ScopeGateway f u lib) (intent : RequestIntent u) (elapsed : ℕ)
      (cleared : Cleared f u lib g intent elapsed h)
      → (evaluate f u lib g intent elapsed (map assess_destination intent.resolved_ips)).0
        ≡ ok (granted g, pin_status cleared.6)
  unfolding evaluate evaluate_dns evaluate_pin evaluate_budget budget_decision allocate_decision_id
  evaluate-Cleared g h intent elapsed
        (depth, scoped, some_ip, open_ips, host, there, pin, found, spent) =
      let shallow : ltb g.maximum_redirects intent.redirect_depth ≡ false = ground arith in
      rw
        (
          shallow,
          scoped,
          is_empty-map intent.resolved_ips some_ip,
          public-first_refused intent.resolved_ips open_ips,
        )
        (rw (evaluate_dns, there) (rw found (rw spent refl)))

  -- The event that records the decision that allows, with what the DNS pins answered.
  abbrev pub granted_event :
      (g h : ScopeGateway f u lib) (intent : RequestIntent u) (elapsed : ℕ)
      → Cleared f u lib g intent elapsed h
      → AuditEvent
  granted_event g h intent elapsed cleared =
      audit_event u intent elapsed (map assess_destination intent.resolved_ips) (granted g)
        (pin_status cleared.6)

  -- A request that passes every test is allowed, unless its audit record cannot be written: with
  -- the redirect depth, the policy, the addresses, the DNS pins and the budget as `authorize`
  -- requires them, and an audit chain that takes the event that records this, the answer is the
  -- decision that allows, under the next identifier, and the chain is the one with that event.
  pub authorize-Cleared :
      (g h : ScopeGateway f u lib) (intent : RequestIntent u) (elapsed : ℕ)
      (chain : AuditChain AuditEvent) (cleared : Cleared f u lib g intent elapsed h)
      → append lib g.audit (granted_event g h intent elapsed cleared) ≡ ok chain
      → ((authorize f u lib g intent elapsed).0 ≡ ok (granted g))
        × ((authorize f u lib g intent elapsed).1.audit ≡ chain)
  unfolding authorize authorize_evaluated commit
  authorize-Cleared g h intent elapsed chain cleared written =
      let assessments = map assess_destination intent.resolved_ips in
      let r = evaluate f u lib g intent elapsed assessments in
      let made = evaluate-Cleared g h intent elapsed cleared in
      let unchanged : r.1.audit ≡ g.audit =
        (evaluate-Charged f u lib g intent elapsed assessments).0 in
      answered r.0 r.1 (pin_status cleared.6) made
        (ap (λ c. append lib c (granted_event g h intent elapsed cleared)) unchanged ∙ written)
    where
      answered :
          (r : Result Panic (GatewayDecision × AuditPinStatus)) (k : ScopeGateway f u lib)
          (status : AuditPinStatus)
          → r ≡ ok (granted g, status)
          → append lib k.audit (
              audit_event u intent elapsed
                (map assess_destination intent.resolved_ips)
                (granted g)
                status)
            ≡ ok chain
          → let after =
              authorize_evaluated f u lib intent elapsed
                (map assess_destination intent.resolved_ips)
                (r, k) in
            (after.0 ≡ ok (granted g)) × (after.1.audit ≡ chain)
      answered r k status made written = rw made (rw (commit, written) (refl, refl))
