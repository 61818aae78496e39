-- ===== src/Gateway/Histories.antt =====
-- crates/nxb-gateway/src/lib.rs: the audit and the budget over any history of calls.

use bound_seal.Common.{
  ℕ, ◌+◌, ◌≤◌, ◌≡◌, refl, sym, ◌∙◌, ap, List, [], ◌∷◌, map, Result, ok, err, arith, Result-cases,
  inl, inr,
}
use bound_seal.Std.Text.{Text}
use bound_seal.Std.Float.{Float64}
use bound_seal.External.{UrlLib}
use bound_seal.Destination.{DestinationAssessment, assess_destination}
use bound_seal.Budget
use bound_seal.Audit.{AuditChain, HashLib, append, verify}
use bound_seal.Audit.Event.{AuditEvent}
use bound_seal.Gateway.Types.{RequestIntent, GatewayDecision, Panic, AuditPinStatus, Failure}
use bound_seal.Audit
use bound_seal.Audit.Replay.{append-verify, new-verify}
use bound_seal.Policy.Types.{CompiledPolicy}
use bound_seal.Gateway.Stages.{outcome_count, authorize_evaluated-ok, evaluate-Charged, Charged}
use bound_seal.Gateway
use bound_seal.Gateway.Events.{audit_event}
use bound_seal.Gateway.{
  new, ScopeGateway, refuse, release_dns_context, complete_request, deny, decision_id,
  budget_decision, first_refused, allocate_decision_id, observation, evaluate_budget, evaluate_pin,
  evaluate_dns, evaluate, commit, authorize_evaluated, authorize,
}

-- The calls of a client on a gateway.
pub data Call (u : UrlLib) : Type 0 where
  authorizes : RequestIntent u → ℕ → Call u
  completes : Call u
  releases : Text → Call u

-- 1 for an answer that allows.
abbrev pub allows_answer : Result Failure GatewayDecision → ℕ
allows_answer (ok d) = outcome_count d.outcome
allows_answer (err _) = 0

module _ (f : Float64) (u : UrlLib) (lib : HashLib AuditEvent) where
  -- A decision is answered only with its audit record: the chain has grown by one record, of the
  -- decision's event.
  pub authorize-recorded :
      (g : ScopeGateway f u lib) (intent : RequestIntent u) (elapsed : ℕ) (d : GatewayDecision)
      → (authorize f u lib g intent elapsed).0 ≡ ok d
      → (status : AuditPinStatus) × (append lib g.audit
            (audit_event u intent elapsed (map assess_destination intent.resolved_ips) d status)
          ≡ ok (authorize f u lib g intent elapsed).1.audit)
  unfolding authorize
  authorize-recorded g intent elapsed d e =
      let assessments = map assess_destination intent.resolved_ips in
      let r = evaluate f u lib g intent elapsed assessments in
      let (status, answered, chain, appended, after) =
        authorize_evaluated-ok f u lib intent elapsed assessments r.0 r.1 d e in
      let unchanged : r.1.audit ≡ g.audit =
        (evaluate-Charged f u lib g intent elapsed assessments).0 in
      (
        status,
        ap (λ c. append lib c (audit_event u intent elapsed assessments d status)) (sym unchanged)
            ∙ appended
            ∙ ap (λ x. ok x.audit) (sym after),
      )

  -- A history of calls, with the number of requests that it has allowed.
  unfoldable pub run : ScopeGateway f u lib → ℕ → List (Call u) → ℕ × ScopeGateway f u lib
  run g n [] = (n, g)
  run g n (authorizes intent elapsed ∷ cs) =
      let (answer, h) = authorize f u lib g intent elapsed in run h (allows_answer answer + n) cs
  run g n (completes ∷ cs) = run (complete_request f u lib g) n cs
  run g n (releases context_id ∷ cs) = run (release_dns_context f u lib g context_id).1 n cs

  -- What a history keeps, between `n` requests allowed before and `m` after.
  abbrev Sound : ScopeGateway f u lib → Type 0
  Sound g = (verify lib g.audit ≡ ok tt) × (g.budget.in_flight ≤ g.budget.max_concurrency)

  -- What a call leaves that allowed `n` requests.
  abbrev Step : ScopeGateway f u lib → ℕ → ScopeGateway f u lib → Type 0
  Step g n h =
      (verify lib h.audit ≡ ok tt)
      × (h.budget.in_flight ≤ h.budget.max_concurrency)
      × (n + h.budget.remaining ≤ g.budget.remaining)
      × (h.budget.max_concurrency ≡ g.budget.max_concurrency)

  authorize_evaluated-Step :
      (g : ScopeGateway f u lib) (intent : RequestIntent u) (elapsed : ℕ)
      (assessments : List DestinationAssessment)
      (r : Result Panic (GatewayDecision × AuditPinStatus)) (h : ScopeGateway f u lib)
      → Sound g
      → Charged f u lib g (r, h)
      → let (answer, k) = authorize_evaluated f u lib intent elapsed assessments (r, h) in
        Step g (allows_answer answer) k
  unfolding authorize_evaluated commit
  authorize_evaluated-Step g intent elapsed assessments (err p) h (verified, room)
        (chain, _, _, left, _, cap, fits) =
      (ap (verify lib) chain ∙ verified, omega (arith, fits room, cap), omega (arith, left), cap)
  authorize_evaluated-Step g intent elapsed assessments (ok (d, status)) h (verified, room)
        (chain, _, _, left, _, cap, fits) =
      let kept : verify lib h.audit ≡ ok tt = ap (verify lib) chain ∙ verified in
      let event = audit_event u intent elapsed assessments d status in
      elim (Result-cases (append lib h.audit event)) [
        | inl (longer, e) ↦ rw e (
          append-verify lib h.audit longer event kept e,
          omega (arith, fits room, cap),
          omega (arith, left),
          cap,
        )
        | inr (x, e) ↦ rw e (kept, omega (arith, fits room, cap), omega (arith, left), cap)
      ]

  run-Sound :
      (g : ScopeGateway f u lib) (n : ℕ) (cs : List (Call u))
      → Sound g
      → let (m, h) = run g n cs in
        Sound h
        × (m + h.budget.remaining ≤ n + g.budget.remaining)
        × (h.budget.max_concurrency ≡ g.budget.max_concurrency)
  unfolding run authorize complete_request release_dns_context Budget.finish
  run-Sound g n [] sound = (sound, omega arith, refl)
  run-Sound g n (authorizes intent elapsed ∷ cs) sound =
      let assessments = map assess_destination intent.resolved_ips in
      let r = evaluate f u lib g intent elapsed assessments in
      let (answer, h) = authorize f u lib g intent elapsed in
      let (verified, room, left, cap) =
        authorize_evaluated-Step g intent elapsed assessments r.0 r.1 sound
          (evaluate-Charged f u lib g intent elapsed assessments) in
      let (sound', left', cap') = run-Sound h (allows_answer answer + n) cs (verified, room) in
      (sound', omega (arith, left, left'), cap' ∙ cap)
  run-Sound g n (completes ∷ cs) (verified, room) =
      run-Sound (complete_request f u lib g) n cs (verified, omega (arith, room))
  run-Sound g n (releases context_id ∷ cs) sound =
      run-Sound (release_dns_context f u lib g context_id).1 n cs sound

  new-starts :
      (policy : CompiledPolicy f.F) (maximum_redirects : ℕ) (g : ScopeGateway f u lib)
      → Gateway.new f u lib policy maximum_redirects ≡ ok g
      → (g.budget.remaining ≡ policy.inner.automation.max_total_requests)
        × (g.budget.max_concurrency ≡ policy.inner.automation.max_concurrency)
        × (g.budget.in_flight ≡ 0)
        × (g.audit ≡ Audit.new lib)
  unfolding Gateway.new Budget.new
  new-starts policy maximum_redirects g made = ground arith

  -- From a new gateway, over any history of its calls, the requests allowed and the requests
  -- remaining are together at most the policy's total, no more requests are in flight than the
  -- policy's concurrency, and the audit chain verifies.
  pub run-bounds :
      (policy : CompiledPolicy f.F) (maximum_redirects : ℕ) (g : ScopeGateway f u lib)
      (cs : List (Call u))
      → Gateway.new f u lib policy maximum_redirects ≡ ok g
      → let (allowed, h) = run g 0 cs in
        (allowed + h.budget.remaining ≤ policy.inner.automation.max_total_requests)
        × (h.budget.in_flight ≤ policy.inner.automation.max_concurrency)
        × (verify lib h.audit ≡ ok tt)
  run-bounds policy maximum_redirects g cs made =
      let (total, capped, idle, empty) = new-starts policy maximum_redirects g made in
      let (sound, left, cap) =
        run-Sound g 0 cs (ap (verify lib) empty ∙ new-verify lib, omega (arith, idle)) in
      (omega (arith, left, total), omega (arith, sound.1, cap, capped), sound.0)
