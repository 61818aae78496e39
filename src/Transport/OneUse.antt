-- ===== src/Transport/OneUse.antt =====
-- crates/nxb-transport/src/lib.rs: a ticket is good for one use.
use mathlib.Core.Bool.{false≢true}
use bound_seal.Common.{
  ℕ, ◌+◌, ◌≤◌, ◌<◌, ◌≡◌, ◌≢◌, refl, sym, ap, subst, false, none, List, [], ◌∷◌, length, Result, ok,
  err, arith, u64_max, Option-cases, Result-cases, inl, inr,
}
use bound_seal.Std.Text.{Text}
use bound_seal.Std.Order.{list_ord, nat_ord}
use bound_seal.Std.Collections.{map_get}
use bound_seal.Transport.Types.{
  TicketIssueRequest, ConnectionTicket, ConnectionAttempt, unknown_ticket, StoredTicketState,
  issued, used, withdrawn, TicketAuthority,
}
use bound_seal.Transport.Authority.{
  new, ticket_id, issue, consume, consume_stored, is_issued, revoke_context,
}
use bound_seal.Transport.Spending.{
  Fresh, Spent, issue-stores, store-Fresh, store-Spent, store-next, consume-none, consume-next,
  consume-keeps-Spent, consume-Spent, consume-known, consume-unknown, revoke-Spent, revoke-none,
  revoke-next,
}

-- The calls on an authority.
pub data Call : Type 0 where
  issues : TicketIssueRequest → Call
  consumes : ConnectionAttempt → ℕ → Call
  revokes : Text → Call

abbrev issued_to {ℓ} :
    {A : Type ℓ} → TicketAuthority → Result A (ConnectionTicket × TicketAuthority) → TicketAuthority
issued_to a (ok (_, b)) = b
issued_to a (err _) = a

module _ (sha256 : List ℕ → List ℕ) where
  unfoldable pub step : TicketAuthority → Call → TicketAuthority
  step a (issues request) = issued_to a (issue sha256 a request)
  step a (consumes attempt now) = (consume a attempt now).1
  step a (revokes context) = (revoke_context a context).1

  unfoldable pub run : TicketAuthority → List Call → TicketAuthority
  run a [] = a
  run a (c ∷ cs) = run (step a c) cs

module _ (sha256 : List ℕ → List ℕ) where
  -- Every call keeps the identifiers to come unused, and takes at most one.
  step-Fresh :
      (a : TicketAuthority) (c : Call)
      → a.next_ticket_id < u64_max
      → Fresh a
      → Fresh (step sha256 a c)
        × ((step sha256 a c).next_ticket_id ≤ a.next_ticket_id + 1)
        × ((id : Text) → Spent id a → Spent id (step sha256 a c))
  unfolding step
  step-Fresh a (issues request) room fresh = elim (Result-cases (issue sha256 a request)) [
    | inl ((ticket, b), e) ↦
        let stored = issue-stores sha256 a b request ticket e in
        rw e (
          rw stored (
            store-Fresh a ticket room fresh,
            omega (arith, store-next a ticket),
            λ id. store-Spent a ticket id room fresh,
          ))
    | inr (_, e) ↦ rw e (fresh, omega arith, λ id s. s)
  ]
  step-Fresh a (consumes attempt now) room fresh = (
    λ n h k.
        consume-none a attempt now (ticket_id n)
          (fresh n (omega (arith, consume-next a attempt now)) k),
    omega (arith, consume-next a attempt now),
    λ id. consume-keeps-Spent a attempt now id,
  )
  step-Fresh a (revokes context) room fresh = (
    λ n h k. revoke-none a context (ticket_id n) (fresh n (omega (arith, revoke-next a context)) k),
    omega (arith, revoke-next a context),
    λ id. revoke-Spent a context id,
  )

  -- The authority after a list of calls, when there is room for its tickets.
  run-Fresh :
      (cs : List Call) (a : TicketAuthority)
      → a.next_ticket_id + length cs ≤ u64_max
      → Fresh a
      → Fresh (run sha256 a cs)
        × ((id : Text) → Spent id a → Spent id (run sha256 a cs))
        × ((run sha256 a cs).next_ticket_id ≤ a.next_ticket_id + length cs)
  unfolding run
  run-Fresh [] a room fresh = (fresh, λ id s. s, omega arith)
  run-Fresh (c ∷ cs) a room fresh =
      let (fresh1, next1, spent1) = step-Fresh a c (omega arith) fresh in
      let (fresh2, spent2, next2) = run-Fresh cs (step sha256 a c) (omega arith) fresh1 in
      (fresh2, λ id s. spent2 id (spent1 id s), omega arith)

  new-Fresh : Fresh new
  unfolding new map_get
  new-Fresh n h k = refl

  -- An attempt on a spent ticket is refused.
  Spent-refused :
      (a : TicketAuthority) (attempt : ConnectionAttempt) (now : ℕ)
      → Spent attempt.ticket_id a
      → (consume a attempt now).0.permit ≡ none
  unfolding consume_stored
  Spent-refused a attempt now (s, found, spent) =
      rw (consume-known a attempt now s found) (refused s.state s.ticket spent)
    where
      refused :
          (st : StoredTicketState) (t : ConnectionTicket)
          → is_issued st ≡ false
          → (consume_stored a attempt now st t).0.permit ≡ none
      refused issued t e = absurd (false≢true (sym e))
      refused used t e = refl
      refused withdrawn t e = refl

  -- After any calls on a new authority, an attempt that names a ticket of its spends it: after any
  -- further calls, no attempt that names that ticket gets a permit. The calls are fewer than 2^64.
  pub no_second_use :
      (before after : List Call) (first again : ConnectionAttempt) (now later : ℕ)
      → length before + length after < u64_max
      → (consume (run sha256 new before) first now).0.outcome ≢ unknown_ticket
      → again.ticket_id ≡ first.ticket_id
      → (consume
          (run sha256 (consume (run sha256 new before) first now).1 after)
          again
          later).0.permit
        ≡ none
  unfolding new
  no_second_use before after first again now later room known same_ticket =
      let a = run sha256 new before in
      let (fresh, _, next) = run-Fresh before new (omega arith) new-Fresh in
      elim (Option-cases (map_get first.ticket_id a.tickets)) [
        | inl e ↦ absurd (known (ap (λ r. r.0.outcome) (consume-unknown a first now e)))
        | inr (s, e) ↦
            let b = (consume a first now).1 in
            let used_up : Spent first.ticket_id b = consume-Spent a first now s e in
            let fresh_b : Fresh b = λ n h k.
              consume-none a first now (ticket_id n)
                (fresh n (omega (arith, consume-next a first now)) k) in
            let (_, keep, _) =
              run-Fresh after b (omega (arith, consume-next a first now)) fresh_b in
            Spent-refused (run sha256 b after) again later (
              subst (λ k. Spent k (run sha256 b after)) (sym same_ticket)
                (keep first.ticket_id used_up))
      ]
