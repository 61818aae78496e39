-- ===== src/Transport/Spending.antt =====
-- crates/nxb-transport/src/lib.rs: how the calls change the stored tickets.
use mathlib.Core.Option
use bound_seal.Common.{
  ℕ, ◌+◌, ◌≤◌, ◌<◌, ◌≡◌, refl, sym, ◌∙◌, ap, subst, false, not, ◌||◌, ◌==◌, ltb, none, some, List,
  [], ◌∷◌, drop, ok, arith, u64_max, Option-cases, Bool-cases, >>=-eq-ok, fail_if-then, inl, inr,
}
use bound_seal.Std.Text.{Text, text}
use bound_seal.Std.Text.Padding.{padded-injective}
use bound_seal.Std.Order.{list_ord, nat_ord, same, same_iff, same_refl}
use bound_seal.Std.Collections.{map_get, get-insert}
use bound_seal.Transport.Types.{
  TicketIssueRequest, ConnectionTicket, ConnectionAttempt, unknown_ticket, StoredTicketState,
  issued, used, withdrawn, StoredTicket, TicketAuthority,
}
use bound_seal.Transport.Binding.{
  normalize_identifier, is_lower_hex_sha256, normalize_and_validate_binding,
}
use bound_seal.Transport.Authority.{
  ticket_id, allocate_ticket_id, issue, store_ticket, expiry, consume, consume_stored, is_issued,
  revoke_stored, revoke_all, revoke_context,
}

pub ticket_id-injective : (m n : ℕ) → m ≤ u64_max → n ≤ u64_max → ticket_id m ≡ ticket_id n → m ≡ n
unfolding ticket_id text
ticket_id-injective m n h k e = padded-injective m n h k (ap (drop 7) e)

-- No ticket is stored under an identifier that is still to come.
abbrev pub Fresh : TicketAuthority → Type 0
Fresh a = (n : ℕ) → a.next_ticket_id ≤ n → n ≤ u64_max → map_get (ticket_id n) a.tickets ≡ none

-- The ticket has been used or revoked.
abbrev pub Spent : Text → TicketAuthority → Type 0
Spent id a = (s : StoredTicket) × (map_get id a.tickets ≡ some s) × (is_issued s.state ≡ false)

revoke_all-get :
    (context id : Text) (m : List (Text × StoredTicket))
    → map_get id (revoke_all context m).1 ≡ Option.map (revoke_stored context) (map_get id m)
unfolding revoke_all map_get
revoke_all-get context id [] = refl
revoke_all-get context id ((j, s) ∷ m) = elim (Bool-cases (same id j)) [
  | inl hit ↦ rw hit refl
  | inr miss ↦ rw miss (revoke_all-get context id m)
]

-- What `issue` has done when it answers a ticket.
pub issue-stores :
    (sha256 : List ℕ → List ℕ) (a b : TicketAuthority) (request : TicketIssueRequest)
    (ticket : ConnectionTicket)
    → issue sha256 a request ≡ ok (ticket, b)
    → b ≡ store_ticket (allocate_ticket_id a).1 (allocate_ticket_id a).0 ticket
unfolding issue
issue-stores sha256 a b request ticket e =
    let (n, _, e) = >>=-eq-ok (normalize_and_validate_binding request.binding) _ e in
    let (_, e) =
      fail_if-then (request.ttl_milliseconds == 0 || ltb 30000 request.ttl_milliseconds) _ _ e in
    let (_, e) = fail_if-then (not (is_lower_hex_sha256 request.audit_anchor)) _ _ e in
    let (x, _, e) =
      >>=-eq-ok (expiry request.issued_at_milliseconds request.ttl_milliseconds) _ e in
    cc

pub store-Fresh :
    (a : TicketAuthority) (ticket : ConnectionTicket)
    → a.next_ticket_id < u64_max
    → Fresh a
    → Fresh (store_ticket (allocate_ticket_id a).1 (allocate_ticket_id a).0 ticket)
unfolding store_ticket allocate_ticket_id
store-Fresh a ticket room fresh n h k =
    let next : a.next_ticket_id + 1 ≤ n = ground arith in
    let other : same (ticket_id n) (ticket_id a.next_ticket_id) ≡ false =
      elim (Bool-cases (same (ticket_id n) (ticket_id a.next_ticket_id))) [
        | inl e ↦ absurd (
            omega
              (arith, ticket_id-injective n a.next_ticket_id k (omega arith) ((same_iff _ _).0 e)))
        | inr e ↦ e
      ] in
    rw (get-insert (ticket_id n) (ticket_id a.next_ticket_id) _ a.tickets, other)
      (fresh n (omega arith) k)

pub store-Spent :
    (a : TicketAuthority) (ticket : ConnectionTicket) (id : Text)
    → a.next_ticket_id < u64_max
    → Fresh a
    → Spent id a
    → Spent id (store_ticket (allocate_ticket_id a).1 (allocate_ticket_id a).0 ticket)
unfolding store_ticket allocate_ticket_id
store-Spent a ticket id room fresh (s, found, spent) =
    let other : same id (ticket_id a.next_ticket_id) ≡ false =
      elim (Bool-cases (same id (ticket_id a.next_ticket_id))) [
        | inl e ↦
            let here : id ≡ ticket_id a.next_ticket_id = (same_iff _ _).0 e in
            cc (
              fresh a.next_ticket_id (omega arith) (omega arith),
              ap (λ k. map_get k a.tickets) here,
            )
        | inr e ↦ e
      ] in
    (s, rw (get-insert id (ticket_id a.next_ticket_id) _ a.tickets, other) found, spent)

-- A use changes at most the ticket that it names, which it leaves spent.
stored-get :
    (a : TicketAuthority) (attempt : ConnectionAttempt) (now : ℕ) (st : StoredTicketState)
    (t : ConnectionTicket) (id : Text)
    → same id attempt.ticket_id ≡ false
    → map_get id (consume_stored a attempt now st t).1.tickets ≡ map_get id a.tickets
unfolding consume_stored
stored-get a attempt now issued t id other =
    rw (get-insert id attempt.ticket_id _ a.tickets, other) refl
stored-get a attempt now used t id other = refl
stored-get a attempt now withdrawn t id other = refl

stored-Spent :
    (a : TicketAuthority) (attempt : ConnectionAttempt) (now : ℕ) (st : StoredTicketState)
    (t : ConnectionTicket)
    → map_get attempt.ticket_id a.tickets ≡ some (record { ticket = t; state = st })
    → Spent attempt.ticket_id (consume_stored a attempt now st t).1
unfolding consume_stored
stored-Spent a attempt now issued t e = (
  record { ticket = t; state = used },
  rw
      (
        get-insert attempt.ticket_id attempt.ticket_id (record { ticket = t; state = used })
            a.tickets,
        same_refl attempt.ticket_id,
      )
      refl,
  refl,
)
stored-Spent a attempt now used t e = (record { ticket = t; state = used }, e, refl)
stored-Spent a attempt now withdrawn t e = (record { ticket = t; state = withdrawn }, e, refl)

stored-next :
    (a : TicketAuthority) (attempt : ConnectionAttempt) (now : ℕ) (st : StoredTicketState)
    (t : ConnectionTicket)
    → (consume_stored a attempt now st t).1.next_ticket_id ≡ a.next_ticket_id
unfolding consume_stored
stored-next a attempt now issued t = refl
stored-next a attempt now used t = refl
stored-next a attempt now withdrawn t = refl

pub consume-unknown :
    (a : TicketAuthority) (attempt : ConnectionAttempt) (now : ℕ)
    → map_get attempt.ticket_id a.tickets ≡ none
    → consume a attempt now
      ≡ (record { outcome = unknown_ticket; ticket = none; attempt = attempt; permit = none }, a)
unfolding consume
consume-unknown a attempt now e = rw (e, consume) refl

pub consume-known :
    (a : TicketAuthority) (attempt : ConnectionAttempt) (now : ℕ) (s : StoredTicket)
    → map_get attempt.ticket_id a.tickets ≡ some s
    → consume a attempt now ≡ consume_stored a attempt now s.state s.ticket
unfolding consume
consume-known a attempt now s e = rw (e, consume) refl

pub consume-next :
    (a : TicketAuthority) (attempt : ConnectionAttempt) (now : ℕ)
    → (consume a attempt now).1.next_ticket_id ≡ a.next_ticket_id
consume-next a attempt now = elim (Option-cases (map_get attempt.ticket_id a.tickets)) [
  | inl e ↦ rw (consume-unknown a attempt now e) refl
  | inr (s, e) ↦ rw (consume-known a attempt now s e) (stored-next a attempt now s.state s.ticket)
]

consume-get :
    (a : TicketAuthority) (attempt : ConnectionAttempt) (now : ℕ) (id : Text)
    → same id attempt.ticket_id ≡ false
    → map_get id (consume a attempt now).1.tickets ≡ map_get id a.tickets
consume-get a attempt now id other = elim (Option-cases (map_get attempt.ticket_id a.tickets)) [
  | inl e ↦ rw (consume-unknown a attempt now e) refl
  | inr (s, e) ↦
      rw (consume-known a attempt now s e) (stored-get a attempt now s.state s.ticket id other)
]

-- After an attempt that names a stored ticket the ticket is spent.
pub consume-Spent :
    (a : TicketAuthority) (attempt : ConnectionAttempt) (now : ℕ) (s : StoredTicket)
    → map_get attempt.ticket_id a.tickets ≡ some s
    → Spent attempt.ticket_id (consume a attempt now).1
consume-Spent a attempt now s e =
    rw (consume-known a attempt now s e) (stored-Spent a attempt now s.state s.ticket e)

pub consume-none :
    (a : TicketAuthority) (attempt : ConnectionAttempt) (now : ℕ) (id : Text)
    → map_get id a.tickets ≡ none
    → map_get id (consume a attempt now).1.tickets ≡ none
consume-none a attempt now id e = elim (Bool-cases (same id attempt.ticket_id)) [
  | inl hit ↦
      let here : id ≡ attempt.ticket_id = (same_iff id attempt.ticket_id).0 hit in
      let absent : map_get attempt.ticket_id a.tickets ≡ none =
        subst (λ k. map_get k a.tickets ≡ none) here e in
      rw (consume-unknown a attempt now absent) e
  | inr other ↦ consume-get a attempt now id other ∙ e
]

pub consume-keeps-Spent :
    (a : TicketAuthority) (attempt : ConnectionAttempt) (now : ℕ) (id : Text)
    → Spent id a
    → Spent id (consume a attempt now).1
consume-keeps-Spent a attempt now id (s, found, spent) =
    elim (Bool-cases (same id attempt.ticket_id)) [
      | inl hit ↦
          let here : id ≡ attempt.ticket_id = (same_iff id attempt.ticket_id).0 hit in
          subst (λ k. Spent k (consume a attempt now).1) (sym here)
            (consume-Spent a attempt now s (subst (λ k. map_get k a.tickets ≡ some s) here found))
      | inr other ↦ (s, consume-get a attempt now id other ∙ found, spent)
    ]

pub revoke-Spent :
    (a : TicketAuthority) (context id : Text) → Spent id a → Spent id (revoke_context a context).1
unfolding revoke_context revoke_stored
revoke-Spent a context id (s, found, spent) = (
  revoke_stored (normalize_identifier context) s,
  revoke_all-get (normalize_identifier context) id a.tickets ∙ rw found refl,
  ground arith,
)

pub revoke-none :
    (a : TicketAuthority) (context id : Text)
    → map_get id a.tickets ≡ none
    → map_get id (revoke_context a context).1.tickets ≡ none
unfolding revoke_context
revoke-none a context id e = revoke_all-get (normalize_identifier context) id a.tickets ∙ rw e refl

pub store-next :
    (a : TicketAuthority) (ticket : ConnectionTicket)
    → (store_ticket (allocate_ticket_id a).1 (allocate_ticket_id a).0 ticket).next_ticket_id
      ≤ a.next_ticket_id + 1
unfolding store_ticket allocate_ticket_id
store-next a ticket = ground arith

pub revoke-next :
    (a : TicketAuthority) (context : Text)
    → (revoke_context a context).1.next_ticket_id ≡ a.next_ticket_id
unfolding revoke_context
revoke-next a context = refl
