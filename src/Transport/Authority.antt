-- ===== src/Transport/Authority.antt =====
-- crates/nxb-transport/src/lib.rs: `TicketAuthority`. SHA-256 is a parameter.
use bound_seal.Common.{
  ℕ, ◌+◌, Bool, true, false, not, ◌&&◌, ◌||◌, Option, none, some, List, [], ◌∷◌, ◌++◌, ltb, leb,
  ◌==◌, if◌then◌else◌, u64_max, saturating_succ, Result, ok, err, ◌>>=◌, ◌>>◌, fail_if,
}
use mathlib.Core.Option
use bound_seal.Std.Text.{Text, text, eq_text, padded}
use bound_seal.Std.Ip.{ip_ord}
use bound_seal.Std.Order.{list_ord, nat_ord, same}
use bound_seal.Std.Collections.{map_get, map_insert}
use bound_seal.Transport.Types.{
  same_scheme, TicketBinding, TicketIssueRequest, ConnectionTicket, ConnectionAttempt,
  TransportPermit, BindingField, dns_context_id_field, scheme_field, remote_ip_field, port_field,
  sni_field, http_host_field, redirect_depth_field, TicketUseOutcome, consumed, unknown_ticket,
  already_consumed, revoked, expired, clock_regression, binding_mismatch, TicketUseResult,
  TicketIssueError, invalid_ttl, expiry_overflow, invalid_audit_anchor, StoredTicketState, issued,
  used, withdrawn, StoredTicket, TicketAuthority,
}
use bound_seal.Transport.Binding.{
  normalize_identifier, normalize_host, normalize_authority, is_lower_hex_sha256,
  normalize_and_validate_binding, binding_hash,
}

abbrev pub max_ticket_ttl_milliseconds : ℕ
max_ticket_ttl_milliseconds = 30000

-- `TicketAuthority::new`
unfoldable pub new : TicketAuthority
new = record { tickets = []; next_ticket_id = 1 }

-- `format!("ticket-{value:020}")`: a `u64` has at most 20 digits.
unfoldable pub ticket_id : ℕ → Text
ticket_id value = text "ticket-" ++ padded 20 value

unfoldable pub allocate_ticket_id : TicketAuthority → Text × TicketAuthority
allocate_ticket_id a = (
  ticket_id a.next_ticket_id,
  record a { next_ticket_id = saturating_succ u64_max a.next_ticket_id },
)

-- `checked_add(…).ok_or(ExpiryOverflow)`
unfoldable pub expiry : ℕ → ℕ → Result TicketIssueError ℕ
expiry issued_at ttl =
    if leb (issued_at + ttl) u64_max then ok (issued_at + ttl) else err expiry_overflow

unfoldable pub store_ticket : TicketAuthority → Text → ConnectionTicket → TicketAuthority
store_ticket a id ticket = record a {
  tickets = map_insert id (record { ticket = ticket; state = issued }) a.tickets;
}

module _ (sha256 : List ℕ → List ℕ) where
  unfoldable pub make_ticket : Text → TicketBinding → ℕ → ℕ → Text → ConnectionTicket
  make_ticket id b issued_at expires_at audit_anchor = record {
    ticket_id = id;
    decision_id = b.decision_id;
    dns_context_id = b.dns_context_id;
    host = b.host;
    scheme = b.scheme;
    port = b.port;
    sni = b.sni;
    http_host = b.http_host;
    pinned_addresses = b.pinned_addresses;
    selected_ip = b.selected_ip;
    redirect_depth = b.redirect_depth;
    issued_at_milliseconds = issued_at;
    expires_at_milliseconds = expires_at;
    audit_anchor = audit_anchor;
    binding_hash = binding_hash sha256 id b issued_at expires_at audit_anchor;
  }

  -- `TicketAuthority::issue`: an error leaves the authority as it was.
  unfoldable pub issue :
      TicketAuthority
      → TicketIssueRequest
      → Result TicketIssueError (ConnectionTicket × TicketAuthority)
  issue a request = do
    binding ← normalize_and_validate_binding request.binding
    fail_if
        (request.ttl_milliseconds == 0 || ltb max_ticket_ttl_milliseconds request.ttl_milliseconds)
        invalid_ttl
    fail_if (not (is_lower_hex_sha256 request.audit_anchor)) invalid_audit_anchor
    expires_at ← expiry request.issued_at_milliseconds request.ttl_milliseconds
    let id = (allocate_ticket_id a).0
    let ticket =
        make_ticket id binding request.issued_at_milliseconds expires_at request.audit_anchor
    ok (ticket, store_ticket (allocate_ticket_id a).1 id ticket)

-- `attempt.sni.as_deref().map(normalize_host) == ticket.sni`
abbrev pub same_sni : Option Text → Option Text → Bool
same_sni none none = true
same_sni (some s) (some t) = eq_text s t
same_sni _ _ = false

-- The list of the `for` loop in `consume`.
unfoldable pub comparisons : ConnectionAttempt → ConnectionTicket → List (Bool × BindingField)
comparisons attempt ticket =
    (
      eq_text (normalize_identifier attempt.dns_context_id) ticket.dns_context_id,
      dns_context_id_field,
    )
    ∷ (same_scheme attempt.scheme ticket.scheme, scheme_field)
    ∷ (same attempt.remote_ip ticket.selected_ip, remote_ip_field)
    ∷ (attempt.port == ticket.port, port_field)
    ∷ (same_sni (Option.map normalize_host attempt.sni) ticket.sni, sni_field)
    ∷ (eq_text (normalize_authority attempt.http_host) ticket.http_host, http_host_field)
    ∷ (attempt.redirect_depth == ticket.redirect_depth, redirect_depth_field)
    ∷ []

abbrev pub first_mismatch : List (Bool × BindingField) → Option BindingField
first_mismatch [] = none
first_mismatch ((matches, field) ∷ rest) = if matches then first_mismatch rest else some field

unfoldable pub permit_of : ConnectionTicket → TransportPermit
permit_of ticket = record {
  ticket_id = ticket.ticket_id;
  decision_id = ticket.decision_id;
  dns_context_id = ticket.dns_context_id;
  scheme = ticket.scheme;
  remote_ip = ticket.selected_ip;
  port = ticket.port;
  sni = ticket.sni;
  http_host = ticket.http_host;
  redirect_depth = ticket.redirect_depth;
  binding_hash = ticket.binding_hash;
}

-- `failed_use`, and the early returns
abbrev pub failed_use : TicketUseOutcome → ConnectionTicket → ConnectionAttempt → TicketUseResult
failed_use outcome ticket attempt = record {
  outcome = outcome;
  ticket = some ticket;
  attempt = attempt;
  permit = none;
}

-- The checks of `consume` on a ticket that has just been burnt.
unfoldable pub use_ticket : ConnectionTicket → ConnectionAttempt → ℕ → TicketUseResult
use_ticket ticket attempt now =
    if ltb now ticket.issued_at_milliseconds
    then failed_use clock_regression ticket attempt
    else if ltb ticket.expires_at_milliseconds now
    then failed_use expired ticket attempt
    else elim (first_mismatch (comparisons attempt ticket)) [
      | some field ↦ failed_use (binding_mismatch field) ticket attempt
      | none ↦ record {
        outcome = consumed;
        ticket = some ticket;
        attempt = attempt;
        permit = some (permit_of ticket);
      }
    ]

unfoldable pub consume_stored :
    TicketAuthority
    → ConnectionAttempt
    → ℕ
    → StoredTicketState
    → ConnectionTicket
    → TicketUseResult × TicketAuthority
consume_stored a attempt now used ticket = (failed_use already_consumed ticket attempt, a)
consume_stored a attempt now withdrawn ticket = (failed_use revoked ticket attempt, a)
consume_stored a attempt now issued ticket = (
  use_ticket ticket attempt now,
  record a {
    tickets = map_insert attempt.ticket_id (record { ticket = ticket; state = used }) a.tickets;
  },
)

-- `TicketAuthority::consume`
unfoldable pub consume : TicketAuthority → ConnectionAttempt → ℕ → TicketUseResult × TicketAuthority
consume a attempt now = elim (map_get attempt.ticket_id a.tickets) [
  | none ↦ (record { outcome = unknown_ticket; ticket = none; attempt = attempt; permit = none }, a)
  | some stored ↦ consume_stored a attempt now stored.state stored.ticket
]

abbrev pub is_issued : StoredTicketState → Bool
is_issued issued = true
is_issued _ = false

unfoldable pub revoke_stored : Text → StoredTicket → StoredTicket
revoke_stored context stored =
    if eq_text stored.ticket.dns_context_id context && is_issued stored.state
    then record stored { state = withdrawn }
    else stored

-- the loop of `revoke_context`, with its count
unfoldable pub revoke_all : Text → List (Text × StoredTicket) → ℕ × List (Text × StoredTicket)
revoke_all context [] = (0, [])
revoke_all context ((id, stored) ∷ rest) =
    let (n, revoked_rest) = revoke_all context rest in
    (
      if eq_text stored.ticket.dns_context_id context && is_issued stored.state then n + 1 else n,
      (id, revoke_stored context stored) ∷ revoked_rest,
    )

-- `TicketAuthority::revoke_context`
unfoldable pub revoke_context : TicketAuthority → Text → ℕ × TicketAuthority
revoke_context a context_id =
    let (n, tickets) = revoke_all (normalize_identifier context_id) a.tickets in
    (n, record a { tickets = tickets })
