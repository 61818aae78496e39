-- ===== src/Examples/Tickets.antt =====
-- crates/nxb-transport: runs on one ticket.
use bound_seal.Common.{
  ℕ, ◌≡◌, ◌≢◌, ◌↔◌, ◌≤◌, ◌<◌, refl, [], ◌∷◌, ok, List, none, some, arith, true, u64_max,
}
use bound_seal.Std.Text.{Text, text}
use bound_seal.Std.Text
use bound_seal.Std.Order.{list_ord, nat_ord}
use bound_seal.Std.Ip.{v4}
use bound_seal.Std.Collections
use bound_seal.Std.Collections.{map_get}
use bound_seal.Dns
use bound_seal.Audit
use bound_seal.Transport.Types.{
  TicketBinding, TicketIssueRequest, ConnectionTicket, ConnectionAttempt, TicketAuthority,
  StoredTicket, https, issued, unknown_ticket,
}
use bound_seal.Transport.Binding
use bound_seal.Transport.Binding.{normalized_binding, is_lower_hex_sha256}
use bound_seal.Transport.Authority
use bound_seal.Transport.Authority.{
  new, issue, consume, make_ticket, ticket_id, permit_of, store_ticket, allocate_ticket_id,
  max_ticket_ttl_milliseconds,
}
use bound_seal.Transport.OneUse.{Call, issues, consumes, revokes, run, no_second_use}
use bound_seal.Transport.OneUse
use bound_seal.Transport.Permits.{Usable, permit_iff}
use bound_seal.Transport.Issuing.{IsBound, issue_sound}
use bound_seal.Examples.Values.{digest}

abbrev no_hash : List ℕ → List ℕ
no_hash bytes = []

abbrev binding : TicketBinding
binding = record {
  decision_id = text "decision-1";
  dns_context_id = text "Run-1";
  host = text "example.com";
  scheme = https;
  port = 443;
  sni = some (text "Example.com");
  http_host = text "example.com";
  pinned_addresses = v4 0x08080808 ∷ [];
  selected_ip = v4 0x08080808;
  redirect_depth = 0;
}

abbrev request : TicketIssueRequest
request = record {
  binding = binding;
  issued_at_milliseconds = 100;
  ttl_milliseconds = 500;
  audit_anchor = digest;
}

abbrev ticket : ConnectionTicket
ticket = make_ticket no_hash (ticket_id 1) (normalized_binding binding) 100 600 digest

abbrev holding : TicketAuthority
holding = store_ticket (allocate_ticket_id new).1 (ticket_id 1) ticket

abbrev attempt : ConnectionAttempt
attempt = record {
  ticket_id = ticket_id 1;
  dns_context_id = text "run-1";
  scheme = https;
  remote_ip = v4 0x08080808;
  port = 443;
  sni = some (text "example.com");
  http_host = text "example.com";
  redirect_depth = 0;
}

issued_once : issue no_hash new request ≡ ok (ticket, holding)
unfolding issue new Authority.make_ticket ticket_id store_ticket allocate_ticket_id Authority.expiry
    Binding.normalize_and_validate_binding normalized_binding Binding.is_valid_host
    Binding.expected_http_host Binding.check_sni is_lower_hex_sha256 Binding.binding_hash
    Audit.to_lower_hex Dns.is_valid_identifier Collections.contains text Text.trim
    Text.trim_end_matches Text.split Text.ends_with
issued_once = refl

known : (consume (run no_hash new (issues request ∷ [])) attempt 200).0.outcome ≢ unknown_ticket
unfolding run OneUse.step consume issue new Authority.make_ticket ticket_id store_ticket
    allocate_ticket_id Authority.expiry Binding.normalize_and_validate_binding normalized_binding
    Binding.is_valid_host Binding.expected_http_host Binding.check_sni is_lower_hex_sha256
    Binding.binding_hash Audit.to_lower_hex Dns.is_valid_identifier Authority.consume_stored
    Authority.use_ticket Authority.comparisons Collections.map_get Collections.map_insert
    Text.padded Collections.contains text Text.trim Text.trim_end_matches Text.split Text.ends_with
known e = cc

issue_sound_example :
    let n = normalized_binding binding in
    IsBound binding
    × (ticket ≡ make_ticket no_hash (ticket_id 1) n 100 600 digest)
    × (0 < 500)
    × (500 ≤ max_ticket_ttl_milliseconds)
    × (600 ≤ u64_max)
    × (is_lower_hex_sha256 digest ≡ true)
    × (map_get (ticket_id 1) holding.tickets ≡ some (record { ticket = ticket; state = issued }))
unfolding new
issue_sound_example = issue_sound no_hash new holding request ticket issued_once

permit_iff_example : ((consume holding attempt 200).0.permit ≡ some (permit_of ticket)) ↔ (
    (s : StoredTicket) × (map_get (ticket_id 1) holding.tickets ≡ some s)
    × (s.state ≡ issued)
    × Usable attempt 200 s.ticket
    × (permit_of ticket ≡ permit_of s.ticket))
permit_iff_example = permit_iff holding attempt 200 (permit_of ticket)

-- The attempt does get its permit.
permitted : (consume holding attempt 200).0.permit ≡ some (permit_of ticket)
unfolding consume new Authority.make_ticket ticket_id store_ticket allocate_ticket_id
    normalized_binding Authority.consume_stored Authority.use_ticket Authority.comparisons
    Collections.map_get Collections.map_insert Text.padded text Text.trim Text.trim_end_matches
permitted = refl

no_second_use_example :
    (consume
      (run no_hash
        (consume (run no_hash new (issues request ∷ [])) attempt 200).1
        (revokes (text "other") ∷ issues request ∷ []))
      attempt
      300).0.permit
    ≡ none
no_second_use_example =
    no_second_use no_hash (issues request ∷ []) (revokes (text "other") ∷ issues request ∷ [])
      attempt attempt 200 300 (omega arith) known refl
