-- ===== src/Transport/Issuing.antt =====
-- crates/nxb-transport/src/lib.rs: what an issued ticket stands for.
use bound_seal.Common.{
  ℕ, ◌+◌, ◌≤◌, ◌<◌, ◌≡◌, ◌≢◌, refl, ◌∙◌, ap, Bool, true, false, not, ◌||◌, ◌==◌, ltb, Option, none,
  some, List, u64_max, ok, arith, is_empty, >>=-eq-ok, fail_if-then, fail_if-eq-ok,
}
use mathlib.Core.Option
use bound_seal.Std.Text.{Text, eq_text}
use bound_seal.Std.Ip.{ip_ord}
use bound_seal.Std.Order.{list_ord, nat_ord, same_iff, same_refl}
use bound_seal.Std.Collections.{map_get, get-insert, contains}
use bound_seal.Transport.Types.{
  TransportScheme, http, https, TicketIssueRequest, TicketBinding, ConnectionTicket, issued,
  TicketAuthority,
}
use bound_seal.Transport.Binding.{
  normalize_host, normalize_authority, is_lower_hex_sha256, normalize_and_validate_binding,
  normalized_binding, check_sni, is_valid_host, expected_http_host,
}
use bound_seal.Dns.{is_valid_identifier}
use bound_seal.Transport.Authority.{
  ticket_id, allocate_ticket_id, issue, store_ticket, make_ticket, expiry,
  max_ticket_ttl_milliseconds,
}

-- The SNI that a scheme and a host ask for.
abbrev pub expected_sni : TransportScheme → Text → Option Text
expected_sni https host = some host
expected_sni http host = none

check_sni-ok :
    (scheme : TransportScheme) (sni : Option Text) (host : Text) {u : Unit {0}}
    → check_sni scheme sni host ≡ ok u
    → sni ≡ expected_sni scheme host
unfolding check_sni
check_sni-ok http none host h = refl
check_sni-ok http (some name) host h = cc
check_sni-ok https none host h = cc
check_sni-ok https (some name) host h =
    ap some ((same_iff name host).0 (ground (arith, fail_if-eq-ok _ _ h)))

-- What a binding keeps that was accepted, in its normal form.
abbrev pub IsBound : TicketBinding → Type 0
IsBound b =
    let n = normalized_binding b in
    (is_valid_identifier b.decision_id ≡ true)
    × (is_valid_identifier b.dns_context_id ≡ true)
    × (b.port ≢ 0)
    × (contains b.selected_ip b.pinned_addresses ≡ true)
    × (is_valid_host n.host ≡ true)
    × (n.sni ≡ expected_sni b.scheme n.host)
    × (n.http_host ≡ expected_http_host n.host b.scheme b.port)

expiry-ok :
    (start ttl x : ℕ) → expiry start ttl ≡ ok x → (x ≡ start + ttl) × (start + ttl ≤ u64_max)
unfolding expiry
expiry-ok start ttl x e = ground arith

passed : (b : Bool) → not b ≡ false → b ≡ true
passed b h = ground arith

normalized-IsBound :
    (b n : TicketBinding)
    → normalize_and_validate_binding b ≡ ok n
    → (n ≡ normalized_binding b) × IsBound b
unfolding normalize_and_validate_binding normalized_binding
normalized-IsBound b n e =
    let (decision, e) = fail_if-then (not (is_valid_identifier b.decision_id)) _ _ e in
    let (context, e) = fail_if-then (not (is_valid_identifier b.dns_context_id)) _ _ e in
    let (host, e) = fail_if-then (not (is_valid_host (normalize_host b.host))) _ _ e in
    let (port, e) = fail_if-then (b.port == 0) _ _ e in
    let (_, e) = fail_if-then (is_empty b.pinned_addresses) _ _ e in
    let (pinned, e) = fail_if-then (not (contains b.selected_ip b.pinned_addresses)) _ _ e in
    let (_, sni, e) =
      >>=-eq-ok (check_sni b.scheme (Option.map normalize_host b.sni) (normalize_host b.host)) _
        e in
    let (name, e) =
      fail_if-then
        (not (
          eq_text (normalize_authority b.http_host)
            (expected_http_host (normalize_host b.host) b.scheme b.port)))
        _ _ e in
    let made : n ≡ normalized_binding b = cc e in
    (
      made,
      (
        passed _ decision,
        passed _ context,
        ground arith,
        passed _ pinned,
        passed _ host,
        check_sni-ok b.scheme _ _ sni,
        (same_iff _ _).0 (passed _ name),
      ),
    )

-- A ticket is issued only for a binding with valid identifiers of its decision and DNS context, a
-- port other than 0 and a selected address that is pinned, whose normal form has a valid host, an
-- SNI that is the host under HTTPS and none under HTTP, and the HTTP host of its host, scheme and
-- port; its life is between 1 ms and 30 s and ends within 64 bits, and its anchor is a digest. It
-- is made of that normal form, and the authority stores it, fresh, under the next identifier.
pub issue_sound :
    (sha256 : List ℕ → List ℕ) (a b : TicketAuthority) (request : TicketIssueRequest)
    (ticket : ConnectionTicket)
    → issue sha256 a request ≡ ok (ticket, b)
    → let n = normalized_binding request.binding in
      IsBound request.binding
      × (ticket
          ≡ make_ticket sha256
              (ticket_id a.next_ticket_id)
              n
              request.issued_at_milliseconds
              (request.issued_at_milliseconds + request.ttl_milliseconds)
              request.audit_anchor)
      × (0 < request.ttl_milliseconds)
      × (request.ttl_milliseconds ≤ max_ticket_ttl_milliseconds)
      × (request.issued_at_milliseconds + request.ttl_milliseconds ≤ u64_max)
      × (is_lower_hex_sha256 request.audit_anchor ≡ true)
      × (map_get (ticket_id a.next_ticket_id) b.tickets
          ≡ some (record { ticket = ticket; state = issued }))
unfolding issue store_ticket allocate_ticket_id
issue_sound sha256 a b request ticket e =
    let (n, bound, e) = >>=-eq-ok (normalize_and_validate_binding request.binding) _ e in
    let (ttl, e) =
      fail_if-then
        (request.ttl_milliseconds == 0 || ltb max_ticket_ttl_milliseconds request.ttl_milliseconds)
        _ _ e in
    let (anchor, e) = fail_if-then (not (is_lower_hex_sha256 request.audit_anchor)) _ _ e in
    let (x, expires, e) =
      >>=-eq-ok (expiry request.issued_at_milliseconds request.ttl_milliseconds) _ e in
    let (normal, checked) = normalized-IsBound request.binding n bound in
    let (late, fits) = expiry-ok _ _ x expires in
    let id = ticket_id a.next_ticket_id in
    let made : ticket
        ≡ make_ticket sha256 id n request.issued_at_milliseconds x request.audit_anchor =
      cc e in
    let stored : b ≡ store_ticket (allocate_ticket_id a).1 id ticket = cc e in
    (
      checked,
      made ∙ cc,
      ground arith,
      ground arith,
      fits,
      passed _ anchor,
      ap (λ y. map_get id y.tickets) stored
          ∙ get-insert id id (record { ticket = ticket; state = issued }) a.tickets
          ∙ rw (same_refl id) refl,
    )
