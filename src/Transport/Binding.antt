-- ===== src/Transport/Binding.antt =====
-- crates/nxb-transport/src/lib.rs: the normal form and the checks of a binding, and its hash.
use bound_seal.Common.{
  ℕ, Bool, false, not, ◌&&◌, ◌||◌, Option, none, some, List, [], ◌∷◌, ◌++◌, map, ltb, ◌==◌,
  if◌then◌else◌, length, is_empty, all, Result, ok, err, ◌>>◌, fail_if,
}
use mathlib.Core.Option
use bound_seal.Std.Text.{
  Text, text, eq_text, to_ascii_lowercase, trim, trim_end_matches, split, contains_byte,
  is_ascii_digit, between, decimal,
}
use bound_seal.Std.Ip.{ip_ord}
use bound_seal.Std.Ip.Display.{join, ip_to_string}
use bound_seal.Std.Order.{list_ord, nat_ord}
use bound_seal.Std.Collections.{contains}
use bound_seal.Dns.{is_label, is_valid_identifier}
use bound_seal.Audit.{to_lower_hex}
use bound_seal.Transport.Types.{
  TransportScheme, http, https, scheme_code, default_port, TicketBinding, TicketIssueError,
  invalid_decision_id, invalid_dns_context_id, invalid_host, invalid_port, empty_pinned_address_set,
  selected_ip_not_pinned, invalid_tls_sni, unexpected_tls_sni, invalid_http_host,
}

abbrev pub normalize_identifier : Text → Text
normalize_identifier value = to_ascii_lowercase (trim value)

abbrev pub normalize_host : Text → Text
normalize_host value = to_ascii_lowercase (trim_end_matches b'.' (trim value))

abbrev pub normalize_authority : Text → Text
normalize_authority value = to_ascii_lowercase (trim value)

unfoldable pub is_valid_host : Text → Bool
is_valid_host value =
    let host = normalize_host value in
    if is_empty host
      || ltb 253 (length host)
      || contains_byte b':' host
      || contains_byte b'/' host
      || contains_byte b'\\' host
    then false
    else all is_label (split b'.' host)

unfoldable pub is_lower_hex_sha256 : Text → Bool
is_lower_hex_sha256 value =
    length value == 64 && all (λ byte. is_ascii_digit byte || between b'a' b'f' byte) value

unfoldable pub expected_http_host : Text → TransportScheme → ℕ → Text
expected_http_host host scheme port =
    if port == default_port scheme
    then normalize_host host
    else normalize_host host ++ (b':' ∷ decimal port)

-- `binding.sni.as_deref() != Some(host)` under HTTPS, `binding.sni.is_some()` under HTTP
unfoldable pub check_sni : TransportScheme → Option Text → Text → Result TicketIssueError (Unit {0})
check_sni https none host = err invalid_tls_sni
check_sni https (some name) host = fail_if (not (eq_text name host)) invalid_tls_sni
check_sni http none host = ok tt
check_sni http (some name) host = err unexpected_tls_sni

-- The binding that `normalize_and_validate_binding` answers.
unfoldable pub normalized_binding : TicketBinding → TicketBinding
normalized_binding b = record b {
  decision_id = normalize_identifier b.decision_id;
  dns_context_id = normalize_identifier b.dns_context_id;
  host = normalize_host b.host;
  sni = Option.map normalize_host b.sni;
  http_host = normalize_authority b.http_host;
}

unfoldable pub normalize_and_validate_binding :
    TicketBinding → Result TicketIssueError TicketBinding
normalize_and_validate_binding b = do
  let n = normalized_binding b
  fail_if (not (is_valid_identifier b.decision_id)) invalid_decision_id
  fail_if (not (is_valid_identifier b.dns_context_id)) invalid_dns_context_id
  fail_if (not (is_valid_host n.host)) invalid_host
  fail_if (b.port == 0) invalid_port
  fail_if (is_empty b.pinned_addresses) empty_pinned_address_set
  fail_if (not (contains b.selected_ip b.pinned_addresses)) selected_ip_not_pinned
  check_sni b.scheme n.sni n.host
  fail_if (not (eq_text n.http_host (expected_http_host n.host b.scheme b.port))) invalid_http_host
  ok n

abbrev sni_or_empty : Option Text → Text
sni_or_empty none = []
sni_or_empty (some name) = name

-- The text that is hashed, line by line.
unfoldable pub binding_material : Text → TicketBinding → ℕ → ℕ → Text → Text
binding_material ticket_id b issued_at expires_at audit_anchor = join (10 ∷ []) (
    text "nxb.transport.v1"
    ∷ ticket_id
    ∷ b.decision_id
    ∷ b.dns_context_id
    ∷ b.host
    ∷ scheme_code b.scheme
    ∷ decimal b.port
    ∷ sni_or_empty b.sni
    ∷ b.http_host
    ∷ join (text ",") (map ip_to_string b.pinned_addresses)
    ∷ ip_to_string b.selected_ip
    ∷ decimal b.redirect_depth
    ∷ decimal issued_at
    ∷ decimal expires_at
    ∷ audit_anchor
    ∷ [])

-- `binding_hash`, over `Sha256::digest`
unfoldable pub binding_hash : (List ℕ → List ℕ) → Text → TicketBinding → ℕ → ℕ → Text → Text
binding_hash sha256 ticket_id b issued_at expires_at audit_anchor =
    to_lower_hex (sha256 (binding_material ticket_id b issued_at expires_at audit_anchor))
