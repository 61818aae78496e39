-- ===== src/Transport/Types.antt =====
-- crates/nxb-transport/src/lib.rs: bindings, tickets, attempts, permits and outcomes.
use bound_seal.Common.{ℕ, Bool, true, false, Option, List}
use bound_seal.Std.Text.{Text, text}
use bound_seal.Std.Ip.{IpAddr}

pub data TransportScheme : Type 0 where
  http https : TransportScheme

-- `code`
unfoldable pub scheme_code : TransportScheme → Text
scheme_code http = text "http"
scheme_code https = text "https"

abbrev pub default_port : TransportScheme → ℕ
default_port http = 80
default_port https = 443

-- `==`
abbrev pub same_scheme : TransportScheme → TransportScheme → Bool
same_scheme http http = true
same_scheme https https = true
same_scheme _ _ = false

pub record TicketBinding : Type 0 where
  pub decision_id : Text
  pub dns_context_id : Text
  pub host : Text
  pub scheme : TransportScheme
  pub port : ℕ
  pub sni : Option Text
  pub http_host : Text
  pub pinned_addresses : List IpAddr
  pub selected_ip : IpAddr
  pub redirect_depth : ℕ

pub record TicketIssueRequest : Type 0 where
  pub binding : TicketBinding
  pub issued_at_milliseconds : ℕ
  pub ttl_milliseconds : ℕ
  pub audit_anchor : Text

pub record ConnectionTicket : Type 0 where
  pub ticket_id : Text
  pub decision_id : Text
  pub dns_context_id : Text
  pub host : Text
  pub scheme : TransportScheme
  pub port : ℕ
  pub sni : Option Text
  pub http_host : Text
  pub pinned_addresses : List IpAddr
  pub selected_ip : IpAddr
  pub redirect_depth : ℕ
  pub issued_at_milliseconds : ℕ
  pub expires_at_milliseconds : ℕ
  pub audit_anchor : Text
  pub binding_hash : Text

pub record ConnectionAttempt : Type 0 where
  pub ticket_id : Text
  pub dns_context_id : Text
  pub scheme : TransportScheme
  pub remote_ip : IpAddr
  pub port : ℕ
  pub sni : Option Text
  pub http_host : Text
  pub redirect_depth : ℕ

pub record TransportPermit : Type 0 where
  pub ticket_id : Text
  pub decision_id : Text
  pub dns_context_id : Text
  pub scheme : TransportScheme
  pub remote_ip : IpAddr
  pub port : ℕ
  pub sni : Option Text
  pub http_host : Text
  pub redirect_depth : ℕ
  pub binding_hash : Text

pub data BindingField : Type 0 where
  dns_context_id_field scheme_field remote_ip_field port_field sni_field : BindingField
  http_host_field redirect_depth_field : BindingField

pub data TicketUseOutcome : Type 0 where
  consumed unknown_ticket already_consumed revoked expired clock_regression : TicketUseOutcome
  binding_mismatch : BindingField → TicketUseOutcome

pub record TicketUseResult : Type 0 where
  pub outcome : TicketUseOutcome
  pub ticket : Option ConnectionTicket
  pub attempt : ConnectionAttempt
  pub permit : Option TransportPermit

pub data TicketIssueError : Type 0 where
  invalid_decision_id invalid_dns_context_id invalid_host invalid_port : TicketIssueError
  empty_pinned_address_set selected_ip_not_pinned invalid_tls_sni : TicketIssueError
  unexpected_tls_sni invalid_http_host invalid_ttl expiry_overflow : TicketIssueError
  invalid_audit_anchor : TicketIssueError

pub data StoredTicketState : Type 0 where
  issued used withdrawn : StoredTicketState

pub record StoredTicket : Type 0 where
  pub ticket : ConnectionTicket
  pub state : StoredTicketState

pub record TicketAuthority : Type 0 where
  pub tickets : List (Text × StoredTicket)
  pub next_ticket_id : ℕ
