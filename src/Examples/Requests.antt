-- ===== src/Examples/Requests.antt =====
-- crates/nxb-http1: requests with secret headers.
use bound_seal.Std.Order.{nat_ord, list_ord}
use bound_seal.Std.Text.{Text, trim_end_matches, decimal, text, ends_with}
use bound_seal.Http1.Request.Head.{serialize_request-IsWire, IsWire}
use bound_seal.Vault.Types.{SecretHeaderLease}
use bound_seal.Http1.Fields.{crlf}
use bound_seal.Vault.Checks.{
  normalize_scheme, normalize_host, validate_header_name, validate_header_value,
}
use bound_seal.Std.Int.{pos}
use bound_seal.Http1.Request.Redaction.{redacted_audit_wire-AreAlikeLeases}
use bound_seal.Http1.Request.{
  check_collisions, target_form, is_sensitive_request_header, append_request_prefix,
  validate_target, SerializedRequest, serialize_taken, validate_method, public_part, append_secret,
  serialize_request, validate_request_header, is_malformed_authority, is_managed_request_header,
  finish_request, close_head, append_batch, append_public, append_header,
}
use bound_seal.Std.Collections.{set_insert}
use bound_seal.Vault.Headers.{
  secret_line, take_for, redacted_line, taken, append_lines, append_http1, header_count,
  contains_name,
}
use bound_seal.Common.{◌∷◌, false, ok, [], ◌++◌, some, Result, ◌≡◌, refl}
use bound_seal.Http1.Model.{Http1Error, Http1Request, conservative_default}

abbrev request : Http1Request
request = record {
  method = text "POST";
  target = text "/a?b";
  headers = record { name = text "Accept"; value = text "*/*" } ∷ [];
  body = text "hi";
}

abbrev token : Text → SecretHeaderLease
token value = record {
  lease_id = text "v-lease-00000000000000000001";
  session_id = text "s";
  authority = text "example.com";
  scheme = text "https";
  expires_at_epoch_seconds = pos 100;
  fingerprint = text "f";
  headers =
      record {
        normalized_name = text "authorization";
        wire_name = text "Authorization";
        value = value;
      }
      ∷ [];
  consumed = false;
}

abbrev serialized : Text → SerializedRequest
serialized value = record {
  wire =
      text "POST /a?b HTTP/1.1"
      ++ crlf
      ++ text "Host: example.com"
      ++ crlf
      ++ text "accept: */*"
      ++ crlf
      ++ text "Authorization: "
      ++ value
      ++ crlf
      ++ text "Content-Length: 2"
      ++ crlf
      ++ text "Connection: close"
      ++ crlf
      ++ crlf
      ++ text "hi";
  redacted_audit_wire =
      text "POST /a?b HTTP/1.1"
      ++ crlf
      ++ text "Host: example.com"
      ++ crlf
      ++ text "accept: */*"
      ++ crlf
      ++ text "Authorization: <redacted:3>"
      ++ crlf
      ++ text "Content-Length: 2"
      ++ crlf
      ++ text "Connection: close"
      ++ crlf
      ++ crlf
      ++ text "hi";
  header_count = 5;
  secret_header_count = 1;
  secret_lease_fingerprint = some (text "f");
}

abbrev sends : Text → Result Http1Error SerializedRequest
sends value =
    (serialize_request request (text "example.com") (text "https") conservative_default
      (some (token value, pos 50))).0

abc_sent : sends (text "abc") ≡ ok (serialized (text "abc"))
unfolding serialize_request public_part validate_method validate_target target_form
    is_malformed_authority append_public validate_request_header is_managed_request_header
    is_sensitive_request_header append_request_prefix append_header serialize_taken append_secret
    append_batch check_collisions contains_name header_count append_http1 append_lines
    validate_header_name validate_header_value secret_line redacted_line take_for taken
    normalize_host normalize_scheme finish_request close_head set_insert decimal text
    trim_end_matches ends_with
abc_sent = refl

xyz_sent : sends (text "xyz") ≡ ok (serialized (text "xyz"))
unfolding serialize_request public_part validate_method validate_target target_form
    is_malformed_authority append_public validate_request_header is_managed_request_header
    is_sensitive_request_header append_request_prefix append_header serialize_taken append_secret
    append_batch check_collisions contains_name header_count append_http1 append_lines
    validate_header_name validate_header_value secret_line redacted_line take_for taken
    normalize_host normalize_scheme finish_request close_head set_insert decimal text
    trim_end_matches ends_with
xyz_sent = refl

serialize_request-IsWire_example :
    IsWire request (text "example.com") (token (text "abc")).headers (serialized (text "abc"))
serialize_request-IsWire_example =
    serialize_request-IsWire request (text "example.com") (text "https") conservative_default
      (some (token (text "abc"), pos 50)) (serialized (text "abc")) abc_sent

redacted_audit_wire-AreAlikeLeases_example :
    ((serialized (text "abc")).redacted_audit_wire ≡ (serialized (text "xyz")).redacted_audit_wire)
    × ((serialized (text "abc")).header_count ≡ (serialized (text "xyz")).header_count)
    × ((serialized (text "abc")).secret_header_count
        ≡ (serialized (text "xyz")).secret_header_count)
    × ((serialized (text "abc")).secret_lease_fingerprint
        ≡ (serialized (text "xyz")).secret_lease_fingerprint)
unfolding text
redacted_audit_wire-AreAlikeLeases_example =
    redacted_audit_wire-AreAlikeLeases request (text "example.com") (text "https")
      conservative_default (token (text "abc")) (token (text "xyz")) (pos 50) (pos 50)
      (serialized (text "abc")) (serialized (text "xyz"))
      (record { fingerprints = refl; headers = refl }) abc_sent xyz_sent
