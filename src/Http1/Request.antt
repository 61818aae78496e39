-- ===== src/Http1/Request.antt =====
-- crates/nxb-http1/src/codec.rs: `serialize_request`, with the wire that the audit sees.
pub mod Redaction
pub mod Wire
pub mod Injection
pub mod Head
use bound_seal.Std.Int.{ℤ}
use bound_seal.Std.Collections.{set_insert}
use bound_seal.Std.Order.{nat_ord, list_ord}
use bound_seal.Vault.Store.{without}
use bound_seal.Vault.Types.{SecretHeaderBatch, VaultError, SecretHeaderLease}
use bound_seal.Vault.Headers.{header_count, contains_name, take_for, append_http1}
use bound_seal.Vault.Store.Operations.{lease}
use bound_seal.Http1.Model.{
  invalid_request, Http1Header, Http1Request, Http1Error, Http1Limits, secret_headers,
}
use bound_seal.Std.Text.Bytes.{is_ascii_control}
use bound_seal.Http1.Fields.{is_prohibited, is_token_byte, is_one_of, crlf}
use bound_seal.Std.Text.{
  eq_text, text, contains_byte, Text, decimal, starts_with, to_ascii_lowercase, is_ascii_lowercase,
  is_prefix,
}
use bound_seal.Common.{
  length, fail_if, ◌+◌, ◌++◌, not, ◌==◌, none, ltb, ok, ◌>>◌, ◌∷◌, ◌>>=◌, some, err, [],
  if◌then◌else◌, is_empty, ◌||◌, any, all, ◌*◌, ℕ, Bool, Option, List, Result,
}

pub record SerializedRequest : Type 0 where
  pub wire : Text
  pub redacted_audit_wire : Text
  pub header_count : ℕ
  pub secret_header_count : ℕ
  pub secret_lease_fingerprint : Option Text

unfoldable pub append_request_prefix : Text → Http1Request → Text → Text
append_request_prefix output request authority =
    output
    ++ request.method
    ++ b' ' ∷ (request.target ++ text " HTTP/1.1" ++ crlf ++ text "Host: " ++ authority ++ crlf)

unfoldable pub append_header : Text → Text → Text → Text
append_header output name value = output ++ name ++ text ": " ++ value ++ crlf

unfoldable pub validate_method : Text → Result Http1Error (Unit {0})
validate_method method =
    fail_if
      (is_empty method
        || ltb 32 (length method)
        || not (all is_token_byte method)
        || not (all (λ c. not (is_ascii_lowercase c)) method)
        || eq_text method (text "CONNECT"))
      (invalid_request (text "method must be an uppercase token and CONNECT is unsupported"))

unfoldable pub target_form : Text → Text → Result Http1Error (Unit {0})
target_form method target =
    if eq_text target (text "*")
    then fail_if (not (eq_text method (text "OPTIONS")))
        (invalid_request (text "asterisk-form is allowed only for OPTIONS"))
    else fail_if (not (starts_with b'/' target))
        (invalid_request (text "request target must use origin-form"))

unfoldable pub validate_target : Text → Text → Result Http1Error (Unit {0})
validate_target method target = do
  fail_if
      (is_empty target
        || ltb (8 * 1024) (length target)
        || any (λ c. is_ascii_control c || c == b' ') target
        || contains_byte b'#' target
        || is_prefix (text "http://") target
        || is_prefix (text "https://") target
        || is_prefix (text "//") target)
      (invalid_request (text "request target must be bounded origin-form without fragment"))
  target_form method target

unfoldable pub validate_request_header : Http1Header → Http1Limits → Result Http1Error Text
validate_request_header header limits = do
  fail_if
      (is_empty header.name
        || ltb limits.maximum_header_name_bytes (length header.name)
        || not (all is_token_byte header.name))
      (invalid_request (text "request header name is invalid"))
  fail_if
      (ltb limits.maximum_header_value_bytes (length header.value)
        || any is_prohibited header.value)
      (invalid_request (text "request header value is invalid"))
  ok (to_ascii_lowercase header.name)

unfoldable pub is_managed_request_header : Text → Bool
is_managed_request_header = is_one_of (
    text "host"
    ∷ text "content-length"
    ∷ text "transfer-encoding"
    ∷ text "connection"
    ∷ text "proxy-connection"
    ∷ text "expect"
    ∷ text "upgrade"
    ∷ text "trailer"
    ∷ text "te"
    ∷ [])

unfoldable pub is_sensitive_request_header : Text → Bool
is_sensitive_request_header = is_one_of (
    text "authorization"
    ∷ text "proxy-authorization"
    ∷ text "cookie"
    ∷ text "x-api-key"
    ∷ text "x-csrf-token"
    ∷ [])

-- The buffers and the names of the headers so far; the names are a `BTreeSet`.
pub record Written : Type 0 where
  pub output : Text
  pub audit_output : Text
  pub public_names : List Text

-- The loop over the headers of the request.
unfoldable pub append_public : List Http1Header → Http1Limits → Written → Result Http1Error Written
append_public [] limits w = ok w
append_public (header ∷ headers) limits w = do
  normalized_name ← validate_request_header header limits
  fail_if (is_managed_request_header normalized_name)
      (invalid_request (text "caller cannot supply managed header: " ++ normalized_name))
  fail_if (is_sensitive_request_header normalized_name)
      (invalid_request (text "caller cannot supply vault-managed header: " ++ normalized_name))
  append_public headers limits record {
    output = append_header w.output normalized_name header.value;
    audit_output = append_header w.audit_output normalized_name header.value;
    public_names = set_insert normalized_name w.public_names;
  }

-- The loop over the names that a batch must not contain.
unfoldable pub check_collisions : SecretHeaderBatch → List Text → Result Http1Error (Unit {0})
check_collisions batch [] = ok tt
check_collisions batch (name ∷ names) = do
  fail_if (contains_name batch name)
      (invalid_request (text "public and secret headers collide: " ++ name))
  check_collisions batch names

abbrev pub map_vault_error {ℓ} : {A : Type ℓ} → Result VaultError A → Result Http1Error A
map_vault_error (err e) = err (secret_headers e)
map_vault_error (ok a) = ok a

-- What the secret headers add.
pub record SecretPart : Type 0 where
  pub written : Written
  pub count : ℕ
  pub fingerprint : Option Text

abbrev pub check_count : Http1Request → Http1Limits → ℕ → Result Http1Error (Unit {0})
check_count request limits n =
    fail_if (ltb limits.maximum_header_count (length request.headers + n + 3))
      (invalid_request (text "request header count exceeds configured limit"))

unfoldable pub append_batch :
    Http1Request → Http1Limits → Written → SecretHeaderBatch → Result Http1Error SecretPart
append_batch request limits w batch = do
  check_collisions batch w.public_names
  check_count request limits (header_count batch)
  let (outcome, output, audit_output, _) = append_http1 batch w.output w.audit_output
  map_vault_error outcome
  ok record {
    written = record {
      output = output;
      audit_output = audit_output;
      public_names = w.public_names;
    };
    count = header_count batch;
    fingerprint = some batch.lease_fingerprint;
  }

-- The secret headers of a lease, as a batch that was taken from it.
unfoldable pub append_secret :
    Http1Request
    → Http1Limits
    → Written
    → Option (Result VaultError SecretHeaderBatch)
    → Result Http1Error SecretPart
append_secret request limits w none = do
  check_count request limits 0
  ok (record { written = w; count = 0; fingerprint = none })
append_secret request limits w (some outcome) = do
  batch ← map_vault_error outcome
  append_batch request limits w batch

unfoldable pub close_head : Http1Request → Text → Text
close_head request output =
    append_header (append_header output (text "Content-Length") (decimal (length request.body)))
      (text "Connection") (text "close")
    ++ crlf

unfoldable pub is_malformed_authority : Text → Bool
is_malformed_authority authority =
    is_empty authority
    || any (λ c. is_ascii_control c || c == b' ' || c == b'/' || c == b'\\' || c == b'@') authority

-- The checks and the part of the request that no secret is in.
unfoldable pub public_part : Http1Request → Text → Http1Limits → Result Http1Error Written
public_part request authority limits = do
  validate_method request.method
  validate_target request.method request.target
  fail_if (is_malformed_authority authority)
      (invalid_request (text "stream authority is malformed"))
  fail_if (ltb limits.maximum_request_body_bytes (length request.body))
      (invalid_request (text "request body exceeds configured limit"))
  append_public request.headers limits record {
    output = append_request_prefix [] request authority;
    audit_output = append_request_prefix [] request authority;
    public_names = [];
  }

unfoldable pub finish_request :
    Http1Request → Http1Limits → SecretPart → Result Http1Error SerializedRequest
finish_request request limits s = do
  fail_if (ltb limits.maximum_request_header_bytes (length (close_head request s.written.output)))
      (invalid_request (text "request header block exceeds configured limit"))
  ok record {
    wire = close_head request s.written.output ++ request.body;
    redacted_audit_wire = close_head request s.written.audit_output ++ request.body;
    header_count = length request.headers + s.count + 3;
    secret_header_count = s.count;
    secret_lease_fingerprint = s.fingerprint;
  }

-- `serialize_request` once the headers of the lease, when there is one, are taken.
unfoldable pub serialize_taken :
    Http1Request
    → Text
    → Http1Limits
    → Option (Result VaultError SecretHeaderBatch)
    → Result Http1Error SerializedRequest
serialize_taken request authority limits batch = do
  w ← public_part request authority limits
  s ← append_secret request limits w batch
  finish_request request limits s

-- `serialize_request`, with the lease after it: it is taken from behind the checks of the public
-- part.
unfoldable pub serialize_request :
    Http1Request
    → Text
    → Text
    → Http1Limits
    → Option (SecretHeaderLease × ℤ)
    → Result Http1Error SerializedRequest × Option SecretHeaderLease
serialize_request request authority scheme limits none =
    (serialize_taken request authority limits none, none)
serialize_request request authority scheme limits (some (lease, now)) =
    elim (public_part request authority limits) [
      | err e ↦ (err e, some lease)
      | ok w ↦
          let after = take_for lease authority scheme now in
          (serialize_taken request authority limits (some after.0), some after.1)
    ]
