-- ===== src/Http1/Framing.antt =====
-- crates/nxb-http1/src/parser.rs: how the body of a response is framed.
pub mod Components
pub mod Agreement
use bound_seal.Common.{
  ℕ, Bool, true, false, not, ◌||◌, Option, none, some, List, [], ◌∷◌, ◌++◌, ltb, ◌==◌,
  if◌then◌else◌, length, is_empty, all, any, Result, ok, err, ◌>>=◌, ◌>>◌, fail_if, u64_max,
}
use bound_seal.Std.Text.{Text, text, eq_text, to_ascii_lowercase, is_ascii_digit, split, between}
use bound_seal.Std.Text.Bytes.{is_utf8, decimal_value}
use bound_seal.Std.Order.{list_ord, nat_ord}
use bound_seal.Http1.Model.{
  Http1Header, Http1Version, http10, http11, Http1Framing, no_body, chunked, connection_close,
  content_length, Http1Error, invalid_response,
}
use bound_seal.Http1.Fields.{trim_ows, is_token_byte}

-- The values of the headers with this name, in order.
unfoldable pub values_of : Text → List Http1Header → List Text
values_of name [] = []
values_of name (header ∷ headers) =
    let rest = values_of name headers in
    if eq_text header.name name then header.value ∷ rest else rest

-- One component of a `Content-Length`.
unfoldable pub length_component : Text → Result Http1Error ℕ
length_component component = do
  fail_if (is_empty (trim_ows component) || not (all is_ascii_digit (trim_ows component)))
      (invalid_response (text "Content-Length contains a non-decimal value"))
  fail_if (ltb u64_max (decimal_value (trim_ows component)))
      (invalid_response (text "Content-Length integer overflow"))
  ok (decimal_value (trim_ows component))

-- One component of a `Transfer-Encoding`.
unfoldable pub coding_component : Text → Result Http1Error Text
coding_component component = do
  let token = to_ascii_lowercase (trim_ows component)
  fail_if (is_empty token || not (all is_token_byte token))
      (invalid_response (text "Transfer-Encoding contains an invalid token"))
  ok token

module _ {ℓ} {A : Type ℓ} (component : Text → Result Http1Error A) where
  -- The two loops that push what each component of each value gives.
  unfoldable pub components : List Text → Result Http1Error (List A)
  components [] = ok []
  components (part ∷ parts) = do
    value ← component part
    values ← components parts
    ok (value ∷ values)

  unfoldable pub collected : Text → List Text → Result Http1Error (List A)
  collected message [] = ok []
  collected message (value ∷ values) = do
    fail_if (not (is_utf8 value)) (invalid_response message)
    first ← components (split b',' value)
    rest ← collected message values
    ok (first ++ rest)

unfoldable pub agreed_length : List ℕ → Result Http1Error (Option ℕ)
agreed_length [] = ok none
agreed_length (first ∷ rest) =
    fail_if (any (λ value. not (value == first)) (first ∷ rest))
      (invalid_response (text "conflicting Content-Length values"))
    >> ok (some first)

unfoldable pub parse_content_length : List Http1Header → Result Http1Error (Option ℕ)
parse_content_length headers = do
  values ←
      collected length_component (text "Content-Length must contain ASCII digits")
        (values_of (text "content-length") headers)
  agreed_length values

unfoldable pub single_coding : List Text → Result Http1Error Bool
single_coding [] = ok false
single_coding (token ∷ tokens) =
    fail_if (not (is_empty tokens) || not (eq_text token (text "chunked")))
      (invalid_response (text "only one final chunked transfer coding is supported"))
    >> ok true

unfoldable pub parse_transfer_encoding : List Http1Header → Result Http1Error Bool
parse_transfer_encoding headers = do
  tokens ←
      collected coding_component (text "Transfer-Encoding must be ASCII")
        (values_of (text "transfer-encoding") headers)
  single_coding tokens

abbrev pub is_http11 : Http1Version → Bool
is_http11 http10 = false
is_http11 http11 = true

-- The framing that the two headers give.
unfoldable pub framing_of : Http1Version → Option ℕ → Bool → Result Http1Error Http1Framing
framing_of version none false = ok connection_close
framing_of version (some n) false = ok (content_length n)
framing_of version (some n) true =
    err (invalid_response (text "Transfer-Encoding and Content-Length cannot coexist"))
framing_of version none true =
    fail_if (not (is_http11 version))
      (invalid_response (text "chunked transfer coding requires HTTP/1.1"))
    >> ok chunked

-- A response that never has a body.
unfoldable pub is_bodiless : Text → ℕ → Bool
is_bodiless request_method status_code =
    eq_text (to_ascii_lowercase request_method) (text "head")
    || between 100 199 status_code
    || status_code == 204
    || status_code == 304

unfoldable pub determine_framing :
    Text → Http1Version → ℕ → List Http1Header → Result Http1Error Http1Framing
determine_framing request_method version status_code headers =
    elim (is_bodiless request_method status_code) [
      | true ↦ ok no_body
      | false ↦ do
        length ← parse_content_length headers
        coded ← parse_transfer_encoding headers
        framing_of version length coded
    ]
