-- ===== src/Http1/Fields.antt =====
-- crates/nxb-http1/src/parser.rs: lines, the status line and header fields.
use mathlib.Core.Option
use bound_seal.Common.{
  ℕ, ◌+◌, ◌-◌, ◌*◌, Bool, true, false, not, ◌&&◌, ◌||◌, Option, none, some, List, [], ◌∷◌, ◌++◌,
  ltb, ◌==◌, if◌then◌else◌, length, is_empty, all, any, take, drop, Result, ok, err, ◌>>=◌, ◌>>◌,
  fail_if,
}
use bound_seal.Std.Text.{
  Text, text, eq_text, to_ascii_lowercase, is_ascii_alphanumeric, is_ascii_digit, contains_byte,
  starts_with, cons_first,
}
use bound_seal.Std.Text.Bytes.{find_window, position, trim_by}
use bound_seal.Std.Order.{list_ord, nat_ord}
use bound_seal.Http1.Model.{
  Http1Limits, Http1Header, Http1Version, http10, http11, Http1Error, invalid_response,
}

abbrev pub crlf : Text
crlf = 13 ∷ 10 ∷ []

unfoldable pub find_crlf : Text → Option ℕ
find_crlf = find_window crlf

-- the index behind the window
unfoldable pub find_double_crlf : Text → Option ℕ
find_double_crlf bytes =
    Option.map (λ index. index + 4) (find_window (13 ∷ 10 ∷ 13 ∷ 10 ∷ []) bytes)

-- `validate_crlf_block` from a byte on; `after_cr` tells whether a CR stands before it.
unfoldable pub crlf_block_from : Bool → Text → Result Http1Error (Unit {0})
crlf_block_from after_cr [] = ok tt
crlf_block_from after_cr (c ∷ r) = do
  fail_if (c == 10 && not after_cr) (invalid_response (text "bare LF is prohibited"))
  fail_if (c == 13 && not (starts_with 10 r)) (invalid_response (text "bare CR is prohibited"))
  crlf_block_from (c == 13) r

unfoldable pub validate_crlf_block : Text → Result Http1Error (Unit {0})
validate_crlf_block = crlf_block_from false

-- The lines between the CRLFs, at least one.
unfoldable pub split_crlf : Text → List Text
split_crlf [] = [] ∷ []
split_crlf (c ∷ []) = (c ∷ []) ∷ []
split_crlf (c ∷ d ∷ r) =
    let behind = split_crlf r in
    let along = split_crlf (d ∷ r) in if c == 13 && d == 10 then [] ∷ behind else cons_first c along

abbrev pub is_ows : ℕ → Bool
is_ows c = c == b' ' || c == 9

-- `trim_ows`, and `trim_matches([' ', '\\t'])`
abbrev pub trim_ows : Text → Text
trim_ows = trim_by is_ows

-- A control byte other than the tab.
abbrev pub is_prohibited : ℕ → Bool
is_prohibited c = (ltb c 0x20 && not (c == 9)) || c == 0x7f

abbrev pub is_token_byte : ℕ → Bool
is_token_byte c =
    is_ascii_alphanumeric c
    || contains_byte c (
        b'!' ∷ b'#' ∷ b'$' ∷ b'%' ∷ b'&' ∷ b'\'' ∷ b'*' ∷ b'+' ∷ b'-' ∷ b'.' ∷ b'^' ∷ b'_' ∷ b'`'
        ∷ b'|' ∷ b'~' ∷ [])

unfoldable pub validate_reason_phrase : Text → Result Http1Error (Unit {0})
validate_reason_phrase value =
    fail_if (any is_prohibited value)
      (invalid_response (text "reason phrase contains prohibited control bytes"))

unfoldable pub validate_field_value : Text → Result Http1Error (Unit {0})
validate_field_value value =
    fail_if (any is_prohibited value)
      (invalid_response (text "header value contains prohibited control bytes"))

-- `ok_or_else` with an invalid response
abbrev pub required : Option ℕ → Text → Result Http1Error ℕ
required none message = err (invalid_response message)
required (some n) message = ok n

unfoldable pub parse_version : Text → Result Http1Error Http1Version
parse_version s =
    if eq_text s (text "HTTP/1.0")
    then ok http10
    else if eq_text s (text "HTTP/1.1")
    then ok http11
    else err (invalid_response (text "unsupported or malformed HTTP version"))

-- The code of three digits.
unfoldable pub status_value : Text → ℕ
status_value (a ∷ b ∷ c ∷ _) = (a - 48) * 100 + (b - 48) * 10 + (c - 48)
status_value _ = 0

unfoldable pub parse_reason : Text → Result Http1Error Text
parse_reason rest = elim (ltb 3 (length rest)) [
  | true ↦ validate_reason_phrase (drop 4 rest) >> ok (drop 4 rest)
  | false ↦ ok []
]

unfoldable pub parse_status_line : Text → Result Http1Error (Http1Version × ℕ × Text)
parse_status_line line = do
  fail_if (contains_byte 9 line) (invalid_response (text "status line contains horizontal tab"))
  first_space ← required (position b' ' line) (text "status line is missing status code")
  version ← parse_version (take first_space line)
  let rest = drop (first_space + 1) line
  fail_if (ltb (length rest) 3 || not (all is_ascii_digit (take 3 rest)))
      (invalid_response (text "status code must contain exactly three digits"))
  fail_if (ltb 3 (length rest) && not (starts_with b' ' (drop 3 rest)))
      (invalid_response (text "status code must be followed by a single space"))
  let status_code = status_value rest
  fail_if (ltb status_code 100 || ltb 999 status_code)
      (invalid_response (text "status code is outside the supported range"))
  reason ← parse_reason rest
  ok (version, status_code, reason)

abbrev pub is_one_of : List Text → Text → Bool
is_one_of names name = any (eq_text name) names

unfoldable pub is_prohibited_trailer : Text → Bool
is_prohibited_trailer = is_one_of (
    text "content-length"
    ∷ text "transfer-encoding"
    ∷ text "host"
    ∷ text "connection"
    ∷ text "trailer"
    ∷ text "upgrade"
    ∷ text "proxy-connection"
    ∷ [])

-- One round of the loop of `parse_header_lines`.
unfoldable pub parse_header_line : Http1Limits → Bool → Text → Result Http1Error Http1Header
parse_header_line limits trailers line = do
  fail_if (is_empty line) (invalid_response (text "unexpected empty header line"))
  fail_if (starts_with b' ' line || starts_with 9 line)
      (invalid_response (text "obsolete folded headers are prohibited"))
  colon ← required (position b':' line) (text "header is missing colon")
  fail_if (colon == 0) (invalid_response (text "header name is empty"))
  let raw_name = take colon line
  fail_if (ltb limits.maximum_header_name_bytes (length raw_name))
      (invalid_response (text "header name exceeds configured limit"))
  fail_if (not (all is_token_byte raw_name))
      (invalid_response (text "header name contains invalid bytes or whitespace before colon"))
  let name = to_ascii_lowercase raw_name
  fail_if (trailers && is_prohibited_trailer name)
      (invalid_response (text "prohibited trailer field: " ++ name))
  let value = trim_ows (drop (colon + 1) line)
  fail_if (ltb limits.maximum_header_value_bytes (length value))
      (invalid_response (text "header value exceeds configured limit"))
  validate_field_value value
  ok (record { name = name; value = value })

unfoldable pub parse_each : Http1Limits → Bool → List Text → Result Http1Error (List Http1Header)
parse_each limits trailers [] = ok []
parse_each limits trailers (line ∷ lines) = do
  header ← parse_header_line limits trailers line
  headers ← parse_each limits trailers lines
  ok (header ∷ headers)

unfoldable pub parse_header_lines :
    List Text → Http1Limits → Bool → Result Http1Error (List Http1Header)
parse_header_lines lines limits trailers = do
  fail_if
      (ltb (if trailers then limits.maximum_trailer_count else limits.maximum_header_count)
        (length lines))
      (invalid_response (
        if trailers
        then text "trailer count exceeds configured limit"
        else text "header count exceeds configured limit"))
  parse_each limits trailers lines
