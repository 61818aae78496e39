-- ===== src/Http1/Parser.antt =====
-- crates/nxb-http1/src/parser.rs: `parse_response`. Its loop over the interim responses reads
-- `&bytes[offset..]`, which the state holds beside the offset.
pub mod Heads
pub mod Progress
pub mod Bounds
pub mod Arrivals
use mathlib.Core.Option
use bound_seal.Common.{
  ℕ, zero, suc, ◌+◌, ◌-◌, Bool, true, false, ◌||◌, Option, none, some, List, [], ◌∷◌, ◌++◌, ltb,
  leb, ◌==◌, if◌then◌else◌, length, take, drop, Result, ok, err, ◌>>=◌, ◌>>◌, fail_if,
  saturating_succ, u64_max,
}
use bound_seal.Std.Text.{Text, text, between, decimal}
use bound_seal.Http1.Model.{
  Http1Limits, Http1Header, Http1Version, Http1Framing, no_body, chunked, connection_close,
  content_length, Http1Response, Http1Error, invalid_response, truncated_response,
}
use bound_seal.Http1.Fields.{
  find_double_crlf, validate_crlf_block, split_crlf, parse_status_line, parse_header_lines,
}
use bound_seal.Http1.Framing.{determine_framing}
use bound_seal.Http1.Chunked.{ParsedBody, starved, parse_chunked}

pub record ParsedResponse : Type 0 where
  pub response : Http1Response
  pub consumed_wire_bytes : ℕ

pub data ParseProgress : Type 0 where
  incomplete : ParseProgress
  complete : ParsedResponse → ParseProgress

-- What a header block says.
pub record Head : Type 0 where
  pub version : Http1Version
  pub status_code : ℕ
  pub reason : Text
  pub headers : List Http1Header

pub record ResponseState : Type 0 where
  pub rest : Text
  pub offset : ℕ
  pub interim_responses : ℕ

pub data HeadRound : Type 0 where
  -- More bytes are needed.
  waiting : HeadRound
  next_head : ResponseState → HeadRound
  -- The final response's header block, and the state behind it.
  final_head : Head → ResponseState → HeadRound

unfoldable pub starved_head : Bool → Text → Result Http1Error HeadRound
starved_head true message = err (truncated_response message)
starved_head false message = ok waiting

-- The state behind a header block of `n` bytes.
abbrev pub behind_head : ResponseState → ℕ → ℕ → ResponseState
behind_head s n interim_responses = record {
  rest = drop n s.rest;
  offset = s.offset + n;
  interim_responses = interim_responses;
}

unfoldable pub body_of_length : Bool → Text → ℕ → Result Http1Error (Option ParsedBody)
body_of_length eof bytes n = elim (ltb (length bytes) n) [
  | true ↦ starved eof (
      text "Content-Length promised "
      ++ decimal n
      ++ text " bytes but only "
      ++ decimal (length bytes)
      ++ text " arrived")
  | false ↦ ok (some (record { body = take n bytes; trailers = []; consumed = n }))
]

unfoldable pub body_to_close : Bool → Text → Http1Limits → Result Http1Error (Option ParsedBody)
body_to_close false bytes limits = ok none
body_to_close true bytes limits = do
  fail_if (ltb limits.maximum_response_body_bytes (length bytes))
      (invalid_response (text "connection-close body exceeds configured limit"))
  ok (some (record { body = bytes; trailers = []; consumed = length bytes }))

-- The body behind a header block; `none` when the loop over the chunks is out of fuel.
unfoldable pub parse_body :
    Http1Framing → Bool → Text → Http1Limits → Option (Result Http1Error (Option ParsedBody))
parse_body no_body eof bytes limits =
    some (ok (some (record { body = []; trailers = []; consumed = 0 })))
parse_body (content_length n) eof bytes limits = some (
    fail_if (ltb limits.maximum_response_body_bytes n)
      (invalid_response (text "Content-Length exceeds configured body limit"))
    >> body_of_length eof bytes n)
parse_body chunked eof bytes limits = parse_chunked bytes eof limits
parse_body connection_close eof bytes limits = some (body_to_close eof bytes limits)

module _ (limits : Http1Limits) where
  abbrev head_limit : ℕ → Result Http1Error (Unit {0})
  head_limit n =
      fail_if (ltb limits.maximum_response_header_bytes n)
        (invalid_response (text "response header block exceeds configured limit"))

  unfoldable pub parse_lines : List Text → Result Http1Error Head
  parse_lines [] = err (invalid_response (text "missing status line"))
  parse_lines (line ∷ lines) = do
    (version, status_code, reason) ← parse_status_line line
    headers ← parse_header_lines lines limits false
    ok record { version = version; status_code = status_code; reason = reason; headers = headers }

  unfoldable pub parse_head : Text → Result Http1Error Head
  parse_head head = do
    head_limit (length head)
    validate_crlf_block head
    parse_lines (split_crlf (take (length head - 4) head))

module _ (eof : Bool) (limits : Http1Limits) where
  unfoldable pub after_interim : ResponseState → Result Http1Error HeadRound
  after_interim s = elim s.rest [
    | [] ↦ starved_head eof (text "stream ended after interim response")
    | _ ∷ _ ↦ ok (next_head s)
  ]

  -- A header block of `n` bytes, by its status code.
  unfoldable pub by_status : ResponseState → ℕ → Head → Result Http1Error HeadRound
  by_status s n head = elim (between 100 199 head.status_code) [
    | false ↦ ok (final_head head (behind_head s n s.interim_responses))
    | true ↦ do
      fail_if (head.status_code == 101)
          (invalid_response (text "protocol upgrades are not supported"))
      fail_if (ltb limits.maximum_interim_responses (saturating_succ u64_max s.interim_responses))
          (invalid_response (text "interim response count exceeds configured limit"))
      after_interim (behind_head s n (saturating_succ u64_max s.interim_responses))
  ]

  unfoldable pub head_at : ResponseState → Option ℕ → Result Http1Error HeadRound
  head_at s none = do
    head_limit limits (length s.rest)
    starved_head eof (text "response header block ended before CRLFCRLF")
  head_at s (some n) = do
    fail_if (ltb u64_max (s.offset + n)) (invalid_response (text "header offset overflow"))
    head ← parse_head limits (take n s.rest)
    by_status s n head

  unfoldable pub head_round : ResponseState → Result Http1Error HeadRound
  head_round s = head_at s (find_double_crlf s.rest)

unfoldable pub with_body :
    Head
    → ResponseState
    → Http1Framing
    → Result Http1Error (Option ParsedBody)
    → Result Http1Error ParseProgress
with_body head s framing (err e) = err e
with_body head s framing (ok none) = ok incomplete
with_body head s framing (ok (some parsed_body)) = do
  fail_if (ltb u64_max (s.offset + parsed_body.consumed))
      (invalid_response (text "response length overflow"))
  ok (
      complete record {
        response = record {
          version = head.version;
          status_code = head.status_code;
          reason = head.reason;
          headers = head.headers;
          trailers = parsed_body.trailers;
          body = parsed_body.body;
          framing = framing;
          interim_responses = s.interim_responses;
        };
        consumed_wire_bytes = s.offset + parsed_body.consumed;
      })

abbrev pub head_next :
    Result Http1Error HeadRound
    → (ResponseState → Option (Result Http1Error ParseProgress))
    → (Head → ResponseState → Option (Result Http1Error ParseProgress))
    → Option (Result Http1Error ParseProgress)
head_next (err e) onward final = some (err e)
head_next (ok waiting) onward final = some (ok incomplete)
head_next (ok (next_head s)) onward final = onward s
head_next (ok (final_head head s)) onward final = final head s

module _ (eof : Bool) (request_method : Text) (limits : Http1Limits) where
  unfoldable pub final_response : Head → ResponseState → Option (Result Http1Error ParseProgress)
  final_response head s =
      elim (determine_framing request_method head.version head.status_code head.headers) [
        | err e ↦ some (err e)
        | ok framing ↦ Option.map (with_body head s framing) (parse_body framing eof s.rest limits)
      ]

  -- The loop with fuel; `none` when that runs out.
  unfoldable pub response_loop : ℕ → ResponseState → Option (Result Http1Error ParseProgress)
  response_loop zero s = none
  response_loop (suc fuel) s =
      head_next (head_round eof limits s) (response_loop fuel) final_response

abbrev pub response_start : Text → ResponseState
response_start bytes = record { rest = bytes; offset = 0; interim_responses = 0 }

-- A round takes four bytes at least, so this fuel is enough.
unfoldable pub parse_response :
    Text → Bool → Text → Http1Limits → Option (Result Http1Error ParseProgress)
parse_response bytes eof request_method limits =
    response_loop eof request_method limits (suc (length bytes)) (response_start bytes)
