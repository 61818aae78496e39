-- ===== src/Http1/Parser/Progress.antt =====
-- crates/nxb-http1/src/parser.rs: `parse_response` ends, and what a complete response went through.
use bound_seal.Std.Text.{Text}
use bound_seal.Http1.Framing.{determine_framing}
use bound_seal.Http1.Blocks.{find_double_crlf-bound}
use bound_seal.Http1.Parser.Heads.{ends, passes, waits, IsHead, head_round-HeadOutcome, HeadOutcome}
use bound_seal.Http1.Model.{
  Http1Limits, content_length, Http1Framing, Http1Error, no_body, connection_close, chunked,
}
use bound_seal.Http1.Chunked.Looping.{parse_chunked-ends}
use bound_seal.Http1.Parser.{
  ResponseState, final_response, behind_head, ParsedResponse, final_head, response_loop, next_head,
  waiting, parse_response, with_body, incomplete, parse_body, complete, ParseProgress, HeadRound,
  response_start, head_round, head_next, Head,
}
use bound_seal.Http1.Chunked.{ParsedBody}
use mathlib.Core.Option
use bound_seal.Common.{
  ◌+◌, some, inr, u64_max, inl, Result, length, saturating_succ, length-drop, suc, ok, false, err,
  fail_if-then, Option, arith, ltb, Result-cases, none, zero, ◌<◌, Bool, ℕ, ◌≡◌, refl,
}

-- A header block takes bytes.
pub head-shrinks :
    (limits : Http1Limits) (s : ResponseState) (n interim_responses : ℕ) (head : Head)
    → IsHead limits s n head
    → (length (behind_head s n interim_responses).rest < length s.rest)
      × (length (behind_head s n interim_responses).rest + n ≡ length s.rest)
head-shrinks limits s n interim_responses head k =
    let (some_bytes, inside) = find_double_crlf-bound s.rest k.found in
    let left = length-drop n s.rest in (omega arith, omega arith)

-- The response that a head and a body give.
abbrev pub response_of : Head → ResponseState → Http1Framing → ParsedBody → ParsedResponse
response_of head s framing parsed_body = record {
  response = record {
    version = head.version;
    status_code = head.status_code;
    reason = head.reason;
    headers = head.headers;
    trailers = parsed_body.trailers;
    body = parsed_body.body;
    framing = framing;
    interim_responses = s.interim_responses;
  };
  consumed_wire_bytes = s.offset + parsed_body.consumed;
}

pub with_body-complete :
    (head : Head) (s : ResponseState) (framing : Http1Framing)
    (outcome : Result Http1Error (Option ParsedBody)) {p : ParsedResponse}
    → with_body head s framing outcome ≡ ok (complete p)
    → (body : ParsedBody) × (outcome ≡ ok (some body))
      × (ltb u64_max (s.offset + body.consumed) ≡ false)
      × (p ≡ response_of head s framing body)
unfolding with_body
with_body-complete head s framing (err e) h = absurd (cc)
with_body-complete head s framing (ok none) h = absurd (cc)
with_body-complete head s framing (ok (some body)) h =
    let (fits, e) = fail_if-then (ltb u64_max (s.offset + body.consumed)) _ _ h in
    (body, refl, fits, cc)

module _ (eof : Bool) (limits : Http1Limits) where
  pub parse_body-ends :
      (framing : Http1Framing) (bytes : Text)
      → (outcome : Result Http1Error (Option ParsedBody)) × (parse_body framing eof bytes limits
          ≡ some outcome)
  unfolding parse_body
  parse_body-ends no_body bytes = (_, refl)
  parse_body-ends (content_length n) bytes = (_, refl)
  parse_body-ends chunked bytes = parse_chunked-ends limits eof bytes
  parse_body-ends connection_close bytes = (_, refl)

module _ (eof : Bool) (request_method : Text) (limits : Http1Limits) where
  final_response-ends :
      (head : Head) (s : ResponseState)
      → (outcome : Result Http1Error ParseProgress) × (final_response eof request_method limits head
            s
          ≡ some outcome)
  unfolding final_response
  final_response-ends head s =
      by_framing (determine_framing request_method head.version head.status_code head.headers)
    where
      by_framing :
          (f : Result Http1Error Http1Framing)
          → (outcome : Result Http1Error ParseProgress) × (elim f [
            | err e ↦ some (err e)
            | ok framing ↦
                Option.map (with_body head s framing) (parse_body framing eof s.rest limits)
          ]
              ≡ some outcome)
      by_framing (err e) = (err e, refl)
      by_framing (ok framing) =
          let (outcome, e) = parse_body-ends eof limits framing s.rest in
          (with_body head s framing outcome, rw e refl)

  -- What a complete response went through behind its header block.
  pub final_response-complete :
      (head : Head) (s : ResponseState) (p : ParsedResponse)
      → final_response eof request_method limits head s ≡ some (ok (complete p))
      → (framing : Http1Framing) × (body : ParsedBody) × (determine_framing request_method
            head.version head.status_code head.headers
          ≡ ok framing)
        × (parse_body framing eof s.rest limits ≡ some (ok (some body)))
        × (ltb u64_max (s.offset + body.consumed) ≡ false)
        × (p ≡ response_of head s framing body)
  unfolding final_response
  final_response-complete head s p e =
      elim (Result-cases
        (determine_framing request_method head.version head.status_code head.headers)) [
          | inr (failure, h) ↦ absurd (let e = rw (final_response, h) at e in cc)
          | inl (framing, h) ↦
              let (outcome, ended) = parse_body-ends eof limits framing s.rest in
              let e = rw (final_response, h, ended) at e in
              let (body, form, fits, shape) =
                with_body-complete head s framing outcome
                  (let f : with_body head s framing outcome ≡ ok (complete p) = cc in f) in
              (framing, body, h, rw (ended, form) refl, fits, shape)
        ]

  response_loop-ends :
      (fuel : ℕ) (s : ResponseState)
      → length s.rest < fuel
      → (outcome : Result Http1Error ParseProgress) × (response_loop eof request_method limits fuel
            s
          ≡ some outcome)
  unfolding response_loop
  response_loop-ends zero s room = absurd (omega arith)
  response_loop-ends (suc fuel) s room =
      by_round (λ t. response_loop-ends fuel t) (head_round eof limits s) refl
    where
      by_round :
          ((t : ResponseState)
            → length t.rest < fuel
            → (outcome : Result Http1Error ParseProgress) × (response_loop eof request_method limits
                  fuel t
                ≡ some outcome))
          → (r : Result Http1Error HeadRound) → head_round eof limits s ≡ r
          → (outcome : Result Http1Error ParseProgress) × (head_next r
                (response_loop eof request_method limits fuel)
                (final_response eof request_method limits)
              ≡ some outcome)
      by_round onward (err e) h = (err e, refl)
      by_round onward (ok waiting) h = (ok incomplete, refl)
      by_round onward (ok (final_head head t)) h = final_response-ends head t
      by_round onward (ok (next_head t)) h =
          onward t (shrunk (head_round-HeadOutcome eof limits s (next_head t) h))
        where
          shrunk : HeadOutcome limits s (next_head t) → length t.rest < fuel
          shrunk (waits e) = absurd (cc)
          shrunk (passes n head k _ _ _ _ form) =
              let (less, _) =
                head-shrinks limits s n (saturating_succ u64_max s.interim_responses) head k in
              let same : t ≡ behind_head s n (saturating_succ u64_max s.interim_responses) = cc in
              rw same (omega (arith, less))
          shrunk (ends n head k _ form) = absurd (cc)

  -- Whatever the bytes are, `parse_response` ends: with an error, for more bytes, or complete.
  pub parse_response-ends :
      (bytes : Text)
      → (outcome : Result Http1Error ParseProgress) × (parse_response bytes eof request_method
            limits
          ≡ some outcome)
  unfolding parse_response
  parse_response-ends bytes =
      response_loop-ends (suc (length bytes)) (response_start bytes) (omega arith)
