-- ===== src/Http1/Parser/Arrivals.antt =====
-- crates/nxb-http1/src/parser.rs: a response that is complete stays what it is when more bytes
-- arrive.
use bound_seal.Http1.Chunked.{ParsedBody}
use bound_seal.Std.Text.{text, Text}
use bound_seal.Http1.Parser.Bounds.{body_of_length-within}
use bound_seal.Http1.Blocks.{find_double_crlf-append, find_double_crlf-bound}
use bound_seal.Http1.Parser.Heads.{ends, passes, waits, IsHead, HeadOutcome, head_round-HeadOutcome}
use bound_seal.Http1.Chunked.Stability.{parse_chunked-append}
use bound_seal.Http1.Model.{
  Http1Framing, Http1Limits, no_body, content_length, chunked, invalid_response, connection_close,
  Http1Error,
}
use mathlib.Core.Bool.{false≢true}
use bound_seal.Http1.Parser.{
  by_status, parse_response, with_body, ResponseState, head_next, body_to_close, final_head,
  head_at, starved_head, complete, body_of_length, after_interim, behind_head, final_response,
  head_round, HeadRound, waiting, response_start, ParsedResponse, response_loop, Head, next_head,
  parse_body,
}
use bound_seal.Http1.Parser.Progress.{final_response-complete}
use bound_seal.Common.{
  some, ◌≤◌, take, drop-append, length, [], ◌∷◌, Bool, sym, false, zero, u64_max, take-append, inr,
  ltb, ok, ◌++◌, arith, inl, err, saturating_succ, fail_if-then, suc, Result, length-append,
  is_empty, ◌⊎◌, ℕ, ◌≡◌, refl,
}

abbrev extend : Text → ResponseState → ResponseState
extend more s = record {
  rest = s.rest ++ more;
  offset = s.offset;
  interim_responses = s.interim_responses;
}

-- The body that `false` marks as read before the end of the stream.
parse_body-append :
    (later : Bool) (limits : Http1Limits) (framing : Http1Framing) (bytes more : Text)
    (p : ParsedBody)
    → parse_body framing false bytes limits ≡ some (ok (some p))
    → parse_body framing later (bytes ++ more) limits ≡ some (ok (some p))
unfolding parse_body body_to_close body_of_length
parse_body-append later limits no_body bytes more p e = cc
parse_body-append later limits (content_length n) bytes more p e =
    let (allowed, e) =
      fail_if-then (ltb limits.maximum_response_body_bytes n)
        (invalid_response (text "Content-Length exceeds configured body limit"))
        (body_of_length false bytes n) (let f : _ ≡ ok (some p) = cc in f) in
    let (inside, form) = body_of_length-within false bytes n p e in
    let whole = length-append bytes more in
    let enough : ltb (length (bytes ++ more)) n ≡ false = ground arith in
    rw (allowed, body_of_length, enough, take-append n bytes more inside, form) refl
parse_body-append later limits chunked bytes more p e =
    parse_chunked-append limits false later more bytes p e
parse_body-append later limits connection_close bytes more p e = absurd (cc)

module _ (later : Bool) (request_method : Text) (limits : Http1Limits) (more : Text) where
  is_empty-append : (xs : Text) → is_empty xs ≡ false → is_empty (xs ++ more) ≡ false
  is_empty-append [] h = absurd (false≢true (sym h))
  is_empty-append (x ∷ xs) h = refl

  after_interim-more :
      (t : ResponseState)
      → is_empty t.rest ≡ false
      → after_interim later limits t ≡ ok (next_head t)
  unfolding after_interim
  after_interim-more t h = by_rest t.rest h
    where
      by_rest :
          (rest : Text)
          → is_empty rest ≡ false
          → (elim rest [
            | [] ↦ starved_head later (text "stream ended after interim response")
            | _ ∷ _ ↦ ok (next_head t)
          ])
            ≡ ok (next_head t)
      by_rest [] h = absurd (false≢true (sym h))
      by_rest (c ∷ rest) h = refl

  -- A header block is read in the same way.
  module _ (s : ResponseState) (n : ℕ) (head : Head) (k : IsHead limits s n head) where
    behind-extend :
        (interim_responses : ℕ)
        → behind_head (extend more s) n interim_responses
          ≡ extend more (behind_head s n interim_responses)
    behind-extend i =
        let (_, inside) = find_double_crlf-bound s.rest k.found in
        rw (drop-append n s.rest more inside) refl

    taken-extend : take n (s.rest ++ more) ≡ take n s.rest
    taken-extend = take-append n s.rest more (find_double_crlf-bound s.rest k.found).1

  head_round-extend :
      (s : ResponseState) (r : HeadRound)
      → HeadOutcome limits s r
      → (r ≡ waiting)
        ⊎ ((t : ResponseState) × (r ≡ next_head t)
            × (head_round later limits (extend more s) ≡ ok (next_head (extend more t))))
        ⊎ ((t : ResponseState) × (head : Head) × (r ≡ final_head head t)
            × (head_round later limits (extend more s) ≡ ok (final_head head (extend more t))))
  unfolding head_round head_at by_status
  head_round-extend s r (waits e) = inl e
  head_round-extend s r (passes n head k interim no_upgrade few some_left form) =
      let i = saturating_succ u64_max s.interim_responses in
      let behind = behind-extend s n head k i in
      inr (
        inl (
          behind_head s n i,
          form,
          rw
              (
                find_double_crlf-append s.rest more k.found,
                k.offset,
                taken-extend s n head k,
                k.parsed,
              )
              (rw (by_status, interim, no_upgrade, few, behind)
                (after_interim-more (extend more (behind_head s n i))
                  (is_empty-append _ some_left))),
        ))
  head_round-extend s r (ends n head k final form) = inr (
      inr (
        behind_head s n s.interim_responses,
        head,
        form,
        rw
            (
              find_double_crlf-append s.rest more k.found,
              k.offset,
              taken-extend s n head k,
              k.parsed,
            )
            (rw (by_status, final, behind-extend s n head k s.interim_responses) refl),
      ))

  final_response-extend :
      (head : Head) (s : ResponseState) (p : ParsedResponse)
      → final_response false request_method limits head s ≡ some (ok (complete p))
      → final_response later request_method limits head (extend more s) ≡ some (ok (complete p))
  unfolding final_response with_body
  final_response-extend head s p e =
      let (framing, body, framed, read, fits, shape) =
        final_response-complete false request_method limits head s p e in
      rw (final_response, framed)
        (rw (parse_body-append later limits framing s.rest more body read) (rw (fits, shape) refl))

  response_loop-extend :
      (fuel extra : ℕ) (s : ResponseState) (p : ParsedResponse)
      → response_loop false request_method limits fuel s ≡ some (ok (complete p))
      → fuel ≤ extra
      → response_loop later request_method limits extra (extend more s) ≡ some (ok (complete p))
  unfolding response_loop
  response_loop-extend zero extra s p e room = absurd (cc)
  response_loop-extend (suc fuel) zero s p e room = absurd (omega arith)
  response_loop-extend (suc fuel) (suc extra) s p e room =
      by_round (λ t e. response_loop-extend fuel extra t p e (omega arith))
        (head_round false limits s) refl e
    where
      by_round :
          ((t : ResponseState)
            → response_loop false request_method limits fuel t ≡ some (ok (complete p))
            → response_loop later request_method limits extra (extend more t)
              ≡ some (ok (complete p)))
          → (r : Result Http1Error HeadRound) → head_round false limits s ≡ r
          → head_next r
              (response_loop false request_method limits fuel)
              (final_response false request_method limits)
            ≡ some (ok (complete p))
          → head_next
              (head_round later limits (extend more s))
              (response_loop later request_method limits extra)
              (final_response later request_method limits)
            ≡ some (ok (complete p))
      by_round onward (err e) h l = absurd (cc)
      by_round onward (ok r) h l =
          elim (head_round-extend s r (head_round-HeadOutcome false limits s r h)) [
            | inl w ↦ absurd (let l = rw w at l in cc)
            | inr (inl (t, form, round)) ↦ rw round (onward t (rw form at l))
            | inr (inr (t, head, form, round)) ↦
                rw round (final_response-extend head t p (rw form at l))
          ]

  -- A response that was complete before the end of the stream is the same response, and takes the
  -- same bytes, when more bytes have arrived and when the stream has ended.
  pub parse_response-append :
      (bytes : Text) (p : ParsedResponse)
      → parse_response bytes false request_method limits ≡ some (ok (complete p))
      → parse_response (bytes ++ more) later request_method limits ≡ some (ok (complete p))
  unfolding parse_response
  parse_response-append bytes p e =
      response_loop-extend (suc (length bytes)) (suc (length (bytes ++ more)))
        (response_start bytes) p e (omega (arith, length-append bytes more))
