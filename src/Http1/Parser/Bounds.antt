-- ===== src/Http1/Parser/Bounds.antt =====
-- crates/nxb-http1/src/parser.rs: what a complete response is, whatever the bytes were.
use bound_seal.Http1.Chunked.Reading.{starved-some}
use bound_seal.Http1.Chunked.{ParsedBody}
use bound_seal.Http1.Chunked.Looping.{parse_chunked-IsWithin}
use bound_seal.Http1.Model.{
  Http1Error, connection_close, no_body, Http1Limits, Http1Framing, chunked, invalid_response,
  content_length,
}
use bound_seal.Http1.Parser.Heads.{ends, passes, waits, head_round-HeadOutcome, HeadOutcome}
use bound_seal.Http1.Parser.Progress.{response_of, head-shrinks, final_response-complete}
use bound_seal.Http1.Framing.{determine_framing}
use bound_seal.Http1.Parser.{
  complete, final_response, body_to_close, head_next, body_of_length, HeadRound, final_head,
  ResponseState, response_start, response_loop, head_round, Head, next_head, parse_body,
  ParsedResponse, behind_head, waiting, parse_response,
}
use bound_seal.Std.Text.{Text, text, between}
use bound_seal.Common.{
  err, Bool, Bool-cases, length-take, take, inr, subst, drop, length, false, inl, [],
  saturating_succ, true, Result, ◌+◌, ok, zero, suc, arith, ◌≤◌, some, ltb, u64_max, fail_if-then,
  ℕ, ◌≡◌, refl,
}

-- A state in the middle of `total` bytes.
record IsOnWay (limits : Http1Limits) (total : ℕ) (s : ResponseState) : Type 0 where
  pub accounted : length s.rest + s.offset ≡ total
  pub few : s.interim_responses ≤ limits.maximum_interim_responses

next-IsOnWay :
    (eof : Bool) (limits : Http1Limits) (total : ℕ) (s t : ResponseState)
    → head_round eof limits s ≡ ok (next_head t)
    → IsOnWay limits total s
    → IsOnWay limits total t
next-IsOnWay eof limits total s t e k =
    by_outcome (head_round-HeadOutcome eof limits s (next_head t) e)
  where
    by_outcome : HeadOutcome limits s (next_head t) → IsOnWay limits total t
    by_outcome (waits e) = absurd (cc)
    by_outcome (passes n head h _ _ few _ form) =
        let (_, taken) =
          head-shrinks limits s n (saturating_succ u64_max s.interim_responses) head h in
        let same : t ≡ behind_head s n (saturating_succ u64_max s.interim_responses) = cc in
        rw same
          (record { accounted = omega (arith, k.accounted, taken); few = ground (arith, few) })
    by_outcome (ends n head h _ form) = absurd (cc)

module _ (eof : Bool) (request_method : Text) (limits : Http1Limits) (P : ResponseState → Type 0)
    (keep : (s t : ResponseState) → head_round eof limits s ≡ ok (next_head t) → P s → P t) where
  -- A complete response comes from the last round, in a state that has what every round keeps.
  pub response_loop-elim :
      (fuel : ℕ) (s : ResponseState) (p : ParsedResponse)
      → P s
      → response_loop eof request_method limits fuel s ≡ some (ok (complete p))
      → (t u : ResponseState) × (head : Head) × P t
        × (head_round eof limits t ≡ ok (final_head head u))
        × (final_response eof request_method limits head u ≡ some (ok (complete p)))
  unfolding response_loop
  response_loop-elim zero s p k e = absurd (cc)
  response_loop-elim (suc fuel) s p k e =
      by_round (λ t. response_loop-elim fuel t p) (head_round eof limits s) refl e
    where
      by_round :
          ((t : ResponseState)
            → P t
            → response_loop eof request_method limits fuel t ≡ some (ok (complete p))
            → (t u : ResponseState) × (head : Head) × P t
              × (head_round eof limits t ≡ ok (final_head head u))
              × (final_response eof request_method limits head u ≡ some (ok (complete p))))
          → (r : Result Http1Error HeadRound) → head_round eof limits s ≡ r
          → head_next r
              (response_loop eof request_method limits fuel)
              (final_response eof request_method limits)
            ≡ some (ok (complete p))
          → (t u : ResponseState) × (head : Head) × P t
            × (head_round eof limits t ≡ ok (final_head head u))
            × (final_response eof request_method limits head u ≡ some (ok (complete p)))
      by_round onward (err e) h l = absurd (cc)
      by_round onward (ok waiting) h l = absurd (cc)
      by_round onward (ok (next_head t)) h l = onward t (keep s t h k) l
      by_round onward (ok (final_head head u)) h l = (s, u, head, k, h, l)

pub body_of_length-within :
    (eof : Bool) (bytes : Text) (n : ℕ) (p : ParsedBody)
    → body_of_length eof bytes n ≡ ok (some p)
    → (n ≤ length bytes) × (p ≡ record { body = take n bytes; trailers = []; consumed = n })
unfolding body_of_length
body_of_length-within eof bytes n p e = elim (Bool-cases (ltb (length bytes) n)) [
  | inl h ↦ absurd (omega (arith, starved-some eof _ (rw (body_of_length, h) at e)))
  | inr h ↦ (ground arith, let e = rw (body_of_length, h) at e in cc)
]

-- A body stays within the bytes and the limit, whatever its framing is.
parse_body-within :
    (eof : Bool) (limits : Http1Limits) (framing : Http1Framing) (bytes : Text) (p : ParsedBody)
    → parse_body framing eof bytes limits ≡ some (ok (some p))
    → (p.consumed ≤ length bytes) × (length p.body ≤ limits.maximum_response_body_bytes)
unfolding parse_body body_to_close
parse_body-within eof limits no_body bytes p e =
    let form : p ≡ record { body = []; trailers = []; consumed = 0 } = cc in
    rw form (omega arith, omega arith)
parse_body-within eof limits (content_length n) bytes p e =
    let (allowed, e) =
      fail_if-then (ltb limits.maximum_response_body_bytes n)
        (invalid_response (text "Content-Length exceeds configured body limit"))
        (body_of_length eof bytes n) (let f : _ ≡ ok (some p) = cc in f) in
    let (inside, form) = body_of_length-within eof bytes n p e in
    let size = length-take n bytes inside in
    let allowed : n ≤ limits.maximum_response_body_bytes = ground arith in
    rw form (inside, omega arith)
parse_body-within eof limits chunked bytes p e =
    let k = parse_chunked-IsWithin limits eof bytes p e in (k.taken, k.within)
parse_body-within false limits connection_close bytes p e = absurd (cc)
parse_body-within true limits connection_close bytes p e =
    let (allowed, e) =
      fail_if-then (ltb limits.maximum_response_body_bytes (length bytes))
        (invalid_response (text "connection-close body exceeds configured limit"))
        (ok (some (record { body = bytes; trailers = []; consumed = length bytes })))
        (let f : _ ≡ ok (some p) = cc in f) in
    let form : p ≡ record { body = bytes; trailers = []; consumed = length bytes } = cc in
    rw form (omega arith, ground arith)

-- A response to `request_method` that was read from `total` bytes.
pub record IsResponse (request_method : Text) (limits : Http1Limits) (total : ℕ)
    (p : ParsedResponse) : Type 0 where
  pub consumed : p.consumed_wire_bytes ≤ total
  pub body : length p.response.body ≤ limits.maximum_response_body_bytes
  pub interim : p.response.interim_responses ≤ limits.maximum_interim_responses
  pub final : between 100 199 p.response.status_code ≡ false
  pub framed :
      determine_framing request_method p.response.version p.response.status_code p.response.headers
      ≡ ok p.response.framing

module _ (eof : Bool) (request_method : Text) (limits : Http1Limits) where
  -- A complete response takes no more bytes than there are, keeps the limits on its body and on the
  -- interim responses before it, has a final status code, and is framed as its own headers say.
  pub parse_response-IsResponse :
      (bytes : Text) (p : ParsedResponse)
      → parse_response bytes eof request_method limits ≡ some (ok (complete p))
      → IsResponse request_method limits (length bytes) p
  unfolding parse_response
  parse_response-IsResponse bytes p e =
      let total = length bytes in
      let (t, u, head, k, round, last) =
        response_loop-elim eof request_method limits (IsOnWay limits total)
          (next-IsOnWay eof limits total) (suc total) (response_start bytes) p
          (record { accounted = omega arith; few = omega arith }) e in
      let (framing, body, framed, read, _, shape) =
        final_response-complete eof request_method limits head u p last in
      let (inside, small) = parse_body-within eof limits framing u.rest body read in
      by_outcome t u head framing body k framed inside small shape
        (head_round-HeadOutcome eof limits t (final_head head u) round)
    where
      by_outcome :
          (t u : ResponseState) (head : Head) (framing : Http1Framing) (body : ParsedBody)
          → IsOnWay limits (length bytes) t
          → determine_framing request_method head.version head.status_code head.headers ≡ ok framing
          → body.consumed ≤ length u.rest
          → length body.body ≤ limits.maximum_response_body_bytes
          → p ≡ response_of head u framing body
          → HeadOutcome limits t (final_head head u)
          → IsResponse request_method limits (length bytes) p
      by_outcome t u head framing body k framed inside small shape (waits e) = absurd (cc)
      by_outcome t u head framing body k framed inside small shape (passes _ _ _ _ _ _ _ e) =
          absurd (cc)
      by_outcome t u head framing body k framed inside small shape (ends n other h final form) =
          let (_, taken) = head-shrinks limits t n t.interim_responses other h in
          let same : u ≡ behind_head t n t.interim_responses = cc in
          let same_head : head ≡ other = cc in
          let inside : body.consumed ≤ length (drop n t.rest) =
            subst (λ v. body.consumed ≤ length v.rest) same inside in
          rw (shape, same)
            (record {
              consumed = omega (arith, k.accounted, taken);
              body = small;
              interim = k.few;
              final = rw same_head final;
              framed = framed;
            })
