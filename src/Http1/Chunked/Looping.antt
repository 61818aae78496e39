-- ===== src/Http1/Chunked/Looping.antt =====
-- crates/nxb-http1/src/parser.rs: the loop of `parse_chunked` ends, and its answer stays within the
-- bytes and the limits.
use bound_seal.Http1.Blocks.{find_double_crlf-bound}
use bound_seal.Std.Text.{Text}
use bound_seal.Http1.Chunked.{
  again, chunk_start, chunk_round, chunk_loop, parse_chunked, behind_line, Round, finished,
  chunk_next, ChunkState, ParsedBody,
}
use bound_seal.Common.{
  ℕ, Result, Bool, ◌<◌, ◌+◌, some, suc, refl, ltb, err, ◌≡◌, Option, ◌≤◌, zero, drop, length, false,
  length-drop, arith, ok,
}
use bound_seal.Http1.Fields.{crlf, find_crlf}
use bound_seal.Http1.Model.{Http1Error, Http1Limits}
use bound_seal.Std.Text.Searching.{find_window-bound}
use bound_seal.Http1.Chunked.Ending.{
  trailed, bare, chunk_round-finished, IsWithin, Last, IsMidway, again-IsMidway, again-shrinks,
}

module _ (limits : Http1Limits) (eof : Bool) where
  -- Fuel for every byte that is left is enough.
  chunk_loop-ends :
      (fuel : ℕ) (s : ChunkState)
      → length s.rest < fuel
      → (outcome : Result Http1Error (Option ParsedBody)) × (chunk_loop limits eof fuel s
          ≡ some outcome)
  unfolding chunk_loop
  chunk_loop-ends zero s room = absurd (omega arith)
  chunk_loop-ends (suc fuel) s room =
      by_round (λ t. chunk_loop-ends fuel t) (chunk_round limits eof s) refl
    where
      by_round :
          ((t : ChunkState)
            → length t.rest < fuel
            → (outcome : Result Http1Error (Option ParsedBody)) × (chunk_loop limits eof fuel t
                ≡ some outcome))
          → (r : Result Http1Error Round) → chunk_round limits eof s ≡ r
          → (outcome : Result Http1Error (Option ParsedBody)) × (chunk_next r
                (chunk_loop limits eof fuel)
              ≡ some outcome)
      by_round onward (err e) h = (err e, refl)
      by_round onward (ok (finished answer)) h = (ok answer, refl)
      by_round onward (ok (again t)) h =
          let (m, n, _, _, taken, _) = again-shrinks limits eof s t h in onward t (omega arith)

  -- Whatever the bytes and the limits are, `parse_chunked` ends with an answer or an error.
  pub parse_chunked-ends :
      (bytes : Text)
      → (outcome : Result Http1Error (Option ParsedBody)) × (parse_chunked bytes eof limits
          ≡ some outcome)
  unfolding parse_chunked
  parse_chunked-ends bytes = chunk_loop-ends (suc (length bytes)) (chunk_start bytes) (omega arith)

-- A body comes from the last round, in a state that has what every round keeps.
module _ (limits : Http1Limits) (eof : Bool) (P : ChunkState → Type 0)
    (keep : (s t : ChunkState) → chunk_round limits eof s ≡ ok (again t) → P s → P t) where
  pub chunk_loop-elim :
      (fuel : ℕ) (s : ChunkState) (p : ParsedBody)
      → P s
      → chunk_loop limits eof fuel s ≡ some (ok (some p))
      → (t : ChunkState) × P t × (chunk_round limits eof t ≡ ok (finished (some p)))
  unfolding chunk_loop
  chunk_loop-elim zero s p k e = absurd (cc)
  chunk_loop-elim (suc fuel) s p k e =
      by_round (λ t. chunk_loop-elim fuel t p) (chunk_round limits eof s) refl e
    where
      by_round :
          ((t : ChunkState)
            → P t
            → chunk_loop limits eof fuel t ≡ some (ok (some p))
            → (t : ChunkState) × P t × (chunk_round limits eof t ≡ ok (finished (some p))))
          → (r : Result Http1Error Round) → chunk_round limits eof s ≡ r
          → chunk_next r (chunk_loop limits eof fuel) ≡ some (ok (some p))
          → (t : ChunkState) × P t × (chunk_round limits eof t ≡ ok (finished (some p)))
      by_round onward (err e) h l = absurd (cc)
      by_round onward (ok (finished answer)) h l =
          (s, k, rw h (let same : answer ≡ some p = cc in rw same refl))
      by_round onward (ok (again t)) h l = onward t (keep s t h k) l

module _ (limits : Http1Limits) (eof : Bool) where
  Last-IsWithin :
      (total m : ℕ) (s : ChunkState) (p : ParsedBody)
      → IsMidway limits total s
      → m + 2 ≤ length s.rest
      → ltb (length (drop (m + 2) s.rest)) 2 ≡ false
      → Last limits eof (behind_line s m) p
      → IsWithin limits total p
  Last-IsWithin total m s p k line enough (bare _ form) =
      let left = length-drop (m + 2) s.rest in
      let enough : 2 ≤ length (drop (m + 2) s.rest) = ground arith in
      rw form (record {
        taken = omega (arith, k.accounted, enough);
        decoded = omega (arith, k.read);
        within = k.within;
      })
  Last-IsWithin total m s p k line enough (trailed _ n trailers found _ form) =
      let left = length-drop (m + 2) s.rest in
      let (_, inside) = find_double_crlf-bound (drop (m + 2) s.rest) found in
      rw form (record {
        taken = omega (arith, k.accounted, inside);
        decoded = omega (arith, k.read);
        within = k.within;
      })

  -- The body of a complete message is within the limit, it is made of bytes that were consumed, and
  -- no more is consumed than there is.
  pub parse_chunked-IsWithin :
      (bytes : Text) (p : ParsedBody)
      → parse_chunked bytes eof limits ≡ some (ok (some p))
      → IsWithin limits (length bytes) p
  unfolding parse_chunked find_crlf
  parse_chunked-IsWithin bytes p e =
      let total = length bytes in
      let start : IsMidway limits total (chunk_start bytes) = record {
        accounted = omega arith;
        read = omega arith;
        within = omega arith;
      } in
      let (t, k, e) =
        chunk_loop-elim limits eof (IsMidway limits total) (again-IsMidway limits eof total)
          (suc total) (chunk_start bytes) p start e in
      let (m, h, _, enough, last) = chunk_round-finished limits eof t p e in
      Last-IsWithin total m t p k (find_window-bound crlf t.rest h) enough last
