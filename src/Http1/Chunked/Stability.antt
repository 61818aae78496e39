-- ===== src/Http1/Chunked/Stability.antt =====
-- crates/nxb-http1/src/parser.rs: what `parse_chunked` found stays found when more bytes arrive.
use bound_seal.Std.Text.{Text}
use bound_seal.Http1.Chunked.Ending.{trailed, bare, Last, chunk_round-finished}
use bound_seal.Http1.Fields.{crlf, find_crlf}
use bound_seal.Std.Text.Searching.{find_window-bound, find_window-append}
use bound_seal.Http1.Blocks.{find_double_crlf-bound, find_double_crlf-append}
use bound_seal.Http1.Chunked.Reading.{chunk_round-again, IsReadable, behind_chunk, chunk_data-again}
use bound_seal.Http1.Model.{Http1Limits, Http1Error}
use bound_seal.Http1.Chunked.{
  again, sized_chunk, chunk_next, chunk_start, parse_chunked, Round, ChunkState, finished,
  behind_line, with_trailers, chunk_loop, last_chunk, trailers_of, chunk_at, chunk_round,
  ParsedBody,
}
use bound_seal.Common.{
  ok, length-append, ltb, drop-append, Result, take, arith, take-append, some, sym, zero, length,
  ◌≤◌, suc, drop, ◌+◌, err, false, length-drop, Bool, ◌++◌, ℕ, ◌≡◌, refl,
}

abbrev extend : Text → ChunkState → ChunkState
extend more s = record {
  rest = s.rest ++ more;
  cursor = s.cursor;
  decoded = s.decoded;
  chunks = s.chunks;
}

module _ (limits : Http1Limits) (eof later : Bool) (more : Text) where
  -- The line of a size and what stands behind it.
  line-append :
      (s : ChunkState) (m : ℕ)
      → find_crlf s.rest ≡ some m
      → (find_crlf (s.rest ++ more) ≡ some m)
        × (take m (s.rest ++ more) ≡ take m s.rest)
        × (drop (m + 2) (s.rest ++ more) ≡ drop (m + 2) s.rest ++ more)
  unfolding find_crlf
  line-append s m h =
      let line = find_window-bound crlf s.rest h in
      (
        find_window-append crlf s.rest more h,
        take-append m s.rest more (omega arith),
        drop-append (m + 2) s.rest more (omega arith),
      )

  IsReadable-extend :
      (s : ChunkState) (n : ℕ)
      → IsReadable limits s n
      → IsReadable limits (extend more s) n
        × (behind_chunk (extend more s) n ≡ extend more (behind_chunk s n))
  IsReadable-extend s n k =
      let inside : n + 2 ≤ length s.rest = ground (arith, k.enough) in
      let whole = length-append s.rest more in
      let left = length-drop n s.rest in
      let datum = drop-append n s.rest more (omega arith) in
      let close = take-append 2 (drop n s.rest) more (omega arith) in
      (
        record {
          count = k.count;
          size = k.size;
          total = k.total;
          offset = k.offset;
          suffix = k.suffix;
          enough = ground arith;
          closed = rw (datum, close) k.closed;
        },
        rw (drop-append (n + 2) s.rest more inside, take-append n s.rest more (omega arith)) refl,
      )

  again-extend :
      (s t : ChunkState)
      → chunk_round limits eof s ≡ ok (again t)
      → chunk_round limits later (extend more s) ≡ ok (again (extend more t))
  unfolding chunk_round chunk_at sized_chunk
  again-extend s t e =
      let (m, n, h, sized, e) = chunk_round-again limits eof s t e in
      let (guards, form) = (chunk_data-again limits eof (behind_line s m) t (suc n)).0 e in
      let (line, text_of_line, behind) = line-append s m h in
      let (guards, form_behind) = IsReadable-extend (behind_line s m) (suc n) guards in
      rw (line, text_of_line, sized, behind, form)
        ((chunk_data-again limits later (extend more (behind_line s m))
            (extend more (behind_chunk (behind_line s m) (suc n))) (suc n)).1
          (guards, sym form_behind))

  Last-extend :
      (s : ChunkState) (p : ParsedBody)
      → ltb (length s.rest) 2 ≡ false
      → Last limits eof s p
      → last_chunk limits later (extend more s) ≡ ok (some p)
  unfolding last_chunk with_trailers trailers_of
  Last-extend s p enough (bare ended form) =
      let whole = length-append s.rest more in
      let inside : 2 ≤ length s.rest = ground arith in
      let enough : ltb (length (s.rest ++ more)) 2 ≡ false = ground arith in
      rw (last_chunk, enough, take-append 2 s.rest more inside, ended, form) refl
  Last-extend s p enough (trailed ended n trailers found parsed form) =
      let whole = length-append s.rest more in
      let inside : 2 ≤ length s.rest = ground arith in
      let enough : ltb (length (s.rest ++ more)) 2 ≡ false = ground arith in
      let (_, bound) = find_double_crlf-bound s.rest found in
      rw
        (
          last_chunk,
          enough,
          take-append 2 s.rest more inside,
          ended,
          find_double_crlf-append s.rest more found,
          take-append n s.rest more bound,
          parsed,
          form,
        )
        refl

  finished-extend :
      (s : ChunkState) (p : ParsedBody)
      → chunk_round limits eof s ≡ ok (finished (some p))
      → chunk_round limits later (extend more s) ≡ ok (finished (some p))
  unfolding chunk_round chunk_at sized_chunk
  finished-extend s p e =
      let (m, h, sized, enough, last) = chunk_round-finished limits eof s p e in
      let (line, text_of_line, behind) = line-append s m h in
      rw (line, text_of_line, sized, behind, Last-extend (behind_line s m) p enough last) refl

  -- The loop gives the same body with more bytes and with more fuel.
  chunk_loop-extend :
      (fuel extra : ℕ) (s : ChunkState) (p : ParsedBody)
      → chunk_loop limits eof fuel s ≡ some (ok (some p))
      → fuel ≤ extra
      → chunk_loop limits later extra (extend more s) ≡ some (ok (some p))
  unfolding chunk_loop
  chunk_loop-extend zero extra s p e room = absurd (cc)
  chunk_loop-extend (suc fuel) zero s p e room = absurd (omega arith)
  chunk_loop-extend (suc fuel) (suc extra) s p e room =
      by_round (λ t e. chunk_loop-extend fuel extra t p e (omega arith)) (chunk_round limits eof s)
        refl e
    where
      by_round :
          ((t : ChunkState)
            → chunk_loop limits eof fuel t ≡ some (ok (some p))
            → chunk_loop limits later extra (extend more t) ≡ some (ok (some p)))
          → (r : Result Http1Error Round) → chunk_round limits eof s ≡ r
          → chunk_next r (chunk_loop limits eof fuel) ≡ some (ok (some p))
          → chunk_next (chunk_round limits later (extend more s)) (chunk_loop limits later extra)
            ≡ some (ok (some p))
      by_round onward (err e) h l = absurd (cc)
      by_round onward (ok (finished answer)) h l =
          let body : answer ≡ some p = cc in rw (finished-extend s p (rw body at h)) refl
      by_round onward (ok (again t)) h l = rw (again-extend s t h) (onward t l)

  -- A body that was read whole from the bytes so far is the one read when more bytes are there,
  -- whether or not the stream has ended by then.
  pub parse_chunked-append :
      (bytes : Text) (p : ParsedBody)
      → parse_chunked bytes eof limits ≡ some (ok (some p))
      → parse_chunked (bytes ++ more) later limits ≡ some (ok (some p))
  unfolding parse_chunked
  parse_chunked-append bytes p e =
      chunk_loop-extend (suc (length bytes)) (suc (length (bytes ++ more))) (chunk_start bytes) p e
        (omega (arith, length-append bytes more))
