-- ===== src/Http1/Chunked/Ending.antt =====
-- crates/nxb-http1/src/parser.rs: `parse_chunked` ends, and its answers stay within the bytes and
-- the limits.

use bound_seal.Std.Text.Searching.{find_window-bound}
use bound_seal.Http1.Fields.{find_crlf, crlf, find_double_crlf}
use bound_seal.Std.Text.{eq_text}
use bound_seal.Http1.Chunked.{
  again, size_of_line, chunk_at, sized_chunk, finished, behind_line, chunk_round, ParsedBody,
  ChunkState, with_trailers, last_chunk, trailers_of,
}
use bound_seal.Http1.Model.{Http1Header, Http1Limits}
use bound_seal.Common.{
  length-take, saturating_add-exact, suc, length-drop, ◌≤◌, u64_max, zero, length-append, drop,
  >>=-eq-ok, fail_if-then, ltb, some, length, false, Option-cases, Bool, Bool-cases, inl, ◌+◌, true,
  arith, ok, inr, List, [], take, ℕ, ◌≡◌,
}
use bound_seal.Http1.Chunked.Reading.{
  IsReadable, chunk_data-finished, behind_chunk, chunk_data-again, finish-finished,
  chunk_round-again, starved-some,
}

-- A state in the middle of `total` bytes: the decoded bytes are some of those that were read, and
-- they are within the limit.
pub record IsMidway (limits : Http1Limits) (total : ℕ) (s : ChunkState) : Type 0 where
  pub accounted : length s.rest + s.cursor ≡ total
  pub read : length s.decoded ≤ s.cursor
  pub within : length s.decoded ≤ limits.maximum_response_body_bytes

-- An answer about `total` bytes.
pub record IsWithin (limits : Http1Limits) (total : ℕ) (p : ParsedBody) : Type 0 where
  pub taken : p.consumed ≤ total
  pub decoded : length p.body ≤ p.consumed
  pub within : length p.body ≤ limits.maximum_response_body_bytes

module _ (limits : Http1Limits) (eof : Bool) where
  -- The two ways in which `last_chunk` gives a body.
  pub data Last (s : ChunkState) (p : ParsedBody) : Type 0 where
    bare :
        eq_text (take 2 s.rest) crlf ≡ true
        → p ≡ record { body = s.decoded; trailers = []; consumed = s.cursor + 2 }
        → Last s p
    trailed :
        eq_text (take 2 s.rest) crlf ≡ false
        → (n : ℕ) (trailers : List Http1Header) → find_double_crlf s.rest ≡ some n
        → trailers_of limits s.rest n ≡ ok trailers
        → p ≡ record { body = s.decoded; trailers = trailers; consumed = s.cursor + n }
        → Last s p

  pub last_chunk-Last :
      (s : ChunkState) (p : ParsedBody)
      → last_chunk limits eof s ≡ ok (some p)
      → (ltb (length s.rest) 2 ≡ false) × Last s p
  unfolding last_chunk with_trailers
  last_chunk-Last s p e = elim (Bool-cases (ltb (length s.rest) 2)) [
    | inl h ↦ absurd (omega (arith, starved-some eof _ (rw (last_chunk, h) at e)))
    | inr h ↦ elim (Bool-cases (eq_text (take 2 s.rest) crlf)) [
      | inl k ↦ (h, bare k (let e = rw (last_chunk, h, k) at e in cc))
      | inr k ↦ elim (Option-cases (find_double_crlf s.rest)) [
        | inl l ↦
            let (_, e) =
              fail_if-then (ltb limits.maximum_trailer_bytes (length s.rest)) _ _
                (rw (last_chunk, h, k, l) at e) in
            absurd (omega (arith, starved-some eof _ e))
        | inr (n, l) ↦
            let (trailers, m, e) =
              >>=-eq-ok (trailers_of limits s.rest n) _ (rw (last_chunk, h, k, l) at e) in
            (h, trailed k n trailers l m cc)
      ]
    ]
  ]

  -- A body comes from a chunk of size 0.
  pub chunk_round-finished :
      (s : ChunkState) (p : ParsedBody)
      → chunk_round limits eof s ≡ ok (finished (some p))
      → (m : ℕ) × (find_crlf s.rest ≡ some m)
        × (size_of_line (take m s.rest) ≡ ok 0)
        × (ltb (length (drop (m + 2) s.rest)) 2 ≡ false)
        × Last (behind_line s m) p
  unfolding chunk_round chunk_at sized_chunk
  chunk_round-finished s p e = elim (Option-cases (find_crlf s.rest)) [
    | inl h ↦
        let (_, e) = fail_if-then (ltb 128 (length s.rest)) _ _ (rw (chunk_round, h) at e) in
        let (answer, e, form) = finish-finished _ e in
        let body : answer ≡ some p = cc in absurd (omega (arith, starved-some eof _ (rw body at e)))
    | inr (m, h) ↦
        let (size, sized, e) =
          >>=-eq-ok (size_of_line (take m s.rest)) _ (rw (chunk_round, h) at e) in
        by_size size m h sized e
  ]
    where
      by_size :
          (size m : ℕ)
          → find_crlf s.rest ≡ some m
          → size_of_line (take m s.rest) ≡ ok size
          → sized_chunk limits eof (behind_line s m) size ≡ ok (finished (some p))
          → (m : ℕ) × (find_crlf s.rest ≡ some m)
            × (size_of_line (take m s.rest) ≡ ok 0)
            × (ltb (length (drop (m + 2) s.rest)) 2 ≡ false)
            × Last (behind_line s m) p
      by_size zero m h sized e =
          let (answer, e, form) = finish-finished _ e in
          let body : answer ≡ some p = cc in
          let (enough, last) = last_chunk-Last (behind_line s m) p (rw body at e) in
          (m, h, sized, enough, last)
      by_size (suc n) m h sized e =
          absurd (omega (arith, chunk_data-finished limits eof (behind_line s m) (suc n) e))

  -- A round that goes on takes bytes.
  pub again-shrinks :
      (s t : ChunkState)
      → chunk_round limits eof s ≡ ok (again t)
      → (m n : ℕ) × IsReadable limits (behind_line s m) n
        × (t ≡ behind_chunk (behind_line s m) n)
        × (length t.rest + (m + 2 + (n + 2)) ≡ length s.rest)
        × (length (take n (drop (m + 2) s.rest)) ≡ n)
  unfolding find_crlf
  again-shrinks s t e =
      let (m, n, h, _, e) = chunk_round-again limits eof s t e in
      let (guards, form) = (chunk_data-again limits eof (behind_line s m) t (suc n)).0 e in
      let inside : suc n + 2 ≤ length (drop (m + 2) s.rest) = ground (arith, guards.enough) in
      let line = find_window-bound crlf s.rest h in
      let left = length-drop (m + 2) s.rest in
      let gone = length-drop (suc n + 2) (drop (m + 2) s.rest) in
      (
        m,
        suc n,
        guards,
        form,
        rw form (omega arith),
        length-take (suc n) (drop (m + 2) s.rest) (omega (arith, inside)),
      )

  pub again-IsMidway :
      (total : ℕ) (s t : ChunkState)
      → chunk_round limits eof s ≡ ok (again t)
      → IsMidway limits total s
      → IsMidway limits total t
  again-IsMidway total s t e k =
      let (m, n, guards, form, taken, added) = again-shrinks s t e in
      let taken = rw form at taken in
      let bounded : s.cursor + m + 2 + n + 2 ≤ u64_max = ground (arith, guards.suffix) in
      let grown = length-append s.decoded (take n (drop (m + 2) s.rest)) in
      let exact =
        saturating_add-exact u64_max (length s.decoded) n (omega (arith, bounded, k.read)) in
      let small : length s.decoded + n ≤ limits.maximum_response_body_bytes =
        ground (arith, guards.total, exact) in
      rw form (record {
        accounted = omega (arith, k.accounted);
        read = omega (arith, k.read);
        within = omega (arith, k.within, small);
      })
