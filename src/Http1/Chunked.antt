-- ===== src/Http1/Chunked.antt =====
-- crates/nxb-http1/src/parser.rs: `parse_chunked`. Its loop reads `&bytes[cursor..]`, which the
-- state holds beside the cursor.
pub mod Reading
pub mod Written
pub mod RoundTrip
pub mod Stability
pub mod Ending
pub mod Looping
use bound_seal.Common.{
  ℕ, zero, suc, ◌+◌, ◌-◌, Bool, true, false, not, ◌||◌, Option, none, some, List, [], ◌∷◌, ◌++◌,
  ltb, ◌==◌, if◌then◌else◌, length, is_empty, all, take, drop, Result, ok, err, ◌>>=◌, ◌>>◌,
  fail_if, saturating_succ, saturating_add, u64_max,
}
use bound_seal.Std.Text.{Text, text, eq_text, contains_byte}
use bound_seal.Std.Text.Bytes.{is_ascii_hexdigit, hex_value}
use bound_seal.Std.Order.{list_ord, nat_ord}
use bound_seal.Http1.Model.{
  Http1Limits, Http1Header, Http1Error, invalid_response, truncated_response,
}
use bound_seal.Http1.Fields.{
  crlf, find_crlf, find_double_crlf, validate_crlf_block, split_crlf, parse_header_lines,
}

pub record ParsedBody : Type 0 where
  pub body : Text
  pub trailers : List Http1Header
  pub consumed : ℕ

pub record ChunkState : Type 0 where
  pub rest : Text
  pub cursor : ℕ
  pub decoded : Text
  pub chunks : ℕ

-- How a round of the loop ends: with an answer, `none` when more bytes are needed, or in another
-- round.
pub data Round : Type 0 where
  finished : Option ParsedBody → Round
  again : ChunkState → Round

-- Bytes are missing: an error at the end of the stream.
unfoldable pub starved {ℓ} : {A : Type ℓ} → Bool → Text → Result Http1Error (Option A)
starved true message = err (truncated_response message)
starved false message = ok none

unfoldable pub size_of_line : Text → Result Http1Error ℕ
size_of_line line = do
  fail_if (contains_byte b';' line)
      (invalid_response (text "chunk extensions are intentionally unsupported"))
  fail_if (is_empty line || ltb 16 (length line) || not (all is_ascii_hexdigit line))
      (invalid_response (text "chunk size must be 1-16 hexadecimal digits"))
  fail_if (ltb u64_max (hex_value line)) (invalid_response (text "chunk size overflow"))
  ok (hex_value line)

-- The state behind a size line that ends at `n`.
abbrev pub behind_line : ChunkState → ℕ → ChunkState
behind_line s n = record {
  rest = drop (n + 2) s.rest;
  cursor = s.cursor + n + 2;
  decoded = s.decoded;
  chunks = s.chunks;
}

abbrev pub finish : Result Http1Error (Option ParsedBody) → Result Http1Error Round
finish outcome = outcome >>= λ answer. ok (finished answer)

-- What a round's end leads to.
abbrev pub chunk_next :
    Result Http1Error Round
    → (ChunkState → Option (Result Http1Error (Option ParsedBody)))
    → Option (Result Http1Error (Option ParsedBody))
chunk_next (err e) onward = some (err e)
chunk_next (ok (finished answer)) onward = some (ok answer)
chunk_next (ok (again s)) onward = onward s

-- The trailers of a block that is `n` bytes long.
unfoldable pub trailers_of : Http1Limits → Text → ℕ → Result Http1Error (List Http1Header)
trailers_of limits rest n = do
  let trailer_block = take n rest
  fail_if (ltb limits.maximum_trailer_bytes (length trailer_block))
      (invalid_response (text "trailer block exceeds configured limit"))
  validate_crlf_block trailer_block
  parse_header_lines (split_crlf (take (length trailer_block - 4) trailer_block)) limits true

module _ (limits : Http1Limits) (eof : Bool) where
  unfoldable pub with_trailers : ChunkState → Option ℕ → Result Http1Error (Option ParsedBody)
  with_trailers s none = do
    fail_if (ltb limits.maximum_trailer_bytes (length s.rest))
        (invalid_response (text "trailer block exceeds configured limit"))
    starved eof (text "trailer block ended before CRLFCRLF")
  with_trailers s (some n) = do
    trailers ← trailers_of limits s.rest n
    ok (some (record { body = s.decoded; trailers = trailers; consumed = s.cursor + n }))

  -- What follows the line of a chunk of size 0.
  unfoldable pub last_chunk : ChunkState → Result Http1Error (Option ParsedBody)
  last_chunk s = elim (ltb (length s.rest) 2) [
    | true ↦ starved eof (text "zero chunk was not followed by a trailer terminator")
    | false ↦ elim (eq_text (take 2 s.rest) crlf) [
      | true ↦ ok (some (record { body = s.decoded; trailers = []; consumed = s.cursor + 2 }))
      | false ↦ with_trailers s (find_double_crlf s.rest)
    ]
  ]

  -- The data of a chunk that is not the last, from `&bytes[cursor..]` on.
  unfoldable pub chunk_data : ChunkState → ℕ → Result Http1Error Round
  chunk_data s chunk_size = do
    fail_if (ltb limits.maximum_chunk_count (saturating_succ u64_max s.chunks))
        (invalid_response (text "chunk count exceeds configured limit"))
    fail_if (ltb limits.maximum_chunk_bytes chunk_size)
        (invalid_response (text "chunk size exceeds configured limit"))
    fail_if
        (ltb limits.maximum_response_body_bytes
          (saturating_add u64_max (length s.decoded) chunk_size))
        (invalid_response (text "decoded chunked body exceeds configured limit"))
    fail_if (ltb u64_max (s.cursor + chunk_size)) (invalid_response (text "chunk offset overflow"))
    fail_if (ltb u64_max (s.cursor + chunk_size + 2))
        (invalid_response (text "chunk suffix overflow"))
    elim (ltb (length s.rest) (chunk_size + 2)) [
      | true ↦ finish (starved eof (text "chunk data ended before declared size or CRLF"))
      | false ↦ do
        fail_if (not (eq_text (take 2 (drop chunk_size s.rest)) crlf))
            (invalid_response (text "chunk data is not followed by CRLF"))
        ok (
            again record {
              rest = drop (chunk_size + 2) s.rest;
              cursor = s.cursor + chunk_size + 2;
              decoded = s.decoded ++ take chunk_size s.rest;
              chunks = saturating_succ u64_max s.chunks;
            })
    ]

  unfoldable pub sized_chunk : ChunkState → ℕ → Result Http1Error Round
  sized_chunk s zero = finish (last_chunk s)
  sized_chunk s (suc n) = chunk_data s (suc n)

  unfoldable pub chunk_at : ChunkState → Option ℕ → Result Http1Error Round
  chunk_at s none = do
    fail_if (ltb 128 (length s.rest)) (invalid_response (text "chunk-size line exceeds 128 bytes"))
    finish (starved eof (text "chunk-size line ended before CRLF"))
  chunk_at s (some n) = do
    chunk_size ← size_of_line (take n s.rest)
    sized_chunk (behind_line s n) chunk_size

  -- One round of the loop.
  unfoldable pub chunk_round : ChunkState → Result Http1Error Round
  chunk_round s = chunk_at s (find_crlf s.rest)

  -- The loop with fuel; `none` when that runs out.
  unfoldable pub chunk_loop : ℕ → ChunkState → Option (Result Http1Error (Option ParsedBody))
  chunk_loop zero s = none
  chunk_loop (suc fuel) s = chunk_next (chunk_round s) (chunk_loop fuel)

abbrev pub chunk_start : Text → ChunkState
chunk_start bytes = record { rest = bytes; cursor = 0; decoded = []; chunks = 0 }

-- A round takes a byte at least, so this fuel is enough.
unfoldable pub parse_chunked :
    Text → Bool → Http1Limits → Option (Result Http1Error (Option ParsedBody))
parse_chunked bytes eof limits = chunk_loop limits eof (suc (length bytes)) (chunk_start bytes)
