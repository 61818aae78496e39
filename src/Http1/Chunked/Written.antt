-- ===== src/Http1/Chunked/Written.antt =====
-- crates/nxb-http1/src/parser.rs: `parse_chunked` reads back a body that is written in chunks.
use bound_seal.Std.Text.Excluding.{all-excludes}
use bound_seal.Std.Text.Searching.{find_window-line}
use bound_seal.Http1.Chunked.Reading.{chunk_data-again, behind_chunk, IsReadable}
use bound_seal.Http1.Fields.{find_crlf}
use bound_seal.Http1.Model.{Http1Limits}
use bound_seal.Std.Text.Bytes.{hex_value, is_ascii_hexdigit}
use bound_seal.Http1.Chunked.{
  again, chunk_round, chunk_data, ChunkState, chunk_at, sized_chunk, size_of_line,
}
use bound_seal.Std.Text.{Text}
use bound_seal.Common.{
  drop-length-append, length-append, take-length-append, subst, drop, ◌+◌, zero, suc,
  saturating_succ, [], Bool, length, true, ◌++◌, false, ok, arith, ◌≤◌, all, ◌<◌, ◌∷◌, ◌∙◌,
  is_empty, List, u64_max, ltb, ℕ, ◌≡◌, refl,
}

-- A chunk as it is sent: the digits of its size and its data.
pub record Piece : Type 0 where
  pub digits : Text
  pub data_bytes : Text

-- Digits that spell a number.
pub record IsSize (digits : Text) (n : ℕ) : Type 0 where
  pub present : is_empty digits ≡ false
  pub short : length digits ≤ 16
  pub hexadecimal : all is_ascii_hexdigit digits ≡ true
  pub value : hex_value digits ≡ n

pub record IsPiece (limits : Http1Limits) (piece : Piece) : Type 0 where
  pub spelled : IsSize piece.digits (length piece.data_bytes)
  pub nonempty : 0 < length piece.data_bytes
  pub allowed : length piece.data_bytes ≤ limits.maximum_chunk_bytes

pub data ArePieces (limits : Http1Limits) : List Piece → Type 0 where
  no_pieces : ArePieces limits []
  more_pieces :
      {piece : Piece} {pieces : List Piece}
      → IsPiece limits piece
      → ArePieces limits pieces
      → ArePieces limits (piece ∷ pieces)

unfoldable pub write_piece : Piece → Text → Text
write_piece piece behind = piece.digits ++ 13 ∷ 10 ∷ (piece.data_bytes ++ 13 ∷ 10 ∷ behind)

-- The chunks, and the last one of size 0 without trailers, before what follows.
unfoldable pub write_pieces : List Piece → Text → Text → Text
write_pieces [] zeros behind = zeros ++ 13 ∷ 10 ∷ 13 ∷ 10 ∷ behind
write_pieces (piece ∷ pieces) zeros behind = write_piece piece (write_pieces pieces zeros behind)

unfoldable pub contents : List Piece → Text
contents [] = []
contents (piece ∷ pieces) = piece.data_bytes ++ contents pieces

size_of_line-IsSize :
    (digits : Text) (n : ℕ) → IsSize digits n → n ≤ u64_max → size_of_line digits ≡ ok n
unfolding size_of_line
size_of_line-IsSize digits n h small =
    let no_extension = all-excludes is_ascii_hexdigit b';' digits refl h.hexadecimal in
    let short : ltb 16 (length digits) ≡ false = ground (arith, h.short) in
    let fits : ltb u64_max n ≡ false = ground arith in
    rw (no_extension, h.present, short, h.hexadecimal, h.value, fits) refl

pub drop-line : (line : Text) (a b : ℕ) (r : Text) → drop (length line + 2) (line ++ a ∷ b ∷ r) ≡ r
drop-line [] a b r = refl
drop-line (c ∷ line) a b r =
    let onward : suc (length line + 2) ≡ suc (length line) + 2 = omega arith in
    subst (λ k. drop k (c ∷ line ++ a ∷ b ∷ r) ≡ r) onward (drop-line line a b r)

-- The state behind a piece.
abbrev pub behind_piece : ChunkState → Piece → Text → ChunkState
behind_piece s piece behind = record {
  rest = behind;
  cursor = s.cursor + length piece.digits + 2 + length piece.data_bytes + 2;
  decoded = s.decoded ++ piece.data_bytes;
  chunks = saturating_succ u64_max s.chunks;
}

module _ (limits : Http1Limits) (eof : Bool) where
  sized_chunk-data :
      (s : ChunkState) (n : ℕ) → 0 < n → sized_chunk limits eof s n ≡ chunk_data limits eof s n
  unfolding sized_chunk
  sized_chunk-data s zero h = absurd (omega arith)
  sized_chunk-data s (suc n) h = refl

  -- A round on a line of `n` bytes.
  pub chunk_round-line :
      (s : ChunkState) (digits behind : Text) (n : ℕ)
      → s.rest ≡ digits ++ 13 ∷ 10 ∷ behind
      → IsSize digits n
      → n ≤ u64_max
      → chunk_round limits eof s
        ≡ sized_chunk limits eof
            record {
              rest = behind;
              cursor = s.cursor + length digits + 2;
              decoded = s.decoded;
              chunks = s.chunks;
            }
            n
  unfolding chunk_round chunk_at find_crlf
  chunk_round-line s digits behind n form h small =
      let no_cr = all-excludes is_ascii_hexdigit 13 digits refl h.hexadecimal in
      rw
        (
          form,
          find_window-line digits behind no_cr,
          take-length-append digits (13 ∷ 10 ∷ behind),
          size_of_line-IsSize digits n h small,
          drop-line digits 13 10 behind,
        )
        refl

  -- A piece that fits behind what was read.
  pub record Fits (s : ChunkState) (piece : Piece) : Type 0 where
    pub counted : s.chunks + 1 ≤ limits.maximum_chunk_count
    pub held : length s.decoded + length piece.data_bytes ≤ limits.maximum_response_body_bytes
    pub addressed : s.cursor + length piece.digits + 2 + length piece.data_bytes + 2 ≤ u64_max

  pub chunk_round-piece :
      (s : ChunkState) (piece : Piece) (behind : Text)
      → s.rest ≡ write_piece piece behind
      → IsPiece limits piece
      → Fits s piece
      → chunk_round limits eof s ≡ ok (again (behind_piece s piece behind))
  unfolding write_piece
  chunk_round-piece s piece behind form h k =
      let n = length piece.data_bytes in
      let round =
        chunk_round-line s piece.digits (piece.data_bytes ++ 13 ∷ 10 ∷ behind) n form h.spelled
          (omega (arith, k.addressed)) in
      let after : ChunkState = record {
        rest = piece.data_bytes ++ 13 ∷ 10 ∷ behind;
        cursor = s.cursor + length piece.digits + 2;
        decoded = s.decoded;
        chunks = s.chunks;
      } in
      let whole = length-append piece.data_bytes (13 ∷ 10 ∷ behind) in
      let after_data = drop-length-append piece.data_bytes (13 ∷ 10 ∷ behind) in
      let guards : IsReadable limits after n = record {
        count = ground (arith, k.counted);
        size = ground (arith, h.allowed);
        total = ground (arith, k.held);
        offset = ground (arith, k.addressed);
        suffix = ground (arith, k.addressed);
        enough = ground (arith, whole);
        closed = rw after_data refl;
      } in
      let form : behind_piece s piece behind ≡ behind_chunk after n =
        rw
          (
            drop-line piece.data_bytes 13 10 behind,
            take-length-append piece.data_bytes (13 ∷ 10 ∷ behind),
          )
          refl in
      round
      ∙ sized_chunk-data after n h.nonempty
      ∙ (chunk_data-again limits eof after (behind_piece s piece behind) n).1 (guards, form)
