-- ===== src/Http1/Chunked/RoundTrip.antt =====
-- crates/nxb-http1/src/parser.rs: `parse_chunked` on a whole body that is written in chunks.

use bound_seal.Std.Text.{Text}
use bound_seal.Http1.Chunked.{
  chunk_start, parse_chunked, ChunkState, chunk_round, finished, sized_chunk, last_chunk,
  chunk_loop,
}
use bound_seal.Http1.Model.{Http1Limits}
use bound_seal.Http1.Chunked.Written.{
  more_pieces, Fits, chunk_round-piece, behind_piece, ArePieces, contents, IsPiece, IsSize,
  chunk_round-line, write_pieces, Piece, write_piece,
}
use mathlib.Core.List.{append_assoc, append-nil}
use bound_seal.Common.{
  saturating_succ, length, List, false, [], ◌++◌, zero, ◌≤◌, some, arith, ◌∙◌, ◌+◌, Bool,
  length-append, ◌∷◌, ◌<◌, ltb, u64_max, suc, ok, ℕ, ◌≡◌, refl,
}

write_piece-length :
    (piece : Piece) (behind : Text)
    → length (write_piece piece behind)
      ≡ length piece.digits + 2 + length piece.data_bytes + 2 + length behind
unfolding write_piece
write_piece-length piece behind =
    let first = length-append piece.digits (13 ∷ 10 ∷ (piece.data_bytes ++ 13 ∷ 10 ∷ behind)) in
    let second = length-append piece.data_bytes (13 ∷ 10 ∷ behind) in omega arith

-- What the limits and the addresses leave room for.
pub record IsAllowed (limits : Http1Limits) (s : ChunkState) (pieces : List Piece) (zeros : Text)
    : Type 0 where
  pub pieces_hold : ArePieces limits pieces
  pub zeros_hold : IsSize zeros 0
  pub counted : s.chunks + length pieces ≤ limits.maximum_chunk_count
  pub held : length s.decoded + length (contents pieces) ≤ limits.maximum_response_body_bytes
  pub addressed : s.cursor + length (write_pieces pieces zeros []) ≤ u64_max

module _ (limits : Http1Limits) (eof : Bool) where
  last_round :
      (s : ChunkState) (zeros behind : Text)
      → s.rest ≡ write_pieces [] zeros behind
      → IsSize zeros 0
      → chunk_round limits eof s
        ≡ ok (
            finished (
              some record {
                body = s.decoded;
                trailers = [];
                consumed = s.cursor + length zeros + 2 + 2;
              }))
  unfolding write_pieces sized_chunk last_chunk
  last_round s zeros behind form h =
      let room : ltb (suc (suc (length behind))) 2 ≡ false = ground arith in
      chunk_round-line limits eof s zeros (13 ∷ 10 ∷ behind) 0 form h (omega arith)
      ∙ rw (sized_chunk, last_chunk, room) refl

  IsAllowed-Fits :
      (s : ChunkState) (piece : Piece) (pieces : List Piece) (zeros : Text)
      → IsAllowed limits s (piece ∷ pieces) zeros
      → IsPiece limits piece
        × Fits limits eof s piece
        × ((behind : Text) → IsAllowed limits (behind_piece s piece behind) pieces zeros)
  unfolding write_pieces contents
  IsAllowed-Fits s piece pieces zeros k =
      let (piece_holds, pieces_hold) = first_of k.pieces_hold in
      let wire = write_piece-length piece (write_pieces pieces zeros []) in
      let body = length-append piece.data_bytes (contents pieces) in
      let grown = length-append s.decoded piece.data_bytes in
      let next : saturating_succ u64_max s.chunks ≤ s.chunks + 1 = ground arith in
      (
        piece_holds,
        record {
          counted = omega (arith, k.counted);
          held = omega (arith, k.held);
          addressed = omega (arith, k.addressed);
        },
        λ behind. record {
          pieces_hold = pieces_hold;
          zeros_hold = k.zeros_hold;
          counted = omega (arith, k.counted, next);
          held = omega (arith, k.held);
          addressed = omega (arith, k.addressed);
        },
      )
    where
      first_of : ArePieces limits (piece ∷ pieces) → IsPiece limits piece × ArePieces limits pieces
      first_of (more_pieces h hs) = (h, hs)

  chunk_loop-written :
      (pieces : List Piece) (fuel : ℕ) (s : ChunkState) (zeros behind : Text)
      → s.rest ≡ write_pieces pieces zeros behind
      → length pieces < fuel
      → IsAllowed limits s pieces zeros
      → chunk_loop limits eof fuel s
        ≡ some (
            ok (
              some record {
                body = s.decoded ++ contents pieces;
                trailers = [];
                consumed = s.cursor + length (write_pieces pieces zeros []);
              }))
  unfolding chunk_loop write_pieces contents
  chunk_loop-written pieces zero s zeros behind form room k = absurd (omega arith)
  chunk_loop-written [] (suc fuel) s zeros behind form room k =
      rw (last_round s zeros behind form k.zeros_hold) (
        let size = length-append zeros (13 ∷ 10 ∷ 13 ∷ 10 ∷ []) in
        let wire : s.cursor + length zeros + 2 + 2
            ≡ s.cursor + length (zeros ++ 13 ∷ 10 ∷ 13 ∷ 10 ∷ []) =
          omega arith in
        rw (append-nil s.decoded, wire) refl)
  chunk_loop-written (piece ∷ pieces) (suc fuel) s zeros behind form room k =
      let (fits_here, fits, onward) = IsAllowed-Fits s piece pieces zeros k in
      let round =
        chunk_round-piece limits eof s piece (write_pieces pieces zeros behind) form fits_here
          fits in
      let rest =
        chunk_loop-written pieces fuel (behind_piece s piece (write_pieces pieces zeros behind))
          zeros behind refl (omega arith) (onward _) in
      let size = write_piece-length piece (write_pieces pieces zeros []) in
      let wire : s.cursor
            + length piece.digits
            + 2
            + length piece.data_bytes
            + 2
            + length (write_pieces pieces zeros [])
          ≡ s.cursor + length (write_piece piece (write_pieces pieces zeros [])) =
        omega arith in
      rw (round, ← append_assoc s.decoded piece.data_bytes (contents pieces), ← wire) rest

  length-write_pieces :
      (pieces : List Piece) (zeros behind : Text)
      → length pieces ≤ length (write_pieces pieces zeros behind)
  unfolding write_pieces
  length-write_pieces [] zeros behind = omega arith
  length-write_pieces (piece ∷ pieces) zeros behind =
      let rest = length-write_pieces pieces zeros behind in
      omega (arith, write_piece-length piece (write_pieces pieces zeros behind))

  -- A body in chunks, whatever hexadecimal digits spell the sizes, is read back when it keeps the
  -- limits: the decoded bytes are the contents of the chunks, and the bytes behind the body stay.
  pub parse_chunked-write_pieces :
      (pieces : List Piece) (zeros behind : Text)
      → IsAllowed limits (chunk_start []) pieces zeros
      → parse_chunked (write_pieces pieces zeros behind) eof limits
        ≡ some (
            ok (
              some record {
                body = contents pieces;
                trailers = [];
                consumed = length (write_pieces pieces zeros []);
              }))
  unfolding parse_chunked
  parse_chunked-write_pieces pieces zeros behind k =
      let bytes = write_pieces pieces zeros behind in
      let allowed : IsAllowed limits (chunk_start bytes) pieces zeros = record {
        pieces_hold = k.pieces_hold;
        zeros_hold = k.zeros_hold;
        counted = k.counted;
        held = k.held;
        addressed = k.addressed;
      } in
      let whole =
        chunk_loop-written pieces (suc (length bytes)) (chunk_start bytes) zeros behind refl
          (omega (arith, length-write_pieces pieces zeros behind)) allowed in
      let wire : 0 + length (write_pieces pieces zeros []) ≡ length (write_pieces pieces zeros []) =
        omega arith in
      rw (← wire) whole
