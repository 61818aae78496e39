-- ===== src/Examples/Responses.antt =====
-- crates/nxb-http1: responses and chunked bodies.
use bound_seal.Http1.Parser.Arrivals.{parse_response-append}
use bound_seal.Http1.Parser.Progress.{parse_response-ends}
use bound_seal.Http1.Chunked.RoundTrip.{IsAllowed, parse_chunked-write_pieces}
use bound_seal.Http1.Parser.Bounds.{IsResponse, parse_response-IsResponse}
use bound_seal.Http1.Framing.Agreement.{IsFraming, determine_framing-IsFraming}
use bound_seal.Http1.Chunked.Written.{
  no_pieces, Piece, contents, write_piece, more_pieces, write_pieces,
}
use bound_seal.Http1.Framing.{
  coding_component, parse_transfer_encoding, collected, values_of, components, parse_content_length,
  single_coding, is_bodiless, determine_framing, framing_of, length_component, agreed_length,
}
use bound_seal.Std.Text.Bytes.{
  trim_end_by, find_window, value_from, trim_start_by, is_utf8, position,
}
use bound_seal.Std.Text.{text, Text, split}
use bound_seal.Http1.Parser.{
  ParseProgress, final_response, parse_lines, ParsedResponse, head_round, response_loop,
  parse_response, head_at, parse_head, complete, parse_body, by_status, with_body,
}
use bound_seal.Http1.Chunked.{
  chunk_start, chunk_data, parse_chunked, chunk_loop, sized_chunk, chunk_at, chunk_round,
  last_chunk, size_of_line,
}
use bound_seal.Http1.Fields.{
  crlf, parse_header_lines, find_double_crlf, validate_field_value, validate_crlf_block, parse_each,
  parse_version, crlf_block_from, parse_status_line, is_prohibited_trailer, validate_reason_phrase,
  find_crlf, parse_header_line, status_value, split_crlf, parse_reason,
}
use bound_seal.Common.{length, true, arith, Result, List, ◌++◌, some, [], false, ◌∷◌, ok, ◌≡◌, refl}
use bound_seal.Http1.Model.{
  content_length, Http1Header, Http1Error, http11, chunked, conservative_default,
}

abbrev wire : Text
wire =
    text "HTTP/1.1 200 OK"
    ++ crlf
    ++ text "Transfer-Encoding: chunked"
    ++ crlf
    ++ crlf
    ++ text "2"
    ++ crlf
    ++ text "hi"
    ++ crlf
    ++ text "0"
    ++ crlf
    ++ crlf

abbrev parsed : ParsedResponse
parsed = record {
  response = record {
    version = http11;
    status_code = 200;
    reason = text "OK";
    headers = record { name = text "transfer-encoding"; value = text "chunked" } ∷ [];
    trailers = [];
    body = text "hi";
    framing = chunked;
    interim_responses = 0;
  };
  consumed_wire_bytes = 59;
}

wire_parsed :
    parse_response wire false (text "GET") conservative_default ≡ some (ok (complete parsed))
unfolding parse_response response_loop head_round head_at by_status parse_head validate_crlf_block
    crlf_block_from split_crlf parse_lines parse_status_line parse_version status_value parse_reason
    validate_reason_phrase position find_double_crlf find_window parse_header_lines parse_each
    parse_header_line is_prohibited_trailer trim_start_by trim_end_by validate_field_value
    final_response with_body parse_body determine_framing is_bodiless parse_content_length
    parse_transfer_encoding values_of collected components length_component coding_component is_utf8
    single_coding agreed_length framing_of split parse_chunked chunk_loop chunk_round chunk_at
    size_of_line sized_chunk chunk_data last_chunk find_crlf value_from text
wire_parsed = refl

parse_response-ends_example :
    (outcome : Result Http1Error ParseProgress) × (parse_response
        (text "HTTP/1.1 2")
        true
        (text "GET")
        conservative_default
      ≡ some outcome)
parse_response-ends_example =
    parse_response-ends true (text "GET") conservative_default (text "HTTP/1.1 2")

parse_response-IsResponse_example :
    IsResponse (text "GET") conservative_default (length wire) parsed
parse_response-IsResponse_example =
    parse_response-IsResponse false (text "GET") conservative_default wire parsed wire_parsed

parse_response-append_example :
    parse_response (wire ++ text "HTTP") true (text "GET") conservative_default
    ≡ some (ok (complete parsed))
parse_response-append_example =
    parse_response-append true (text "GET") conservative_default (text "HTTP") wire parsed
      wire_parsed

abbrev lengths : List Http1Header
lengths = record { name = text "content-length"; value = text "3, 3" } ∷ []

lengths_framed : determine_framing (text "GET") http11 200 lengths ≡ ok (content_length 3)
unfolding determine_framing is_bodiless parse_content_length parse_transfer_encoding values_of
    collected components length_component is_utf8 agreed_length single_coding framing_of split
    trim_start_by trim_end_by value_from text
lengths_framed = refl

determine_framing-IsFraming_example : IsFraming (text "GET") http11 200 lengths (content_length 3)
determine_framing-IsFraming_example =
    determine_framing-IsFraming (text "GET") http11 200 lengths (content_length 3) lengths_framed

abbrev pieces : List Piece
pieces = record { digits = text "00B"; data_bytes = text "hello world" } ∷ []

pieces-IsAllowed : IsAllowed conservative_default (chunk_start []) pieces (text "000")
unfolding write_pieces write_piece contents text value_from
pieces-IsAllowed = record {
  pieces_hold =
      more_pieces
        (record {
          spelled = record {
            present = refl;
            short = omega arith;
            hexadecimal = refl;
            value = refl;
          };
          nonempty = omega arith;
          allowed = omega arith;
        })
        no_pieces;
  zeros_hold = record { present = refl; short = omega arith; hexadecimal = refl; value = refl };
  counted = omega arith;
  held = omega arith;
  addressed = omega arith;
}

parse_chunked-write_pieces_example :
    parse_chunked (write_pieces pieces (text "000") (text "more")) false conservative_default
    ≡ some (
        ok (
          some record {
            body = contents pieces;
            trailers = [];
            consumed = length (write_pieces pieces (text "000") []);
          }))
parse_chunked-write_pieces_example =
    parse_chunked-write_pieces conservative_default false pieces (text "000") (text "more")
      pieces-IsAllowed
