-- ===== src/Http1/Model.antt =====
-- crates/nxb-http1/src/model.rs: limits, messages and errors. An error's message is its text.
use bound_seal.Common.{ℕ, ◌*◌, ◌||◌, List, ltb, ◌==◌, Result, ok, ◌>>◌, fail_if, ◌++◌}
use bound_seal.Std.Text.{Text, text}
use bound_seal.Vault.Types.{VaultError}

pub record Http1Limits : Type 0 where
  pub maximum_request_header_bytes : ℕ
  pub maximum_response_header_bytes : ℕ
  pub maximum_header_count : ℕ
  pub maximum_header_name_bytes : ℕ
  pub maximum_header_value_bytes : ℕ
  pub maximum_request_body_bytes : ℕ
  pub maximum_response_body_bytes : ℕ
  pub maximum_chunk_bytes : ℕ
  pub maximum_chunk_count : ℕ
  pub maximum_trailer_bytes : ℕ
  pub maximum_trailer_count : ℕ
  pub maximum_interim_responses : ℕ
  pub io_operation_bytes : ℕ
  pub maximum_backpressure_events : ℕ
  pub maximum_response_wire_bytes : ℕ

abbrev pub conservative_default : Http1Limits
conservative_default = record {
  maximum_request_header_bytes = 32 * 1024;
  maximum_response_header_bytes = 64 * 1024;
  maximum_header_count = 128;
  maximum_header_name_bytes = 128;
  maximum_header_value_bytes = 8 * 1024;
  maximum_request_body_bytes = 2 * 1024 * 1024;
  maximum_response_body_bytes = 8 * 1024 * 1024;
  maximum_chunk_bytes = 1024 * 1024;
  maximum_chunk_count = 4096;
  maximum_trailer_bytes = 16 * 1024;
  maximum_trailer_count = 32;
  maximum_interim_responses = 8;
  io_operation_bytes = 16 * 1024;
  maximum_backpressure_events = 32;
  maximum_response_wire_bytes = 16 * 1024 * 1024;
}

pub record Http1Header : Type 0 where
  pub name : Text
  pub value : Text

pub record Http1Request : Type 0 where
  pub method : Text
  pub target : Text
  pub headers : List Http1Header
  pub body : Text

pub data Http1Version : Type 0 where
  http10 http11 : Http1Version

pub data Http1Framing : Type 0 where
  no_body chunked connection_close : Http1Framing
  content_length : ℕ → Http1Framing

pub record Http1Response : Type 0 where
  pub version : Http1Version
  pub status_code : ℕ
  pub reason : Text
  pub headers : List Http1Header
  pub trailers : List Http1Header
  pub body : Text
  pub framing : Http1Framing
  pub interim_responses : ℕ

-- The errors of the parser and of the request writer; `secret_headers` is a vault's.
pub data Http1Error : Type 0 where
  invalid_limits invalid_request invalid_response truncated_response : Text → Http1Error
  secret_headers : VaultError → Http1Error

abbrev pub nonzero_cap : ℕ → ℕ → Text → Result Http1Error (Unit {0})
nonzero_cap value cap name =
    fail_if (value == 0 || ltb cap value)
      (invalid_limits (name ++ text " is outside the supported range"))

-- `Http1Limits::validate`
unfoldable pub validate : Http1Limits → Result Http1Error Http1Limits
validate l = do
  nonzero_cap l.maximum_request_header_bytes 262144 (text "request_header_bytes")
  nonzero_cap l.maximum_response_header_bytes 262144 (text "response_header_bytes")
  nonzero_cap l.maximum_header_count 512 (text "header_count")
  nonzero_cap l.maximum_header_name_bytes 1024 (text "header_name_bytes")
  nonzero_cap l.maximum_header_value_bytes 262144 (text "header_value_bytes")
  nonzero_cap l.maximum_request_body_bytes 67108864 (text "request_body_bytes")
  nonzero_cap l.maximum_response_body_bytes 67108864 (text "response_body_bytes")
  nonzero_cap l.maximum_chunk_bytes l.maximum_response_body_bytes (text "chunk_bytes")
  nonzero_cap l.maximum_chunk_count 65536 (text "chunk_count")
  nonzero_cap l.maximum_trailer_bytes 65536 (text "trailer_bytes")
  nonzero_cap l.maximum_trailer_count l.maximum_header_count (text "trailer_count")
  nonzero_cap l.maximum_interim_responses 32 (text "interim_responses")
  nonzero_cap l.io_operation_bytes 65536 (text "io_operation_bytes")
  nonzero_cap l.maximum_backpressure_events 1024 (text "backpressure_events")
  nonzero_cap l.maximum_response_wire_bytes 100663296 (text "response_wire_bytes")
  fail_if (ltb l.maximum_response_wire_bytes l.maximum_response_body_bytes)
      (invalid_limits (text "response wire budget must cover response body budget"))
  ok l
