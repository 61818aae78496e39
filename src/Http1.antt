-- ===== src/Http1.antt =====
-- crates/nxb-http1: the HTTP/1 response parser and the request writer.
pub mod Model
pub mod Fields
pub mod Blocks
pub mod Framing
pub mod Chunked
pub mod Parser
pub mod Request
