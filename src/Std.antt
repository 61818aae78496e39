-- ===== src/Std.antt =====
-- What the source uses of Rust's standard library.
pub mod Order
pub mod Collections
pub mod Text
pub mod Float
pub mod Int
pub mod Ip
