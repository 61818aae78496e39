-- ===== src/Transport.antt =====
-- crates/nxb-transport: one-use connection tickets.
pub mod Types
pub mod Binding
pub mod Authority
pub mod Spending
pub mod OneUse
pub mod Permits
pub mod Issuing
