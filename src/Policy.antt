-- ===== src/Policy.antt =====
-- crates/nxb-policy: the signed target policy, its compilation and its narrowing.
pub mod Types
pub mod Hosts
pub mod Compile
pub mod Narrow
pub mod Subdomains
pub mod HostForms
pub mod HostSets
pub mod Compiled
pub mod Within
pub mod ValueForms
pub mod Narrowing
