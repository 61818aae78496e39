-- ===== src/Vault.antt =====
-- crates/nxb-vault: secrets in memory, leases on them, and the headers that leases give.
pub mod Types
pub mod Checks
pub mod Cookies
pub mod Chain
pub mod Headers
pub mod Store
pub mod Lines
pub mod Linking
pub mod Histories
pub mod Numbering
pub mod Spending
pub mod Revoking
pub mod Granting
pub mod Sources
