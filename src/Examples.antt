-- ===== src/Examples.antt =====
-- Concrete values for crates/nxb-policy, nxb-budget, nxb-dns, nxb-transport, nxb-audit, nxb-gateway,
-- nxb-http1 and nxb-vault, and runs of them.
mod Values
mod Scopes
mod Counts
mod Chains
mod Pins
mod Tickets
mod Decisions
mod Responses
mod Requests
mod Secrets
