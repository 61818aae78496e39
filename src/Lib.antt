-- ===== src/Lib.antt =====
-- Verification of BoundSeal (NXBounty), a research platform that sends HTTP requests only to the
-- targets that a signed policy authorises. The development follows a request through the core of
-- the workspace: a policy is compiled, the scope gateway decides on the request, a one-use ticket
-- binds the decision to one connection, a vault lends the secret headers, and the HTTP/1 codec
-- writes the request and parses the response.
--
-- The parts, with the code that each models (paths from the repository's root):
--   Policy       crates/nxb-policy/src/lib.rs: the records of a policy (Types), the normal forms of
--                hosts, schemes and methods (Hosts), `compile`, `allows_host` and `allows_request`
--                (Compile), and `narrow` (Narrow). Compiled, Within and Narrowing carry its
--                theorems; Subdomains, HostForms, HostSets and ValueForms carry lemmas on texts.
--   Budget       crates/nxb-budget/src/lib.rs: `RequestBudget`, with `new`, `try_start`, `finish`.
--   Destination  crates/nxb-destination/src/lib.rs: the classes of IP addresses; also the older
--                `is_public_destination` of crates/nxb-policy.
--   Audit        crates/nxb-audit/src/lib.rs: the hash-linked chain, `append` and `verify`.
--   Dns          crates/nxb-dns/src/lib.rs: `DnsPinSet`, with `pin_or_validate`, `release_context`.
--   Transport    crates/nxb-transport/src/lib.rs: `TicketAuthority`, with `issue`, `consume` and
--                `revoke_context` (Authority), over bindings and their hash (Binding).
--   Gateway      crates/nxb-gateway/src/lib.rs: `ScopeGateway`, which owns a compiled policy, a
--                budget, the DNS pins and the audit chain, and calls each as the code does; its
--                decisions and reasons (Types) and its audit events (Events). Allowing, Granting,
--                Histories and Panics carry its theorems, Stages their lemmas.
--   Vault        crates/nxb-vault/src/lib.rs: bindings, secrets and leases (Types), their checks
--                (Checks, Cookies), the vault's own audit chain (Chain), header leases and batches
--                (Headers), and `InMemorySecretVault` (Store, Store.Operations,
--                Store.Materializing). Histories has the calls on a vault, and what every change
--                that they make keeps; Spending, Revoking and Sources carry the theorems, Linking,
--                Lines, Numbering and Granting their lemmas.
--   Http1        crates/nxb-http1/src: the limits and messages of model.rs (Model); parser.rs, as
--                lines and header fields (Fields), the framing of a body (Framing), chunked bodies
--                (Chunked) and whole responses (Parser); `serialize_request` of codec.rs, which
--                takes the secret headers from a lease of the vault (Request). Framing.Agreement,
--                Chunked.RoundTrip, the children of Parser, and Request.Head and Request.Redaction
--                carry the theorems.
--   Std          what the code uses of Rust's library: strings by their UTF-8 bytes, sorted sets
--                and maps, `i64`, IP addresses as numbers, and the conversions of `Duration`.
--   External     the `url` crate, as a record of operations.
--   Common       the names, tests and lemmas that the parts share.
--   Examples     concrete values, runs of the definitions, and the theorems at these values.
--
-- A mutable object is a record that a call takes and gives back with its answer. An error is a
-- value of `Result`; a panic that the code can reach is an outcome too (Budget.Failure,
-- Gateway.Types.Failure). A `BTreeMap` is an association list in key order. The unsigned integers
-- are natural numbers, with the saturating and checked additions written out; a duration is its
-- number of nanoseconds. Loops are recursion on the list that they go through. `decimal` has fuel
-- for 20 digits, which every `u64` fits. The two loops of the response parser have fuel for each
-- byte there is: a round takes a byte at least, so they never run out. A cursor into the bytes is
-- held with the bytes from there on.
--
-- Parameters, of which nothing is assumed unless a theorem names it: `f64` (Std.Float.Float64; the
-- theorems on narrowing assume that `x < x` is false, which holds of every `f64`), the `url` crate,
-- SHA-256, and the JSON writer.
--
-- Not modelled: reading a policy from TOML, plain accessors, the texts of error messages (but for
-- those of nxb-http1), the wiping of secrets from memory, the exchange of nxb-http1 over a stream,
-- and the crates of the workspace that are not named here.
pub mod Common
pub mod External
pub mod Std
pub mod Policy
pub mod Budget
pub mod Destination
pub mod Audit
pub mod Dns
pub mod Transport
pub mod Http1
pub mod Vault
pub mod Gateway
pub mod Examples
