-- ===== src/Vault/Headers.antt =====
-- crates/nxb-vault/src/lib.rs: a lease on headers, the batch it gives once, and what that batch
-- writes.

use bound_seal.Std.Int.{at_least, ℤ}
use bound_seal.Std.Text.{text, decimal, Text, eq_text}
use bound_seal.Http1.Fields.{crlf}
use bound_seal.Vault.Types.{
  header_lease_consumed, SecretHeaderBatch, VaultError, MaterializedHeader, header_batch_consumed,
  lease_expired, SecretHeaderLease, header_lease_binding_mismatch,
}
use bound_seal.Vault.Checks.{
  normalize_scheme, normalize_host, validate_header_name, validate_header_value,
}
use bound_seal.Std.Order.{nat_ord, list_ord}
use bound_seal.Common.{
  false, ◌∷◌, fail_if, length, ◌>>◌, any, err, not, ◌>>=◌, ◌++◌, true, ok, [], ℕ, Bool, List,
  Result,
}

unfoldable pub header_count : SecretHeaderBatch → ℕ
header_count batch = length batch.headers

unfoldable pub contains_name : SecretHeaderBatch → Text → Bool
contains_name batch normalized_name =
    any (λ header. eq_text header.normalized_name normalized_name) batch.headers

abbrev spent : SecretHeaderLease → SecretHeaderLease
spent lease = record {
  lease_id = lease.lease_id;
  session_id = lease.session_id;
  authority = lease.authority;
  scheme = lease.scheme;
  expires_at_epoch_seconds = lease.expires_at_epoch_seconds;
  fingerprint = lease.fingerprint;
  headers = lease.headers;
  consumed = true;
}

abbrev without_headers : SecretHeaderLease → SecretHeaderLease
without_headers lease = record {
  lease_id = lease.lease_id;
  session_id = lease.session_id;
  authority = lease.authority;
  scheme = lease.scheme;
  expires_at_epoch_seconds = lease.expires_at_epoch_seconds;
  fingerprint = lease.fingerprint;
  headers = [];
  consumed = true;
}

-- `take_for` after the lease was marked as consumed.
unfoldable pub taken : SecretHeaderLease → Text → Text → ℤ → Result VaultError SecretHeaderBatch
taken lease authority scheme now = do
  fail_if (at_least now lease.expires_at_epoch_seconds) lease_expired
  host ← normalize_host authority
  fail_if (not (eq_text host lease.authority)) header_lease_binding_mismatch
  protocol ← normalize_scheme scheme
  fail_if (not (eq_text protocol lease.scheme)) header_lease_binding_mismatch
  ok record { lease_fingerprint = lease.fingerprint; headers = lease.headers; emitted = false }

abbrev after_take :
    SecretHeaderLease
    → Result VaultError SecretHeaderBatch
    → Result VaultError SecretHeaderBatch × SecretHeaderLease
after_take lease (err e) = (err e, spent lease)
after_take lease (ok batch) = (ok batch, without_headers lease)

-- `SecretHeaderLease::take_for`
unfoldable pub take_for :
    SecretHeaderLease → Text → Text → ℤ → Result VaultError SecretHeaderBatch × SecretHeaderLease
take_for lease authority scheme now = elim lease.consumed [
  | true ↦ (err header_lease_consumed, lease)
  | false ↦ after_take lease (taken lease authority scheme now)
]

-- A header as it is sent, and as the audit sees it.
unfoldable pub secret_line : MaterializedHeader → Text
secret_line header = header.wire_name ++ text ": " ++ header.value ++ crlf

unfoldable pub redacted_line : MaterializedHeader → Text
redacted_line header =
    header.wire_name ++ text ": <redacted:" ++ decimal (length header.value) ++ text ">" ++ crlf

-- The loop of `append_http1`; on an error the buffers stay as far as they were written.
unfoldable pub append_lines :
    List MaterializedHeader → Text → Text → Result VaultError (Unit {0}) × Text × Text
append_lines [] wire redacted_wire = (ok tt, wire, redacted_wire)
append_lines (header ∷ headers) wire redacted_wire =
    let rest =
      append_lines headers (wire ++ secret_line header) (redacted_wire ++ redacted_line header) in
    elim (validate_header_name header.wire_name >> validate_header_value header.value) [
      | err e ↦ (err e, wire, redacted_wire)
      | ok _ ↦ rest
    ]

-- `SecretHeaderBatch::append_http1`, with the two buffers after it and the batch.
unfoldable pub append_http1 :
    SecretHeaderBatch → Text → Text → Result VaultError (Unit {0}) × Text × Text × SecretHeaderBatch
append_http1 batch wire redacted_wire = elim batch.emitted [
  | true ↦ (err header_batch_consumed, wire, redacted_wire, batch)
  | false ↦
      let (outcome, sent, redacted) = append_lines batch.headers wire redacted_wire in
      (
        outcome,
        sent,
        redacted,
        record {
          lease_fingerprint = batch.lease_fingerprint;
          headers = batch.headers;
          emitted = true;
        },
      )
]
