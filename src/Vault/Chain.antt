-- ===== src/Vault/Chain.antt =====
-- crates/nxb-vault/src/lib.rs: the vault's audit chain. It is linked as the chain of nxb-audit is,
-- from a first hash of its own; SHA-256 and the JSON writer are parameters.
use bound_seal.Std.Order.{list_ord, nat_ord}
use bound_seal.Audit.{
  sequence_mismatch, record_hash_mismatch, serialization, AuditError, verify_from,
  previous_hash_mismatch, to_lower_hex, AuditRecord, hash_material, HashLib, tail_hash_mismatch,
}
use bound_seal.Std.Int.{ℤ}
use bound_seal.Vault.Types.{
  VaultAuditEvent, audit_previous_hash_mismatch, audit_serialization, VaultError,
  audit_record_hash_mismatch, audit_sequence_mismatch, VaultAccessContext, audit_tail_mismatch,
}
use bound_seal.Std.Text.{Text, eq_text, text}
use bound_seal.Common.{
  [], length, fail_if, not, ◌>>=◌, ◌∷◌, u64, err, ◌+◌, ◌++◌, ok, ℕ, List, Result,
}

-- `Sha256::digest`, and `serde_json::to_vec` on the audit material and on that of a fingerprint.
pub record FingerprintMaterial : Type 0 where
  pub lease_id : Text
  pub session_id : Text
  pub context : VaultAccessContext
  pub expires_at_epoch_seconds : ℤ
  pub names : List (Text × ℕ)

pub record VaultLib : Type 0 where
  pub hashes : HashLib VaultAuditEvent
  pub fingerprint_bytes : FingerprintMaterial → List ℕ

-- The records are those of nxb-audit, field by field.
pub record VaultAuditChain : Type 0 where
  pub genesis_hash : Text
  pub records : List (AuditRecord VaultAuditEvent)
  pub tail_hash : Text

unfoldable pub chain_error : AuditError → VaultError
chain_error (serialization message) = audit_serialization message
chain_error (sequence_mismatch index) = audit_sequence_mismatch index
chain_error (previous_hash_mismatch index) = audit_previous_hash_mismatch index
chain_error (record_hash_mismatch index) = audit_record_hash_mismatch index
chain_error tail_hash_mismatch = audit_tail_mismatch

abbrev pub map_chain_error {ℓ} : {A : Type ℓ} → Result AuditError A → Result VaultError A
map_chain_error (err e) = err (chain_error e)
map_chain_error (ok a) = ok a

unfoldable pub push_event : VaultAuditChain → VaultAuditEvent → Text → VaultAuditChain
push_event c event record_hash = record {
  genesis_hash = c.genesis_hash;
  records =
      c.records
      ++ record {
        sequence = u64 (length c.records + 1);
        previous_hash = c.tail_hash;
        event = event;
        record_hash = record_hash;
      }
        ∷ [];
  tail_hash = record_hash;
}

module _ (lib : VaultLib) where
  abbrev genesis_of : Text → Text
  genesis_of vault_id = to_lower_hex (lib.hashes.sha256 (text "nxb-vault:" ++ vault_id))

  unfoldable pub new_chain : Text → VaultAuditChain
  new_chain vault_id = record {
    genesis_hash = genesis_of vault_id;
    records = [];
    tail_hash = genesis_of vault_id;
  }

  -- `VaultAuditChain::append`
  unfoldable pub append_event :
      VaultAuditChain → VaultAuditEvent → Result VaultError VaultAuditChain
  append_event c event = do
    record_hash ←
        map_chain_error (hash_material lib.hashes (u64 (length c.records + 1)) c.tail_hash event)
    ok (push_event c event record_hash)

  -- `VaultAuditChain::verify`
  unfoldable pub verify_chain : VaultAuditChain → Result VaultError (Unit {0})
  verify_chain c = do
    previous ← map_chain_error (verify_from lib.hashes 0 c.genesis_hash c.records)
    fail_if (not (eq_text c.tail_hash previous)) audit_tail_mismatch
