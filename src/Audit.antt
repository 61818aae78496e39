-- ===== src/Audit.antt =====
-- crates/nxb-audit/src/lib.rs: the append-only hash chain. SHA-256 and the JSON writer are
-- parameters, and so is the type of the events.
pub mod Event
pub mod Replay
pub mod Tampering
use bound_seal.Common.{
  ℕ, ◌+◌, ◌/◌, ◌%◌, ◌≡◌, Bool, true, false, not, List, [], ◌∷◌, ◌++◌, ◌==◌, length, get_or, u64,
  Result, ok, err, ◌>>=◌, ◌>>◌, fail_if,
}
use bound_seal.Std.Text.{Text, text, eq_text}

unfoldable pub genesis_hash : Text
genesis_hash = text "0000000000000000000000000000000000000000000000000000000000000000"

-- The fields of `HashMaterial`.
pub record HashMaterial (E : Type 0) : Type 0 where
  pub sequence : ℕ
  pub previous_hash : Text
  pub event : E

pub record AuditRecord (E : Type 0) : Type 0 where
  pub sequence : ℕ
  pub previous_hash : Text
  pub event : E
  pub record_hash : Text

pub record AuditChain (E : Type 0) : Type 0 where
  pub records : List (AuditRecord E)
  pub tail_hash : Text

pub data AuditError : Type 0 where
  serialization : Text → AuditError
  sequence_mismatch previous_hash_mismatch record_hash_mismatch : ℕ → AuditError
  tail_hash_mismatch : AuditError

-- `serde_json::to_vec` on the material, with its error's text, and `Sha256::digest`.
pub record HashLib (E : Type 0) : Type 0 where
  pub to_vec : HashMaterial E → Result Text (List ℕ)
  pub sha256 : List ℕ → List ℕ

hex_digits : Text
hex_digits = text "0123456789abcdef"

unfoldable pub to_lower_hex : List ℕ → Text
unfolding hex_digits
to_lower_hex [] = []
to_lower_hex (byte ∷ bytes) =
    get_or hex_digits (byte / 16) 0 ∷ get_or hex_digits (byte % 16) 0 ∷ to_lower_hex bytes

abbrev serialized : Result Text (List ℕ) → Result AuditError (List ℕ)
serialized (ok bytes) = ok bytes
serialized (err e) = err (serialization e)

module _ {E : Type 0} (lib : HashLib E) where
  open lib use {to_vec, sha256}

  unfoldable pub hash_material : ℕ → Text → E → Result AuditError Text
  hash_material sequence previous_hash event = do
    bytes ←
        serialized
          (to_vec (record { sequence = sequence; previous_hash = previous_hash; event = event }))
    ok (to_lower_hex (sha256 bytes))

  -- `AuditChain::new`
  unfoldable pub new : AuditChain E
  new = record { records = []; tail_hash = genesis_hash }

  -- `append` once the hash is there
  unfoldable pub push_record : AuditChain E → E → Text → AuditChain E
  push_record c event record_hash = record {
    records =
        c.records
        ++ record {
          sequence = u64 (length c.records + 1);
          previous_hash = c.tail_hash;
          event = event;
          record_hash = record_hash;
        }
          ∷ [];
    tail_hash = record_hash;
  }

  -- `AuditChain::append`: on an error the chain stays as it was.
  unfoldable pub append : AuditChain E → E → Result AuditError (AuditChain E)
  append c event = do
    record_hash ← hash_material (u64 (length c.records + 1)) c.tail_hash event
    ok (push_record c event record_hash)

  -- The loop of `verify` from a record's index and the hash expected before it; its answer is the
  -- hash expected after the last.
  unfoldable pub verify_from : ℕ → Text → List (AuditRecord E) → Result AuditError Text
  verify_from index expected_previous [] = ok expected_previous
  verify_from index expected_previous (r ∷ rs) = do
    fail_if (not (r.sequence == u64 (index + 1))) (sequence_mismatch index)
    fail_if (not (eq_text r.previous_hash expected_previous)) (previous_hash_mismatch index)
    expected_hash ← hash_material r.sequence r.previous_hash r.event
    fail_if (not (eq_text r.record_hash expected_hash)) (record_hash_mismatch index)
    verify_from (index + 1) expected_hash rs

  -- `AuditChain::verify`
  unfoldable pub verify : AuditChain E → Result AuditError (Unit {0})
  verify c = do
    expected_previous ← verify_from 0 genesis_hash c.records
    fail_if (not (eq_text c.tail_hash expected_previous)) tail_hash_mismatch
