-- ===== src/Examples/Chains.antt =====
-- crates/nxb-audit: runs on a chain of two records.
use bound_seal.Common.{◌≡◌, ◌↔◌, ◌⊎◌, refl, [], ◌∷◌, ok}
use bound_seal.Std.Text.{text}
use bound_seal.Audit
use bound_seal.Audit.{AuditChain, AuditRecord, verify, append, genesis_hash}
use bound_seal.Audit.Replay.{append-verify, verify-append_all_iff, append_all, events}
use bound_seal.Audit.Tampering.{Collision, verify_unique}
use bound_seal.Examples.Values.{plain}

abbrev first_record : AuditRecord (Unit {0})
first_record = record {
  sequence = 1;
  previous_hash = genesis_hash;
  event = tt;
  record_hash = text "01";
}

abbrev one_record : AuditChain (Unit {0})
one_record = record { records = first_record ∷ []; tail_hash = text "01" }

abbrev two_records : AuditChain (Unit {0})
two_records = record {
  records =
      first_record
      ∷ record { sequence = 2; previous_hash = text "01"; event = tt; record_hash = text "02" }
      ∷ [];
  tail_hash = text "02";
}

one_verified : verify (plain (Unit {0})) one_record ≡ ok tt
unfolding verify Audit.verify_from Audit.hash_material Audit.to_lower_hex genesis_hash text
one_verified = refl

one_appended : append (plain (Unit {0})) one_record tt ≡ ok two_records
unfolding append Audit.push_record Audit.hash_material Audit.to_lower_hex genesis_hash text
one_appended = refl

append-verify_example : verify (plain (Unit {0})) two_records ≡ ok tt
append-verify_example =
    append-verify (plain (Unit {0})) one_record two_records tt one_verified one_appended

verify-append_all_iff_example : (verify (plain (Unit {0})) two_records ≡ ok tt) ↔ (
    append_all
      (plain (Unit {0}))
      (Audit.new (plain (Unit {0})))
      (events (plain (Unit {0})) two_records.records)
    ≡ ok two_records)
verify-append_all_iff_example = verify-append_all_iff (plain (Unit {0})) two_records

verify_unique_example : Collision (plain (Unit {0})) ⊎ (one_record.records ≡ one_record.records)
verify_unique_example =
    verify_unique (plain (Unit {0})) (λ _ _. yes refl) one_record one_record refl refl one_verified
      one_verified
