-- ===== src/Audit/Event.antt =====
-- crates/nxb-audit/src/lib.rs: what the gateway records.
use bound_seal.Common.{ℕ, Bool, List}
use bound_seal.Std.Text.{Text}

pub record AuditDestination : Type 0 where
  pub ip : Text
  pub class : Text
  pub allowed : Bool

pub record AuditDns : Type 0 where
  pub context_id : Text
  pub resolver_id : Text
  pub ttl_seconds : ℕ
  pub pin_status : Text

pub record AuditEvent : Type 0 where
  pub decision_id : Text
  pub outcome : Text
  pub reason_code : Text
  pub reason_details : List (Text × Text)
  pub method : Text
  pub url : Text
  pub resolved_destinations : List AuditDestination
  pub dns : AuditDns
  pub redirect_depth : ℕ
  pub elapsed_milliseconds : ℕ
