-- ===== src/Vault/Types.antt =====
-- crates/nxb-vault/src/lib.rs: bindings, secrets, leases and errors. A `SecretHandle` is its text.
use bound_seal.Std.Text.{Text, text}
use bound_seal.Std.Int.{ℤ}
use bound_seal.Common.{ℕ, Bool, Option, List}

pub data SecretKind : Type 0 where
  cookie_kind bearer_token api_key csrf_token : SecretKind

unfoldable pub kind_code : SecretKind → Text
kind_code cookie_kind = text "cookie"
kind_code bearer_token = text "bearer_token"
kind_code api_key = text "api_key"
kind_code csrf_token = text "csrf_token"

pub data SameSitePolicy : Type 0 where
  strict lax no_restriction unspecified : SameSitePolicy

pub record CookieMetadata : Type 0 where
  pub name : Text
  pub domain : Text
  pub path : Text
  pub expires_at_epoch_seconds : Option ℤ
  pub secure : Bool
  pub http_only : Bool
  pub same_site : SameSitePolicy

-- The two sets are `BTreeSet`s.
pub record SecretBinding : Type 0 where
  pub run_id : Text
  pub worker_id : Text
  pub account_id : Text
  pub tenant_id : Text
  pub role_id : Text
  pub allowed_hosts : List Text
  pub allowed_schemes : List Text

pub record VaultAccessContext : Type 0 where
  pub run_id : Text
  pub worker_id : Text
  pub account_id : Text
  pub tenant_id : Text
  pub role_id : Text
  pub authority : Text
  pub scheme : Text

pub data SecretDelivery : Type 0 where
  by_cookie : CookieMetadata → SecretDelivery
  by_header : (name : Text) (prefix : Text) → SecretDelivery

pub record SecretInput : Type 0 where
  pub kind : SecretKind
  pub value : Text
  pub binding : SecretBinding
  pub delivery : SecretDelivery
  pub expires_at_epoch_seconds : Option ℤ

pub data SecretDeliveryMetadata : Type 0 where
  cookie_metadata : CookieMetadata → SecretDeliveryMetadata
  header_metadata : (name : Text) (prefix_bytes : ℕ) → SecretDeliveryMetadata

pub record SecretMetadata : Type 0 where
  pub handle : Text
  pub kind : SecretKind
  pub binding : SecretBinding
  pub delivery : SecretDeliveryMetadata
  pub created_at_epoch_seconds : ℤ
  pub expires_at_epoch_seconds : Option ℤ

pub record SecretEntry : Type 0 where
  pub metadata : SecretMetadata
  pub delivery : SecretDelivery
  pub value : Text

pub record LeaseState : Type 0 where
  pub handles : List Text
  pub context : VaultAccessContext
  pub expires_at_epoch_seconds : ℤ
  pub consumed : Bool
  pub revoked : Bool

pub record SecretLease : Type 0 where
  pub lease_id : Text
  pub context : VaultAccessContext
  pub expires_at_epoch_seconds : ℤ
  pub consumed : Bool

pub record MaterializedHeader : Type 0 where
  pub normalized_name : Text
  pub wire_name : Text
  pub value : Text

pub record SecretHeaderLease : Type 0 where
  pub lease_id : Text
  pub session_id : Text
  pub authority : Text
  pub scheme : Text
  pub expires_at_epoch_seconds : ℤ
  pub fingerprint : Text
  pub headers : List MaterializedHeader
  pub consumed : Bool

pub record SecretHeaderBatch : Type 0 where
  pub lease_fingerprint : Text
  pub headers : List MaterializedHeader
  pub emitted : Bool

-- The map is a `BTreeMap`.
pub record VaultAuditEvent : Type 0 where
  pub action : Text
  pub outcome : Text
  pub vault_id : Text
  pub handle : Option Text
  pub lease_id : Option Text
  pub session_id : Option Text
  pub metadata : List (Text × Text)

pub data VaultError : Type 0 where
  invalid_identifier : Text → VaultError
  invalid_secret_size : VaultError
  invalid_binding : Text → VaultError
  invalid_delivery : Text → VaultError
  unknown_secret secret_expired access_denied : VaultError
  invalid_lease_size invalid_lease_duration unknown_lease : VaultError
  lease_consumed lease_expired lease_revoked lease_context_mismatch : VaultError
  header_lease_consumed header_lease_binding_mismatch header_batch_consumed : VaultError
  invalid_header_name invalid_header_value invalid_request_target : VaultError
  audit_serialization : Text → VaultError
  audit_sequence_mismatch audit_previous_hash_mismatch audit_record_hash_mismatch : ℕ → VaultError
  audit_tail_mismatch : VaultError
