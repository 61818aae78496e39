-- ===== src/Vault/Store/Materializing.antt =====
-- crates/nxb-vault/src/lib.rs: `materialize_http_headers`.
use bound_seal.Std.Int.{at_least, ℤ}
use bound_seal.Std.Collections.{map_get, map_insert}
use bound_seal.Std.Order.{list_ord, nat_ord}
use bound_seal.Vault.Chain.{VaultLib, append_event}
use bound_seal.Vault.Cookies.{cookie_applies, validate_request_target}
use bound_seal.Vault.Checks.{
  is_reachable, validate_entry_identity, validate_header_value, validate_identifier,
  validate_entry_access,
}
use bound_seal.Vault.Store.{recorded, with_leases, InMemorySecretVault, checked, vault_event}
use bound_seal.Audit.{to_lower_hex}
use bound_seal.Vault.Store.Operations.{lease}
use bound_seal.Vault.Types.{
  LeaseState, CookieMetadata, VaultAuditEvent, lease_context_mismatch, lease_revoked,
  VaultAccessContext, SecretEntry, VaultError, by_header, lease_expired, SecretLease,
  unknown_secret, unknown_lease, MaterializedHeader, lease_consumed, by_cookie, SecretHeaderLease,
}
use bound_seal.Std.Text.{to_ascii_lowercase, Text, text, eq_text, decimal}
use bound_seal.Common.{
  [], length, map, some, ◌>>◌, ok, ◌&&◌, fail_if, ◌∷◌, if◌then◌else◌, ◌>>=◌, not, none, ◌++◌, err,
  false, true, Bool, Option, List, Result,
}

-- What one secret of a lease gives.
pub data Part : Type 0 where
  no_part : Part
  cookie_part : (name : Text) (value : Text) → Part
  header_part : MaterializedHeader → Part

-- A cookie that is reachable from the context.
unfoldable pub cookie_outcome :
    CookieMetadata → Text → VaultAccessContext → Text → ℤ → Result VaultError Part
cookie_outcome cookie value context request_target now = do
  applies ← cookie_applies cookie context request_target now
  ok (if applies then cookie_part cookie.name value else no_part)

-- One round of the loop over the handles.
unfoldable pub entry_part : SecretEntry → VaultAccessContext → Text → ℤ → Result VaultError Part
entry_part entry context request_target now = elim entry.delivery [
  | by_cookie cookie ↦
      validate_entry_identity entry context now
      >> (if is_reachable entry.metadata.binding context
          then cookie_outcome cookie entry.value context request_target now
          else ok no_part)
  | by_header name prefix ↦
      validate_entry_access entry context now
      >> validate_header_value (prefix ++ entry.value)
      >> ok (
          header_part record {
            normalized_name = to_ascii_lowercase name;
            wire_name = name;
            value = prefix ++ entry.value;
          })
]

unfoldable pub parts_of :
    List (Text × SecretEntry)
    → List Text
    → VaultAccessContext
    → Text
    → ℤ
    → Result VaultError (List Part)
parts_of entries [] context request_target now = ok []
parts_of entries (handle ∷ handles) context request_target now = elim (map_get handle entries) [
  | none ↦ err unknown_secret
  | some entry ↦ entry_part entry context request_target now >>= λ part.
      parts_of entries handles context request_target now >>= λ parts. ok (part ∷ parts)
]

unfoldable pub header_parts : List Part → List MaterializedHeader
header_parts [] = []
header_parts (header_part header ∷ parts) = header ∷ header_parts parts
header_parts (no_part ∷ parts) = header_parts parts
header_parts (cookie_part name value ∷ parts) = header_parts parts

-- The value of the cookie header, from a separator on.
unfoldable pub cookie_text : Text → List Part → Text
cookie_text separator [] = []
cookie_text separator (cookie_part name value ∷ parts) =
    separator ++ name ++ b'=' ∷ (value ++ cookie_text (text "; ") parts)
cookie_text separator (no_part ∷ parts) = cookie_text separator parts
cookie_text separator (header_part header ∷ parts) = cookie_text separator parts

unfoldable pub has_cookie : List Part → Bool
has_cookie [] = false
has_cookie (cookie_part name value ∷ parts) = true
has_cookie (no_part ∷ parts) = has_cookie parts
has_cookie (header_part header ∷ parts) = has_cookie parts

abbrev pub cookie_header : List Part → List MaterializedHeader
cookie_header parts =
    if has_cookie parts
    then record {
      normalized_name = text "cookie";
      wire_name = text "Cookie";
      value = cookie_text [] parts;
    }
      ∷ []
    else []

unfoldable pub headers_of : List Part → List MaterializedHeader
headers_of parts = header_parts parts ++ cookie_header parts

unfoldable pub eq_context : VaultAccessContext → VaultAccessContext → Bool
eq_context a b =
    eq_text a.run_id b.run_id
    && eq_text a.worker_id b.worker_id
    && eq_text a.account_id b.account_id
    && eq_text a.tenant_id b.tenant_id
    && eq_text a.role_id b.role_id
    && eq_text a.authority b.authority
    && eq_text a.scheme b.scheme

-- The checks of a lease that is there, with the headers that its secrets give.
unfoldable pub check_state :
    InMemorySecretVault
    → LeaseState
    → SecretLease
    → Text
    → ℤ
    → Result VaultError (List MaterializedHeader)
check_state v state lease request_target now = do
  fail_if state.revoked lease_revoked
  fail_if state.consumed lease_consumed
  fail_if (at_least now state.expires_at_epoch_seconds) lease_expired
  fail_if (not (eq_context state.context lease.context)) lease_context_mismatch
  parts ← parts_of v.entries state.handles state.context request_target now
  ok (headers_of parts)

abbrev pub consumed_state : LeaseState → LeaseState
consumed_state state = record {
  handles = state.handles;
  context = state.context;
  expires_at_epoch_seconds = state.expires_at_epoch_seconds;
  consumed = true;
  revoked = state.revoked;
}

abbrev pub consumed_lease : SecretLease → SecretLease
consumed_lease lease = record {
  lease_id = lease.lease_id;
  context = lease.context;
  expires_at_epoch_seconds = lease.expires_at_epoch_seconds;
  consumed = true;
}

-- The checks before the lease is marked.
abbrev pub check_call : SecretLease → Text → Text → Result VaultError (Unit {0})
check_call lease session_id request_target =
    validate_identifier session_id (text "session_id")
    >> validate_request_target request_target
    >> fail_if lease.consumed lease_consumed

module _ (lib : VaultLib) where
  unfoldable pub header_lease_fingerprint :
      Text → Text → VaultAccessContext → ℤ → List MaterializedHeader → Text
  header_lease_fingerprint lease_id session_id context expires headers = to_lower_hex (
      lib.hashes.sha256 (
        lib.fingerprint_bytes record {
          lease_id = lease_id;
          session_id = session_id;
          context = context;
          expires_at_epoch_seconds = expires;
          names = map (λ header. (header.normalized_name, length header.value)) headers;
        }))

  abbrev pub fingerprint_of : LeaseState → SecretLease → Text → List MaterializedHeader → Text
  fingerprint_of state lease session_id headers =
      header_lease_fingerprint lease.lease_id session_id state.context
        state.expires_at_epoch_seconds headers

  abbrev materialized_event :
      InMemorySecretVault
      → LeaseState
      → SecretLease
      → Text
      → List MaterializedHeader
      → VaultAuditEvent
  materialized_event v state lease session_id headers =
      vault_event (text "http_headers_materialized") (text "materialized") v.vault_id none
        (some lease.lease_id) (some session_id)
        ((text "authority", state.context.authority)
          ∷ (text "fingerprint", fingerprint_of state lease session_id headers)
          ∷ (text "header_count", decimal (length headers))
          ∷ (text "scheme", state.context.scheme)
          ∷ [])

  abbrev pub header_lease :
      LeaseState → SecretLease → Text → List MaterializedHeader → SecretHeaderLease
  header_lease state lease session_id headers = record {
    lease_id = lease.lease_id;
    session_id = session_id;
    authority = state.context.authority;
    scheme = state.context.scheme;
    expires_at_epoch_seconds = state.expires_at_epoch_seconds;
    fingerprint = fingerprint_of state lease session_id headers;
    headers = headers;
    consumed = false;
  }

  -- What follows the look-up of the lease.
  unfoldable pub materialize_state :
      InMemorySecretVault
      → SecretLease
      → Text
      → Text
      → ℤ
      → Option LeaseState
      → Result VaultError SecretHeaderLease × InMemorySecretVault
  materialize_state v lease session_id request_target now none = (err unknown_lease, v)
  materialize_state v lease session_id request_target now (some state) =
      checked v (check_state v state lease request_target now) λ headers.
        recorded (with_leases v (map_insert lease.lease_id (consumed_state state) v.leases))
          (header_lease state lease session_id headers)
          (append_event lib v.audit (materialized_event v state lease session_id headers))

  -- `InMemorySecretVault::materialize_http_headers`, with the lease after it.
  unfoldable pub materialize_http_headers :
      InMemorySecretVault
      → SecretLease
      → Text
      → Text
      → ℤ
      → Result VaultError SecretHeaderLease × SecretLease × InMemorySecretVault
  materialize_http_headers v lease session_id request_target now =
      elim (check_call lease session_id request_target) [
        | err e ↦ (err e, lease, v)
        | ok _ ↦
            let after =
              materialize_state v lease session_id request_target now
                (map_get lease.lease_id v.leases) in
            (after.0, consumed_lease lease, after.1)
      ]
