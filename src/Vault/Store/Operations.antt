-- ===== src/Vault/Store/Operations.antt =====
-- crates/nxb-vault/src/lib.rs: the operations of `InMemorySecretVault` but for
-- `materialize_http_headers`. An operation answers with its result and the vault after it.

use bound_seal.Std.Text.{Text, text, decimal}
use bound_seal.Std.Collections.{map_get, map_insert}
use bound_seal.Vault.Checks.{normalized_binding, validate_secret_input, validate_identifier}
use bound_seal.Vault.Types.{
  VaultAuditEvent, unknown_secret, SecretInput, SecretKind, unknown_lease, VaultAccessContext,
  SecretLease, LeaseState, VaultError,
}
use bound_seal.Vault.Chain.{append_event, VaultLib, VaultAuditChain, new_chain}
use bound_seal.Std.Int.{ℤ, decimal_i64, saturating_add_i64}
use bound_seal.Std.Order.{nat_ord, list_ord}
use bound_seal.Vault.Store.{
  revoked_state, kind_code, entry_of, lease_allocated, check_lease, secret_handle, with_entries,
  lease_handle, revoke_holders, recorded, checked, InMemorySecretVault, without, secret_allocated,
  with_audit, with_leases, vault_event,
}
use bound_seal.Common.{◌∷◌, ◌>>◌, some, ok, none, length, [], false, err, List, Result}

module _ (lib : VaultLib) where
  -- `InMemorySecretVault::new`
  unfoldable pub new : Text → Result VaultError InMemorySecretVault
  new vault_id = do
    validate_identifier vault_id (text "vault_id")
    ok record {
      vault_id = vault_id;
      entries = [];
      leases = [];
      next_secret_id = 1;
      next_lease_id = 1;
      audit = new_chain lib vault_id;
    }

  abbrev pub inserted_event : InMemorySecretVault → Text → SecretKind → VaultAuditEvent
  inserted_event v handle kind =
      vault_event (text "secret_inserted") (text "stored") v.vault_id (some handle) none none
        ((text "kind", kind_code kind) ∷ [])

  -- An error of the audit takes the entry out again, and keeps the handle used.
  abbrev pub after_insert :
      InMemorySecretVault
      → Text
      → Result VaultError VaultAuditChain
      → Result VaultError Text × InMemorySecretVault
  after_insert v handle (err e) = (err e, with_entries v (without handle v.entries))
  after_insert v handle (ok audit) = (ok handle, with_audit v audit)

  -- `InMemorySecretVault::insert`
  unfoldable pub insert :
      InMemorySecretVault → SecretInput → ℤ → Result VaultError Text × InMemorySecretVault
  insert v input now = checked v (validate_secret_input input now) λ _.
      checked (secret_allocated v) (normalized_binding input.binding) λ binding.
        let handle = secret_handle v in
        let stored =
          with_entries (secret_allocated v)
            (map_insert handle (entry_of handle input binding now) v.entries) in
        after_insert stored handle (append_event lib v.audit (inserted_event v handle input.kind))

  abbrev lease_state : List Text → VaultAccessContext → ℤ → LeaseState
  lease_state handles context expires = record {
    handles = handles;
    context = context;
    expires_at_epoch_seconds = expires;
    consumed = false;
    revoked = false;
  }

  -- `InMemorySecretVault::lease`
  unfoldable pub lease :
      InMemorySecretVault
      → List Text
      → VaultAccessContext
      → ℤ
      → ℤ
      → Result VaultError SecretLease × InMemorySecretVault
  lease v handles context lease_seconds now =
      checked v (check_lease v handles context lease_seconds now) λ normalized.
        let id = lease_handle v in
        let expires = saturating_add_i64 now lease_seconds in
        recorded
          (with_leases (lease_allocated v)
            (map_insert id (lease_state handles normalized expires) v.leases))
          (record {
            lease_id = id;
            context = normalized;
            expires_at_epoch_seconds = expires;
            consumed = false;
          })
          (append_event lib v.audit (
            vault_event (text "secret_lease_issued") (text "issued") v.vault_id none (some id) none
              ((text "authority", normalized.authority)
                ∷ (text "expires_at", decimal_i64 expires)
                ∷ (text "handle_count", decimal (length handles))
                ∷ (text "scheme", normalized.scheme)
                ∷ [])))

  -- `InMemorySecretVault::revoke_secret`
  unfoldable pub revoke_secret :
      InMemorySecretVault → Text → Result VaultError (Unit {0}) × InMemorySecretVault
  revoke_secret v handle = elim (map_get handle v.entries) [
    | none ↦ (err unknown_secret, v)
    | some _ ↦
        recorded
          (with_leases (with_entries v (without handle v.entries)) (revoke_holders handle v.leases))
          tt
          (append_event lib v.audit (
            vault_event (text "secret_revoked") (text "revoked") v.vault_id (some handle) none none
              []))
  ]

  -- `InMemorySecretVault::revoke_lease`
  unfoldable pub revoke_lease :
      InMemorySecretVault → Text → Result VaultError (Unit {0}) × InMemorySecretVault
  revoke_lease v lease_id = elim (map_get lease_id v.leases) [
    | none ↦ (err unknown_lease, v)
    | some state ↦
        recorded (with_leases v (map_insert lease_id (revoked_state state) v.leases)) tt (
          append_event lib v.audit (
            vault_event (text "secret_lease_revoked") (text "revoked") v.vault_id none
              (some lease_id) none []))
  ]

  -- `InMemorySecretVault::emergency_purge`
  unfoldable pub emergency_purge :
      InMemorySecretVault → Result VaultError (Unit {0}) × InMemorySecretVault
  emergency_purge v = recorded (with_leases (with_entries v []) []) tt (
      append_event lib v.audit (
        vault_event (text "emergency_purge") (text "purged") v.vault_id none none none (
          (text "lease_count", decimal (length v.leases))
          ∷ (text "secret_count", decimal (length v.entries))
          ∷ [])))
