-- ===== src/Vault/Store.antt =====
-- crates/nxb-vault/src/lib.rs: the state of `InMemorySecretVault`, and what its operations are made
-- of.
pub mod Operations
pub mod Materializing
use bound_seal.Std.Collections.{map_insert, map_get, map_retain, contains}
use bound_seal.Std.Order.{nat_ord, list_ord, same}
use bound_seal.Std.Int.{decimal_i64, ℤ, pos, saturating_add_i64, less}
use bound_seal.Vault.Checks.{
  normalized_binding, validate_identifier, validate_secret_input, max_secret_handles_per_lease,
  normalized_context, max_secret_lease_seconds, validate_entry_identity, validate_entry_access,
}
use bound_seal.Transport.Types.{consumed, revoked}
use bound_seal.Std.Text.{decimal, Text, padded, text}
use bound_seal.Vault.Chain.{append_event, new_chain, VaultLib, VaultAuditChain}
use bound_seal.Vault.Types.{
  kind_code, by_header, unknown_lease, LeaseState, header_metadata, invalid_lease_size,
  unknown_secret, by_cookie, invalid_lease_duration, VaultError, SecretDeliveryMetadata, SecretKind,
  SecretLease, SecretBinding, cookie_metadata, SecretEntry, VaultAccessContext, VaultAuditEvent,
  SecretInput, SecretDelivery,
}
use bound_seal.Common.{
  false, true, none, ◌||◌, ◌>>◌, ◌>>=◌, err, some, ltb, ok, is_empty, not, fail_if, saturating_succ,
  length, ◌∷◌, ◌++◌, [], u64_max, ℕ, Bool, Option, List, Result,
}

-- `entries` and `leases` are `BTreeMap`s.
pub record InMemorySecretVault : Type 0 where
  pub vault_id : Text
  pub entries : List (Text × SecretEntry)
  pub leases : List (Text × LeaseState)
  pub next_secret_id : ℕ
  pub next_lease_id : ℕ
  pub audit : VaultAuditChain

abbrev pub with_entries : InMemorySecretVault → List (Text × SecretEntry) → InMemorySecretVault
with_entries v entries = record {
  vault_id = v.vault_id;
  entries = entries;
  leases = v.leases;
  next_secret_id = v.next_secret_id;
  next_lease_id = v.next_lease_id;
  audit = v.audit;
}

abbrev pub with_leases : InMemorySecretVault → List (Text × LeaseState) → InMemorySecretVault
with_leases v leases = record {
  vault_id = v.vault_id;
  entries = v.entries;
  leases = leases;
  next_secret_id = v.next_secret_id;
  next_lease_id = v.next_lease_id;
  audit = v.audit;
}

abbrev pub with_audit : InMemorySecretVault → VaultAuditChain → InMemorySecretVault
with_audit v audit = record {
  vault_id = v.vault_id;
  entries = v.entries;
  leases = v.leases;
  next_secret_id = v.next_secret_id;
  next_lease_id = v.next_lease_id;
  audit = audit;
}

-- `remove` of a map
abbrev pub without {ℓ} : {V : Type ℓ} → Text → List (Text × V) → List (Text × V)
without key m = map_retain (λ j. not (same key j)) m

-- An event without its optional parts.
abbrev pub vault_event :
    Text
    → Text
    → Text
    → Option Text
    → Option Text
    → Option Text
    → List (Text × Text)
    → VaultAuditEvent
vault_event action outcome vault_id handle lease_id session_id metadata = record {
  action = action;
  outcome = outcome;
  vault_id = vault_id;
  handle = handle;
  lease_id = lease_id;
  session_id = session_id;
  metadata = metadata;
}

-- `self.audit.append(event)?`, then this answer.
abbrev pub recorded {ℓ} :
    {A : Type ℓ}
    → InMemorySecretVault
    → A
    → Result VaultError VaultAuditChain
    → Result VaultError A × InMemorySecretVault
recorded v answer (err e) = (err e, v)
recorded v answer (ok audit) = (ok answer, with_audit v audit)

-- A check before an operation changes the vault.
abbrev pub checked {ℓ κ} :
    {A : Type ℓ} {B : Type κ}
    → InMemorySecretVault
    → Result VaultError A
    → (A → Result VaultError B × InMemorySecretVault)
    → Result VaultError B × InMemorySecretVault
checked v (err e) onward = (err e, v)
checked v (ok a) onward = onward a

unfoldable pub secret_handle : InMemorySecretVault → Text
secret_handle v = v.vault_id ++ text "-secret-" ++ padded 20 v.next_secret_id

unfoldable pub lease_handle : InMemorySecretVault → Text
lease_handle v = v.vault_id ++ text "-lease-" ++ padded 20 v.next_lease_id

unfoldable pub delivery_metadata : SecretDelivery → SecretDeliveryMetadata
delivery_metadata (by_cookie cookie) = cookie_metadata cookie
delivery_metadata (by_header name prefix) = header_metadata name (length prefix)

-- The vault once a handle was given out.
abbrev pub secret_allocated : InMemorySecretVault → InMemorySecretVault
secret_allocated v = record {
  vault_id = v.vault_id;
  entries = v.entries;
  leases = v.leases;
  next_secret_id = saturating_succ u64_max v.next_secret_id;
  next_lease_id = v.next_lease_id;
  audit = v.audit;
}

abbrev pub lease_allocated : InMemorySecretVault → InMemorySecretVault
lease_allocated v = record {
  vault_id = v.vault_id;
  entries = v.entries;
  leases = v.leases;
  next_secret_id = v.next_secret_id;
  next_lease_id = saturating_succ u64_max v.next_lease_id;
  audit = v.audit;
}

abbrev pub entry_of : Text → SecretInput → SecretBinding → ℤ → SecretEntry
entry_of handle input binding now = record {
  metadata = record {
    handle = handle;
    kind = input.kind;
    binding = binding;
    delivery = delivery_metadata input.delivery;
    created_at_epoch_seconds = now;
    expires_at_epoch_seconds = input.expires_at_epoch_seconds;
  };
  delivery = input.delivery;
  value = input.value;
}

-- An entry is checked against the context of a lease: a cookie by its identity alone.
unfoldable pub check_entry : SecretEntry → VaultAccessContext → ℤ → Result VaultError (Unit {0})
check_entry entry context now = elim entry.delivery [
  | by_cookie _ ↦ validate_entry_identity entry context now
  | by_header _ _ ↦ validate_entry_access entry context now
]

unfoldable pub check_handles :
    List (Text × SecretEntry) → List Text → VaultAccessContext → ℤ → Result VaultError (Unit {0})
check_handles entries [] context now = ok tt
check_handles entries (handle ∷ handles) context now = elim (map_get handle entries) [
  | none ↦ err unknown_secret
  | some entry ↦ check_entry entry context now >> check_handles entries handles context now
]

-- The checks of `lease`, with the normalized context.
unfoldable pub check_lease :
    InMemorySecretVault
    → List Text
    → VaultAccessContext
    → ℤ
    → ℤ
    → Result VaultError VaultAccessContext
check_lease v handles context lease_seconds now = do
  fail_if (is_empty handles || ltb max_secret_handles_per_lease (length handles)) invalid_lease_size
  fail_if (not (less (pos 0) lease_seconds) || less max_secret_lease_seconds lease_seconds)
      invalid_lease_duration
  normalized ← normalized_context context
  check_handles v.entries handles normalized now
  ok normalized

-- `values_mut`, to revoke the leases on a handle.
unfoldable pub revoke_holders : Text → List (Text × LeaseState) → List (Text × LeaseState)
revoke_holders handle [] = []
revoke_holders handle ((id, state) ∷ leases) =
    (
      id,
      record {
        handles = state.handles;
        context = state.context;
        expires_at_epoch_seconds = state.expires_at_epoch_seconds;
        consumed = state.consumed;
        revoked = state.revoked || contains handle state.handles;
      },
    )
    ∷ revoke_holders handle leases

abbrev pub revoked_state : LeaseState → LeaseState
revoked_state state = record {
  handles = state.handles;
  context = state.context;
  expires_at_epoch_seconds = state.expires_at_epoch_seconds;
  consumed = state.consumed;
  revoked = true;
}
