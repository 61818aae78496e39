-- ===== src/Vault/Histories.antt =====
-- crates/nxb-vault/src/lib.rs: the calls on a vault, in any order, and its audit after them.
use bound_seal.Vault.Checks.{normalized_binding, validate_secret_input}
use bound_seal.Vault.Store.Operations.{
  inserted_event, after_insert, lease, revoke_lease, insert, emergency_purge, revoke_secret,
}
use bound_seal.Std.Int.{ℤ}
use bound_seal.Vault.Chain.{append_event, VaultLib, VaultAuditChain}
use bound_seal.Vault.Types.{
  SecretEntry, LeaseState, SecretBinding, VaultAccessContext, VaultError, SecretLease,
  VaultAuditEvent, SecretInput,
}
use bound_seal.Std.Text.{Text}
use bound_seal.Std.Collections.{map_insert, map_get}
use bound_seal.Std.Order.{list_ord, nat_ord}
use bound_seal.Vault.Store.Materializing.{
  consumed_state, check_call, check_state, materialize_state, materialize_http_headers,
}
use bound_seal.Vault.Store.{
  revoked_state, lease_handle, secret_handle, without, lease_allocated, secret_allocated,
  with_leases, revoke_holders, entry_of, with_entries, InMemorySecretVault, check_lease, with_audit,
  recorded, checked,
}
use bound_seal.Common.{
  Option, some, none, Result-cases, ok, [], Option-cases, Result, inr, inl, err, List, ◌∷◌, ◌≡◌,
  refl,
}

pub data Call : Type 0 where
  inserts : SecretInput → ℤ → Call
  leases_out : List Text → VaultAccessContext → ℤ → ℤ → Call
  materializes : SecretLease → Text → Text → ℤ → Call
  revokes_secret revokes_lease : Text → Call
  purges : Call

module _ (lib : VaultLib) where
  unfoldable pub step : InMemorySecretVault → Call → InMemorySecretVault
  step v (inserts input now) = (insert lib v input now).1
  step v (leases_out handles context lease_seconds now) =
      (lease lib v handles context lease_seconds now).1
  step v (materializes held session_id request_target now) =
      (materialize_http_headers lib v held session_id request_target now).2
  step v (revokes_secret handle) = (revoke_secret lib v handle).1
  step v (revokes_lease lease_id) = (revoke_lease lib v lease_id).1
  step v purges = (emergency_purge lib v).1

  unfoldable pub run : InMemorySecretVault → List Call → InMemorySecretVault
  run v [] = v
  run v (call ∷ calls) = run (step v call) calls

-- A property of vaults that every change of a call keeps.
pub record IsKept (lib : VaultLib) (P : InMemorySecretVault → Type 0) : Type 0 where
  pub on_audit :
      (v : InMemorySecretVault) (event : VaultAuditEvent) (audit : VaultAuditChain)
      → append_event lib v.audit event ≡ ok audit
      → P v
      → P (with_audit v audit)
  pub on_allocation : (v : InMemorySecretVault) → P v → P (secret_allocated v)
  pub on_entry :
      (v : InMemorySecretVault) (entry : SecretEntry)
      → P v
      → P (with_entries (secret_allocated v) (map_insert (secret_handle v) entry v.entries))
  pub on_removal :
      (v : InMemorySecretVault) (handle : Text)
      → P v
      → P (with_entries v (without handle v.entries))
  pub on_lease :
      (v : InMemorySecretVault) (state : LeaseState)
      → P v
      → P (with_leases (lease_allocated v) (map_insert (lease_handle v) state v.leases))
  pub on_consumption :
      (v : InMemorySecretVault) (lease_id : Text) (state : LeaseState)
      → map_get lease_id v.leases ≡ some state
      → P v
      → P (with_leases v (map_insert lease_id (consumed_state state) v.leases))
  pub on_revocation :
      (v : InMemorySecretVault) (lease_id : Text) (state : LeaseState)
      → map_get lease_id v.leases ≡ some state
      → P v
      → P (with_leases v (map_insert lease_id (revoked_state state) v.leases))
  pub on_holders :
      (v : InMemorySecretVault) (handle : Text)
      → P v
      → P (with_leases v (revoke_holders handle v.leases))
  pub on_purge : (v : InMemorySecretVault) → P v → P (with_leases (with_entries v []) [])

module _ (lib : VaultLib) (P : InMemorySecretVault → Type 0) (kept : IsKept lib P) where
  recorded-IsKept :
      {A : Type 0} (v : InMemorySecretVault) (answer : A) (event : VaultAuditEvent)
      → P v
      → P (recorded v answer (append_event lib v.audit event)).1
  recorded-IsKept v answer event k = by_outcome (append_event lib v.audit event) refl
    where
      by_outcome :
          (outcome : Result VaultError VaultAuditChain)
          → append_event lib v.audit event ≡ outcome
          → P (recorded v answer outcome).1
      by_outcome (err e) h = k
      by_outcome (ok audit) h = kept.on_audit v event audit h k

  checked-IsKept :
      {A : Type 0} {B : Type 0} (v : InMemorySecretVault) (outcome : Result VaultError A)
      (onward : A → Result VaultError B × InMemorySecretVault)
      → P v
      → ((a : A) → P (onward a).1)
      → P (checked v outcome onward).1
  checked-IsKept v (err e) onward k keep = k
  checked-IsKept v (ok a) onward k keep = keep a

  insert-IsKept :
      (v : InMemorySecretVault) (input : SecretInput) (now : ℤ) → P v → P (insert lib v input now).1
  unfolding insert
  insert-IsKept v input now k = checked-IsKept v (validate_secret_input input now) _ k λ _.
      checked-IsKept (secret_allocated v) (normalized_binding input.binding) _
        (kept.on_allocation v k)
        λ binding.
          stored binding
            (append_event lib v.audit (inserted_event lib v (secret_handle v) input.kind)) refl
    where
      stored :
          (binding : SecretBinding) (outcome : Result VaultError VaultAuditChain)
          → append_event lib v.audit (inserted_event lib v (secret_handle v) input.kind) ≡ outcome
          → P
              (after_insert lib
                (with_entries (secret_allocated v) (
                  map_insert
                    (secret_handle v)
                    (entry_of (secret_handle v) input binding now)
                    v.entries))
                (secret_handle v)
                outcome).1
      stored binding (err e) h =
          kept.on_removal _ (secret_handle v)
            (kept.on_entry v (entry_of (secret_handle v) input binding now) k)
      stored binding (ok audit) h =
          kept.on_audit _ _ audit h
            (kept.on_entry v (entry_of (secret_handle v) input binding now) k)

  lease-IsKept :
      (v : InMemorySecretVault) (handles : List Text) (context : VaultAccessContext)
      (lease_seconds now : ℤ)
      → P v
      → P (lease lib v handles context lease_seconds now).1
  unfolding lease
  lease-IsKept v handles context lease_seconds now k =
      checked-IsKept v (check_lease v handles context lease_seconds now) _ k
        λ normalized. recorded-IsKept _ _ _ (kept.on_lease v _ k)

  revoke_secret-IsKept :
      (v : InMemorySecretVault) (handle : Text) → P v → P (revoke_secret lib v handle).1
  unfolding revoke_secret
  revoke_secret-IsKept v handle k = elim (Option-cases (map_get handle v.entries)) [
    | inl h ↦ rw (revoke_secret, h) k
    | inr (entry, h) ↦
        rw (revoke_secret, h)
          (recorded-IsKept _ _ _ (kept.on_holders _ handle (kept.on_removal v handle k)))
  ]

  revoke_lease-IsKept :
      (v : InMemorySecretVault) (lease_id : Text) → P v → P (revoke_lease lib v lease_id).1
  unfolding revoke_lease
  revoke_lease-IsKept v lease_id k = elim (Option-cases (map_get lease_id v.leases)) [
    | inl h ↦ rw (revoke_lease, h) k
    | inr (state, h) ↦
        rw (revoke_lease, h) (recorded-IsKept _ _ _ (kept.on_revocation v lease_id state h k))
  ]

  materialize_state-IsKept :
      (v : InMemorySecretVault) (held : SecretLease) (session_id request_target : Text) (now : ℤ)
      (found : Option LeaseState)
      → map_get held.lease_id v.leases ≡ found
      → P v
      → P (materialize_state lib v held session_id request_target now found).1
  unfolding materialize_state
  materialize_state-IsKept v held session_id request_target now none h k = k
  materialize_state-IsKept v held session_id request_target now (some state) h k =
      checked-IsKept v (check_state v state held request_target now) _ k
        λ headers. recorded-IsKept _ _ _ (kept.on_consumption v held.lease_id state h k)

  materialize-IsKept :
      (v : InMemorySecretVault) (held : SecretLease) (session_id request_target : Text) (now : ℤ)
      → P v
      → P (materialize_http_headers lib v held session_id request_target now).2
  unfolding materialize_http_headers
  materialize-IsKept v held session_id request_target now k =
      elim (Result-cases (check_call held session_id request_target)) [
        | inr (error, h) ↦ rw (materialize_http_headers, h) k
        | inl (u, h) ↦
            rw (materialize_http_headers, h)
              (materialize_state-IsKept v held session_id request_target now _ refl k)
      ]

  pub step-IsKept : (v : InMemorySecretVault) (call : Call) → P v → P (step lib v call)
  unfolding step emergency_purge
  step-IsKept v (inserts input now) k = insert-IsKept v input now k
  step-IsKept v (leases_out handles context lease_seconds now) k =
      lease-IsKept v handles context lease_seconds now k
  step-IsKept v (materializes held session_id request_target now) k =
      materialize-IsKept v held session_id request_target now k
  step-IsKept v (revokes_secret handle) k = revoke_secret-IsKept v handle k
  step-IsKept v (revokes_lease lease_id) k = revoke_lease-IsKept v lease_id k
  step-IsKept v purges k = recorded-IsKept _ _ _ (kept.on_purge v k)

  pub run-IsKept : (calls : List Call) (v : InMemorySecretVault) → P v → P (run lib v calls)
  unfolding run
  run-IsKept [] v k = k
  run-IsKept (call ∷ calls) v k = run-IsKept calls (step lib v call) (step-IsKept v call k)
