-- ===== src/Vault/Granting.antt =====
-- crates/nxb-vault/src/lib.rs: what a lease was when it gave headers, and where they come from.
use bound_seal.Std.Text.{Text}
use bound_seal.Vault.Chain.{VaultAuditChain, VaultLib}
use bound_seal.Std.Int.{ℤ, at_least}
use bound_seal.Std.Order.{list_ord, nat_ord}
use bound_seal.Std.Collections.{map_get, map_insert}
use bound_seal.Vault.Store.Materializing.{
  parts_of, check_call, Part, materialize_http_headers, consumed_state, headers_of, eq_context,
  header_lease, check_state, materialize_state,
}
use bound_seal.Vault.Store.{InMemorySecretVault, with_audit, recorded, with_leases, checked}
use bound_seal.Vault.Types.{
  LeaseState, MaterializedHeader, SecretHeaderLease, SecretLease, VaultError,
}
use bound_seal.Common.{
  ◌∙◌, Option, Result-cases, arith, true, Result, false, not, fail_if-then, List, inr, none, ok,
  some, >>=-eq-ok, err, inl, ◌≡◌, refl,
}

checked-ok :
    {A : Type 0} {B : Type 0} (v : InMemorySecretVault) (outcome : Result VaultError A)
    (onward : A → Result VaultError B × InMemorySecretVault) {b : B}
    → (checked v outcome onward).0 ≡ ok b
    → (a : A) × (outcome ≡ ok a)
      × ((onward a).0 ≡ ok b)
      × ((checked v outcome onward).1 ≡ (onward a).1)
checked-ok v (err e) onward h = absurd (cc)
checked-ok v (ok a) onward h = (a, refl, h, refl)

pub recorded-ok :
    {A : Type 0} (v : InMemorySecretVault) (answer : A)
    (outcome : Result VaultError VaultAuditChain) {a : A}
    → (recorded v answer outcome).0 ≡ ok a
    → (audit : VaultAuditChain) × (outcome ≡ ok audit)
      × (answer ≡ a)
      × ((recorded v answer outcome).1 ≡ with_audit v audit)
recorded-ok v answer (err e) h = absurd (cc)
recorded-ok v answer (ok audit) h = (audit, refl, cc, refl)

module _ (lib : VaultLib) where
  -- The vault after headers were given.
  abbrev pub after_headers :
      InMemorySecretVault → SecretLease → LeaseState → VaultAuditChain → InMemorySecretVault
  after_headers v held state audit =
      with_audit (with_leases v (map_insert held.lease_id (consumed_state state) v.leases)) audit

  pub materialize-ok :
      (v : InMemorySecretVault) (held : SecretLease) (session_id request_target : Text) (now : ℤ)
      (given : SecretHeaderLease)
      → (materialize_http_headers lib v held session_id request_target now).0 ≡ ok given
      → (state : LeaseState) × (headers : List MaterializedHeader) × (audit : VaultAuditChain)
        × (map_get held.lease_id v.leases ≡ some state)
        × (check_state v state held request_target now ≡ ok headers)
        × (header_lease lib state held session_id headers ≡ given)
        × ((materialize_http_headers lib v held session_id request_target now).2
            ≡ after_headers v held state audit)
  unfolding materialize_http_headers materialize_state
  materialize-ok v held session_id request_target now given e =
      elim (Result-cases (check_call held session_id request_target)) [
        | inr (error, h) ↦ absurd (let e = rw (materialize_http_headers, h) at e in cc)
        | inl (u, h) ↦
            let e = rw (materialize_http_headers, h) at e in
            rw (materialize_http_headers, h) (by_state (map_get held.lease_id v.leases) refl e)
      ]
    where
      by_state :
          (found : Option LeaseState)
          → map_get held.lease_id v.leases ≡ found
          → (materialize_state lib v held session_id request_target now found).0 ≡ ok given
          → (state : LeaseState) × (headers : List MaterializedHeader) × (audit : VaultAuditChain)
            × (found ≡ some state)
            × (check_state v state held request_target now ≡ ok headers)
            × (header_lease lib state held session_id headers ≡ given)
            × ((materialize_state lib v held session_id request_target now found).1
                ≡ after_headers v held state audit)
      by_state none h e = absurd (cc)
      by_state (some state) h e =
          let (headers, checks, e, after) =
            checked-ok v (check_state v state held request_target now) _ e in
          let (audit, appended, form, changed) = recorded-ok _ _ _ e in
          (state, headers, audit, refl, checks, form, after ∙ changed)

-- The guards of a state that gave headers.
pub check_state-ok :
    (v : InMemorySecretVault) (state : LeaseState) (held : SecretLease) (request_target : Text)
    (now : ℤ) (headers : List MaterializedHeader)
    → check_state v state held request_target now ≡ ok headers
    → (parts : List Part) × (state.revoked ≡ false)
      × (state.consumed ≡ false)
      × (at_least now state.expires_at_epoch_seconds ≡ false)
      × (eq_context state.context held.context ≡ true)
      × (parts_of v.entries state.handles state.context request_target now ≡ ok parts)
      × (headers ≡ headers_of parts)
unfolding check_state
check_state-ok v state held request_target now headers e =
    let (kept, e) = fail_if-then state.revoked _ _ e in
    let (unused, e) = fail_if-then state.consumed _ _ e in
    let (early, e) = fail_if-then (at_least now state.expires_at_epoch_seconds) _ _ e in
    let (same_context, e) = fail_if-then (not (eq_context state.context held.context)) _ _ e in
    let (parts, found, e) =
      >>=-eq-ok (parts_of v.entries state.handles state.context request_target now) _ e in
    (parts, kept, unused, early, ground arith, found, cc)
