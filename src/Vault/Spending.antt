-- ===== src/Vault/Spending.antt =====
-- crates/nxb-vault/src/lib.rs: a lease gives headers once, and no lease gives a revoked secret.
use bound_seal.Vault.Granting.{check_state-ok, after_headers, materialize-ok}
use bound_seal.Std.Int.{ℤ}
use mathlib.Core.Bool.{false≢true}
use bound_seal.Vault.Types.{SecretHeaderLease, SecretLease, LeaseState}
use bound_seal.Std.Collections.{get-insert, map_insert, map_get}
use bound_seal.Vault.Store.Materializing.{materialize_http_headers, consumed_state}
use bound_seal.Vault.Numbering.{
  next_number, IsAhead-IsPast, IsPast-later, IsAhead, IsAhead-insert, IsPast, numbered,
  IsAhead-update,
}
use bound_seal.Std.Order.{same_refl, nat_ord, list_ord, same}
use bound_seal.Vault.Histories.{IsKept, run, Call, run-IsKept}
use bound_seal.Vault.Linking.{append_event-verify, new_chain-verify}
use bound_seal.Vault.Store.{lease_handle, revoke_holders, revoked_state, InMemorySecretVault}
use bound_seal.Std.Text.{Text, text}
use bound_seal.Vault.Chain.{VaultLib, verify_chain, new_chain}
use bound_seal.Vault.Checks.{validate_identifier}
use bound_seal.Vault.Store.Operations.{new}
use bound_seal.Common.{
  ap, ◌≢◌, sym, ◌∙◌, ◌≤◌, Bool-cases, inr, true, ◌||◌, some, ◌+◌, ◌∷◌, ◌++◌, Option, Bool, [], ◌<◌,
  u64_max, arith, none, inl, List, ok, subst, >>=-eq-ok, ℕ, ◌≡◌, refl,
}

-- The vault's audit verifies.
abbrev IsAudited : VaultLib → InMemorySecretVault → Type 0
IsAudited lib v = verify_chain lib v.audit ≡ ok tt

-- Whatever the calls on a new vault are, and whatever their answers, its audit verifies after them.
-- Nothing is assumed of the hash or of the JSON writer.
pub run-verify :
    (lib : VaultLib) (vault_id : Text) (calls : List Call) (v : InMemorySecretVault)
    → new lib vault_id ≡ ok v
    → verify_chain lib (run lib v calls).audit ≡ ok tt
unfolding new
run-verify lib vault_id calls v e =
    let (_, _, e) = >>=-eq-ok (validate_identifier vault_id (text "vault_id")) _ e in
    let fresh : new_chain lib vault_id ≡ v.audit = cc in
    run-IsKept lib (IsAudited lib)
      (record {
        on_audit = λ v event audit e k. append_event-verify lib v.audit audit event k e;
        on_allocation = λ v k. k;
        on_entry = λ v entry k. k;
        on_removal = λ v handle k. k;
        on_lease = λ v state k. k;
        on_consumption = λ v lease_id state e k. k;
        on_revocation = λ v lease_id state e k. k;
        on_holders = λ v handle k. k;
        on_purge = λ v k. k;
      })
      calls v (subst (λ c. verify_chain lib c ≡ ok tt) fresh (new_chain-verify lib vault_id))

abbrev lease_prefix : InMemorySecretVault → Text
lease_prefix v = v.vault_id ++ text "-lease-"

abbrev pub is_dead : Option LeaseState → Bool
is_dead none = true
is_dead (some state) = state.consumed || state.revoked

-- The changes that `values_mut` makes to one lease.
get-revoke_holders :
    (key handle : Text) (leases : List (Text × LeaseState))
    → (map_get key leases ≡ none → map_get key (revoke_holders handle leases) ≡ none)
      × (is_dead (map_get key leases) ≡ true
          → is_dead (map_get key (revoke_holders handle leases)) ≡ true)
unfolding revoke_holders map_get
get-revoke_holders key handle [] = (λ e. refl, λ e. refl)
get-revoke_holders key handle ((id, state) ∷ leases) =
    let (absent, dead) = get-revoke_holders key handle leases in
    elim (Bool-cases (same key id)) [
      | inl h ↦ (
        λ e. absurd (let e = rw (map_get, h) at e in cc),
        λ e. let e = rw (map_get, h) at e in rw (map_get, h) (ground (arith, e)),
      )
      | inr h ↦ (
        λ e. rw (map_get, h) (absent (rw (map_get, h) at e)),
        λ e. rw (map_get, h) (dead (rw (map_get, h) at e)),
      )
    ]

-- The leases to come have names that are free, as long as there are numbers.
abbrev IsFresh : InMemorySecretVault → Type 0
IsFresh v = v.next_lease_id < u64_max → IsAhead (lease_prefix v) v.next_lease_id v.leases

-- A lease that is not to come gives no headers: it is gone, or it was used or revoked.
abbrev IsDead : Text → InMemorySecretVault → Type 0
IsDead id v = IsPast (lease_prefix v) v.next_lease_id id × (is_dead (map_get id v.leases) ≡ true)

abbrev StaysDead : Text → InMemorySecretVault → Type 0
StaysDead id v = v.next_lease_id < u64_max → IsDead id v

IsFresh-IsKept : (lib : VaultLib) → IsKept lib IsFresh
unfolding lease_handle numbered IsAhead map_get
IsFresh-IsKept lib = record {
  on_audit = λ v event audit e k. k;
  on_allocation = λ v k. k;
  on_entry = λ v entry k. k;
  on_removal = λ v handle k. k;
  on_lease = λ v state k room.
      let (before, exact) = next_number v.next_lease_id room in
      rw exact (IsAhead-insert (lease_prefix v) v.next_lease_id state v.leases before (k before));
  on_consumption = λ v id state e k room.
      IsAhead-update (lease_prefix v) v.next_lease_id id state (consumed_state state) v.leases e
        (k room);
  on_revocation = λ v id state e k room.
      IsAhead-update (lease_prefix v) v.next_lease_id id state (revoked_state state) v.leases e
        (k room);
  on_holders = λ v handle k room n h l.
      (get-revoke_holders (numbered (lease_prefix v) n) handle v.leases).0 (k room n h l);
  on_purge = λ v k room n h l. refl;
}

-- One key of a map is written; another keeps what it has.
dead-insert :
    (id key : Text) (state : LeaseState) (leases : List (Text × LeaseState))
    → is_dead (map_get id leases) ≡ true
    → (same id key ≡ true → is_dead (some state) ≡ true)
    → is_dead (map_get id (map_insert key state leases)) ≡ true
dead-insert id key state leases dead written = elim (Bool-cases (same id key)) [
  | inl h ↦ rw (get-insert id key state leases, h) (written h)
  | inr h ↦ rw (get-insert id key state leases, h) dead
]

StaysDead-IsKept : (lib : VaultLib) (id : Text) → IsKept lib (StaysDead id)
unfolding lease_handle numbered IsPast map_get
StaysDead-IsKept lib id = record {
  on_audit = λ v event audit e k. k;
  on_allocation = λ v k. k;
  on_entry = λ v entry k. k;
  on_removal = λ v handle k. k;
  on_lease = λ v state k room.
      let (before, exact) = next_number v.next_lease_id room in
      let was = k before in
      (
        rw exact (
            IsPast-later (lease_prefix v) v.next_lease_id (v.next_lease_id + 1) id (omega arith)
              was.0),
        dead-insert id (numbered (lease_prefix v) v.next_lease_id) state v.leases was.1
            λ e. absurd (false≢true (sym (was.0 v.next_lease_id (omega arith) (omega arith)) ∙ e)),
      );
  on_consumption = λ v key state e k room.
      ((k room).0, dead-insert id key (consumed_state state) v.leases (k room).1 λ _. refl);
  on_revocation = λ v key state e k room.
      ((k room).0, dead-insert id key (revoked_state state) v.leases (k room).1 λ _. ground arith);
  on_holders =
      λ v handle k room. ((k room).0, (get-revoke_holders id handle v.leases).1 (k room).1);
  on_purge = λ v k room. ((k room).0, refl);
}

-- The numbers of leases only grow.
grows-IsKept :
    (lib : VaultLib) (n : ℕ) → IsKept lib (λ v. v.next_lease_id < u64_max → n ≤ v.next_lease_id)
grows-IsKept lib n = record {
  on_audit = λ v event audit e k. k;
  on_allocation = λ v k. k;
  on_entry = λ v entry k. k;
  on_removal = λ v handle k. k;
  on_lease = λ v state k room.
      let (before, exact) = next_number v.next_lease_id room in omega (arith, exact, k before);
  on_consumption = λ v key state e k. k;
  on_revocation = λ v key state e k. k;
  on_holders = λ v handle k. k;
  on_purge = λ v k. k;
}

-- A lease that is dead gives no headers.
dead-refused :
    (lib : VaultLib) (v : InMemorySecretVault) (held : SecretLease)
    (session_id request_target : Text) (now : ℤ) (given : SecretHeaderLease)
    → is_dead (map_get held.lease_id v.leases) ≡ true
    → (materialize_http_headers lib v held session_id request_target now).0 ≢ ok given
dead-refused lib v held session_id request_target now given dead e =
    let (state, headers, _, found, checks, _, _) =
      materialize-ok lib v held session_id request_target now given e in
    let (_, kept, unused, _, _, _, _) =
      check_state-ok v state held request_target now headers checks in
    let dead : (state.consumed || state.revoked) ≡ true = rw found at dead in
    absurd (false≢true (ground arith))

-- However the calls on a vault went before and after, a lease gives headers once: when it has given
-- some, no attempt with a lease of its name gives any. At the end there are numbers for leases left.
pub no_second_materialization :
    (lib : VaultLib) (vault_id : Text) (start : InMemorySecretVault) (before after : List Call)
    (first second : SecretLease) (session_id target later_session later_target : Text)
    (now later : ℤ) (given again : SecretHeaderLease)
    → new lib vault_id ≡ ok start
    → (materialize_http_headers lib (run lib start before) first session_id target now).0 ≡ ok given
    → second.lease_id ≡ first.lease_id
    → (run lib
        (materialize_http_headers lib (run lib start before) first session_id target now).2
        after).next_lease_id
      < u64_max
    → (materialize_http_headers lib
        (run lib
          (materialize_http_headers lib (run lib start before) first session_id target now).2
          after)
        second
        later_session
        later_target
        later).0
      ≢ ok again
unfolding new IsAhead map_get
no_second_materialization lib vault_id start before after first second session_id target
      later_session later_target now later given again made e same_name room =
    let v = run lib start before in
    let w = (materialize_http_headers lib v first session_id target now).2 in
    let (_, _, made) = >>=-eq-ok (validate_identifier vault_id (text "vault_id")) _ made in
    let no_leases : [] ≡ start.leases = cc in
    let fresh_start : IsFresh start = λ room n h k. rw (← no_leases) refl in
    let fresh = run-IsKept lib IsFresh (IsFresh-IsKept lib) before start fresh_start in
    let (state, headers, audit, found, _, _, changed) =
      materialize-ok lib v first session_id target now given e in
    let same_next : w.next_lease_id ≡ v.next_lease_id = ap (λ x. x.next_lease_id) changed in
    let grown =
      run-IsKept lib (λ x. x.next_lease_id < u64_max → w.next_lease_id ≤ x.next_lease_id)
        (grows-IsKept lib w.next_lease_id) after w (λ r. omega arith) room in
    let early : v.next_lease_id < u64_max = omega arith in
    let past =
      IsAhead-IsPast (lease_prefix v) v.next_lease_id v.leases first.lease_id (fresh early) found in
    let dead_after : IsDead first.lease_id (after_headers lib v first state audit) = (
      past,
      rw
          (
            get-insert first.lease_id first.lease_id (consumed_state state) v.leases,
            same_refl first.lease_id,
          )
          refl,
    ) in
    let dead_w : StaysDead first.lease_id w =
      λ r. subst (IsDead first.lease_id) (sym changed) dead_after in
    let stays =
      run-IsKept lib (StaysDead first.lease_id) (StaysDead-IsKept lib first.lease_id) after w dead_w
        room in
    dead-refused lib (run lib w after) second later_session later_target later again
      (subst (λ x. is_dead (map_get x (run lib w after).leases) ≡ true) (sym same_name) stays.1)
