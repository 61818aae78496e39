-- ===== src/Vault/Revoking.antt =====
-- crates/nxb-vault/src/lib.rs: a secret that was revoked is in no headers any more.
use bound_seal.Vault.Checks.{validate_identifier}
use bound_seal.Vault.Sources.{one_gives, materialize_sound, AllGive}
use mathlib.Core.Bool.{false≢true}
use bound_seal.Vault.Chain.{VaultLib}
use bound_seal.Vault.Histories.{run, Call, run-IsKept, IsKept}
use bound_seal.Std.Int.{ℤ}
use bound_seal.Vault.Granting.{recorded-ok}
use bound_seal.Vault.Store.Materializing.{materialize_http_headers, Part}
use bound_seal.Vault.Store.{InMemorySecretVault, secret_handle, without}
use bound_seal.Vault.Numbering.{
  IsAhead-IsPast, IsPast, numbered, IsAhead, next_number, IsAhead-insert, IsPast-later,
}
use bound_seal.Std.Order.{list_ord, nat_ord, same_iff, same, same_refl}
use bound_seal.Std.Collections.{get-retain, contains, map_get, get-insert}
use bound_seal.Vault.Types.{
  SecretLease, LeaseState, SecretHeaderLease, SecretEntry, VaultAccessContext,
}
use bound_seal.Std.Text.{Text, text}
use bound_seal.Vault.Store.Operations.{revoke_secret, new}
use bound_seal.Common.{
  sym, true, >>=-eq-ok, subst, ◌≢◌, ok, Option-cases, [], ◌<◌, arith, ◌++◌, u64_max, some, inr,
  false, ◌∙◌, none, not, inl, Bool-cases, ◌∷◌, List, ◌≤◌, ap, ℕ, ◌≡◌, refl,
}

abbrev secret_prefix : InMemorySecretVault → Text
secret_prefix v = v.vault_id ++ text "-secret-"

-- The secrets to come have names that are free, as long as there are numbers.
abbrev IsFresh : InMemorySecretVault → Type 0
IsFresh v = v.next_secret_id < u64_max → IsAhead (secret_prefix v) v.next_secret_id v.entries

-- A secret that is gone, and is not to come.
abbrev StaysGone : Text → InMemorySecretVault → Type 0
StaysGone handle v =
    v.next_secret_id < u64_max
    → IsPast (secret_prefix v) v.next_secret_id handle × (map_get handle v.entries ≡ none)

without-none :
    (key handle : Text) (entries : List (Text × SecretEntry))
    → map_get key entries ≡ none
    → map_get key (without handle entries) ≡ none
without-none key handle entries e =
    rw (get-retain key (λ j. not (same handle j)) entries, e) (ground arith)

IsFresh-IsKept : (lib : VaultLib) → IsKept lib IsFresh
unfolding secret_handle numbered IsAhead map_get
IsFresh-IsKept lib = record {
  on_audit = λ v event audit e k. k;
  on_allocation = λ v k room n h l.
      let (before, exact) = next_number v.next_secret_id room in k before n (omega arith) l;
  on_entry = λ v entry k room.
      let (before, exact) = next_number v.next_secret_id room in
      rw exact
        (IsAhead-insert (secret_prefix v) v.next_secret_id entry v.entries before (k before));
  on_removal = λ v handle k room n h l.
      without-none (numbered (secret_prefix v) n) handle v.entries (k room n h l);
  on_lease = λ v state k. k;
  on_consumption = λ v id state e k. k;
  on_revocation = λ v id state e k. k;
  on_holders = λ v handle k. k;
  on_purge = λ v k room n h l. refl;
}

StaysGone-IsKept : (lib : VaultLib) (handle : Text) → IsKept lib (StaysGone handle)
unfolding secret_handle numbered IsPast map_get
StaysGone-IsKept lib handle = record {
  on_audit = λ v event audit e k. k;
  on_allocation = λ v k room.
      let (before, exact) = next_number v.next_secret_id room in
      (
        IsPast-later (secret_prefix v) v.next_secret_id _ handle (omega arith) (k before).0,
        (k before).1,
      );
  on_entry = λ v entry k room.
      let (before, exact) = next_number v.next_secret_id room in
      (
        IsPast-later (secret_prefix v) v.next_secret_id _ handle (omega arith) (k before).0,
        rw
            (
              get-insert handle (numbered (secret_prefix v) v.next_secret_id) entry v.entries,
              (k before).0 v.next_secret_id (omega arith) (omega arith),
            )
            (k before).1,
      );
  on_removal = λ v other k room. ((k room).0, without-none handle other v.entries (k room).1);
  on_lease = λ v state k. k;
  on_consumption = λ v id state e k. k;
  on_revocation = λ v id state e k. k;
  on_holders = λ v other k. k;
  on_purge = λ v k room. ((k room).0, refl);
}

-- The numbers of secrets only grow.
grows-IsKept :
    (lib : VaultLib) (n : ℕ) → IsKept lib (λ v. v.next_secret_id < u64_max → n ≤ v.next_secret_id)
grows-IsKept lib n = record {
  on_audit = λ v event audit e k. k;
  on_allocation = λ v k room.
      let (before, exact) = next_number v.next_secret_id room in omega (arith, exact, k before);
  on_entry = λ v entry k room.
      let (before, exact) = next_number v.next_secret_id room in omega (arith, exact, k before);
  on_removal = λ v handle k. k;
  on_lease = λ v state k. k;
  on_consumption = λ v id state e k. k;
  on_revocation = λ v id state e k. k;
  on_holders = λ v handle k. k;
  on_purge = λ v k. k;
}

-- What a revocation that succeeded did.
revoke_secret-ok :
    (lib : VaultLib) (v : InMemorySecretVault) (handle : Text) {u : Unit {0}}
    → (revoke_secret lib v handle).0 ≡ ok u
    → (entry : SecretEntry) × (map_get handle v.entries ≡ some entry)
      × (map_get handle (revoke_secret lib v handle).1.entries ≡ none)
      × ((revoke_secret lib v handle).1.next_secret_id ≡ v.next_secret_id)
      × ((revoke_secret lib v handle).1.vault_id ≡ v.vault_id)
unfolding revoke_secret
revoke_secret-ok lib v handle e = elim (Option-cases (map_get handle v.entries)) [
  | inl h ↦ absurd (let e = rw (revoke_secret, h) at e in cc)
  | inr (entry, h) ↦
      let (audit, _, _, changed) = recorded-ok _ _ _ (rw (revoke_secret, h) at e) in
      let removed : map_get handle (without handle v.entries) ≡ none =
        rw (get-retain handle (λ j. not (same handle j)) v.entries, same_refl handle) refl in
      (
        entry,
        h,
        rw (revoke_secret, h) (ap (λ x. map_get handle x.entries) changed ∙ removed),
        rw (revoke_secret, h) (ap (λ x. x.next_secret_id) changed),
        rw (revoke_secret, h) (ap (λ x. x.vault_id) changed),
      )
]

-- No secrets of an absent handle.
absent-AllGive :
    (entries : List (Text × SecretEntry)) (context : VaultAccessContext) (target : Text) (now : ℤ)
    (handle : Text) (handles : List Text) (parts : List Part)
    → map_get handle entries ≡ none
    → AllGive entries context target now handles parts
    → contains handle handles ≡ false
unfolding contains
absent-AllGive entries context target now handle [] parts e give = refl
absent-AllGive entries context target now handle (h ∷ hs) parts e (one_gives entry found _ rest) =
    elim (Bool-cases (same handle h)) [
      | inl k ↦
          let here : handle ≡ h = (same_iff _ _).0 k in
          let there : map_get handle entries ≡ some entry = rw here found in absurd (cc)
      | inr k ↦ rw (k, absent-AllGive entries context target now handle hs _ e rest) refl
    ]

-- However the calls on a vault went before and after, a secret that was revoked is never given
-- again: a lease that names it gives no headers at all. At the end there are numbers for secrets
-- left.
pub no_revoked_secret :
    (lib : VaultLib) (vault_id : Text) (start : InMemorySecretVault) (before after : List Call)
    (handle : Text) (held : SecretLease) (session_id target : Text) (now : ℤ) (state : LeaseState)
    (given : SecretHeaderLease)
    → new lib vault_id ≡ ok start
    → (revoke_secret lib (run lib start before) handle).0 ≡ ok tt
    → (run lib (revoke_secret lib (run lib start before) handle).1 after).next_secret_id < u64_max
    → map_get held.lease_id
        (run lib (revoke_secret lib (run lib start before) handle).1 after).leases
      ≡ some state
    → contains handle state.handles ≡ true
    → (materialize_http_headers lib
        (run lib (revoke_secret lib (run lib start before) handle).1 after)
        held
        session_id
        target
        now).0
      ≢ ok given
unfolding new IsAhead map_get
no_revoked_secret lib vault_id start before after handle held session_id target now state given made
      done room found named e =
    let v = run lib start before in
    let w = (revoke_secret lib v handle).1 in
    let x = run lib w after in
    let (_, _, made) = >>=-eq-ok (validate_identifier vault_id (text "vault_id")) _ made in
    let no_entries : [] ≡ start.entries = cc in
    let fresh_start : IsFresh start = λ room n h k. rw (← no_entries) refl in
    let fresh = run-IsKept lib IsFresh (IsFresh-IsKept lib) before start fresh_start in
    let (entry, there, gone, same_next, same_id) = revoke_secret-ok lib v handle done in
    let grown =
      run-IsKept lib (λ y. y.next_secret_id < u64_max → w.next_secret_id ≤ y.next_secret_id)
        (grows-IsKept lib w.next_secret_id) after w (λ r. omega arith) room in
    let early : v.next_secret_id < u64_max = omega arith in
    let past =
      IsAhead-IsPast (secret_prefix v) v.next_secret_id v.entries handle (fresh early) there in
    let gone_w : StaysGone handle w = λ r. (
      subst (λ n. IsPast (w.vault_id ++ text "-secret-") n handle) (sym same_next)
          (subst (λ i. IsPast (i ++ text "-secret-") v.next_secret_id handle) (sym same_id) past),
      gone,
    ) in
    let stays =
      run-IsKept lib (StaysGone handle) (StaysGone-IsKept lib handle) after w gone_w room in
    let granted = materialize_sound lib x held session_id target now given e in
    let same_state : granted.state ≡ state = cc (granted.found, found) in
    let absent =
      absent-AllGive x.entries granted.state.context target now handle granted.state.handles
        granted.parts stays.1 granted.sources in
    absurd
      (false≢true (sym (subst (λ s. contains handle s.handles ≡ false) same_state absent) ∙ named))
