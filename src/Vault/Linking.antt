-- ===== src/Vault/Linking.antt =====
-- crates/nxb-vault/src/lib.rs: the vault's audit chain stays linked.
use bound_seal.Audit.{AuditError, hash_material, verify_from}
use bound_seal.Vault.Chain.{
  push_event, append_event, new_chain, verify_chain, VaultAuditChain, map_chain_error, VaultLib,
}
use bound_seal.Std.Text.{eq_text, Text}
use bound_seal.Audit.Replay.{verify_from-append}
use bound_seal.Std.Order.{same_iff, same_refl, list_ord, nat_ord}
use bound_seal.Vault.Types.{VaultAuditEvent}
use bound_seal.Common.{
  err, ◌∷◌, length, u64, not, fail_if-eq-ok, [], subst, ◌+◌, sym, ◌++◌, ok, arith, Result,
  >>=-eq-ok, ◌≡◌, refl,
}

without_error {ℓ} :
    {A : Type ℓ} (outcome : Result AuditError A) {a : A}
    → map_chain_error outcome ≡ ok a
    → outcome ≡ ok a
without_error (err e) h = absurd (cc)
without_error (ok a) h = cc

module _ (lib : VaultLib) where
  verify_chain-parts :
      (c : VaultAuditChain) {u : Unit {0}}
      → verify_chain lib c ≡ ok u
      → verify_from lib.hashes 0 c.genesis_hash c.records ≡ ok c.tail_hash
  unfolding verify_chain
  verify_chain-parts c e =
      let (t, run, e) =
        >>=-eq-ok (map_chain_error (verify_from lib.hashes 0 c.genesis_hash c.records)) _ e in
      let ended = fail_if-eq-ok (not (eq_text c.tail_hash t)) _ e in
      let same_tail : c.tail_hash ≡ t = ground (arith, same_iff c.tail_hash t) in
      rw same_tail (without_error (verify_from lib.hashes 0 c.genesis_hash c.records) run)

  verify_chain-whole :
      (c : VaultAuditChain)
      → verify_from lib.hashes 0 c.genesis_hash c.records ≡ ok c.tail_hash
      → verify_chain lib c ≡ ok tt
  unfolding verify_chain
  verify_chain-whole c e = rw (e, same_refl c.tail_hash) refl

  pub new_chain-verify : (vault_id : Text) → verify_chain lib (new_chain lib vault_id) ≡ ok tt
  unfolding new_chain verify_from
  new_chain-verify vault_id = verify_chain-whole (new_chain lib vault_id) refl

  pub append_event-verify :
      (c d : VaultAuditChain) (event : VaultAuditEvent)
      → verify_chain lib c ≡ ok tt
      → append_event lib c event ≡ ok d
      → verify_chain lib d ≡ ok tt
  unfolding append_event push_event
  append_event-verify c d event v e =
      let (h, hashed, e) =
        >>=-eq-ok
          (map_chain_error
            (hash_material lib.hashes (u64 (length c.records + 1)) c.tail_hash event))
          _ e in
      let made : push_event c event h ≡ d = cc in
      let start : 0 + length c.records ≡ length c.records = omega arith in
      let hashed =
        without_error (hash_material lib.hashes (u64 (length c.records + 1)) c.tail_hash event)
          hashed in
      let run =
        verify_from-append lib.hashes 0 c.genesis_hash c.tail_hash h c.records event
          (verify_chain-parts c v)
          (subst (λ n. hash_material lib.hashes (u64 (n + 1)) c.tail_hash event ≡ ok h) (sym start)
            hashed) in
      subst (λ x. verify_chain lib x ≡ ok tt) made
        (verify_chain-whole _ (
          subst
            (λ n.
              verify_from lib.hashes 0 c.genesis_hash (
                c.records
                ++ record {
                  sequence = u64 (n + 1);
                  previous_hash = c.tail_hash;
                  event = event;
                  record_hash = h;
                }
                  ∷ [])
              ≡ ok h)
            start run))
