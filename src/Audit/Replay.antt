-- ===== src/Audit/Replay.antt =====
-- A chain verifies exactly when it is what appending its own events gives.
use mathlib.Core.List.{append-nil, append_assoc}
use bound_seal.Common.{
  ℕ, suc, ◌+◌, ◌≡◌, refl, sym, ◌∙◌, ap, subst, ◌↔◌, true, not, List, [], ◌∷◌, ◌++◌, map, ◌==◌,
  length, length-append, u64, Result, ok, ◌>>=◌, fail_if-then, fail_if-eq-ok, >>=-eq-ok, arith,
}
use bound_seal.Std.Text.{Text, eq_text}
use bound_seal.Std.Order.{list_ord, nat_ord, same_iff, same_refl}
use bound_seal.Audit.{
  AuditRecord, AuditChain, AuditError, HashLib, hash_material, new, push_record, append,
  verify_from, verify, genesis_hash,
}

module _ {E : Type 0} (lib : HashLib E) where
  -- Appending one event after another.
  unfoldable pub append_all : AuditChain E → List E → Result AuditError (AuditChain E)
  append_all c [] = ok c
  append_all c (e ∷ es) = append lib c e >>= λ d. append_all d es

  abbrev pub events : List (AuditRecord E) → List E
  events = map λ r. r.event

  -- The chain with its hash-linked records so far.
  abbrev chain : List (AuditRecord E) → Text → AuditChain E
  chain rs tail = record { records = rs; tail_hash = tail }

  pub verify_step :
      (index : ℕ) (previous : Text) (r : AuditRecord E) (rs : List (AuditRecord E)) {tail : Text}
      → verify_from lib index previous (r ∷ rs) ≡ ok tail
      → (hash_material lib (u64 (index + 1)) previous r.event ≡ ok r.record_hash)
        × (r ≡ record {
          sequence = u64 (index + 1);
          previous_hash = previous;
          event = r.event;
          record_hash = r.record_hash;
        })
        × (verify_from lib (index + 1) r.record_hash rs ≡ ok tail)
  unfolding verify_from
  verify_step index previous r rs e =
      let (numbered, e) = fail_if-then (not (r.sequence == u64 (index + 1))) _ _ e in
      let (linked, e) = fail_if-then (not (eq_text r.previous_hash previous)) _ _ e in
      let (h, hashed, e) = >>=-eq-ok (hash_material lib r.sequence r.previous_hash r.event) _ e in
      let (stored, e) = fail_if-then (not (eq_text r.record_hash h)) _ _ e in
      let number : r.sequence ≡ u64 (index + 1) = ground arith in
      let link : r.previous_hash ≡ previous = ground (arith, same_iff r.previous_hash previous) in
      let store : r.record_hash ≡ h = ground (arith, same_iff r.record_hash h) in
      (rw (← number, ← link, store) hashed, rw (number, link) refl, rw store e)

  verify-append_all :
      (before rs : List (AuditRecord E)) (previous tail : Text)
      → verify_from lib (length before) previous rs ≡ ok tail
      → append_all (chain before previous) (events rs) ≡ ok (chain (before ++ rs) tail)
  unfolding append_all append push_record verify_from
  verify-append_all before [] previous tail e =
      let same_tail : previous ≡ tail = cc in rw (append-nil before, same_tail) refl
  verify-append_all before (r ∷ rs) previous tail e =
      let (hashed, form, rest) = verify_step (length before) previous r rs e in
      let next : append lib (chain before previous) r.event
          ≡ ok (chain (before ++ r ∷ []) r.record_hash) =
        rw hashed (ap (λ x. ok (chain (before ++ x ∷ []) r.record_hash)) (sym form)) in
      let longer : length (before ++ r ∷ []) ≡ length before + 1 =
        omega (arith, length-append before (r ∷ [])) in
      let after =
        verify-append_all (before ++ r ∷ []) rs r.record_hash tail
          (subst (λ n. verify_from lib n r.record_hash rs ≡ ok tail) (sym longer) rest) in
      rw next (after ∙ ap (λ x. ok (chain x tail)) (append_assoc before (r ∷ []) rs))

  pub verify-parts :
      (c : AuditChain E) {u : Unit {0}}
      → verify lib c ≡ ok u
      → verify_from lib 0 genesis_hash c.records ≡ ok c.tail_hash
  unfolding verify
  verify-parts c e =
      let (t, run, e) = >>=-eq-ok (verify_from lib 0 genesis_hash c.records) _ e in
      let ended = fail_if-eq-ok (not (eq_text c.tail_hash t)) _ e in
      let same_tail : c.tail_hash ≡ t = ground (arith, same_iff c.tail_hash t) in rw same_tail run

  verify-whole :
      (c : AuditChain E)
      → verify_from lib 0 genesis_hash c.records ≡ ok c.tail_hash
      → verify lib c ≡ ok tt
  unfolding verify
  verify-whole c e = rw (e, same_refl c.tail_hash) refl

  -- The record that `append` would write at this index.
  abbrev linked : ℕ → Text → E → Text → AuditRecord E
  linked index previous event h = record {
    sequence = u64 (index + 1);
    previous_hash = previous;
    event = event;
    record_hash = h;
  }

  verify-linked :
      (index : ℕ) (previous h : Text) (event : E) (rs : List (AuditRecord E)) {tail : Text}
      → hash_material lib (u64 (index + 1)) previous event ≡ ok h
      → verify_from lib (index + 1) h rs ≡ ok tail
      → verify_from lib index previous (linked index previous event h ∷ rs) ≡ ok tail
  unfolding verify_from
  verify-linked index previous h event rs hashed rest =
      let numbered : (u64 (index + 1) == u64 (index + 1)) ≡ true = ground arith in
      rw (numbered, same_refl previous, hashed, same_refl h) rest

  pub verify_from-append :
      (index : ℕ) (previous tail h : Text) (rs : List (AuditRecord E)) (event : E)
      → verify_from lib index previous rs ≡ ok tail
      → hash_material lib (u64 (index + length rs + 1)) tail event ≡ ok h
      → verify_from lib index previous (rs ++ linked (index + length rs) tail event h ∷ []) ≡ ok h
  unfolding verify_from
  verify_from-append index previous tail h [] event e k =
      let start : index + 0 ≡ index = omega arith in
      let same_tail : previous ≡ tail = cc in
      subst (λ n. verify_from lib index previous (linked n tail event h ∷ []) ≡ ok h) (sym start)
        (subst (λ t. verify_from lib index previous (linked index t event h ∷ []) ≡ ok h) same_tail
          (verify-linked index previous h event [] (rw (same_tail, ← start) k) refl))
  verify_from-append index previous tail h (r ∷ rs) event e k =
      let (hashed, form, rest) = verify_step index previous r rs e in
      let shift : index + suc (length rs) ≡ index + 1 + length rs = omega arith in
      let after =
        verify_from-append (index + 1) r.record_hash tail h rs event rest
          (subst (λ n. hash_material lib (u64 (n + 1)) tail event ≡ ok h) shift k) in
      subst (λ n. verify_from lib index previous (r ∷ rs ++ linked n tail event h ∷ []) ≡ ok h)
        (sym shift)
        (subst
          (λ x.
            verify_from lib index previous
              (x ∷ rs ++ linked (index + 1 + length rs) tail event h ∷ [])
            ≡ ok h)
          (sym form) (verify-linked index previous r.record_hash r.event _ hashed after))

  -- Appending to a chain that verifies gives a chain that verifies.
  pub append-verify :
      (c d : AuditChain E) (event : E)
      → verify lib c ≡ ok tt
      → append lib c event ≡ ok d
      → verify lib d ≡ ok tt
  unfolding append push_record
  append-verify c d event v e =
      let (h, hashed, e) =
        >>=-eq-ok (hash_material lib (u64 (length c.records + 1)) c.tail_hash event) _ e in
      let made : chain (c.records ++ linked (length c.records) c.tail_hash event h ∷ []) h ≡ d =
        cc in
      let start : 0 + length c.records ≡ length c.records = omega arith in
      let run = verify_from-append 0 genesis_hash c.tail_hash h c.records event (verify-parts c v) (
        subst (λ n. hash_material lib (u64 (n + 1)) c.tail_hash event ≡ ok h) (sym start) hashed) in
      subst (λ x. verify lib x ≡ ok tt) made
        (verify-whole _ (
          subst
            (λ n.
              verify_from lib 0 genesis_hash (c.records ++ linked n c.tail_hash event h ∷ [])
              ≡ ok h)
            start run))

  append_all-verify :
      (c d : AuditChain E) (es : List E)
      → verify lib c ≡ ok tt
      → append_all c es ≡ ok d
      → verify lib d ≡ ok tt
  unfolding append_all
  append_all-verify c d [] v e = let same_chain : c ≡ d = cc in rw (← same_chain) v
  append_all-verify c d (x ∷ es) v e =
      let (b, appended, e) = >>=-eq-ok (append lib c x) _ e in
      append_all-verify b d es (append-verify c b x v appended) e

  pub new-verify : verify lib (new lib) ≡ ok tt
  unfolding verify new verify_from
  new-verify = rw (same_refl genesis_hash) refl

  -- A chain verifies exactly when appending its events, in order, to a new chain gives that chain.
  -- Nothing is assumed of the hash or of the JSON writer.
  pub verify-append_all_iff :
      (c : AuditChain E) → (verify lib c ≡ ok tt) ↔ (append_all (new lib) (events c.records) ≡ ok c)
  unfolding new
  verify-append_all_iff c = (
    λ v. verify-append_all [] c.records genesis_hash c.tail_hash (verify-parts c v),
    λ e. append_all-verify (new lib) c (events c.records) new-verify e,
  )
