-- ===== src/Audit/Tampering.antt =====
-- Two chains with one tail hash: the same records, or a collision of the hash.
use bound_seal.Common.{
  ℕ, ◌+◌, ◌≡◌, ◌≢◌, refl, ◌∙◌, ap, ◌⊎◌, inl, inr, List, [], ◌∷◌, length, u64, ok, arith, Bool-cases,
}
use bound_seal.Std.Text.{Text, eq_text}
use bound_seal.Std.Order.{list_ord, nat_ord, same_iff}
use bound_seal.Audit.{
  AuditRecord, AuditChain, HashLib, hash_material, verify_from, verify, genesis_hash,
}
use bound_seal.Audit.Replay.{verify_step, verify-parts}

module _ {E : Type 0} (lib : HashLib E) where
  -- Two different materials with one hash.
  pub record Collision : Type 0 where
    pub number : ℕ
    pub previous1 : Text
    pub previous2 : Text
    pub event1 : E
    pub event2 : E
    pub hash : Text
    pub differ : (previous1 ≢ previous2) ⊎ (event1 ≢ event2)
    pub first : hash_material lib number previous1 event1 ≡ ok hash
    pub second : hash_material lib number previous2 event2 ≡ ok hash

  module _ (dec : Discrete E) where
    same_link :
        (number : ℕ) (p q : Text) (d e : E) (h : Text)
        → hash_material lib number p d ≡ ok h
        → hash_material lib number q e ≡ ok h
        → Collision ⊎ ((p ≡ q) × (d ≡ e))
    same_link number p q d e h x y = elim (Bool-cases (eq_text p q)) [
      | inl s ↦ elim (dec d e) [
        | yes t ↦ inr ((same_iff p q).0 s, t)
        | no n ↦ inl (record {
          number = number;
          previous1 = p;
          previous2 = q;
          event1 = d;
          event2 = e;
          hash = h;
          differ = inr n;
          first = x;
          second = y;
        })
      ]
      | inr s ↦ inl (record {
        number = number;
        previous1 = p;
        previous2 = q;
        event1 = d;
        event2 = e;
        hash = h;
        differ = inl (λ t. cc ((same_iff p q).1 t));
        first = x;
        second = y;
      })
    ]

    same_records :
        (index : ℕ) (p q tail : Text) (rs ss : List (AuditRecord E))
        → length rs ≡ length ss
        → verify_from lib index p rs ≡ ok tail
        → verify_from lib index q ss ≡ ok tail
        → Collision ⊎ ((p ≡ q) × (rs ≡ ss))
    unfolding verify_from
    same_records index p q tail [] [] l x y = inr (cc, refl)
    same_records index p q tail [] (s ∷ ss) l x y = absurd (omega arith)
    same_records index p q tail (r ∷ rs) [] l x y = absurd (omega arith)
    same_records index p q tail (r ∷ rs) (s ∷ ss) l x y =
        let (hx, fx, x) = verify_step lib index p r rs x in
        let (hy, fy, y) = verify_step lib index q s ss y in
        elim (same_records (index + 1) r.record_hash s.record_hash tail rs ss (omega arith) x y) [
          | inl c ↦ inl c
          | inr (h, e) ↦
              elim (same_link (u64 (index + 1)) p q r.event s.event r.record_hash hx (rw h hy)) [
                | inl c ↦ inl c
                | inr (l, d) ↦ inr (l, cc)
              ]
        ]

    -- Two chains of one length that verify and have the same tail hash hold the same records, or
    -- they exhibit two different materials with one hash: no record can be changed, dropped for
    -- another or reordered under a kept tail hash without a collision.
    pub verify_unique :
        (c d : AuditChain E)
        → length c.records ≡ length d.records
        → c.tail_hash ≡ d.tail_hash
        → verify lib c ≡ ok tt
        → verify lib d ≡ ok tt
        → Collision ⊎ (c.records ≡ d.records)
    verify_unique c d l t x y =
        elim (same_records 0 genesis_hash genesis_hash d.tail_hash c.records d.records l
          (verify-parts lib c x ∙ ap ok t) (verify-parts lib d y)) [
            | inl collision ↦ inl collision
            | inr (_, e) ↦ inr e
          ]
