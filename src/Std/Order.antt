-- ===== src/Std/Order.antt =====
-- `Ord`, and the ordered collections `BTreeSet` and `BTreeMap` as sorted lists.
use bound_seal.Common.{
  ℕ, compare, Ordering, ◌≡◌, refl, ◌↔◌, Bool, true, false, List, [], ◌∷◌, arith,
}

pub record Ord {ℓ} (A : Type ℓ) : Type ℓ where
  pub cmp : A → A → Ordering
  pub cmp_iff : (a b : A) → (cmp a b ≡ Ordering.eq) ↔ (a ≡ b)

pub compare_iff : (a b : ℕ) → (compare a b ≡ Ordering.eq) ↔ (a ≡ b)
compare_iff a b = ground arith

instance abbrev pub nat_ord : Ord ℕ
nat_ord = record { cmp = compare; cmp_iff = compare_iff }

abbrev pub is_eq : Ordering → Bool
is_eq Ordering.eq = true
is_eq _ = false

-- `==` of a type with `Ord`.
abbrev pub same {ℓ} : {A : Type ℓ} ⦃o : Ord A⦄ → A → A → Bool
same ⦃o⦄ a b = is_eq (o.cmp a b)

pub is_eq_iff : (c : Ordering) → (is_eq c ≡ true) ↔ (c ≡ Ordering.eq)
is_eq_iff Ordering.lt = (λ h. cc, λ h. cc)
is_eq_iff Ordering.eq = (λ _. refl, λ _. refl)
is_eq_iff Ordering.gt = (λ h. cc, λ h. cc)

module _ {ℓ} {A : Type ℓ} ⦃o : Ord A⦄ where
  pub same_iff : (a b : A) → (same a b ≡ true) ↔ (a ≡ b)
  same_iff a b =
      (λ h. (o.cmp_iff a b).0 ((is_eq_iff _).0 h), λ h. (is_eq_iff _).1 ((o.cmp_iff a b).1 h))

  pub same_refl : (a : A) → same a a ≡ true
  same_refl a = (same_iff a a).1 refl

-- Lexicographic order.
abbrev pub then_cmp : Ordering → Ordering → Ordering
then_cmp Ordering.lt d = Ordering.lt
then_cmp Ordering.eq d = d
then_cmp Ordering.gt d = Ordering.gt

module _ {ℓ} {A : Type ℓ} ⦃o : Ord A⦄ where
  abbrev pub list_cmp : List A → List A → Ordering
  list_cmp [] [] = Ordering.eq
  list_cmp [] (y ∷ ys) = Ordering.lt
  list_cmp (x ∷ xs) [] = Ordering.gt
  list_cmp (x ∷ xs) (y ∷ ys) = then_cmp (o.cmp x y) (list_cmp xs ys)

  pub list_cmp_iff : (xs ys : List A) → (list_cmp xs ys ≡ Ordering.eq) ↔ (xs ≡ ys)
  list_cmp_iff [] [] = (λ _. refl, λ _. refl)
  list_cmp_iff [] (y ∷ ys) = (λ h. cc, λ h. cc)
  list_cmp_iff (x ∷ xs) [] = (λ h. cc, λ h. cc)
  list_cmp_iff (x ∷ xs) (y ∷ ys) = (
    λ h. ground (arith, o.cmp_iff x y, list_cmp_iff xs ys),
    λ h. ground (arith, o.cmp_iff x y, list_cmp_iff xs ys),
  )

instance abbrev pub list_ord {ℓ} : {A : Type ℓ} ⦃o : Ord A⦄ → Ord (List A)
list_ord = record { cmp = list_cmp; cmp_iff = list_cmp_iff }

module _ {ℓ κ} {A : Type ℓ} {B : Type κ} ⦃o : Ord A⦄ ⦃p : Ord B⦄ where
  abbrev pub pair_cmp : A × B → A × B → Ordering
  pair_cmp (a, b) (c, d) = then_cmp (o.cmp a c) (p.cmp b d)

  pub pair_cmp_iff : (x y : A × B) → (pair_cmp x y ≡ Ordering.eq) ↔ (x ≡ y)
  pair_cmp_iff (a, b) (c, d) = (
    λ h. ground (arith, o.cmp_iff a c, p.cmp_iff b d),
    λ h. ground (arith, o.cmp_iff a c, p.cmp_iff b d),
  )

instance abbrev pub pair_ord {ℓ κ} : {A : Type ℓ} {B : Type κ} ⦃o : Ord A⦄ ⦃p : Ord B⦄ → Ord (A × B)
pair_ord = record { cmp = pair_cmp; cmp_iff = pair_cmp_iff }
