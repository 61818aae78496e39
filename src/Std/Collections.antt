-- ===== src/Std/Collections.antt =====
-- `BTreeSet` and `BTreeMap`: sorted lists without repetition, as their iterators give them.
use bound_seal.Common.{
  ◌≡◌, refl, Bool, true, false, ◌||◌, ◌↔◌, Option, none, some, List, [], ◌∷◌, arith, if◌then◌else◌,
  Ordering,
}
use bound_seal.Std.Order.{Ord, same, same_iff}

module _ {ℓ} {A : Type ℓ} ⦃o : Ord A⦄ where
  -- `BTreeSet::contains`
  unfoldable pub contains : A → List A → Bool
  contains a [] = false
  contains a (x ∷ xs) = same a x || contains a xs

  -- `BTreeSet::insert`, without its answer
  unfoldable pub set_insert : A → List A → List A
  set_insert a [] = a ∷ []
  set_insert a (x ∷ xs) = elim (o.cmp a x) [
    | Ordering.lt ↦ a ∷ x ∷ xs
    | Ordering.eq ↦ x ∷ xs
    | Ordering.gt ↦ x ∷ set_insert a xs
  ]

  -- `BTreeSet::extend`, and `collect` into a set when it starts from `[]`.
  unfoldable pub set_extend : List A → List A → List A
  set_extend s [] = s
  set_extend s (x ∷ xs) = set_extend (set_insert x s) xs

  -- `set == other`
  unfoldable pub same_set : List A → List A → Bool
  same_set [] [] = true
  same_set [] (y ∷ ys) = false
  same_set (x ∷ xs) [] = false
  same_set (x ∷ xs) (y ∷ ys) = if same x y then same_set xs ys else false

module _ {ℓ κ} {K : Type ℓ} {V : Type κ} ⦃o : Ord K⦄ where
  -- `BTreeMap::get`
  unfoldable pub map_get : K → List (K × V) → Option V
  map_get k [] = none
  map_get k ((j, v) ∷ m) = if same k j then some v else map_get k m

  -- `BTreeMap::insert`, and a write through `get_mut`
  unfoldable pub map_insert : K → V → List (K × V) → List (K × V)
  map_insert k v [] = (k, v) ∷ []
  map_insert k v ((j, w) ∷ m) = elim (o.cmp k j) [
    | Ordering.lt ↦ (k, v) ∷ (j, w) ∷ m
    | Ordering.eq ↦ (k, v) ∷ m
    | Ordering.gt ↦ (j, w) ∷ map_insert k v m
  ]

  -- `BTreeMap::retain`, by a test on the key
  unfoldable pub map_retain : (K → Bool) → List (K × V) → List (K × V)
  map_retain p [] = []
  map_retain p ((j, w) ∷ m) = if p j then (j, w) ∷ map_retain p m else map_retain p m

module _ {ℓ} {A : Type ℓ} ⦃o : Ord A⦄ where
  pub contains-insert :
      (a b : A) (s : List A) → contains a (set_insert b s) ≡ (same a b || contains a s)
  unfolding contains set_insert
  contains-insert a b [] = refl
  contains-insert a b (x ∷ xs) =
      ground (arith, contains-insert a b xs, o.cmp_iff b x, o.cmp_iff a x, o.cmp_iff a b)

  pub contains-extend :
      (a : A) (s xs : List A) → contains a (set_extend s xs) ≡ (contains a s || contains a xs)
  unfolding contains set_extend
  contains-extend a s [] = ground arith
  contains-extend a s (x ∷ xs) =
      ground (arith, contains-extend a (set_insert x s) xs, contains-insert a x s)

  pub same_set_iff : (s t : List A) → (same_set s t ≡ true) ↔ (s ≡ t)
  unfolding same_set
  same_set_iff [] [] = (λ _. refl, λ _. refl)
  same_set_iff [] (y ∷ ys) = (λ h. cc, λ h. cc)
  same_set_iff (x ∷ xs) [] = (λ h. cc, λ h. cc)
  same_set_iff (x ∷ xs) (y ∷ ys) = (
    λ h. ground (arith, same_iff x y, same_set_iff xs ys),
    λ h. ground (arith, same_iff x y, same_set_iff xs ys),
  )

module _ {ℓ κ} {K : Type ℓ} {V : Type κ} ⦃o : Ord K⦄ where
  pub get-insert :
      (j k : K) (v : V) (m : List (K × V))
      → map_get j (map_insert k v m) ≡ (if same j k then some v else map_get j m)
  unfolding map_get map_insert
  get-insert j k v [] = refl
  get-insert j k v ((i, w) ∷ m) =
      ground (arith, get-insert j k v m, o.cmp_iff k i, o.cmp_iff j i, o.cmp_iff j k)

  pub get-retain :
      (k : K) (p : K → Bool) (m : List (K × V))
      → map_get k (map_retain p m) ≡ (if p k then map_get k m else none)
  unfolding map_get map_retain
  get-retain k p [] = ground arith
  get-retain k p ((i, w) ∷ m) = ground (arith, get-retain k p m, same_iff k i)
