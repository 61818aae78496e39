-- ===== src/Policy/HostSets.antt =====
-- Which hosts a normalised set holds, and which candidates a set matches.
use bound_seal.Common.{
  ◌≡◌, refl, sym, ◌∙◌, ap, Bool, true, not, ◌⊎◌, inl, inr, List, [], ◌∷◌, arith, find, none, Result,
  ok, subst, >>=-eq-ok, Bool-cases,
}
use bound_seal.Std.Text.{Text}
use bound_seal.Std.Order.{list_ord, nat_ord, same_iff, same_refl}
use bound_seal.Std.Collections.{contains, set_extend, contains-extend}
use bound_seal.Policy.Types.{PolicyError}
use bound_seal.Policy.Hosts.{try_map, collect_set, matches_host, matches_host_set, require_subset}

-- `x` is in the set.
abbrev pub In : Text → List Text → Type 0
In x s = contains x s ≡ true

pub In-cons : (x y : Text) (s : List Text) → In x (y ∷ s) → (x ≡ y) ⊎ In x s
unfolding contains
In-cons x y s h = ground (arith, same_iff x y)

pub In-head : (x : Text) (s : List Text) → In x (x ∷ s)
unfolding contains
In-head x s = rw (same_refl x) refl

pub In-tail : (x y : Text) (s : List Text) → In x s → In x (y ∷ s)
unfolding contains
In-tail x y s h = ground arith

not-In-nil : (x : Text) → ¬ In x []
unfolding contains
not-In-nil x h = cc

pub In-extend : (x : Text) (s t : List Text) → In x s ⊎ In x t → In x (set_extend s t)
In-extend x s t h = rw (contains-extend x s t) (ground arith)

In-extend-nil : (x : Text) (t : List Text) → In x (set_extend [] t) → In x t
unfolding contains
In-extend-nil x t h = sym (contains-extend x [] t) ∙ h

module _ (f : Text → Result PolicyError Text) where
  try_map-from :
      (xs : List Text) {ys : List Text} (y : Text)
      → try_map f xs ≡ ok ys
      → In y ys
      → (x : Text) × In x xs × (f x ≡ ok y)
  unfolding try_map
  try_map-from [] {ys} y e h =
      let empty : ys ≡ [] = cc in absurd (not-In-nil y (subst (In y) empty h))
  try_map-from (x ∷ xs) {ys} y e h =
      let (z, fx, rest) = >>=-eq-ok (f x) _ e in
      let (zs, tried, done) = >>=-eq-ok (try_map f xs) _ rest in
      let values : ys ≡ z ∷ zs = cc in
      elim (In-cons y z zs (subst (In y) values h)) [
        | inl q ↦ (x, In-head x xs, fx ∙ ap ok (sym q))
        | inr j ↦ let (w, i, fw) = try_map-from xs y tried j in (w, In-tail w x xs i, fw)
      ]

  try_map-onto :
      (xs : List Text) {ys : List Text} (x : Text)
      → try_map f xs ≡ ok ys
      → In x xs
      → (y : Text) × In y ys × (f x ≡ ok y)
  unfolding try_map
  try_map-onto [] x e h = absurd (not-In-nil x h)
  try_map-onto (z ∷ xs) {ys} x e h =
      let (y, fz, rest) = >>=-eq-ok (f z) _ e in
      let (zs, tried, done) = >>=-eq-ok (try_map f xs) _ rest in
      let values : y ∷ zs ≡ ys = cc in
      elim (In-cons x z xs h) [
        | inl q ↦ (y, subst (In y) values (In-head y zs), ap f q ∙ fz)
        | inr j ↦
            let (w, i, fx) = try_map-onto xs x tried j in
            (w, subst (In w) values (In-tail w y zs i), fx)
      ]

  -- The collected set holds exactly the values at the elements.
  pub collect_set-from :
      (xs : List Text) {s : List Text} (y : Text)
      → collect_set f xs ≡ ok s
      → In y s
      → (x : Text) × In x xs × (f x ≡ ok y)
  unfolding collect_set
  collect_set-from xs {s} y e h =
      let (ys, tried, done) = >>=-eq-ok (try_map f xs) _ e in
      let made : s ≡ set_extend [] ys = cc in
      try_map-from xs y tried (In-extend-nil y ys (subst (In y) made h))

  pub collect_set-onto :
      (xs : List Text) {s : List Text} (x : Text)
      → collect_set f xs ≡ ok s
      → In x xs
      → (y : Text) × In y s × (f x ≡ ok y)
  unfolding collect_set
  collect_set-onto xs {s} x e h =
      let (ys, tried, done) = >>=-eq-ok (try_map f xs) _ e in
      let made : set_extend [] ys ≡ s = cc in
      let (y, i, fx) = try_map-onto xs x tried h in
      (y, subst (In y) made (In-extend y [] ys (inr i)), fx)

pub matching_host :
    (c : Text) (hosts : List Text) (allow : Bool)
    → matches_host_set c hosts allow ≡ true
    → (h : Text) × In h hosts × (matches_host c allow h ≡ true)
unfolding matches_host_set
matching_host c [] allow m = cc
matching_host c (h ∷ hosts) allow m = elim (Bool-cases (matches_host c allow h)) [
  | inl hit ↦ (h, In-head h hosts, hit)
  | inr miss ↦
      let (g, i, n) = matching_host c hosts allow (rw miss at m) in (g, In-tail g h hosts i, n)
]

pub matches-set :
    (c : Text) (hosts : List Text) (allow : Bool) (h : Text)
    → In h hosts
    → matches_host c allow h ≡ true
    → matches_host_set c hosts allow ≡ true
unfolding matches_host_set
matches-set c [] allow h i m = absurd (not-In-nil h i)
matches-set c (g ∷ hosts) allow h i m = elim (In-cons h g hosts i) [
  | inl e ↦ rw (← e, m) refl
  | inr j ↦ rw (matches-set c hosts allow h j m) (ground arith)
]

-- A search that finds no counterexample has tested every element.
pub find-none :
    (p : Text → Bool) (xs : List Text) (x : Text)
    → find (λ y. not (p y)) xs ≡ none
    → In x xs
    → p x ≡ true
find-none p [] x e i = absurd (not-In-nil x i)
find-none p (y ∷ xs) x e i = elim (In-cons x y xs i) [
  | inl q ↦ rw q (ground arith)
  | inr j ↦ find-none p xs x (ground arith) j
]

pub require_subset-In :
    (field : Text) (child parent : List Text) (x : Text) {u : Unit {0}}
    → require_subset field child parent ≡ ok u
    → In x child
    → In x parent
unfolding require_subset
require_subset-In field child parent x e i =
    find-none (λ y. contains y parent) child x (ground arith) i
