-- ===== src/Vault/Numbering.antt =====
-- crates/nxb-vault/src/lib.rs: the names of secrets and leases carry a number that only grows.
use bound_seal.Std.Text.Padding.{padded-injective}
use bound_seal.Std.Text.{padded, Text}
use bound_seal.Std.Collections.{map_get, map_insert, get-insert}
use bound_seal.Std.Order.{same_iff, same, list_ord, nat_ord}
use bound_seal.Common.{
  saturating_succ, drop, ◌<◌, ◌++◌, length, ◌≤◌, none, some, sym, inl, List, ◌+◌, false,
  drop-length-append, ap, ◌∙◌, arith, inr, Bool-cases, u64_max, ℕ, ◌≡◌,
}

unfoldable pub numbered : Text → ℕ → Text
numbered prefix n = prefix ++ padded 20 n

numbered-injective :
    (prefix : Text) (m n : ℕ)
    → m ≤ u64_max
    → n ≤ u64_max
    → numbered prefix m ≡ numbered prefix n
    → m ≡ n
unfolding numbered
numbered-injective prefix m n h k e = padded-injective m n h k (
    sym (drop-length-append prefix (padded 20 m))
    ∙ ap (drop (length prefix)) e
    ∙ drop-length-append prefix (padded 20 n))

-- A name that is none of those to come.
unfoldable pub IsPast : Text → ℕ → Text → Type 0
IsPast prefix next name = (n : ℕ) → next ≤ n → n ≤ u64_max → same name (numbered prefix n) ≡ false

-- None of the names to come is a key.
unfoldable pub IsAhead {ℓ} : {V : Type ℓ} → Text → ℕ → List (Text × V) → Type ℓ
IsAhead prefix next m = (n : ℕ) → next ≤ n → n ≤ u64_max → map_get (numbered prefix n) m ≡ none

-- A key is no name to come.
pub IsAhead-IsPast {ℓ} :
    {V : Type ℓ} (prefix : Text) (next : ℕ) (m : List (Text × V)) (key : Text) {value : V}
    → IsAhead prefix next m
    → map_get key m ≡ some value
    → IsPast prefix next key
unfolding IsAhead IsPast
IsAhead-IsPast prefix next m key ahead found n h k =
    elim (Bool-cases (same key (numbered prefix n))) [
      | inl e ↦
          let here : key ≡ numbered prefix n = (same_iff _ _).0 e in
          absurd (cc (ahead n h k, ap (λ x. map_get x m) here))
      | inr e ↦ e
    ]

pub IsPast-later :
    (prefix : Text) (next later : ℕ) (name : Text)
    → next ≤ later
    → IsPast prefix next name
    → IsPast prefix later name
unfolding IsPast
IsPast-later prefix next later name h past n k l = past n (omega arith) l

-- The next name is taken: those to come stay free.
pub IsAhead-insert {ℓ} :
    {V : Type ℓ} (prefix : Text) (next : ℕ) (value : V) (m : List (Text × V))
    → next < u64_max
    → IsAhead prefix next m
    → IsAhead prefix (next + 1) (map_insert (numbered prefix next) value m)
unfolding IsAhead
IsAhead-insert prefix next value m room ahead n h k =
    let other : same (numbered prefix n) (numbered prefix next) ≡ false =
      elim (Bool-cases (same (numbered prefix n) (numbered prefix next))) [
        | inl e ↦
            absurd
              (omega (arith, numbered-injective prefix n next k (omega arith) ((same_iff _ _).0 e)))
        | inr e ↦ e
      ] in
    rw (get-insert (numbered prefix n) (numbered prefix next) value m, other)
      (ahead n (omega arith) k)

-- A change at a key that is there.
pub IsAhead-update {ℓ} :
    {V : Type ℓ} (prefix : Text) (next : ℕ) (key : Text) (old value : V) (m : List (Text × V))
    → map_get key m ≡ some old
    → IsAhead prefix next m
    → IsAhead prefix next (map_insert key value m)
unfolding IsAhead
IsAhead-update prefix next key old value m found ahead n h k =
    let other : same (numbered prefix n) key ≡ false =
      elim (Bool-cases (same (numbered prefix n) key)) [
        | inl e ↦
            let here : numbered prefix n ≡ key = (same_iff _ _).0 e in
            absurd (cc (ahead n h k, ap (λ x. map_get x m) here))
        | inr e ↦ e
      ] in
    rw (get-insert (numbered prefix n) key value m, other) (ahead n h k)

-- A counter that is not at its end counts on.
pub next_number :
    (n : ℕ)
    → saturating_succ u64_max n < u64_max
    → (n < u64_max) × (saturating_succ u64_max n ≡ n + 1)
next_number n h = (ground arith, ground arith)
