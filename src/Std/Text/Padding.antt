-- ===== src/Std/Text/Padding.antt =====
-- Zero-padded decimals of a fixed width tell numbers apart.
use bound_seal.Common.{
  ℕ, zero, suc, ◌+◌, ◌-◌, ◌*◌, ◌/◌, ◌%◌, ◌≤◌, ◌≡◌, refl, sym, ◌∙◌, ap, [], ◌∷◌, ◌++◌, arith,
  u64_max,
}
use bound_seal.Std.Text.{Text, padded}

-- The number that digits stand for.
value : ℕ → Text → ℕ
value acc [] = acc
value acc (c ∷ r) = value (acc * 10 + (c - b'0')) r

value-snoc : (acc : ℕ) (s : Text) (c : ℕ) → value acc (s ++ c ∷ []) ≡ value acc s * 10 + (c - b'0')
unfolding value
value-snoc acc [] c = refl
value-snoc acc (x ∷ s) c = value-snoc (acc * 10 + (x - b'0')) s c

-- `n` has at most `w` digits.
abbrev Fits : ℕ → ℕ → Type 0
Fits zero n = n ≡ 0
Fits (suc w) n = Fits w (n / 10)

value-padded : (w n : ℕ) → Fits w n → value 0 (padded w n) ≡ n
unfolding padded value
value-padded zero n h = sym h
value-padded (suc w) n h =
    value-snoc 0 (padded w (n / 10)) (b'0' + n % 10) ∙ omega (arith, value-padded w (n / 10) h)

u64-Fits : (n : ℕ) → n ≤ u64_max → Fits 20 n
u64-Fits n h = omega arith

pub padded-injective : (m n : ℕ) → m ≤ u64_max → n ≤ u64_max → padded 20 m ≡ padded 20 n → m ≡ n
padded-injective m n h k e =
    sym (value-padded 20 m (u64-Fits m h)) ∙ ap (value 0) e ∙ value-padded 20 n (u64-Fits n k)
