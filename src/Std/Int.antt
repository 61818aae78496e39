-- ===== src/Std/Int.antt =====
-- `i64`: its order, and the additions that the source writes on it.
use bound_seal.Common.{ℕ, ◌+◌, ◌-◌, Bool, true, false, ltb, if◌then◌else◌, ◌∷◌}
use bound_seal.Std.Text.{Text, decimal}

pub data ℤ : Type 0 where
  pos : ℕ → ℤ
  -- `negsuc n` is -(n + 1).
  negsuc : ℕ → ℤ

-- `<` and `<=`
abbrev pub less : ℤ → ℤ → Bool
less (pos m) (pos n) = ltb m n
less (pos m) (negsuc n) = false
less (negsuc m) (pos n) = true
less (negsuc m) (negsuc n) = ltb n m

abbrev pub at_least : ℤ → ℤ → Bool
at_least a b = if less a b then false else true

infixl 60 ◌+ℤ◌
abbrev pub ◌+ℤ◌ : ℤ → ℤ → ℤ
pos m +ℤ pos n = pos (m + n)
pos m +ℤ negsuc n = if ltb n m then pos (m - (n + 1)) else negsuc (n - m)
negsuc m +ℤ pos n = if ltb m n then pos (n - (m + 1)) else negsuc (m - n)
negsuc m +ℤ negsuc n = negsuc (m + n + 1)

abbrev i64_max : ℕ
i64_max = 9223372036854775807

abbrev clamped : ℤ → ℤ
clamped (pos n) = if ltb i64_max n then pos i64_max else pos n
clamped (negsuc n) = if ltb i64_max n then negsuc i64_max else negsuc n

-- `saturating_add`
abbrev pub saturating_add_i64 : ℤ → ℤ → ℤ
saturating_add_i64 a b = clamped (a +ℤ b)

-- `{n}`
unfoldable pub decimal_i64 : ℤ → Text
decimal_i64 (pos n) = decimal n
decimal_i64 (negsuc n) = b'-' ∷ decimal (n + 1)
