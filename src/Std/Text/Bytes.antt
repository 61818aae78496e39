-- ===== src/Std/Text/Bytes.antt =====
-- `str::from_utf8`, searches for a window of bytes, and numbers read from digits.
use mathlib.Core.Option
use bound_seal.Common.{
  ℕ, suc, ◌+◌, ◌-◌, ◌*◌, Bool, true, false, ◌&&◌, ◌||◌, Option, none, some, List, [], ◌∷◌, ltb,
  ◌==◌, if◌then◌else◌, is_empty,
}
use bound_seal.Std.Text.{Text, between, is_ascii_digit, is_prefix}

-- The ranges of the bytes that follow a first byte; `none` where it starts no character.
continuation : ℕ × ℕ
continuation = (0x80, 0xbf)

unfoldable pub following : ℕ → Option (List (ℕ × ℕ))
unfolding continuation
following c =
    if ltb c 0x80
    then some []
    else if between 0xc2 0xdf c
    then some (continuation ∷ [])
    else if c == 0xe0
    then some ((0xa0, 0xbf) ∷ continuation ∷ [])
    else if c == 0xed
    then some ((0x80, 0x9f) ∷ continuation ∷ [])
    else if between 0xe1 0xef c
    then some (continuation ∷ continuation ∷ [])
    else if c == 0xf0
    then some ((0x90, 0xbf) ∷ continuation ∷ continuation ∷ [])
    else if between 0xf1 0xf3 c
    then some (continuation ∷ continuation ∷ continuation ∷ [])
    else if c == 0xf4
    then some ((0x80, 0x8f) ∷ continuation ∷ continuation ∷ [])
    else none

utf8_from : List (ℕ × ℕ) → Text → Bool
utf8_from [] [] = true
utf8_from (_ ∷ _) [] = false
utf8_from ((lo, hi) ∷ expected) (c ∷ r) =
    let rest = utf8_from expected r in if between lo hi c then rest else false
utf8_from [] (c ∷ r) = elim (following c) [ none ↦ false | some expected ↦ utf8_from expected r ]

-- `str::from_utf8(bytes).is_ok()`
unfoldable pub is_utf8 : Text → Bool
unfolding utf8_from following
is_utf8 = utf8_from []

-- `bytes.windows(n).position(|window| window == pattern)` for a pattern of `n` bytes
unfoldable pub find_window : Text → Text → Option ℕ
find_window pattern [] = none
find_window pattern (c ∷ r) =
    let later = Option.map suc (find_window pattern r) in
    if is_prefix pattern (c ∷ r) then some 0 else later

-- `position(|byte| byte == b)`
unfoldable pub position : ℕ → Text → Option ℕ
position b [] = none
position b (c ∷ r) = let later = Option.map suc (position b r) in if c == b then some 0 else later

abbrev pub is_ascii_hexdigit : ℕ → Bool
is_ascii_hexdigit c = is_ascii_digit c || between b'a' b'f' c || between b'A' b'F' c

-- `is_ascii_control`
abbrev pub is_ascii_control : ℕ → Bool
is_ascii_control c = ltb c 0x20 || c == 0x7f

abbrev pub hex_digit_value : ℕ → ℕ
hex_digit_value c =
    if is_ascii_digit c then c - 48 else if between b'a' b'f' c then c - 87 else c - 55

-- The number that digits spell, before any test for overflow.
unfoldable pub value_from : (ℕ → ℕ) → ℕ → ℕ → Text → ℕ
value_from digit base acc [] = acc
value_from digit base acc (c ∷ r) = value_from digit base (acc * base + digit c) r

abbrev pub hex_value : Text → ℕ
hex_value = value_from hex_digit_value 16 0

abbrev pub decimal_value : Text → ℕ
decimal_value = value_from (λ c. c - 48) 10 0

-- `trim_start_matches` and `trim_end_matches` by a test, and both.
unfoldable pub trim_start_by : (ℕ → Bool) → Text → Text
trim_start_by p [] = []
trim_start_by p (c ∷ r) = let rest = trim_start_by p r in if p c then rest else c ∷ r

unfoldable pub trim_end_by : (ℕ → Bool) → Text → Text
trim_end_by p [] = []
trim_end_by p (c ∷ r) = let rest = trim_end_by p r in if is_empty rest && p c then [] else c ∷ rest

abbrev pub trim_by : (ℕ → Bool) → Text → Text
trim_by p s = trim_end_by p (trim_start_by p s)
