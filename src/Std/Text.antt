-- ===== src/Std/Text.antt =====
-- `String` and `&str` by their UTF-8 bytes, and the string functions that the source calls.
pub mod Trimming
pub mod Padding
pub mod Bytes
pub mod Searching
pub mod Excluding
use Prim.Native.Char.{code}
use Prim.Native.String
use bound_seal.Common.{
  ℕ, zero, suc, ◌+◌, ◌-◌, ◌<◌, ◌/◌, ◌%◌, String, ◌≡◌, Bool, true, false, not, ◌&&◌, ◌||◌, List, [],
  ◌∷◌, ◌++◌, map, reverse, ltb, leb, ◌==◌, if◌then◌else◌, length, is_empty, all, any, get_or, drop,
}
use bound_seal.Std.Order.{same, list_ord, nat_ord}

abbrev pub Text : Type 0
Text = List ℕ

-- A literal of the source; all its literals are ASCII.
unfoldable pub text : String → Text
text String.[] = []
text (String.◌∷◌ c s) = code c ∷ text s

-- `==` and `!=` on strings
abbrev pub eq_text : Text → Text → Bool
eq_text s t = same s t

abbrev pub between : ℕ → ℕ → ℕ → Bool
between lo hi c = leb lo c && leb c hi

abbrev pub is_ascii_digit : ℕ → Bool
is_ascii_digit c = between b'0' b'9' c

abbrev pub is_ascii_lowercase : ℕ → Bool
is_ascii_lowercase c = between b'a' b'z' c

abbrev pub is_ascii_uppercase : ℕ → Bool
is_ascii_uppercase c = between b'A' b'Z' c

abbrev pub is_ascii_alphanumeric : ℕ → Bool
is_ascii_alphanumeric c = is_ascii_digit c || is_ascii_lowercase c || is_ascii_uppercase c

abbrev pub lower : ℕ → ℕ
lower c = if is_ascii_uppercase c then c + 32 else c

abbrev pub upper : ℕ → ℕ
upper c = if is_ascii_lowercase c then c - 32 else c

abbrev pub to_ascii_lowercase : Text → Text
to_ascii_lowercase = map lower

abbrev pub to_ascii_uppercase : Text → Text
to_ascii_uppercase = map upper

-- The characters with the Unicode property White_Space, by the bytes of their encodings.
abbrev pub is_space1 : ℕ → Bool
is_space1 c = between 9 13 c || c == 32

abbrev is_space2 : ℕ → ℕ → Bool
is_space2 a b = a == 0xc2 && (b == 0x85 || b == 0xa0)

abbrev is_space3 : ℕ → ℕ → ℕ → Bool
is_space3 a b c =
    (a == 0xe1 && b == 0x9a && c == 0x80)
    || (a == 0xe2 && b == 0x80 && (between 0x80 0x8a c || c == 0xa8 || c == 0xa9 || c == 0xaf))
    || (a == 0xe2 && b == 0x81 && c == 0x9f)
    || (a == 0xe3 && b == 0x80 && c == 0x80)

-- How many bytes the white space at the front takes; 0 where there is none.
front_space3 : ℕ → ℕ → Text → ℕ
front_space3 a b [] = 0
front_space3 a b (c ∷ r) = if is_space3 a b c then 3 else 0

front_space2 : ℕ → Text → ℕ
unfolding front_space3
front_space2 a [] = 0
front_space2 a (b ∷ r) = if is_space2 a b then 2 else front_space3 a b r

front_space : ℕ → Text → ℕ
unfolding front_space2
front_space a r = if is_space1 a then 1 else front_space2 a r

-- The same at the end of a text that is read backwards.
back_space3 : ℕ → ℕ → Text → ℕ
back_space3 c b [] = 0
back_space3 c b (a ∷ r) = if is_space3 a b c then 3 else 0

back_space2 : ℕ → Text → ℕ
unfolding back_space3
back_space2 c [] = 0
back_space2 c (b ∷ r) = if is_space2 b c then 2 else back_space3 c b r

back_space : ℕ → Text → ℕ
unfolding back_space2
back_space c r = if is_space1 c then 1 else back_space2 c r

-- `skip` bytes of a white space character are still to be dropped.
strip : (ℕ → Text → ℕ) → ℕ → Text → Text
strip space skip [] = []
strip space (suc k) (c ∷ r) = strip space k r
strip space zero (c ∷ r) = elim (space c r) [ zero ↦ c ∷ r | suc k ↦ strip space k r ]

-- `str::trim`
unfoldable pub trim : Text → Text
unfolding strip front_space back_space
trim s = reverse (strip back_space 0 (reverse (strip front_space 0 s)))

-- `trim_end_matches(byte)`
unfoldable pub trim_end_matches : ℕ → Text → Text
trim_end_matches b [] = []
trim_end_matches b (c ∷ r) =
    let rest = trim_end_matches b r in if is_empty rest && c == b then [] else c ∷ rest

-- `split(byte)`: the labels between the separators, at least one.
abbrev pub cons_first : ℕ → List Text → List Text
cons_first c [] = (c ∷ []) ∷ []
cons_first c (w ∷ ws) = (c ∷ w) ∷ ws

unfoldable pub split : ℕ → Text → List Text
split b [] = [] ∷ []
split b (c ∷ r) = let rest = split b r in if c == b then [] ∷ rest else cons_first c rest

abbrev pub starts_with : ℕ → Text → Bool
starts_with b [] = false
starts_with b (c ∷ r) = c == b

unfoldable pub ends_with : ℕ → Text → Bool
ends_with b [] = false
ends_with b (c ∷ r) = if is_empty r then c == b else ends_with b r

-- `contains(char)` for an ASCII character
abbrev pub contains_byte : ℕ → Text → Bool
contains_byte b = any (λ c. c == b)

-- `starts_with("…")`
abbrev pub is_prefix : Text → Text → Bool
is_prefix [] t = true
is_prefix (x ∷ xs) [] = false
is_prefix (x ∷ xs) (y ∷ ys) = x == y && is_prefix xs ys

-- `contains("…")`
unfoldable pub contains_text : Text → Text → Bool
contains_text p [] = is_empty p
contains_text p (c ∷ r) = is_prefix p (c ∷ r) || contains_text p r

-- `s.ends_with(suffix)` for a suffix that is no longer than `s`
abbrev pub ends_with_text : Text → Text → Bool
ends_with_text suffix s = eq_text (drop (length s - length suffix) s) suffix

-- `{n}` of an unsigned number, with fuel for its digits.
digits_fuel : ℕ → ℕ → Text
digits_fuel zero n = (b'0' + n % 10) ∷ []
digits_fuel (suc f) n =
    let rest = digits_fuel f (n / 10) in
    if ltb n 10 then (b'0' + n) ∷ [] else rest ++ (b'0' + n % 10) ∷ []

-- `{n}` for a `u64` or a smaller type: at most 20 digits.
unfoldable pub decimal : ℕ → Text
unfolding digits_fuel
decimal n = digits_fuel 19 n

-- `{n:0width$}` for a number of at most `width` digits.
unfoldable pub padded : ℕ → ℕ → Text
padded zero n = []
padded (suc w) n = padded w (n / 10) ++ (b'0' + n % 10) ∷ []
