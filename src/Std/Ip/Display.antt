-- ===== src/Std/Ip/Display.antt =====
-- `Display` of `IpAddr`.
use bound_seal.Common.{
  ℕ, zero, suc, ◌+◌, ◌-◌, ◌/◌, ◌%◌, ◌^◌, ◌≡◌, refl, ◌&&◌, List, [], ◌∷◌, ◌++◌, map, none, some, ltb,
  ◌==◌, if◌then◌else◌, drop, is_empty,
}
use bound_seal.Std.Text.{Text, text, decimal}
use bound_seal.Std.Ip.{IpAddr, v4, v6}
use bound_seal.Std.Ip.Ipv6.{to_ipv4_mapped}

-- `join(separator)`
unfoldable pub join : Text → List Text → Text
join separator [] = []
join separator (x ∷ xs) =
    let rest = join separator xs in if is_empty xs then x else x ++ (separator ++ rest)

hex_digit : ℕ → ℕ
hex_digit n = if ltb n 10 then b'0' + n else b'a' + (n - 10)

-- `{n:x}` of a 16-bit segment: at most four digits.
hex_fuel : ℕ → ℕ → Text
unfolding hex_digit
hex_fuel zero n = hex_digit (n % 16) ∷ []
hex_fuel (suc f) n =
    let rest = hex_fuel f (n / 16) in
    if ltb n 16 then hex_digit n ∷ [] else rest ++ hex_digit (n % 16) ∷ []

display_v4 : ℕ → Text
display_v4 a =
    join (text ".")
      (map decimal (a / 2 ^ 24 ∷ (a / 2 ^ 16 % 256) ∷ (a / 2 ^ 8 % 256) ∷ (a % 256) ∷ []))

segments_of : ℕ → List ℕ
segments_of a =
    a / 2 ^ 112
    ∷ (a / 2 ^ 96 % 65536)
    ∷ (a / 2 ^ 80 % 65536)
    ∷ (a / 2 ^ 64 % 65536)
    ∷ (a / 2 ^ 48 % 65536)
    ∷ (a / 2 ^ 32 % 65536)
    ∷ (a / 2 ^ 16 % 65536)
    ∷ (a % 65536)
    ∷ []

-- The longest run of zero segments, the first of that length, by its start and length.
longest_zeros : ℕ → ℕ → ℕ → ℕ → List ℕ → ℕ × ℕ
longest_zeros index run best_start best_length [] = (best_start, best_length)
longest_zeros index run best_start best_length (s ∷ ss) =
    let longer = s == 0 && ltb best_length (run + 1) in
    longest_zeros (index + 1) (if s == 0 then run + 1 else 0)
      (if longer then index - run else best_start) (if longer then run + 1 else best_length) ss

take : ℕ → List ℕ → List ℕ
take zero xs = []
take (suc n) [] = []
take (suc n) (x ∷ xs) = x ∷ take n xs

hex_segments : List ℕ → Text
unfolding hex_fuel
hex_segments ss = join (text ":") (map (hex_fuel 3) ss)

display_v6 : ℕ → Text
unfolding longest_zeros take hex_segments segments_of
display_v6 a =
    let segments = segments_of a in
    let (start, run) = longest_zeros 0 0 0 0 segments in
    if ltb 1 run
    then hex_segments (take start segments)
      ++ (text "::" ++ hex_segments (drop (start + run) segments))
    else hex_segments segments

-- `to_string` of an address
unfoldable pub ip_to_string : IpAddr → Text
unfolding display_v4 display_v6
ip_to_string (v4 a) = display_v4 a
ip_to_string (v6 a) = elim (to_ipv4_mapped a) [
  | some mapped ↦ text "::ffff:" ++ display_v4 mapped
  | none ↦ display_v6 a
]

-- The addresses of `2001:db8::1`, `::1`, `::` and `::ffff:192.0.2.1`.
display_tests :
    map ip_to_string
      (v6 0x20010db8000000000000000000000001 ∷ v6 1 ∷ v6 0 ∷ v6 0xffffc0000201 ∷ v4 0x7f000001 ∷ [])
    ≡ text "2001:db8::1" ∷ text "::1" ∷ text "::" ∷ text "::ffff:192.0.2.1" ∷ text "127.0.0.1" ∷ []
unfolding ip_to_string text join decimal
display_tests = refl
