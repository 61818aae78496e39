-- ===== src/Std/Ip/Ipv6.antt =====
-- The predicates of `Ipv6Addr`.
use bound_seal.Common.{ℕ, ◌+◌, ◌*◌, ◌/◌, ◌%◌, ◌^◌, Bool, Option, none, some, ◌==◌, if◌then◌else◌}

abbrev pub segments : ℕ → ℕ → ℕ → ℕ → ℕ → ℕ → ℕ → ℕ → ℕ
segments a b c d e g h i =
    ((((((a * 65536 + b) * 65536 + c) * 65536 + d) * 65536 + e) * 65536 + g) * 65536 + h) * 65536
    + i

-- `segments()[0]`
abbrev pub segment0 : ℕ → ℕ
segment0 a = a / 2 ^ 112

abbrev pub is_unspecified : ℕ → Bool
is_unspecified a = a == 0

abbrev pub is_loopback : ℕ → Bool
is_loopback a = a == 1

abbrev pub is_multicast : ℕ → Bool
is_multicast a = a / 2 ^ 120 == 255

-- ::ffff:0:0/96
abbrev pub to_ipv4_mapped : ℕ → Option ℕ
to_ipv4_mapped a = if a / 2 ^ 32 == 65535 then some (a % 2 ^ 32) else none
