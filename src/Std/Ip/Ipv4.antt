-- ===== src/Std/Ip/Ipv4.antt =====
-- The predicates of `Ipv4Addr`.
use bound_seal.Common.{ℕ, ◌/◌, ◌%◌, ◌^◌, Bool, ◌&&◌, ◌||◌, ◌==◌}
use bound_seal.Std.Text.{between}

abbrev pub octet0 : ℕ → ℕ
octet0 a = a / 2 ^ 24

abbrev pub octet1 : ℕ → ℕ
octet1 a = a / 2 ^ 16 % 256

abbrev pub octet2 : ℕ → ℕ
octet2 a = a / 2 ^ 8 % 256

abbrev pub is_loopback : ℕ → Bool
is_loopback a = octet0 a == 127

abbrev pub is_private : ℕ → Bool
is_private a =
    octet0 a == 10
    || (octet0 a == 172 && between 16 31 (octet1 a))
    || (octet0 a == 192 && octet1 a == 168)

abbrev pub is_link_local : ℕ → Bool
is_link_local a = octet0 a == 169 && octet1 a == 254

abbrev pub is_multicast : ℕ → Bool
is_multicast a = between 224 239 (octet0 a)

abbrev pub is_documentation : ℕ → Bool
is_documentation a =
    (octet0 a == 192 && octet1 a == 0 && octet2 a == 2)
    || (octet0 a == 198 && octet1 a == 51 && octet2 a == 100)
    || (octet0 a == 203 && octet1 a == 0 && octet2 a == 113)

abbrev pub broadcast : ℕ
broadcast = 4294967295
