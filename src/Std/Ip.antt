-- ===== src/Std/Ip.antt =====
-- `std::net`: an IPv4 address is its 32 bits, an IPv6 address its 128 bits, as numbers.
pub mod Ipv4
pub mod Ipv6
pub mod Display
use bound_seal.Common.{
  ℕ, ◌+◌, ◌*◌, ◌/◌, ◌%◌, ◌^◌, ◌≡◌, refl, ◌↔◌, ap, Bool, true, false, ◌&&◌, ◌||◌, Option, none, some,
  compare, Ordering, arith, ◌==◌, if◌then◌else◌,
}
use bound_seal.Std.Order.{Ord, compare_iff}
use bound_seal.Std.Text.{between}

pub data IpAddr : Type 0 where
  v4 : ℕ → IpAddr
  v6 : ℕ → IpAddr

abbrev pub ip_cmp : IpAddr → IpAddr → Ordering
ip_cmp (v4 a) (v4 b) = compare a b
ip_cmp (v4 a) (v6 b) = Ordering.lt
ip_cmp (v6 a) (v4 b) = Ordering.gt
ip_cmp (v6 a) (v6 b) = compare a b

pub ip_cmp_iff : (a b : IpAddr) → (ip_cmp a b ≡ Ordering.eq) ↔ (a ≡ b)
ip_cmp_iff (v4 a) (v4 b) =
    (λ h. ap v4 ((compare_iff a b).0 h), λ h. ground (arith, compare_iff a b))
ip_cmp_iff (v4 a) (v6 b) = (λ h. cc, λ h. cc)
ip_cmp_iff (v6 a) (v4 b) = (λ h. cc, λ h. cc)
ip_cmp_iff (v6 a) (v6 b) =
    (λ h. ap v6 ((compare_iff a b).0 h), λ h. ground (arith, compare_iff a b))

instance abbrev pub ip_ord : Ord IpAddr
ip_ord = record { cmp = ip_cmp; cmp_iff = ip_cmp_iff }

-- `x & (MAX << k)`: the low `k` bits cleared.
abbrev pub clear_low : ℕ → ℕ → ℕ
clear_low k x = x / 2 ^ k * 2 ^ k

-- `Ipv4Addr::new`
abbrev pub octets : ℕ → ℕ → ℕ → ℕ → ℕ
octets a b c d = ((a * 256 + b) * 256 + c) * 256 + d
