-- ===== src/Destination/Ipv6Ranges/Prefixes.antt =====
-- The prefixes of the IPv6 guard as ranges of addresses.
use bound_seal.Common.{ℕ, ◌-◌, ◌^◌, ◌/◌, ◌%◌, ◌<◌, ◌≡◌, true, ◌||◌, List, [], ◌∷◌, arith, ◌==◌}
use bound_seal.Std.Ip.{clear_low}
use bound_seal.Std.Ip.Ipv6.{segments}
use bound_seal.Destination.{in_ipv6_prefix}
use bound_seal.Destination.Ranges.{in_range}

-- The addresses ::ffff:a.b.c.d, which stand for a.b.c.d.
abbrev pub first_mapped : ℕ
first_mapped = segments 0 0 0 0 0 0xffff 0 0

abbrev pub last_mapped : ℕ
last_mapped = segments 0 0 0 0 0 0xffff 0xffff 0xffff

-- The other IPv6 ranges that are not public, by their first and last addresses.
abbrev pub special_ipv6_ranges : List (ℕ × ℕ)
special_ipv6_ranges =
    (segments 0 0 0 0 0 0 0 0, segments 0 0 0 0 0 0 0 1)
    ∷ (segments 0x0100 0 0 0 0 0 0 0, segments 0x0100 0 0 0 0xffff 0xffff 0xffff 0xffff)
    ∷ (segments 0x0064 0xff9b 0 0 0 0 0 0, segments 0x0064 0xff9b 0 0 0 0 0xffff 0xffff)
    ∷ (
      segments 0x0064 0xff9b 1 0 0 0 0 0,
      segments 0x0064 0xff9b 1 0xffff 0xffff 0xffff 0xffff 0xffff,
    )
    ∷ (
      segments 0x2001 0 0 0 0 0 0 0,
      segments 0x2001 0x01ff 0xffff 0xffff 0xffff 0xffff 0xffff 0xffff,
    )
    ∷ (
      segments 0x2001 0x0db8 0 0 0 0 0 0,
      segments 0x2001 0x0db8 0xffff 0xffff 0xffff 0xffff 0xffff 0xffff,
    )
    ∷ (
      segments 0x2002 0 0 0 0 0 0 0,
      segments 0x2002 0xffff 0xffff 0xffff 0xffff 0xffff 0xffff 0xffff,
    )
    ∷ (
      segments 0x3ffe 0 0 0 0 0 0 0,
      segments 0x3ffe 0xffff 0xffff 0xffff 0xffff 0xffff 0xffff 0xffff,
    )
    ∷ (
      segments 0xfc00 0 0 0 0 0 0 0,
      segments 0xfdff 0xffff 0xffff 0xffff 0xffff 0xffff 0xffff 0xffff,
    )
    ∷ (
      segments 0xfe80 0 0 0 0 0 0 0,
      segments 0xffff 0xffff 0xffff 0xffff 0xffff 0xffff 0xffff 0xffff,
    )
    ∷ []

module _ (a : ℕ) (h : a < 2 ^ 128) where
  pub discards :
      in_ipv6_prefix a (segments 0x0100 0 0 0 0 0 0 0) 64
      ≡ in_range
          (segments 0x0100 0 0 0 0 0 0 0)
          (segments 0x0100 0 0 0 0xffff 0xffff 0xffff 0xffff)
          a
  unfolding in_ipv6_prefix in_range
  discards = ground arith

  pub translations :
      in_ipv6_prefix a (segments 0x0064 0xff9b 0 0 0 0 0 0) 96
      ≡ in_range
          (segments 0x0064 0xff9b 0 0 0 0 0 0)
          (segments 0x0064 0xff9b 0 0 0 0 0xffff 0xffff)
          a
  unfolding in_ipv6_prefix in_range
  translations = ground arith

  pub local_translations :
      in_ipv6_prefix a (segments 0x0064 0xff9b 1 0 0 0 0 0) 48
      ≡ in_range
          (segments 0x0064 0xff9b 1 0 0 0 0 0)
          (segments 0x0064 0xff9b 1 0xffff 0xffff 0xffff 0xffff 0xffff)
          a
  unfolding in_ipv6_prefix in_range
  local_translations = ground arith

  pub assignments :
      in_ipv6_prefix a (segments 0x2001 0 0 0 0 0 0 0) 23
      ≡ in_range
          (segments 0x2001 0 0 0 0 0 0 0)
          (segments 0x2001 0x01ff 0xffff 0xffff 0xffff 0xffff 0xffff 0xffff)
          a
  unfolding in_ipv6_prefix in_range
  assignments = ground arith

  pub documents :
      in_ipv6_prefix a (segments 0x2001 0x0db8 0 0 0 0 0 0) 32
      ≡ in_range
          (segments 0x2001 0x0db8 0 0 0 0 0 0)
          (segments 0x2001 0x0db8 0xffff 0xffff 0xffff 0xffff 0xffff 0xffff)
          a
  unfolding in_ipv6_prefix in_range
  documents = ground arith

  pub six_to_four :
      in_ipv6_prefix a (segments 0x2002 0 0 0 0 0 0 0) 16
      ≡ in_range
          (segments 0x2002 0 0 0 0 0 0 0)
          (segments 0x2002 0xffff 0xffff 0xffff 0xffff 0xffff 0xffff 0xffff)
          a
  unfolding in_ipv6_prefix in_range
  six_to_four = ground arith

  pub test_beds :
      in_ipv6_prefix a (segments 0x3ffe 0 0 0 0 0 0 0) 16
      ≡ in_range
          (segments 0x3ffe 0 0 0 0 0 0 0)
          (segments 0x3ffe 0xffff 0xffff 0xffff 0xffff 0xffff 0xffff 0xffff)
          a
  unfolding in_ipv6_prefix in_range
  test_beds = ground arith

  pub benchmarks :
      in_ipv6_prefix a (segments 0x2001 0x0002 0 0 0 0 0 0) 48 ≡ true
      → in_ipv6_prefix a (segments 0x2001 0 0 0 0 0 0 0) 23 ≡ true
  unfolding in_ipv6_prefix
  benchmarks p = ground arith

  pub orchids :
      in_ipv6_prefix a (segments 0x2001 0x0010 0 0 0 0 0 0) 28 ≡ true
      → in_ipv6_prefix a (segments 0x2001 0 0 0 0 0 0 0) 23 ≡ true
  unfolding in_ipv6_prefix
  orchids p = ground arith

  pub orchids2 :
      in_ipv6_prefix a (segments 0x2001 0x0020 0 0 0 0 0 0) 28 ≡ true
      → in_ipv6_prefix a (segments 0x2001 0 0 0 0 0 0 0) 23 ≡ true
  unfolding in_ipv6_prefix
  orchids2 p = ground arith

  -- fc00::/7
  pub locals :
      (clear_low 9 (a / 2 ^ 112) == 0xfc00)
      ≡ in_range
          (segments 0xfc00 0 0 0 0 0 0 0)
          (segments 0xfdff 0xffff 0xffff 0xffff 0xffff 0xffff 0xffff 0xffff)
          a
  unfolding in_range
  locals = ground arith

  -- fe80::/10, fec0::/10 and ff00::/8
  pub high_addresses :
      ((clear_low 6 (a / 2 ^ 112) == 0xfe80)
        || (clear_low 6 (a / 2 ^ 112) == 0xfec0)
        || (clear_low 8 (a / 2 ^ 112) == 0xff00))
      ≡ in_range
          (segments 0xfe80 0 0 0 0 0 0 0)
          (segments 0xffff 0xffff 0xffff 0xffff 0xffff 0xffff 0xffff 0xffff)
          a
  unfolding in_range
  high_addresses = ground arith

  pub ends :
      ((a == 0) || (a == 1)) ≡ in_range (segments 0 0 0 0 0 0 0 0) (segments 0 0 0 0 0 0 0 1) a
  unfolding in_range
  ends = ground arith

  pub mapped_range : (a / 2 ^ 32 == 65535) ≡ in_range first_mapped last_mapped a
  unfolding in_range
  mapped_range = ground arith

  pub mapped_rest : (a / 2 ^ 32 == 65535) ≡ true → a % 2 ^ 32 ≡ a - first_mapped
  mapped_rest m = ground arith
