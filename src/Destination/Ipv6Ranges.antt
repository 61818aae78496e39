-- ===== src/Destination/Ipv6Ranges.antt =====
-- The IPv6 side of the guard against the address ranges that it stands for.
pub mod Prefixes
use bound_seal.Common.{
  ℕ, ◌+◌, ◌-◌, ◌*◌, ◌^◌, ◌/◌, ◌%◌, ◌<◌, ◌≡◌, Bool, true, false, not, ◌&&◌, ◌||◌, List, [], ◌∷◌,
  arith, any, ◌==◌, if◌then◌else◌, some, none, Bool-cases, inl, inr, refl,
}
use bound_seal.Std.Text.{between}
use bound_seal.Std.Ip.{v4, v6, clear_low}
use bound_seal.Std.Ip.Ipv6.{segments}
use bound_seal.Destination.{
  unspecified, loopback, unique_local, link_local, site_local, multicast, discard_only,
  documentation, benchmarking, orchid, protocol_assignment, reserved, public, is_allowed,
  ipv4_mapped_non_public, classify_ipv4, in_ipv6_prefix, classify_ipv6, classify_native_ipv6,
  classify, assess_destination, is_public_destination,
}
use bound_seal.Destination.Ranges.{in_range}
use bound_seal.Destination.Ipv6Ranges.Prefixes.{
  first_mapped, last_mapped, special_ipv6_ranges, discards, translations, local_translations,
  assignments, documents, six_to_four, test_beds, benchmarks, orchids, orchids2, locals,
  high_addresses, ends, mapped_range, mapped_rest,
}

native_ladder :
    (u l ul ll sl mc discard doc bench o1 o2 t1 t2 assigned relay bed : Bool)
    → (bench ≡ true → assigned ≡ true)
    → (o1 ≡ true → assigned ≡ true)
    → (o2 ≡ true → assigned ≡ true)
    → is_allowed (
        if u
        then unspecified
        else if l
        then loopback
        else if ul
        then unique_local
        else if ll
        then link_local
        else if sl
        then site_local
        else if mc
        then multicast
        else if discard
        then discard_only
        else if doc
        then documentation
        else if bench
        then benchmarking
        else if o1 || o2
        then orchid
        else if t1 || t2 || assigned || relay
        then protocol_assignment
        else if bed
        then reserved
        else public)
      ≡ not (
          (u || l)
          || (discard
              || (t1
                  || (t2
                      || (assigned
                          || (doc || (relay || (bed || (ul || ((ll || sl || mc) || false))))))))))
unfolding is_allowed
native_ladder u l ul ll sl mc discard doc bench o1 o2 t1 t2 assigned relay bed h i j = ground arith

allowed_mapped : (b : Bool) → is_allowed (if b then public else ipv4_mapped_non_public) ≡ b
unfolding is_allowed
allowed_mapped b = ground arith

-- An IPv6 address of ::ffff:0:0/96 is a public destination exactly when the IPv4 address in its low
-- 32 bits is one; any other IPv6 address exactly when it lies in none of the special ranges.
pub is_public_destination-special_ipv6_ranges :
    (a : ℕ)
    → a < 2 ^ 128
    → is_public_destination (v6 a) ≡ (
        if in_range first_mapped last_mapped a
        then is_public_destination (v4 (a - first_mapped))
        else not (any (λ r. in_range r.0 r.1 a) special_ipv6_ranges))
unfolding is_public_destination assess_destination classify classify_ipv6 classify_native_ipv6
is_public_destination-special_ipv6_ranges a h = elim (Bool-cases (a / 2 ^ 32 == 65535)) [
  | inl m ↦ mapped_public m
  | inr m ↦
      rw
        (
          ← mapped_range a h,
          ← ends a h,
          ← discards a h,
          ← translations a h,
          ← local_translations a h,
          ← assignments a h,
          ← documents a h,
          ← six_to_four a h,
          ← test_beds a h,
          ← locals a h,
          ← high_addresses a h,
        )
        (rw m (
          native_ladder (a == 0) (a == 1) (clear_low 9 (a / 2 ^ 112) == 0xfc00)
            (clear_low 6 (a / 2 ^ 112) == 0xfe80) (clear_low 6 (a / 2 ^ 112) == 0xfec0)
            (clear_low 8 (a / 2 ^ 112) == 0xff00)
            (in_ipv6_prefix a (segments 0x0100 0 0 0 0 0 0 0) 64)
            (in_ipv6_prefix a (segments 0x2001 0x0db8 0 0 0 0 0 0) 32)
            (in_ipv6_prefix a (segments 0x2001 0x0002 0 0 0 0 0 0) 48)
            (in_ipv6_prefix a (segments 0x2001 0x0010 0 0 0 0 0 0) 28)
            (in_ipv6_prefix a (segments 0x2001 0x0020 0 0 0 0 0 0) 28)
            (in_ipv6_prefix a (segments 0x0064 0xff9b 0 0 0 0 0 0) 96)
            (in_ipv6_prefix a (segments 0x0064 0xff9b 1 0 0 0 0 0) 48)
            (in_ipv6_prefix a (segments 0x2001 0 0 0 0 0 0 0) 23)
            (in_ipv6_prefix a (segments 0x2002 0 0 0 0 0 0 0) 16)
            (in_ipv6_prefix a (segments 0x3ffe 0 0 0 0 0 0 0) 16) (benchmarks a h) (orchids a h)
            (orchids2 a h)))
]
  where
    mapped_public :
        (a / 2 ^ 32 == 65535) ≡ true
        → is_public_destination (v6 a) ≡ (
            if in_range first_mapped last_mapped a
            then is_public_destination (v4 (a - first_mapped))
            else not (any (λ r. in_range r.0 r.1 a) special_ipv6_ranges))
    mapped_public m =
        let low : (a == 0) ≡ false = ground arith in
        let one : (a == 1) ≡ false = ground arith in
        rw (← mapped_range a h, ← mapped_rest a h m)
          (rw (low, one, m) (allowed_mapped (is_allowed (classify_ipv4 (a % 2 ^ 32)))))
