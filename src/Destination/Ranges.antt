-- ===== src/Destination/Ranges.antt =====
-- The guard against the address ranges that it stands for.
use bound_seal.Common.{
  ℕ, ◌^◌, ◌<◌, ◌≡◌, Bool, false, not, ◌&&◌, ◌||◌, List, [], ◌∷◌, arith, any, ◌==◌, if◌then◌else◌,
}
use bound_seal.Std.Text.{between}
use bound_seal.Std.Ip.Ipv4
use bound_seal.Std.Ip.Ipv4.{octet0, octet1}
use bound_seal.Std.Ip.{v4, octets}
use bound_seal.Destination.{
  DestinationClass, is_allowed, in_ipv4_prefix, classify_ipv4, classify, assess_destination,
  is_public_destination,
}

-- `a` is one of the addresses from the first to the last of a range.
unfoldable pub in_range : ℕ → ℕ → ℕ → Bool
in_range first last a = between first last a

-- The IPv4 ranges that are not public, by their first and last addresses.
abbrev pub special_ranges : List (ℕ × ℕ)
special_ranges =
    (octets 0 0 0 0, octets 0 255 255 255)
    ∷ (octets 127 0 0 0, octets 127 255 255 255)
    ∷ (octets 10 0 0 0, octets 10 255 255 255)
    ∷ (octets 172 16 0 0, octets 172 31 255 255)
    ∷ (octets 192 168 0 0, octets 192 168 255 255)
    ∷ (octets 100 64 0 0, octets 100 127 255 255)
    ∷ (octets 169 254 0 0, octets 169 254 255 255)
    ∷ (octets 192 0 0 0, octets 192 0 0 255)
    ∷ (octets 192 88 99 0, octets 192 88 99 255)
    ∷ (octets 192 0 2 0, octets 192 0 2 255)
    ∷ (octets 198 51 100 0, octets 198 51 100 255)
    ∷ (octets 203 0 113 0, octets 203 0 113 255)
    ∷ (octets 198 18 0 0, octets 198 19 255 255)
    ∷ (octets 224 0 0 0, octets 255 255 255 255)
    ∷ []

module _ (a : ℕ) (h : a < 2 ^ 32) where
  this_network :
      in_ipv4_prefix a (octets 0 0 0 0) 8 ≡ in_range (octets 0 0 0 0) (octets 0 255 255 255) a
  unfolding in_ipv4_prefix in_range
  this_network = ground arith

  shared_space :
      in_ipv4_prefix a (octets 100 64 0 0) 10
      ≡ in_range (octets 100 64 0 0) (octets 100 127 255 255) a
  unfolding in_ipv4_prefix in_range
  shared_space = ground arith

  assignments :
      in_ipv4_prefix a (octets 192 0 0 0) 24 ≡ in_range (octets 192 0 0 0) (octets 192 0 0 255) a
  unfolding in_ipv4_prefix in_range
  assignments = ground arith

  relay_anycast :
      in_ipv4_prefix a (octets 192 88 99 0) 24
      ≡ in_range (octets 192 88 99 0) (octets 192 88 99 255) a
  unfolding in_ipv4_prefix in_range
  relay_anycast = ground arith

  documentation1 :
      in_ipv4_prefix a (octets 192 0 2 0) 24 ≡ in_range (octets 192 0 2 0) (octets 192 0 2 255) a
  unfolding in_ipv4_prefix in_range
  documentation1 = ground arith

  documentation2 :
      in_ipv4_prefix a (octets 198 51 100 0) 24
      ≡ in_range (octets 198 51 100 0) (octets 198 51 100 255) a
  unfolding in_ipv4_prefix in_range
  documentation2 = ground arith

  documentation3 :
      in_ipv4_prefix a (octets 203 0 113 0) 24
      ≡ in_range (octets 203 0 113 0) (octets 203 0 113 255) a
  unfolding in_ipv4_prefix in_range
  documentation3 = ground arith

  benchmarks :
      in_ipv4_prefix a (octets 198 18 0 0) 15
      ≡ in_range (octets 198 18 0 0) (octets 198 19 255 255) a
  unfolding in_ipv4_prefix in_range
  benchmarks = ground arith

  loopbacks : Ipv4.is_loopback a ≡ in_range (octets 127 0 0 0) (octets 127 255 255 255) a
  unfolding in_range
  loopbacks = ground arith

  private_a : (octet0 a == 10) ≡ in_range (octets 10 0 0 0) (octets 10 255 255 255) a
  unfolding in_range
  private_a = ground arith

  private_b :
      (octet0 a == 172 && between 16 31 (octet1 a))
      ≡ in_range (octets 172 16 0 0) (octets 172 31 255 255) a
  unfolding in_range
  private_b = ground arith

  private_c :
      (octet0 a == 192 && octet1 a == 168)
      ≡ in_range (octets 192 168 0 0) (octets 192 168 255 255) a
  unfolding in_range
  private_c = ground arith

  link_locals : Ipv4.is_link_local a ≡ in_range (octets 169 254 0 0) (octets 169 254 255 255) a
  unfolding in_range
  link_locals = ground arith

  high_addresses :
      (Ipv4.is_multicast a || a == Ipv4.broadcast || in_ipv4_prefix a (octets 240 0 0 0) 4)
      ≡ in_range (octets 224 0 0 0) (octets 255 255 255 255) a
  unfolding in_ipv4_prefix in_range
  high_addresses = ground arith

-- A ladder of tests in the shape of `classify_ipv4` ends in an allowed class when none is met.
ladder :
    (b1 b2 b3 b4 b5 b6 b7 b8 b9 b10 b11 b12 b13 b14 b15 b16 : Bool)
    → is_allowed (
        if b1
        then DestinationClass.unspecified
        else if b2
        then DestinationClass.loopback
        else if b3 || b4 || b5
        then DestinationClass.private
        else if b6
        then DestinationClass.shared_address_space
        else if b7
        then DestinationClass.link_local
        else if b8 || b9
        then DestinationClass.protocol_assignment
        else if b10 || b11 || b12
        then DestinationClass.documentation
        else if b13
        then DestinationClass.benchmarking
        else if b14
        then DestinationClass.multicast
        else if b15
        then DestinationClass.broadcast
        else if b16
        then DestinationClass.reserved
        else DestinationClass.public)
      ≡ not (
          b1
          || (b2
              || (b3
                  || (b4
                      || (b5
                          || (b6
                              || (b7
                                  || (b8
                                      || (b9
                                          || (b10
                                              || (b11
                                                  || (b12
                                                      || (b13
                                                          || ((b14 || b15 || b16)
                                                            || false))))))))))))))
unfolding is_allowed
ladder b1 b2 b3 b4 b5 b6 b7 b8 b9 b10 b11 b12 b13 b14 b15 b16 = ground arith

-- An IPv4 address is a public destination exactly when it lies in none of the special ranges.
pub is_public_destination-ranges :
    (a : ℕ)
    → a < 2 ^ 32
    → is_public_destination (v4 a) ≡ not (any (λ r. in_range r.0 r.1 a) special_ranges)
unfolding is_public_destination assess_destination classify classify_ipv4 is_allowed
is_public_destination-ranges a h =
    rw
      (
        ← this_network a h,
        ← loopbacks a h,
        ← private_a a h,
        ← private_b a h,
        ← private_c a h,
        ← shared_space a h,
        ← link_locals a h,
        ← assignments a h,
        ← relay_anycast a h,
        ← documentation1 a h,
        ← documentation2 a h,
        ← documentation3 a h,
        ← benchmarks a h,
        ← high_addresses a h,
      )
      (ladder (in_ipv4_prefix a (octets 0 0 0 0) 8) (Ipv4.is_loopback a) (octet0 a == 10)
        (octet0 a == 172 && between 16 31 (octet1 a)) (octet0 a == 192 && octet1 a == 168)
        (in_ipv4_prefix a (octets 100 64 0 0) 10) (Ipv4.is_link_local a)
        (in_ipv4_prefix a (octets 192 0 0 0) 24) (in_ipv4_prefix a (octets 192 88 99 0) 24)
        (in_ipv4_prefix a (octets 192 0 2 0) 24) (in_ipv4_prefix a (octets 198 51 100 0) 24)
        (in_ipv4_prefix a (octets 203 0 113 0) 24) (in_ipv4_prefix a (octets 198 18 0 0) 15)
        (Ipv4.is_multicast a) (a == Ipv4.broadcast) (in_ipv4_prefix a (octets 240 0 0 0) 4))
