-- ===== src/Destination/Guards.antt =====
-- The guard of crates/nxb-destination against the older one of crates/nxb-policy.
use bound_seal.Common.{
  ℕ, ◌^◌, ◌%◌, ◌≡◌, Bool, true, false, not, ◌&&◌, ◌||◌, arith, ◌==◌, if◌then◌else◌,
}
use bound_seal.Std.Ip.Ipv4
use bound_seal.Std.Ip.Ipv4.{octet0, octet1}
use bound_seal.Std.Ip.{IpAddr, v4, v6, octets, clear_low}
use bound_seal.Std.Ip.Ipv6
use bound_seal.Destination.{
  DestinationClass, is_allowed, in_ipv4_prefix, classify_ipv4, classify_ipv6, classify_native_ipv6,
  classify, assess_destination, is_public_destination, guard_v4, policy_guard,
}

-- The tests of the older IPv4 guard, as the newer one spells them.
documentation_prefixes :
    (a : ℕ)
    → Ipv4.is_documentation a ≡ (
        in_ipv4_prefix a (octets 192 0 2 0) 24
        || in_ipv4_prefix a (octets 198 51 100 0) 24
        || in_ipv4_prefix a (octets 203 0 113 0) 24)
unfolding in_ipv4_prefix
documentation_prefixes a = ground arith

zero_prefix : (a : ℕ) → (a == 0) ≡ true → in_ipv4_prefix a (octets 0 0 0 0) 8 ≡ true
unfolding in_ipv4_prefix
zero_prefix a h = ground arith

guard_ladder :
    (b1 b2 b3 b6 b7 b8 b10 b13 b14 b15 b16 zero : Bool)
    → (zero ≡ true → b1 ≡ true)
    → is_allowed (
        if b1
        then DestinationClass.unspecified
        else if b2
        then DestinationClass.loopback
        else if b3
        then DestinationClass.private
        else if b6
        then DestinationClass.shared_address_space
        else if b7
        then DestinationClass.link_local
        else if b8
        then DestinationClass.protocol_assignment
        else if b10
        then DestinationClass.documentation
        else if b13
        then DestinationClass.benchmarking
        else if b14
        then DestinationClass.multicast
        else if b15
        then DestinationClass.broadcast
        else if b16
        then DestinationClass.reserved
        else DestinationClass.public)
      ≡ true
    → (not b3 && not b2 && not b7 && not b15 && not b10 && not zero && not b14) ≡ true
unfolding is_allowed
guard_ladder b1 b2 b3 b6 b7 b8 b10 b13 b14 b15 b16 zero h = ground arith

guard_v4-weaker : (a : ℕ) → is_allowed (classify_ipv4 a) ≡ true → guard_v4 a ≡ true
unfolding classify_ipv4 guard_v4
guard_v4-weaker a h = rw (documentation_prefixes a) (
    guard_ladder _ (Ipv4.is_loopback a) (Ipv4.is_private a) _ (Ipv4.is_link_local a) _ _ _
      (Ipv4.is_multicast a) (a == Ipv4.broadcast) _ (a == 0) (zero_prefix a) h)

multicast_byte :
    (a : ℕ) → (clear_low 8 (Ipv6.segment0 a) == 0xff00) ≡ false → Ipv6.is_multicast a ≡ false
multicast_byte a h = ground arith

guard_v6-weaker : (a : ℕ) → is_public_destination (v6 a) ≡ true → policy_guard (v6 a) ≡ true
unfolding is_public_destination assess_destination classify classify_ipv6 classify_native_ipv6
    policy_guard is_allowed
guard_v6-weaker a h = ground (arith, multicast_byte a, guard_v4-weaker (a % 2 ^ 32))

-- What the guard of `nxb_destination` permits, the older guard of `nxb_policy` permits too.
pub policy_guard-weaker : (ip : IpAddr) → is_public_destination ip ≡ true → policy_guard ip ≡ true
unfolding is_public_destination assess_destination classify policy_guard
policy_guard-weaker (v4 a) h = guard_v4-weaker a h
policy_guard-weaker (v6 a) h = guard_v6-weaker a h
