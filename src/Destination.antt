-- ===== src/Destination.antt =====
-- crates/nxb-destination/src/lib.rs: the classes of IP addresses, and the older guard of
-- crates/nxb-policy/src/lib.rs.
pub mod Ranges
pub mod Ipv6Ranges
pub mod Guards
use bound_seal.Common.{
  ℕ, ◌-◌, ◌≡◌, Bool, true, false, not, ◌&&◌, ◌||◌, Option, none, some, String, ◌==◌, if◌then◌else◌,
}
use bound_seal.Std.Text.{Text, text}
use bound_seal.Std.Ip
use bound_seal.Std.Ip.{IpAddr, v4, v6, clear_low, octets}

pub data DestinationClass : Type 0 where
  public unspecified loopback private shared_address_space link_local documentation :
      DestinationClass
  benchmarking protocol_assignment multicast reserved broadcast unique_local : DestinationClass
  site_local orchid discard_only ipv4_mapped_non_public : DestinationClass

-- `DestinationClass::is_allowed`
unfoldable pub is_allowed : DestinationClass → Bool
is_allowed public = true
is_allowed _ = false

-- `DestinationClass::code`
unfoldable pub code : DestinationClass → Text
code public = text "public"
code unspecified = text "unspecified"
code loopback = text "loopback"
code private = text "private"
code shared_address_space = text "shared_address_space"
code link_local = text "link_local"
code documentation = text "documentation"
code benchmarking = text "benchmarking"
code protocol_assignment = text "protocol_assignment"
code multicast = text "multicast"
code reserved = text "reserved"
code broadcast = text "broadcast"
code unique_local = text "unique_local"
code site_local = text "site_local"
code orchid = text "orchid"
code discard_only = text "discard_only"
code ipv4_mapped_non_public = text "ipv4_mapped_non_public"

-- Both addresses with the bits behind the prefix cleared.
unfoldable pub in_ipv4_prefix : ℕ → ℕ → ℕ → Bool
in_ipv4_prefix ip network prefix_length =
    clear_low (32 - prefix_length) ip == clear_low (32 - prefix_length) network

unfoldable pub in_ipv6_prefix : ℕ → ℕ → ℕ → Bool
in_ipv6_prefix ip network prefix_length =
    clear_low (128 - prefix_length) ip == clear_low (128 - prefix_length) network

unfoldable pub classify_ipv4 : ℕ → DestinationClass
classify_ipv4 ip =
    if in_ipv4_prefix ip (octets 0 0 0 0) 8
    then unspecified
    else if Ip.Ipv4.is_loopback ip
    then loopback
    else if Ip.Ipv4.is_private ip
    then private
    else if in_ipv4_prefix ip (octets 100 64 0 0) 10
    then shared_address_space
    else if Ip.Ipv4.is_link_local ip
    then link_local
    else if in_ipv4_prefix ip (octets 192 0 0 0) 24 || in_ipv4_prefix ip (octets 192 88 99 0) 24
    then protocol_assignment
    else if in_ipv4_prefix ip (octets 192 0 2 0) 24
        || in_ipv4_prefix ip (octets 198 51 100 0) 24
        || in_ipv4_prefix ip (octets 203 0 113 0) 24
    then documentation
    else if in_ipv4_prefix ip (octets 198 18 0 0) 15
    then benchmarking
    else if Ip.Ipv4.is_multicast ip
    then multicast
    else if ip == Ip.Ipv4.broadcast
    then broadcast
    else if in_ipv4_prefix ip (octets 240 0 0 0) 4
    then reserved
    else public

-- `classify_ipv6` behind the test for an embedded IPv4 address.
unfoldable pub classify_native_ipv6 : ℕ → DestinationClass
classify_native_ipv6 ip =
    let first = Ip.Ipv6.segment0 ip in
    if clear_low 9 first == 0xfc00
    then unique_local
    else if clear_low 6 first == 0xfe80
    then link_local
    else if clear_low 6 first == 0xfec0
    then site_local
    else if clear_low 8 first == 0xff00
    then multicast
    else if in_ipv6_prefix ip (Ip.Ipv6.segments 0x0100 0 0 0 0 0 0 0) 64
    then discard_only
    else if in_ipv6_prefix ip (Ip.Ipv6.segments 0x2001 0x0db8 0 0 0 0 0 0) 32
    then documentation
    else if in_ipv6_prefix ip (Ip.Ipv6.segments 0x2001 0x0002 0 0 0 0 0 0) 48
    then benchmarking
    else if in_ipv6_prefix ip (Ip.Ipv6.segments 0x2001 0x0010 0 0 0 0 0 0) 28
        || in_ipv6_prefix ip (Ip.Ipv6.segments 0x2001 0x0020 0 0 0 0 0 0) 28
    then orchid
    else if in_ipv6_prefix ip (Ip.Ipv6.segments 0x0064 0xff9b 0 0 0 0 0 0) 96
        || in_ipv6_prefix ip (Ip.Ipv6.segments 0x0064 0xff9b 1 0 0 0 0 0) 48
        || in_ipv6_prefix ip (Ip.Ipv6.segments 0x2001 0 0 0 0 0 0 0) 23
        || in_ipv6_prefix ip (Ip.Ipv6.segments 0x2002 0 0 0 0 0 0 0) 16
    then protocol_assignment
    else if in_ipv6_prefix ip (Ip.Ipv6.segments 0x3ffe 0 0 0 0 0 0 0) 16
    then reserved
    else public

unfoldable pub classify_ipv6 : ℕ → DestinationClass
classify_ipv6 ip =
    if Ip.Ipv6.is_unspecified ip
    then unspecified
    else if Ip.Ipv6.is_loopback ip
    then loopback
    else elim (Ip.Ipv6.to_ipv4_mapped ip) [
      | some mapped ↦ if is_allowed (classify_ipv4 mapped) then public else ipv4_mapped_non_public
      | none ↦ classify_native_ipv6 ip
    ]

pub record DestinationAssessment : Type 0 where
  pub ip : IpAddr
  pub class : DestinationClass

unfoldable pub classify : IpAddr → DestinationClass
classify (v4 ip) = classify_ipv4 ip
classify (v6 ip) = classify_ipv6 ip

unfoldable pub assess_destination : IpAddr → DestinationAssessment
assess_destination ip = record { ip = ip; class = classify ip }

unfoldable pub is_public_destination : IpAddr → Bool
is_public_destination ip = is_allowed (assess_destination ip).class

-- `nxb_policy::is_public_destination` at an IPv4 address
unfoldable pub guard_v4 : ℕ → Bool
guard_v4 ip =
    not (Ip.Ipv4.is_private ip)
    && not (Ip.Ipv4.is_loopback ip)
    && not (Ip.Ipv4.is_link_local ip)
    && not (ip == Ip.Ipv4.broadcast)
    && not (Ip.Ipv4.is_documentation ip)
    && not (ip == 0)
    && not (Ip.Ipv4.is_multicast ip)

-- `ip.to_ipv4_mapped().map(is_public_destination_v4).unwrap_or(true)`
abbrev guard_mapped : Option ℕ → Bool
guard_mapped (some mapped) = guard_v4 mapped
guard_mapped none = true

-- `nxb_policy::is_public_destination`
unfoldable pub policy_guard : IpAddr → Bool
policy_guard (v4 ip) = guard_v4 ip
policy_guard (v6 ip) =
    not (Ip.Ipv6.is_loopback ip)
    && not (Ip.Ipv6.is_unspecified ip)
    && not (Ip.Ipv6.is_multicast ip)
    && not (clear_low 9 (Ip.Ipv6.segment0 ip) == 0xfc00)
    && not (clear_low 6 (Ip.Ipv6.segment0 ip) == 0xfe80)
    && guard_mapped (Ip.Ipv6.to_ipv4_mapped ip)
