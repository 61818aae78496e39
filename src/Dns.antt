-- ===== src/Dns.antt =====
-- crates/nxb-dns/src/lib.rs: the DNS pins of a run. A pin holds the addresses that a host had when
-- its context first resolved it.
pub mod Pinning
pub mod Releasing
use bound_seal.Common.{
  ℕ, ◌-◌, ◌≡◌, Bool, true, false, not, ◌&&◌, ◌||◌, Option, none, some, List, [], ◌∷◌, ltb, leb,
  ◌==◌, if◌then◌else◌, length, is_empty, all, Result, ok, err, ◌>>=◌, ◌>>◌, fail_if,
}
use bound_seal.Std.Text.{
  Text, text, eq_text, to_ascii_lowercase, trim, trim_end_matches, split, starts_with, ends_with,
  contains_byte, is_ascii_alphanumeric,
}
use bound_seal.Std.Ip.{IpAddr, ip_ord}
use bound_seal.Std.Order.{Ord, list_ord, nat_ord, pair_ord}
use bound_seal.Std.Collections.{same_set, map_get, map_insert, map_retain}

pub record DnsObservation : Type 0 where
  pub context_id : Text
  pub host : Text
  pub addresses : List IpAddr
  pub resolver_id : Text
  pub ttl_seconds : ℕ
  pub observed_at_milliseconds : ℕ

pub data DnsPinStatus : Type 0 where
  pinned matched : DnsPinStatus

pub record DnsPin : Type 0 where
  pub context_id : Text
  pub host : Text
  pub addresses : List IpAddr
  pub resolver_id : Text
  pub first_observed_at_milliseconds : ℕ
  pub last_observed_at_milliseconds : ℕ
  pub initial_ttl_seconds : ℕ
  pub latest_ttl_seconds : ℕ

-- `DnsPinSet`: the map from a context and a host to its pin.
abbrev pub DnsPinSet : Type 0
DnsPinSet = List ((Text × Text) × DnsPin)

pub data DnsPinError : Type 0 where
  invalid_context_id invalid_resolver_id invalid_host empty_address_set : DnsPinError
  clock_regression : DnsPinError
  resolver_changed : Text → Text → DnsPinError
  rebinding_detected : Text → List IpAddr → List IpAddr → DnsPinError

abbrev pub normalize_identifier : Text → Text
normalize_identifier value = to_ascii_lowercase (trim value)

abbrev pub is_identifier_byte : ℕ → Bool
is_identifier_byte byte =
    is_ascii_alphanumeric byte || byte == b'-' || byte == b'_' || byte == b'.' || byte == b':'

unfoldable pub is_valid_identifier : Text → Bool
is_valid_identifier value =
    let trimmed = trim value in
    not (is_empty trimmed) && leb (length trimmed) 128 && all is_identifier_byte trimmed

abbrev pub normalize_host : Text → Text
normalize_host value = to_ascii_lowercase (trim_end_matches b'.' (trim value))

abbrev pub is_label : Text → Bool
is_label label =
    not (is_empty label)
    && leb (length label) 63
    && not (starts_with b'-' label)
    && not (ends_with b'-' label)
    && all (λ byte. is_ascii_alphanumeric byte || byte == b'-') label

unfoldable pub is_valid_host : Text → Bool
is_valid_host value =
    let host = normalize_host value in
    if is_empty host || ltb 253 (length host) || contains_byte b':' host || contains_byte b'/' host
    then false
    else all is_label (split b'.' host)

unfoldable pub validate_observation : DnsObservation → Result DnsPinError (Unit {0})
validate_observation o = do
  fail_if (not (is_valid_identifier o.context_id)) invalid_context_id
  fail_if (not (is_valid_identifier o.resolver_id)) invalid_resolver_id
  fail_if (not (is_valid_host o.host)) invalid_host
  fail_if (is_empty o.addresses) empty_address_set

abbrev pub pin_key : DnsObservation → Text × Text
pin_key o = (normalize_identifier o.context_id, normalize_host o.host)

-- The checks against a pin that is there, and its update.
unfoldable pub validate_pin : DnsObservation → DnsPin → Result DnsPinError DnsPin
validate_pin o pin = do
  fail_if (ltb o.observed_at_milliseconds pin.last_observed_at_milliseconds) clock_regression
  fail_if (not (eq_text (normalize_identifier o.resolver_id) pin.resolver_id))
      (resolver_changed pin.resolver_id (normalize_identifier o.resolver_id))
  fail_if (not (same_set o.addresses pin.addresses))
      (rebinding_detected (normalize_host o.host) pin.addresses o.addresses)
  ok (record pin {
    last_observed_at_milliseconds = o.observed_at_milliseconds;
    latest_ttl_seconds = o.ttl_seconds;
  })

unfoldable pub fresh_pin : DnsObservation → DnsPin
fresh_pin o = record {
  context_id = normalize_identifier o.context_id;
  host = normalize_host o.host;
  addresses = o.addresses;
  resolver_id = normalize_identifier o.resolver_id;
  first_observed_at_milliseconds = o.observed_at_milliseconds;
  last_observed_at_milliseconds = o.observed_at_milliseconds;
  initial_ttl_seconds = o.ttl_seconds;
  latest_ttl_seconds = o.ttl_seconds;
}

-- The `match` of `pin_or_validate`, on the pin under the key.
unfoldable pub place_pin :
    DnsPinSet → DnsObservation → Option DnsPin → Result DnsPinError (DnsPinStatus × DnsPinSet)
place_pin pins o (some pin) =
    validate_pin o pin >>= λ updated. ok (matched, map_insert (pin_key o) updated pins)
place_pin pins o none = ok (pinned, map_insert (pin_key o) (fresh_pin o) pins)

-- `DnsPinSet::pin_or_validate`: an error leaves the pins as they were.
unfoldable pub pin_or_validate :
    DnsPinSet → DnsObservation → Result DnsPinError (DnsPinStatus × DnsPinSet)
pin_or_validate pins o = validate_observation o >> place_pin pins o (map_get (pin_key o) pins)

-- `DnsPinSet::get`
unfoldable pub get : DnsPinSet → Text → Text → Option DnsPin
get pins context_id host = map_get (normalize_identifier context_id, normalize_host host) pins

-- `DnsPinSet::release_context`, with the number of pins that it dropped
unfoldable pub release_context : DnsPinSet → Text → ℕ × DnsPinSet
release_context pins context_id =
    let kept = map_retain (λ key. not (eq_text key.0 (normalize_identifier context_id))) pins in
    (length pins - length kept, kept)

-- What a client does with the pins.
pub data Call : Type 0 where
  observes : DnsObservation → Call
  releases : Text → Call

abbrev pins_after : DnsPinSet → Result DnsPinError (DnsPinStatus × DnsPinSet) → DnsPinSet
pins_after pins (ok (_, after)) = after
pins_after pins (err _) = pins

unfoldable pub step : DnsPinSet → Call → DnsPinSet
step pins (observes o) = pins_after pins (pin_or_validate pins o)
step pins (releases context_id) = (release_context pins context_id).1

unfoldable pub run : DnsPinSet → List Call → DnsPinSet
run pins [] = pins
run pins (c ∷ cs) = run (step pins c) cs
