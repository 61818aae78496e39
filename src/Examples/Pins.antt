-- ===== src/Examples/Pins.antt =====
-- crates/nxb-dns: runs on the pins of one host.
use bound_seal.Common.{◌+◌, length, ◌≡◌, ◌≢◌, ◌≤◌, refl, [], ◌∷◌, ok, if◌then◌else◌}
use bound_seal.Std.Text.{Text, text, eq_text}
use bound_seal.Std.Text
use bound_seal.Std.Order.{list_ord, nat_ord, pair_ord, same_iff}
use mathlib.Core.Bool.{false≢true}
use bound_seal.Std.Ip.{v4}
use bound_seal.Std.Collections
use bound_seal.Std.Collections.{map_get}
use bound_seal.Dns
use bound_seal.Dns.{
  DnsObservation, DnsPinSet, Call, observes, releases, run, pinned, matched, pin_or_validate,
  pin_key, fresh_pin, release_context, normalize_identifier,
}
use bound_seal.Dns.Pinning.{no_rebinding}
use bound_seal.Dns.Releasing.{outcome, pins_of, release_context-outcome}

abbrev seen : DnsObservation
seen = record {
  context_id = text "Run-1";
  host = text "Example.com.";
  addresses = v4 0x08080808 ∷ [];
  resolver_id = text "system";
  ttl_seconds = 60;
  observed_at_milliseconds = 10;
}

abbrev seen_again : DnsObservation
seen_again = record seen { context_id = text "run-1"; observed_at_milliseconds = 25 }

-- Other addresses, from another resolver.
abbrev rebound : DnsObservation
rebound = record seen { addresses = v4 0x01010101 ∷ []; resolver_id = text "other" }

abbrev pinned_once : DnsPinSet
pinned_once = ((text "run-1", text "example.com"), fresh_pin seen) ∷ []

first_accepted : pin_or_validate [] seen ≡ ok (pinned, pinned_once)
unfolding pin_or_validate Dns.validate_observation Dns.place_pin Dns.is_valid_identifier
    Dns.is_valid_host Collections.map_get Collections.map_insert text Text.trim
    Text.trim_end_matches Text.split Text.ends_with
first_accepted = refl

abbrev pinned_twice : DnsPinSet
pinned_twice =
    (
      (text "run-1", text "example.com"),
      record (fresh_pin seen) { last_observed_at_milliseconds = 25 },
    )
    ∷ []

second_accepted :
    pin_or_validate (run pinned_once (releases (text "other") ∷ [])) seen_again
    ≡ ok (matched, pinned_twice)
unfolding pin_or_validate Dns.validate_observation Dns.place_pin Dns.validate_pin Dns.fresh_pin
    Dns.is_valid_identifier Dns.is_valid_host run Dns.step release_context Collections.map_get
    Collections.map_insert Collections.map_retain Collections.same_set text Text.trim
    Text.trim_end_matches Text.split Text.ends_with
second_accepted = refl

other_context : normalize_identifier (text "other") ≢ normalize_identifier seen.context_id
unfolding text Text.trim
other_context e =
    false≢true
      ((same_iff (normalize_identifier (text "other")) (normalize_identifier seen.context_id)).1 e)

same_key : pin_key seen_again ≡ pin_key seen
unfolding text Text.trim Text.trim_end_matches
same_key = refl

no_rebinding_example :
    (seen_again.addresses ≡ seen.addresses)
    × (normalize_identifier seen_again.resolver_id ≡ normalize_identifier seen.resolver_id)
    × (seen.observed_at_milliseconds ≤ seen_again.observed_at_milliseconds)
no_rebinding_example =
    no_rebinding [] pinned_once pinned_twice seen seen_again pinned matched
      (releases (text "other") ∷ []) first_accepted (other_context, tt) second_accepted same_key

elsewhere : Dns.validate_observation rebound ≡ ok tt
unfolding Dns.validate_observation Dns.is_valid_identifier Dns.is_valid_host text Text.trim
    Text.trim_end_matches Text.split Text.ends_with
elsewhere = refl

release_context-outcome_example :
    let (released, kept) = release_context pinned_once (text " RUN-1") in
    (outcome (pin_or_validate kept rebound) ≡ (
      if eq_text (normalize_identifier rebound.context_id) (normalize_identifier (text " RUN-1"))
      then ok pinned
      else outcome (pin_or_validate pinned_once rebound)))
    × (released ≡ pins_of (normalize_identifier (text " RUN-1")) pinned_once)
    × (length kept + released ≡ 1)
release_context-outcome_example =
    release_context-outcome pinned_once (text " RUN-1") rebound elsewhere
