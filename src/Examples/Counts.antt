-- ===== src/Examples/Counts.antt =====
-- crates/nxb-budget and nxb-destination: runs on a budget and on addresses.
use bound_seal.Common.{
  ◌-◌, if◌then◌else◌, ℕ, ◌+◌, ◌*◌, ◌≤◌, ◌<◌, ◌^◌, ◌≡◌, ◌≢◌, ◌↔◌, refl, true, false, [], ◌∷◌, ok,
  err, arith, List, not, any,
}
use bound_seal.Std.Ip.{v4, v6}
use bound_seal.Budget
use bound_seal.Budget.{
  RequestBudget, Call, starts, finishes, run, try_start, refill, returned, exhausted,
  concurrency_exceeded,
}
use bound_seal.Budget.Accounting.{run-new, try_start-outcome}
use bound_seal.Destination.{is_public_destination, policy_guard}
use bound_seal.Destination
use bound_seal.Destination.Ipv6Ranges.{is_public_destination-special_ipv6_ranges}
use bound_seal.Destination.Ipv6Ranges.Prefixes.{first_mapped, last_mapped, special_ipv6_ranges}
use bound_seal.Destination.Ranges.{is_public_destination-ranges, in_range, special_ranges}
use bound_seal.Destination.Guards.{policy_guard-weaker}
use bound_seal.Examples.Values.{fixed}

abbrev three_requests : RequestBudget fixed
three_requests = record {
  remaining = 3;
  max_concurrency = 2;
  in_flight = 0;
  tokens = 2000;
  token_capacity = 2000;
  refill_per_second = 2000;
  last_refill = 0;
}

abbrev busy : List Call
busy = starts 0 ∷ starts 0 ∷ starts 1 ∷ finishes ∷ starts 2000000000 ∷ starts 2000000001 ∷ []

three_made : Budget.new fixed 3 2 2000 ≡ ok three_requests
unfolding Budget.new
three_made = refl

-- Two starts, one refused, one finished, one more started and one refused.
busy-run : (run fixed three_requests 0 busy).0 ≡ 3
unfolding run Budget.try_start Budget.refill Budget.finish Budget.rate_refusal
busy-run = refl

run-new_example :
    let (started, b) = run fixed three_requests 0 busy in
    (started + b.remaining ≡ 3) × (b.in_flight ≤ 2)
run-new_example = run-new fixed 3 2 2000 three_requests busy three_made

try_start-outcome_example :
    let b = three_requests in
    let r = refill fixed b 5 in
    ((try_start fixed b 5).0 ≡ ok tt ↔ (
      (0 < b.remaining)
      × (b.in_flight < b.max_concurrency)
      × (fixed.lt r.tokens (fixed.literal 1) ≡ false)))
    × ((try_start fixed b 5).0 ≡ err (returned exhausted) ↔ (b.remaining ≡ 0))
    × ((try_start fixed b 5).0 ≡ err (returned concurrency_exceeded)
        ↔ ((0 < b.remaining) × (b.max_concurrency ≤ b.in_flight)))
    × ((try_start fixed b 5).0 ≢ ok tt → (try_start fixed b 5).1 ≡ r)
try_start-outcome_example = try_start-outcome fixed three_requests 5

-- 10.0.0.1
is_public_destination-ranges_example :
    is_public_destination (v4 0x0a000001)
    ≡ not (any (λ r. in_range r.0 r.1 0x0a000001) special_ranges)
is_public_destination-ranges_example = is_public_destination-ranges 0x0a000001 (omega arith)

-- ::ffff:8.8.8.8
abbrev mapped_address : ℕ
mapped_address = 0xffff * 2 ^ 32 + 0x08080808

is_public_destination-special_ipv6_ranges_example : is_public_destination (v6 mapped_address) ≡ (
    if in_range first_mapped last_mapped mapped_address
    then is_public_destination (v4 (mapped_address - first_mapped))
    else not (any (λ r. in_range r.0 r.1 mapped_address) special_ipv6_ranges))
is_public_destination-special_ipv6_ranges_example =
    is_public_destination-special_ipv6_ranges mapped_address (omega arith)

-- 8.8.8.8
public_address : is_public_destination (v4 0x08080808) ≡ true
unfolding is_public_destination Destination.assess_destination Destination.classify
    Destination.classify_ipv4 Destination.is_allowed Destination.in_ipv4_prefix
public_address = refl

policy_guard-weaker_example : policy_guard (v4 0x08080808) ≡ true
policy_guard-weaker_example = policy_guard-weaker (v4 0x08080808) public_address
