-- ===== src/Budget/Accounting.antt =====
-- What a budget keeps over any history of calls, and each outcome of `try_start`.
use bound_seal.Common.{ℕ, ◌+◌, ◌≤◌, ◌<◌, ◌≡◌, false, ◌≢◌, List, [], ◌∷◌, ok, err, arith, ◌↔◌}
use bound_seal.Std.Float.{Float64}
use bound_seal.Budget.{
  InvalidBudget, exhausted, concurrency_exceeded, invalid_configuration, returned, RequestBudget,
  new, refill, rate_refusal, try_start, finish, Call, starts, finishes, count_ok, run,
}

module _ (f : Float64) where
  refill-keeps :
      (b : RequestBudget f) (elapsed : ℕ)
      → ((refill f b elapsed).remaining ≡ b.remaining)
        × ((refill f b elapsed).max_concurrency ≡ b.max_concurrency)
        × ((refill f b elapsed).in_flight ≡ b.in_flight)
  unfolding refill
  refill-keeps b elapsed = ground arith

  -- One call of `try_start`, in the numbers that the float arithmetic does not touch.
  pub start-counts :
      (b : RequestBudget f) (elapsed : ℕ)
      → (count_ok (try_start f b elapsed).0 0 + (try_start f b elapsed).1.remaining ≡ b.remaining)
        × ((try_start f b elapsed).1.in_flight ≡ b.in_flight + count_ok (try_start f b elapsed).0 0)
        × ((try_start f b elapsed).1.max_concurrency ≡ b.max_concurrency)
        × (b.in_flight ≤ b.max_concurrency
            → (try_start f b elapsed).1.in_flight ≤ b.max_concurrency)
  unfolding try_start
  start-counts b elapsed = ground (arith, refill-keeps b elapsed)

  run-counts :
      (b : RequestBudget f) (n : ℕ) (cs : List Call)
      → b.in_flight ≤ b.max_concurrency
      → let (m, b') = run f b n cs in
        (m + b'.remaining ≡ n + b.remaining)
        × (b'.in_flight ≤ b'.max_concurrency)
        × (b'.max_concurrency ≡ b.max_concurrency)
  unfolding run finish
  run-counts b n [] h = ground arith
  run-counts b n (starts elapsed ∷ cs) h = ground (
    arith,
    start-counts b elapsed,
    run-counts (try_start f b elapsed).1 (count_ok (try_start f b elapsed).0 n) cs,
  )
  run-counts b n (finishes ∷ cs) h = ground (arith, run-counts (finish f b) n cs)

  -- From a new budget, over any history of starts and finishes, the requests started and the
  -- requests remaining add up to the configured total, and no more requests are in flight than the
  -- configured concurrency.
  pub run-new :
      (total concurrency : ℕ) (rate : f.F) (b : RequestBudget f) (cs : List Call)
      → new f total concurrency rate ≡ ok b
      → let (started, b') = run f b 0 cs in
        (started + b'.remaining ≡ total) × (b'.in_flight ≤ concurrency)
  unfolding new
  run-new total concurrency rate b cs made = ground (arith, run-counts b 0 cs)

  -- `try_start` succeeds exactly when, after the refill, a request and a place are left and the
  -- bucket does not hold less than one token; a refusal names the first of these that fails and
  -- changes nothing beyond the refill.
  pub try_start-outcome :
      (b : RequestBudget f) (elapsed : ℕ)
      → let r = refill f b elapsed in
        ((try_start f b elapsed).0 ≡ ok tt ↔ (
          (0 < b.remaining)
          × (b.in_flight < b.max_concurrency)
          × (f.lt r.tokens (f.literal 1) ≡ false)))
        × ((try_start f b elapsed).0 ≡ err (returned exhausted) ↔ (b.remaining ≡ 0))
        × ((try_start f b elapsed).0 ≡ err (returned concurrency_exceeded)
            ↔ ((0 < b.remaining) × (b.max_concurrency ≤ b.in_flight)))
        × ((try_start f b elapsed).0 ≢ ok tt → (try_start f b elapsed).1 ≡ r)
  unfolding try_start rate_refusal
  try_start-outcome b elapsed =
      let kept = refill-keeps b elapsed in
      (
        (λ h. ground (arith, kept), λ h. ground (arith, kept)),
        (λ h. ground (arith, kept), λ h. ground (arith, kept)),
        (λ h. ground (arith, kept), λ h. ground (arith, kept)),
        λ h. ground arith,
      )

  -- The configuration error comes from `new` alone.
  pub try_start-valid :
      (b : RequestBudget f) (elapsed : ℕ) (e : InvalidBudget)
      → (try_start f b elapsed).0 ≢ err (returned (invalid_configuration e))
  unfolding try_start rate_refusal
  try_start-valid b elapsed e = ground arith
