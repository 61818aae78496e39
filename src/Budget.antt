-- ===== src/Budget.antt =====
-- crates/nxb-budget/src/lib.rs: the request budget. A `Duration` is its nanoseconds, the rate
-- arithmetic is `f64`'s, and a panic of `Duration::from_secs_f64` is an outcome.
pub mod Accounting
use bound_seal.Common.{
  ℕ, ◌+◌, ◌-◌, ◌≡◌, Bool, true, false, not, ◌||◌, Option, none, some, List, [], ◌∷◌, ltb, leb, ◌==◌,
  if◌then◌else◌, Result, ok, err, ◌>>=◌, ◌>>◌, fail_if,
}
use bound_seal.Std.Float.{Float64}

pub data InvalidBudget : Type 0 where
  zero_total zero_concurrency bad_rate : InvalidBudget

pub data BudgetError : Type 0 where
  exhausted concurrency_exceeded : BudgetError
  rate_limited : ℕ → BudgetError
  invalid_configuration : InvalidBudget → BudgetError

-- How a call that does not succeed ends.
pub data Failure : Type 0 where
  returned : BudgetError → Failure
  panicked : Failure

module _ (f : Float64) where
  open f use {
    F, literal, is_finite, lt, le, add, sub, mul, div, min, max, as_secs_f64, from_secs_f64,
  }

  pub record RequestBudget : Type 0 where
    pub remaining : ℕ
    pub max_concurrency : ℕ
    pub in_flight : ℕ
    pub tokens : F
    pub token_capacity : F
    pub refill_per_second : F
    pub last_refill : ℕ

  -- `RequestBudget::new`
  unfoldable pub new : ℕ → ℕ → F → Result BudgetError RequestBudget
  new maximum_total_requests maximum_concurrency requests_per_second = do
    fail_if (maximum_total_requests == 0) (invalid_configuration zero_total)
    fail_if (maximum_concurrency == 0) (invalid_configuration zero_concurrency)
    fail_if (not (is_finite requests_per_second) || le requests_per_second (literal 0))
        (invalid_configuration bad_rate)
    ok (record {
      remaining = maximum_total_requests;
      max_concurrency = maximum_concurrency;
      in_flight = 0;
      tokens = max requests_per_second (literal 1);
      token_capacity = max requests_per_second (literal 1);
      refill_per_second = requests_per_second;
      last_refill = 0;
    })

  unfoldable pub refill : RequestBudget → ℕ → RequestBudget
  refill b elapsed = if leb elapsed b.last_refill then b else record b {
    tokens =
        min (add b.tokens (mul (as_secs_f64 (elapsed - b.last_refill)) b.refill_per_second))
          b.token_capacity;
    last_refill = elapsed;
  }

  -- the answer where less than one token is left
  unfoldable pub rate_refusal : RequestBudget → Failure
  rate_refusal b = elim (from_secs_f64 (div (sub (literal 1) b.tokens) b.refill_per_second)) [
    | none ↦ panicked
    | some retry_after ↦ returned (rate_limited retry_after)
  ]

  -- `try_start` after its call of `refill`
  unfoldable pub start_refilled : RequestBudget → Result Failure (Unit {0}) × RequestBudget
  start_refilled b =
      if b.remaining == 0
      then (err (returned exhausted), b)
      else if leb b.max_concurrency b.in_flight
      then (err (returned concurrency_exceeded), b)
      else if lt b.tokens (literal 1)
      then (err (rate_refusal b), b)
      else (
        ok tt,
        record b {
          tokens = sub b.tokens (literal 1);
          remaining = b.remaining - 1;
          in_flight = b.in_flight + 1;
        },
      )

  -- `RequestBudget::try_start`
  unfoldable pub try_start : RequestBudget → ℕ → Result Failure (Unit {0}) × RequestBudget
  unfolding start_refilled
  try_start b elapsed = start_refilled (refill b elapsed)

  -- `finish`; `saturating_sub` is the truncated `-`.
  unfoldable pub finish : RequestBudget → RequestBudget
  finish b = record b { in_flight = b.in_flight - 1 }

-- The calls that a client makes.
pub data Call : Type 0 where
  starts : ℕ → Call
  finishes : Call

abbrev pub count_ok {ℓ κ} : {E : Type ℓ} {A : Type κ} → Result E A → ℕ → ℕ
count_ok (ok _) n = n + 1
count_ok (err _) n = n

-- A history of calls, with the number of requests that it has started.
unfoldable pub run : (f : Float64) → RequestBudget f → ℕ → List Call → ℕ × RequestBudget f
run f b n [] = (n, b)
run f b n (starts elapsed ∷ cs) = let (r, b') = try_start f b elapsed in run f b' (count_ok r n) cs
run f b n (finishes ∷ cs) = run f (finish f b) n cs
