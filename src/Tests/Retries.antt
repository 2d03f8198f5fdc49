-- ===== src/Tests/Retries.antt =====
-- Retries on concrete values.
use go_monobank_sdk.Base.{
  ℕ, ◌+◌, ◌*◌, ◌^◌, ◌/◌, ◌≤◌, ◌<◌, ◌≡◌, ◌⊎◌, refl, Bool, false, Option, none, [], arith, ltb,
  if◌then◌else◌,
}
use Prim.Native.Nat.{min}
use go_monobank_sdk.Base.Int.{ℤ, pos, negsuc}
use go_monobank_sdk.Base.Decimal.{Text, codes, atoi}
use go_monobank_sdk.Retry.{
  default_retry, Outcome, failure, transient, attempts, backoff, jittered, plus, min_backoff_floor,
  grown, run, run_loop, parse_retry_after, max_retry_after,
}
use go_monobank_sdk.Retry.Backoff.{backoff_bounds}
use go_monobank_sdk.Retry.Loop.{is_transient, run_inv, run_calls}
use go_monobank_sdk.Retry.Header.{IsWait, parse_retry_after-IsWait}

abbrev no_jitter : ℕ → ℕ
no_jitter n = 0

backoff_bounds_example :
    (backoff no_jitter (pos 500_000_000) (pos 30_000_000_000) 3 ≤ 30_000_000_000)
    × (min min_backoff_floor 30_000_000_000
        ≤ backoff no_jitter (pos 500_000_000) (pos 30_000_000_000) 3)
    × (min 30_000_000_000 (500_000_000 * 2 ^ 3) / 2
        ≤ backoff no_jitter (pos 500_000_000) (pos 30_000_000_000) 3)
    × (0 < backoff no_jitter (pos 500_000_000) (pos 30_000_000_000) 3)
backoff_bounds_example =
    backoff_bounds no_jitter 500_000_000 30_000_000_000 3 (λ n h. h) (omega arith) (omega arith)
      (omega arith)

backoff_test : backoff no_jitter (pos 500_000_000) (pos 30_000_000_000) 3 ≡ 2_000_000_000
unfolding backoff grown jittered plus
backoff_test = refl

-- A server that is always busy, with a count of its calls; sleeping is free.
abbrev busy : ℕ → ℕ × Outcome ℕ
busy w = (w + 1, failure (transient (negsuc 0) 429))

abbrev nap : ℕ → ℕ → ℕ × Bool
nap d w = (w, false)

run_calls_example :
    (0 + 1 ≤ (run no_jitter busy nap default_retry 0).0)
    × ((run no_jitter busy nap default_retry 0).0 ≤ 0 + attempts default_retry)
    × ((is_transient (run no_jitter busy nap default_retry 0).1 ≡ false)
        ⊎ ((run no_jitter busy nap default_retry 0).0 ≡ 0 + attempts default_retry))
run_calls_example = run_calls no_jitter busy nap default_retry (λ n. n) (λ w. refl) (λ d w. refl) 0

run_test : (run no_jitter busy nap default_retry 0).0 ≡ 4
unfolding run run_loop
run_test = refl

-- The state is the longest sleep so far.
abbrev idle : ℕ → ℕ × Outcome ℕ
idle w = (w, failure (transient (pos 90_000_000_000) 429))

abbrev longest : ℕ → ℕ → ℕ × Bool
longest d w = (if ltb w d then d else w, false)

run_inv_example : (run no_jitter idle longest default_retry 0).0 ≤ 30_000_000_000
run_inv_example =
    run_inv no_jitter idle longest default_retry (λ w. w ≤ 30_000_000_000) (omega arith) (λ w h. h)
      (λ d w le h. longest_le d w le h) 0 (omega arith)
  where
    longest_le :
        (d w : ℕ) → d ≤ 30_000_000_000 → w ≤ 30_000_000_000 → (longest d w).0 ≤ 30_000_000_000
    longest_le d w le h = ground arith

-- A shift that int64 cannot hold ends at the ceiling.
backoff_overflow_test :
    backoff no_jitter (pos 5_000_000_000_000_000_000) (pos 30_000_000_000) 1 ≡ 15_000_000_000
unfolding backoff grown jittered plus
backoff_overflow_test = refl

-- So many seconds do not fit an int64 of nanoseconds.
parse_retry_after_test : parse_retry_after (λ s. none) (codes "9300000000") [] ≡ pos max_retry_after
unfolding parse_retry_after atoi
parse_retry_after_test = refl

abbrev no_date : Text → Option ℤ
no_date s = none

parse_retry_after-IsWait_example : IsWait (parse_retry_after no_date (codes " 60 ") [])
parse_retry_after-IsWait_example = parse_retry_after-IsWait no_date (codes " 60 ") []
