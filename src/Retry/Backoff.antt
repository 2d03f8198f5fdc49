-- ===== src/Retry/Backoff.antt =====
-- Bounds of the backoff.
use Prim.Native.Nat.{min}
use native.Mathlib.Nat.{pow-suc}
use go_monobank_sdk.Base.Word.{int64, int64_of_InInt64}
use go_monobank_sdk.Base.{
  ◌+◌, ◌≡◌, ap, ◌==◌, false, ◌||◌, leb, ltb, Bool-cases, inl, inr, ℕ, zero, suc, ◌*◌, ◌/◌, ◌^◌, ◌≤◌,
  ◌<◌, arith,
}
use go_monobank_sdk.Base.Int.{pos, pos_part}
use go_monobank_sdk.Retry.{
  grown, plus, jittered, backoff, min_backoff_floor, max_int64, clamp_to, at_least_one,
}

two_pow_pos : (n : ℕ) → 0 < 2 ^ n
two_pow_pos zero = omega arith
two_pow_pos (suc n) = rw pow-suc (omega (arith, two_pow_pos n))

mul-le_of_le_div : (x a b : ℕ) → 0 < b → a ≤ x / b → a * b ≤ x
mul-le_of_le_div x a b h k = grind arith

shift_fits :
    (base attempt : ℕ)
    → base ≤ max_int64 / 2 ^ attempt
    → int64 (pos (base * 2 ^ attempt)) ≡ pos (base * 2 ^ attempt)
shift_fits base attempt h =
    let le : base * 2 ^ attempt ≤ max_int64 =
      mul-le_of_le_div max_int64 base (2 ^ attempt) (two_pow_pos attempt) h in
    int64_of_InInt64 (pos (base * 2 ^ attempt)) (omega (arith, le), omega arith)

-- The guarded shift is no less than the exact one, up to the ceiling, and it is positive.
grown-min :
    (base ceiling attempt : ℕ)
    → 0 < base
    → 0 < ceiling
    → (min ceiling (base * 2 ^ attempt) ≤ pos_part (grown base ceiling attempt))
      × (0 < pos_part (grown base ceiling attempt))
unfolding grown
grown-min base ceiling attempt hb hc =
    elim (Bool-cases (leb 62 attempt || ltb (max_int64 / 2 ^ attempt) base)) [
      | inl over ↦ rw (over) (ground arith, ground arith)
      | inr fits ↦
          let le : base ≤ max_int64 / 2 ^ attempt = ground arith in
          let p = two_pow_pos attempt in
          let q : 0 < base * 2 ^ attempt = grind arith in
          rw (fits, shift_fits base attempt le) (omega arith, q)
    ]

plus_fits : (a b : ℕ) → a + b < 2 ^ 63 → plus a b ≡ a + b
unfolding plus
plus_fits a b h = ap pos_part (int64_of_InInt64 (pos (a + b)) (omega (arith, h), omega arith))

jittered_bounds :
    (rand : ℕ → ℕ) (ceiling d : ℕ)
    → ((n : ℕ) → 0 < n → rand n < n)
    → 0 < d
    → d ≤ ceiling
    → ceiling ≤ max_int64
    → (jittered rand ceiling d ≤ ceiling)
      × (min min_backoff_floor ceiling ≤ jittered rand ceiling d)
      × (d / 2 ≤ jittered rand ceiling d)
      × (0 < jittered rand ceiling d)
unfolding jittered
jittered_bounds rand ceiling d hr hd le fc =
    let half = at_least_one (d / 2) in
    let drawn : rand half < half = hr half (ground arith) in
    let sum : plus half (rand half) ≡ half + rand half =
      plus_fits half (rand half) (ground (arith, drawn)) in
    (
      ground (arith, sum, drawn),
      ground (arith, sum, drawn),
      ground (arith, sum, drawn),
      ground (arith, sum, drawn),
    )

-- For a positive base and ceiling, the ceiling an int64, and a random source that stays below its
-- bound, the backoff at any attempt is at most the ceiling, at least the floor of 50 ms or the
-- ceiling where that is less, and at least half of what the base doubled at each attempt comes to
-- exactly, or half of the ceiling where that is less; so it is never 0, however large the attempt.
pub backoff_bounds :
    (rand : ℕ → ℕ) (base ceiling attempt : ℕ)
    → ((n : ℕ) → 0 < n → rand n < n)
    → 0 < base
    → 0 < ceiling
    → ceiling ≤ max_int64
    → (backoff rand (pos base) (pos ceiling) attempt ≤ ceiling)
      × (min min_backoff_floor ceiling ≤ backoff rand (pos base) (pos ceiling) attempt)
      × (min ceiling (base * 2 ^ attempt) / 2 ≤ backoff rand (pos base) (pos ceiling) attempt)
      × (0 < backoff rand (pos base) (pos ceiling) attempt)
unfolding backoff
backoff_bounds rand base ceiling attempt hr hb hc fc =
    let d = clamp_to ceiling (pos_part (grown base ceiling attempt)) in
    let (low, positive) = grown-min base ceiling attempt hb hc in
    let given : (base == 0) ≡ false = ground arith in
    let (a, b, c, e) =
      jittered_bounds rand ceiling d hr (ground (arith, positive)) (ground arith) fc in
    let near : min ceiling (base * 2 ^ attempt) ≤ d = ground (arith, low) in
    rw (given) (a, b, omega (arith, c, near), e)
