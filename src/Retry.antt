-- ===== src/Retry.antt =====
-- Automatic retries (retry.go): the loop, its backoff and the Retry-After header. Durations are
-- nanoseconds. What the caller's function and the timer do is a parameter, over a state `W`.
pub mod Backoff
pub mod Loop
pub mod Header
use go_monobank_sdk.Base.{
  ℕ, zero, suc, ◌+◌, ◌-◌, ◌*◌, ◌/◌, ◌^◌, Bool, true, false, ◌&&◌, ◌||◌, Option, none, some, List,
  [], ◌∷◌, ltb, leb, ◌==◌, if◌then◌else◌,
}
use go_monobank_sdk.Base.Int.{ℤ, pos, negsuc, pos_part}
use go_monobank_sdk.Base.Word.{int64}
use go_monobank_sdk.Base.Decimal.{Text, atoi}

abbrev pub no_retry_after : ℤ
no_retry_after = negsuc 0

pub record RetryPolicy : Type 0 where
  pub max_attempts : ℤ
  pub base_delay : ℤ
  pub max_delay : ℤ

abbrev pub default_retry : RetryPolicy
default_retry = record {
  max_attempts = pos 4;
  base_delay = pos 500_000_000;
  max_delay = pos 30_000_000_000;
}

abbrev pub min_backoff_floor : ℕ
min_backoff_floor = 50_000_000

abbrev pub max_int64 : ℕ
max_int64 = 2 ^ 63 - 1

-- `ceiling` where it is set, as an upper bound.
abbrev pub clamp_to : ℕ → ℕ → ℕ
clamp_to ceiling d = if ltb 0 ceiling && ltb ceiling d then ceiling else d

-- The delay before jitter. The shift is one of int64, guarded by the test before it.
unfoldable pub grown : ℕ → ℕ → ℕ → ℤ
grown base ceiling attempt =
    if leb 62 attempt || ltb (max_int64 / 2 ^ attempt) base
    then (if ltb 0 ceiling then pos ceiling else pos base)
    else int64 (pos (base * 2 ^ attempt))

abbrev pub at_least_one : ℕ → ℕ
at_least_one n = if n == 0 then 1 else n

-- A sum of two durations, which only what is from 0 on is read of.
unfoldable pub plus : ℕ → ℕ → ℕ
plus a b = pos_part (int64 (pos (a + b)))

-- Equal jitter of a delay, with the floor and the ceiling. `rand.Int64N` is a parameter.
unfoldable pub jittered : (ℕ → ℕ) → ℕ → ℕ → ℕ
unfolding plus
jittered rand ceiling d =
    if d == 0
    then 0
    else (let half = at_least_one (d / 2) in
        let jitter = plus half (rand half) in
        clamp_to ceiling (if ltb jitter min_backoff_floor then min_backoff_floor else jitter))

-- A duration is only compared with bounds from 0 on, so that its positive part stands for it.
unfoldable pub backoff : (ℕ → ℕ) → ℤ → ℤ → ℕ → ℕ
unfolding grown jittered
backoff rand base ceiling attempt =
    if pos_part base == 0
    then 0
    else (let c = pos_part ceiling in
        jittered rand c (clamp_to c (pos_part (grown (pos_part base) c attempt))))

-- An error: a `*transientStatus` with its retry-after hint and its cause, any other error of the
-- attempt, or the error of the context.
pub data Failure (E : Type 0) : Type 0 where
  transient : ℤ → E → Failure E
  permanent : E → Failure E
  canceled : Failure E

pub data Outcome (E : Type 0) : Type 0 where
  success : Outcome E
  failure : Failure E → Outcome E

-- The delay after a transient failure at round `i`, before and after the policy's cap.
abbrev pub hint_or_backoff : (ℕ → ℕ) → RetryPolicy → ℤ → ℕ → ℕ
hint_or_backoff rand rp (pos n) i = n
hint_or_backoff rand rp (negsuc n) i = backoff rand rp.base_delay rp.max_delay i

unfoldable pub delay : (ℕ → ℕ) → RetryPolicy → ℤ → ℕ → ℕ
delay rand rp retry_after i =
    clamp_to (pos_part rp.max_delay) (hint_or_backoff rand rp retry_after i)

-- Fewer than one attempt counts as one.
abbrev pub attempts : RetryPolicy → ℕ
attempts rp = at_least_one (pos_part rp.max_attempts)

module _ {W E : Type 0} (rand : ℕ → ℕ) (fn : W → W × Outcome E) (sleep : ℕ → W → W × Bool)
    (rp : RetryPolicy) where
  -- The round `i`, with `left` rounds after it; `sleep` answers whether the context was canceled.
  unfoldable pub run_loop : ℕ → ℕ → W → W × Outcome E
  run_loop zero i w = fn w
  run_loop (suc left) i w =
      let (w', out) = fn w in
      elim out [
        | success ↦ (w', success)
        | failure (permanent e) ↦ (w', failure (permanent e))
        | failure canceled ↦ (w', failure canceled)
        | failure (transient retry_after e) ↦
            let (w'', done) = sleep (delay rand rp retry_after i) w' in
            elim done [ true ↦ (w'', failure canceled) | false ↦ run_loop left (i + 1) w'' ]
      ]

  unfoldable pub run : W → W × Outcome E
  run w = run_loop (attempts rp - 1) 0 w

abbrev pub max_retry_after_seconds : ℕ
max_retry_after_seconds = 24 * 3600

abbrev pub max_retry_after : ℕ
max_retry_after = max_retry_after_seconds * 1_000_000_000

-- strings.TrimSpace, on ASCII.
abbrev pub is_space : ℕ → Bool
is_space c = (leb 9 c && leb c 13) || c == 32

unfoldable pub trim_left : Text → Text
trim_left [] = []
trim_left (c ∷ s) = if is_space c then trim_left s else c ∷ s

-- A character before what is left of a text.
abbrev keep_unless_blank : ℕ → Text → Text
keep_unless_blank c [] = if is_space c then [] else c ∷ []
keep_unless_blank c (d ∷ s) = c ∷ d ∷ s

unfoldable pub trim_right : Text → Text
trim_right [] = []
trim_right (c ∷ s) = keep_unless_blank c (trim_right s)

unfoldable pub trim_space : Text → Text
unfolding trim_left trim_right
trim_space s = trim_right (trim_left s)

-- A header's value, or the other's where it is blank.
abbrev pub first_text : Text → Text → Text
first_text [] t = t
first_text (c ∷ s) t = c ∷ s

-- A date, as `http.ParseTime` and `time.Until` give it: the time until then.
abbrev pub until_date : Option ℤ → ℤ
until_date none = no_retry_after
until_date (some (pos n)) = pos (if ltb max_retry_after n then max_retry_after else n)
until_date (some (negsuc n)) = pos 0

-- The product is one of int64.
abbrev pub seconds_or_date : Option ℤ → Option ℤ → ℤ
seconds_or_date (some (pos secs)) date =
    if ltb max_retry_after_seconds secs
    then pos max_retry_after
    else int64 (pos (secs * 1_000_000_000))
seconds_or_date (some (negsuc n)) date = until_date date
seconds_or_date none date = until_date date

-- `until` is the library's reading of a date.
unfoldable pub parse_value : (Text → Option ℤ) → Text → ℤ
parse_value until [] = no_retry_after
parse_value until (c ∷ s) = seconds_or_date (atoi (c ∷ s)) (until (c ∷ s))

-- The values of Retry-After and X-Rate-Limit-Retry-After-Seconds.
unfoldable pub parse_retry_after : (Text → Option ℤ) → Text → Text → ℤ
unfolding trim_space parse_value
parse_retry_after until retry_after rate_limit =
    parse_value until (first_text (trim_space retry_after) (trim_space rate_limit))
