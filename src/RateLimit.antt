-- ===== src/RateLimit.antt =====
-- Limiter and KeyedLimiter (ratelimit.go). Arithmetic on float64 is a parameter. A time is a count of
-- nanoseconds. The limiters that the buckets point to stand in a heap, since a caller that waits on
-- one keeps its pointer when the sweeper drops the bucket.
pub mod Keys
pub mod Isolation
use go_monobank_sdk.Base.{
  ℕ, zero, suc, ◌+◌, ◌-◌, Bool, true, false, not, ◌&&◌, Option, none, some, List, [], ◌∷◌, ◌++◌,
  ltb, leb, if◌then◌else◌, length, get_or, set,
}
use go_monobank_sdk.Base.Int.{ℤ, pos, negsuc, sub_ℕ, ltb_ℤ}
use go_monobank_sdk.Base.Decimal.{Text, text_eq}

-- float64: the conversions from integers, the arithmetic, the order, and the truncation to a
-- Duration.
pub record Floats : Type 1 where
  pub F : Type 0
  pub of_int : ℤ → F
  pub add : F → F → F
  pub sub : F → F → F
  pub mul : F → F → F
  pub div : F → F → F
  pub lt : F → F → Bool
  pub le : F → F → Bool
  pub to_duration : F → ℤ

-- A turn of Wait: the clock's reading, and whether the context ends before the timer.
pub record Moment : Type 0 where
  pub now : ℕ
  pub cancelled : Bool

pub data Waited : Type 0 where
  granted cancelled waiting : Waited

-- At least one, as NewLimiter and NewKeyedLimiter have it.
abbrev pub burst_or_one : ℤ → ℤ
burst_or_one b = if ltb_ℤ b (pos 1) then pos 1 else b

pub record Bucket : Type 0 where
  pub lim : ℕ
  pub last_access : ℕ

module _ (fl : Floats) where
  pub record Limiter : Type 0 where
    pub every : ℤ
    pub burst : ℤ
    pub tokens : fl.F
    pub last : ℕ

  unfoldable pub new_limiter : ℤ → ℤ → ℕ → Limiter
  new_limiter every burst now = record {
    every = every;
    burst = burst_or_one burst;
    tokens = fl.of_int (burst_or_one burst);
    last = now;
  }

  abbrev pub capped : fl.F → fl.F → fl.F
  capped top t = if fl.lt top t then top else t

  -- The tokens at a time.
  unfoldable pub refilled : Limiter → ℕ → fl.F
  refilled l now =
      capped (fl.of_int l.burst)
        (fl.add l.tokens (fl.div (fl.of_int (sub_ℕ now l.last)) (fl.of_int l.every)))

  -- The locked part of a turn, and how long to wait where there is no token.
  unfoldable pub take_token : Limiter → ℕ → Limiter × Option ℤ
  unfolding refilled
  take_token l now =
      let t = refilled l now in
      let one = fl.of_int (pos 1) in
      if fl.le one t then (record l { tokens = fl.sub t one; last = now }, none) else (
        record l { tokens = t; last = now },
        some (fl.to_duration (fl.mul (fl.sub one t) (fl.of_int l.every))),
      )

  -- The loop of Wait, over what its turns meet.
  unfoldable pub wait_loop : List Moment → Limiter → Limiter × Waited
  unfolding take_token
  wait_loop [] l = (l, waiting)
  wait_loop (m ∷ ms) l =
      let (l', need) = take_token l m.now in
      elim need [
        | none ↦ (l', granted)
        | some d ↦ elim m.cancelled [ true ↦ (l', cancelled) | false ↦ wait_loop ms l' ]
      ]

  -- Limiter.Wait, under a context that is cancelled or not when it is called.
  unfoldable pub wait : Bool → List Moment → Limiter → Limiter × Waited
  unfolding wait_loop
  wait dead ms l =
      if dead
      then (l, cancelled)
      else (if ltb_ℤ (pos 0) l.every then wait_loop ms l else (l, granted))

  pub record KeyedLimiter : Type 0 where
    pub every : ℤ
    pub burst : ℤ
    pub idle_ttl : ℤ
    pub limiters : List (Text × Bucket)
    pub heap : List Limiter

  unfoldable pub new_keyed_limiter : ℤ → ℤ → ℤ → KeyedLimiter
  new_keyed_limiter every burst idle_ttl = record {
    every = every;
    burst = burst_or_one burst;
    idle_ttl = idle_ttl;
    limiters = [];
    heap = [];
  }

  unfoldable pub find : Text → List (Text × Bucket) → Option Bucket
  find key [] = none
  find key ((k, b) ∷ rest) = let later = find key rest in if text_eq k key then some b else later

  -- The write to lastAccess.
  unfoldable pub touch : Text → ℕ → List (Text × Bucket) → List (Text × Bucket)
  touch key now [] = []
  touch key now ((k, b) ∷ rest) =
      let later = touch key now rest in
      if text_eq k key then (k, record b { last_access = now }) ∷ rest else (k, b) ∷ later

  -- `bucket`: the limiter's place, made where the key has none.
  unfoldable pub bucket : Text → ℕ → KeyedLimiter → KeyedLimiter × ℕ
  unfolding find touch new_limiter
  bucket key now k = elim (find key k.limiters) [
    | none ↦ (
      record k {
        limiters = (key, record { lim = length k.heap; last_access = now }) ∷ k.limiters;
        heap = k.heap ++ new_limiter k.every k.burst now ∷ [];
      },
      length k.heap,
    )
    | some b ↦ (record k { limiters = touch key now k.limiters }, b.lim)
  ]

  unfoldable pub wait_key : Text → ℕ → Bool → List Moment → KeyedLimiter → KeyedLimiter × Waited
  unfolding bucket wait
  wait_key key now dead ms k =
      let (k', at) = bucket key now k in
      let (l, r) = wait dead ms (get_or k'.heap at (new_limiter k.every k.burst now)) in
      (record k' { heap = set k'.heap at l }, r)

  abbrev pub is_idle : ℤ → ℕ → Bucket → Bool
  is_idle idle_ttl now b = ltb_ℤ idle_ttl (sub_ℕ now b.last_access)

  unfoldable pub keep_used : ℤ → ℕ → List (Text × Bucket) → List (Text × Bucket)
  keep_used idle_ttl now [] = []
  keep_used idle_ttl now ((k, b) ∷ rest) =
      let later = keep_used idle_ttl now rest in
      if is_idle idle_ttl now b then later else (k, b) ∷ later

  unfoldable pub evict_idle : ℕ → KeyedLimiter → KeyedLimiter
  unfolding keep_used
  evict_idle now k = record k { limiters = keep_used k.idle_ttl now k.limiters }
