-- ===== src/Base/Word.antt =====
-- Go's int64: an integer in range, and arithmetic that wraps around modulo 2^64.
use go_monobank_sdk.Base.{
  ℕ, ◌-◌, ◌%◌, ◌^◌, ◌≤◌, ◌<◌, ◌≡◌, Bool, true, false, ◌&&◌, arith, ltb, leb, ◌==◌, if◌then◌else◌,
}
use go_monobank_sdk.Base.Int.{ℤ, pos, negsuc, pos_part, neg_part}

-- The bit pattern of an integer (`uint64(x)`), and the integer of a bit pattern (`int64(w)`).
abbrev pub to_u64 : ℤ → ℕ
to_u64 (pos n) = n % 2 ^ 64
to_u64 (negsuc n) = 2 ^ 64 - 1 - n % 2 ^ 64

abbrev pub of_u64 : ℕ → ℤ
of_u64 w = if ltb w (2 ^ 63) then pos w else negsuc (2 ^ 64 - 1 - w)

-- What an int64 expression holds whose exact value is `z`.
abbrev pub int64 : ℤ → ℤ
int64 z = of_u64 (to_u64 z)

-- The range of int64, as a type and as a test.
abbrev pub InInt64 : ℤ → Type 0
InInt64 z = (pos_part z < 2 ^ 63) × (neg_part z ≤ 2 ^ 63)

abbrev pub in_int64 : ℤ → Bool
in_int64 z = ltb (pos_part z) (2 ^ 63) && leb (neg_part z) (2 ^ 63)

infix 50 ◌==ℤ◌
abbrev pub ◌==ℤ◌ : ℤ → ℤ → Bool
pos a ==ℤ pos b = a == b
pos a ==ℤ negsuc b = false
negsuc a ==ℤ pos b = false
negsuc a ==ℤ negsuc b = a == b

abbrev pub is_neg : ℤ → Bool
is_neg (pos n) = false
is_neg (negsuc n) = true

pub int64_of_InInt64 : (z : ℤ) → InInt64 z → int64 z ≡ z
int64_of_InInt64 (pos n) h = ground arith
int64_of_InInt64 (negsuc n) h = ground arith

pub int64-InInt64 : (z : ℤ) → InInt64 (int64 z)
int64-InInt64 (pos n) = ground arith
int64-InInt64 (negsuc n) = ground arith
