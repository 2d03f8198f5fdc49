-- ===== src/Money/Product.antt =====
-- Money.Mul against the product of integers: the check by dividing back.
use go_monobank_sdk.Base.{
  true, Bool-cases, inl, inr, ℕ, zero, suc, false, ◌≢◌, ◌*◌, ◌/◌, ◌≤◌, ◌≡◌, arith, if◌then◌else◌,
}
use go_monobank_sdk.Base.Int.{ℤ, pos, negsuc, ◌*ℤ◌}
use go_monobank_sdk.Base.Word.{int64, int64_of_InInt64, int64-InInt64, InInt64, in_int64, ◌==ℤ◌}
use go_monobank_sdk.Money.{quot, min_int64, Money, ok, err, overflow, IsValid, mul}

mul-div : (a b : ℕ) → (a * suc b) / suc b ≡ a
mul-div a b = grind arith

div_bound : (x a b : ℕ) → x / suc b ≡ a → a * suc b ≤ x
div_bound x a b h = grind arith

-- Dividing an exact product back gives the other factor.
quot-mul : (a n : ℤ) → (n ==ℤ pos 0) ≡ false → quot (a *ℤ n) n ≡ a
unfolding ◌*ℤ◌
quot-mul (pos a) (pos zero) h = cc
quot-mul (pos a) (pos (suc n)) h = ground (arith, mul-div a n)
quot-mul (pos a) (negsuc n) h = ground (arith, mul-div a n)
quot-mul (negsuc a) (pos zero) h = cc
quot-mul (negsuc a) (pos (suc n)) h = ground (arith, mul-div (suc a) n)
quot-mul (negsuc a) (negsuc n) h = ground (arith, mul-div (suc a) n)

-- A wrapped product is not divided back to the factor.
quot_wrapped :
    (a n p : ℤ)
    → InInt64 p
    → in_int64 (a *ℤ n) ≡ false
    → p ≡ int64 (a *ℤ n)
    → (n ==ℤ pos 0) ≡ false
    → (a ==ℤ pos 0) ≡ false
    → quot p n ≢ a
unfolding ◌*ℤ◌
quot_wrapped (pos a) (pos zero) p hp out e hn ha q = cc
quot_wrapped (pos a) (pos (suc n)) (pos p) hp out e hn ha q = ground (arith, div_bound p a n)
quot_wrapped (pos a) (pos (suc n)) (negsuc p) hp out e hn ha q =
    ground (arith, div_bound (suc p) a n)
quot_wrapped (pos a) (negsuc n) (pos p) hp out e hn ha q = ground (arith, div_bound p a n)
quot_wrapped (pos a) (negsuc n) (negsuc p) hp out e hn ha q = ground (arith, div_bound (suc p) a n)
quot_wrapped (negsuc a) (pos zero) p hp out e hn ha q = cc
quot_wrapped (negsuc a) (pos (suc n)) (pos p) hp out e hn ha q =
    ground (arith, div_bound p (suc a) n)
quot_wrapped (negsuc a) (pos (suc n)) (negsuc p) hp out e hn ha q =
    ground (arith, div_bound (suc p) (suc a) n)
quot_wrapped (negsuc a) (negsuc n) (pos p) hp out e hn ha q = ground (arith, div_bound p (suc a) n)
quot_wrapped (negsuc a) (negsuc n) (negsuc p) hp out e hn ha q =
    ground (arith, div_bound (suc p) (suc a) n)

quot_bound : (x b : ℕ) → x / suc b ≤ x
quot_bound x b = grind arith

quot_half : (x b : ℕ) → x / suc (suc b) * 2 ≤ x
quot_half x b = grind arith

-- A quotient of an int64 is one, but for the least int64 divided by -1.
quot-InInt64 :
    (p n : ℤ) → InInt64 p → (n ==ℤ pos 0) ≡ false → (n ==ℤ negsuc 0) ≡ false → InInt64 (quot p n)
quot-InInt64 (pos p) (pos (suc n)) hp h0 h = ground (arith, quot_bound p n)
quot-InInt64 (pos p) (pos zero) hp h0 h = cc
quot-InInt64 (pos p) (negsuc n) hp h0 h = ground (arith, quot_bound p n)
quot-InInt64 (negsuc p) (pos (suc n)) hp h0 h = ground (arith, quot_bound (suc p) n)
quot-InInt64 (negsuc p) (pos zero) hp h0 h = cc
quot-InInt64 (negsuc p) (negsuc zero) hp h0 h = cc
quot-InInt64 (negsuc p) (negsuc (suc n)) hp h0 h = ground (arith, quot_half (suc p) n)

mul_zero_left : (a n : ℤ) → (a ==ℤ pos 0) ≡ true → a *ℤ n ≡ pos 0
unfolding ◌*ℤ◌
mul_zero_left a n h = ground arith

mul_zero_right : (a n : ℤ) → (n ==ℤ pos 0) ≡ true → a *ℤ n ≡ pos 0
unfolding ◌*ℤ◌
mul_zero_right a n h = ground arith

-- Only the least int64 has a product with -1 out of range.
minus_one_out :
    (a n : ℤ) → InInt64 a → (n ==ℤ negsuc 0) ≡ true → in_int64 (a *ℤ n) ≡ false → a ≡ min_int64
unfolding ◌*ℤ◌
minus_one_out (pos a) n ha hn out = ground arith
minus_one_out (negsuc a) n ha hn out = ground arith

min_out : (a n : ℤ) → (a ==ℤ min_int64) ≡ true → (n ==ℤ negsuc 0) ≡ true → in_int64 (a *ℤ n) ≡ false
unfolding ◌*ℤ◌
min_out a n ha hn = ground arith

min_out_right :
    (a n : ℤ) → (n ==ℤ min_int64) ≡ true → (a ==ℤ negsuc 0) ≡ true → in_int64 (a *ℤ n) ≡ false
unfolding ◌*ℤ◌
min_out_right a n ha hn = ground arith

-- Mul of an amount in range by an int64 is the exact product, in the amount's currency, where the
-- product fits in int64, and an overflow error otherwise.
pub mul_lem :
    (m : Money) (n : ℤ)
    → IsValid m
    → InInt64 n
    → mul m n ≡ (
        if in_int64 (m.minor *ℤ n)
        then ok (record { minor = m.minor *ℤ n; code = m.code })
        else err overflow)
unfolding mul
mul_lem m n hm hn = elim (Bool-cases (in_int64 (m.minor *ℤ n))) [
  | inl fits ↦ rw fits (
      ground (
        arith,
        mul_zero_left m.minor n,
        mul_zero_right m.minor n,
        int64_of_InInt64 (m.minor *ℤ n),
        int64_of_InInt64 m.minor,
        quot-mul m.minor n,
        min_out m.minor n,
        min_out_right m.minor n,
      ))
  | inr out ↦ rw out (
      ground (
        arith,
        mul_zero_left m.minor n,
        mul_zero_right m.minor n,
        minus_one_out m.minor n,
        int64-InInt64 (m.minor *ℤ n),
        quot-InInt64 (int64 (m.minor *ℤ n)) n,
        int64_of_InInt64 (quot (int64 (m.minor *ℤ n)) n),
        quot_wrapped m.minor n (int64 (m.minor *ℤ n)),
      ))
]
