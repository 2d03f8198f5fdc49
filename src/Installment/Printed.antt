-- ===== src/Installment/Printed.antt =====
-- The text of an amount: its digits, and what trimming and the strip of quotes leave of it.
use go_monobank_sdk.Base.{
  ℕ, zero, suc, ◌+◌, ◌/◌, ◌%◌, ◌<◌, ◌≡◌, refl, Bool, true, ◌&&◌, ◌||◌, [], ◌∷◌, ◌++◌, arith, ◌==◌,
}
use go_monobank_sdk.Base.Decimal.{Text, is_digit, itoa_nat, digits_from}
use go_monobank_sdk.Retry.{trim_left, trim_right, trim_space}

-- Texts of digits, dots and minus signs.
abbrev pub is_plain : ℕ → Bool
is_plain c = is_digit c || (c == b'.' || c == b'-')

unfoldable pub all_plain : Text → Bool
all_plain [] = true
all_plain (c ∷ s) = is_plain c && all_plain s

pub all_plain-append : (s t : Text) → all_plain (s ++ t) ≡ all_plain s && all_plain t
unfolding all_plain
all_plain-append [] t = refl
all_plain-append (c ∷ s) t = ground (arith, all_plain-append s t)

all_plain-digits_from : (f n : ℕ) → all_plain (digits_from f n) ≡ true
unfolding digits_from all_plain
all_plain-digits_from zero n = refl
all_plain-digits_from (suc f) n = ground (
  arith,
  all_plain-digits_from f (n / 10),
  all_plain-append (digits_from f (n / 10)) ((b'0' + n % 10) ∷ []),
)

pub all_plain-itoa_nat : (n : ℕ) → all_plain (itoa_nat n) ≡ true
unfolding itoa_nat
all_plain-itoa_nat n = all_plain-digits_from (suc n) n

trim_right_plain : (s : Text) → all_plain s ≡ true → trim_right s ≡ s
unfolding trim_right all_plain
trim_right_plain [] h = refl
trim_right_plain (c ∷ []) h = ground arith
trim_right_plain (c ∷ d ∷ s) h = ground (arith, trim_right_plain (d ∷ s))

pub trim_space_plain : (s : Text) → all_plain s ≡ true → trim_space s ≡ s
unfolding trim_space trim_left all_plain
trim_space_plain [] h = refl
trim_space_plain (c ∷ s) h = ground (arith, trim_right_plain (c ∷ s))

-- Two digits.
digits_from_small : (f n : ℕ) → n < 10 → digits_from (suc f) n ≡ (b'0' + n) ∷ []
unfolding digits_from
digits_from_small f n h = ground arith

pub itoa_nat_small : (n : ℕ) → n < 10 → itoa_nat n ≡ (b'0' + n) ∷ []
unfolding itoa_nat
itoa_nat_small n h = digits_from_small n n h

pub itoa_nat_two : (n : ℕ) → n < 100 → 9 < n → itoa_nat n ≡ (b'0' + n / 10) ∷ (b'0' + n % 10) ∷ []
unfolding itoa_nat digits_from
itoa_nat_two zero h k = absurd (omega arith)
itoa_nat_two (suc n) h k = ground (arith, digits_from_small n (suc n / 10))
