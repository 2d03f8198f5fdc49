-- ===== src/Money/ParseValue.antt =====
-- The value that ParseMajor gives to a text of digits.
use native.Mathlib.Nat.{pow-suc, mul-one}
use go_monobank_sdk.Base.{
  ℕ, zero, suc, ◌+◌, ◌-◌, ◌*◌, ◌^◌, ◌≤◌, ◌<◌, ◌≡◌, refl, sym, ap, ◌∙◌, Bool, true, false, none,
  some, [], ◌∷◌, ◌++◌, arith, if◌then◌else◌, length, take, drop,
}
use go_monobank_sdk.Base.Int.{ℤ, pos, ◌+ℤ◌, ◌*ℤ◌}
use go_monobank_sdk.Base.Word.{int64}
use go_monobank_sdk.Base.Decimal.{Text, digits_value}
use go_monobank_sdk.Currency.{Code, decimals}
use go_monobank_sdk.Money.{neg_int64}
use go_monobank_sdk.Money.Parse.{
  done, index_byte, int_loop, frac_loop, shift, split, parse_unsigned,
}

digits_value-le : (acc v : ℕ) (s : Text) → digits_value acc s ≡ some v → acc ≤ v
unfolding digits_value
digits_value-le acc v [] h = ground arith
digits_value-le acc v (c ∷ s) h = ground (arith, digits_value-le (acc * 10 + (c - b'0')) v s)

int_loop_value :
    (acc v : ℕ) (s : Text)
    → digits_value acc s ≡ some v
    → v < 2 ^ 63
    → int_loop (pos acc) s ≡ done (pos v)
unfolding int_loop digits_value
int_loop_value acc v [] h b = ground arith
int_loop_value acc v (c ∷ s) h b =
    ground (
      arith,
      digits_value-le (acc * 10 + (c - b'0')) v s,
      int_loop_value (acc * 10 + (c - b'0')) v s,
    )

frac_loop_value :
    (acc v : ℕ) (s : Text)
    → digits_value acc s ≡ some v
    → v < 2 ^ 63
    → frac_loop (pos acc) s ≡ done (pos v)
unfolding frac_loop digits_value
frac_loop_value acc v [] h b = ground arith
frac_loop_value acc v (c ∷ s) h b = ground (
  arith,
  digits_value-le (acc * 10 + (c - b'0')) v s,
  frac_loop_value (acc * 10 + (c - b'0')) v s,
)

-- Multiplying by ten on int64 loses the same multiples of 2^64 at each round.
int64_times_ten : (x : ℕ) → int64 (int64 (pos x) *ℤ pos 10) ≡ int64 (pos (x * 10))
unfolding ◌*ℤ◌
int64_times_ten x = ground arith

shift_wraps : (n x : ℕ) → shift n (int64 (pos x)) ≡ int64 (pos (x * 10 ^ n))
unfolding shift
shift_wraps zero x = ap (λ (t : ℕ). int64 (pos t)) (sym (mul-one x))
shift_wraps (suc n) x =
    ap (shift n) (int64_times_ten x)
    ∙ shift_wraps n (x * 10)
    ∙ ap (λ (t : ℕ). int64 (pos t)) (simp pow-suc (omega arith))

pow_pos : (n : ℕ) → 0 < 10 ^ n
pow_pos zero = omega arith
pow_pos (suc n) = rw (pow-suc) (omega (arith, pow_pos n))

le-mul_pow : (a n : ℕ) → a ≤ a * 10 ^ n
le-mul_pow a n = let h = pow_pos n in grind arith

pub int64_small : (x : ℕ) → x < 2 ^ 63 → int64 (pos x) ≡ pos x
int64_small x h = ground arith

shift_exact : (n x : ℕ) → x < 2 ^ 63 → x * 10 ^ n < 2 ^ 63 → shift n (pos x) ≡ pos (x * 10 ^ n)
shift_exact n x h k =
    ap (shift n) (sym (int64_small x h)) ∙ shift_wraps n x ∙ int64_small (x * 10 ^ n) k

-- A run of digits holds no dot.
index_byte-digits : (acc v : ℕ) (s : Text) → digits_value acc s ≡ some v → index_byte s b'.' ≡ none
unfolding index_byte digits_value
index_byte-digits acc v [] h = refl
index_byte-digits acc v (c ∷ s) h = ground (arith, index_byte-digits (acc * 10 + (c - b'0')) v s)

index_byte-append :
    (acc v : ℕ) (s t : Text)
    → digits_value acc s ≡ some v
    → index_byte (s ++ b'.' ∷ t) b'.' ≡ some (length s)
unfolding index_byte digits_value
index_byte-append acc v [] t h = refl
index_byte-append acc v (c ∷ s) t h =
    ground (arith, index_byte-append (acc * 10 + (c - b'0')) v s t)

take-length-append : (s t : Text) → take (length s) (s ++ t) ≡ s
take-length-append [] t = refl
take-length-append (c ∷ s) t = ap (◌∷◌ c) (take-length-append s t)

drop-length-append : (s t : Text) (c : ℕ) → drop (suc (length s)) (s ++ c ∷ t) ≡ t
drop-length-append [] t c = refl
drop-length-append (d ∷ s) t c = drop-length-append s t c

split-digits :
    (v : ℕ) (s : Text)
    → digits_value 0 s ≡ some v
    → split s ≡ record { int_part = s; frac_part = []; has_frac = false }
unfolding split
split-digits v s h = rw (index_byte-digits 0 v s h, split)

pub split-append :
    (v : ℕ) (s t : Text)
    → digits_value 0 s ≡ some v
    → split (s ++ b'.' ∷ t) ≡ record { int_part = s; frac_part = t; has_frac = true }
unfolding split
split-append v s t h =
    rw (index_byte-append 0 v s t h, split)
      (rw (take-length-append s (b'.' ∷ t), drop-length-append s t b'.') refl)

abbrev pub with_sign : Bool → ℤ → ℤ
with_sign negative z = if negative then neg_int64 z else z

pos_add : (a b : ℕ) → pos a +ℤ pos b ≡ pos (a + b)
unfolding ◌+ℤ◌
pos_add a b = ground arith

-- The fraction's part of the amount.
frac_le : (a b n : ℕ) → a + b * 10 ^ n < 2 ^ 63 → b < 2 ^ 63
frac_le a b n h = omega (arith, le-mul_pow b n)

int_le : (a b n : ℕ) → a * 10 ^ n + b < 2 ^ 63 → a < 2 ^ 63
int_le a b n h = omega (arith, le-mul_pow a n)

-- A text of digits alone is an amount in major units.
pub unsigned_digits :
    (c i : ℕ) (s : Text) (code : Code) (negative : Bool)
    → digits_value 0 (c ∷ s) ≡ some i
    → i < 2 ^ 63
    → parse_unsigned (c ∷ s) code negative
      ≡ done (record {
        minor = with_sign negative (int64 (pos (i * 10 ^ decimals code)));
        code = code;
      })
unfolding parse_unsigned
unsigned_digits c i s code negative h b =
    let shifted : shift (decimals code) (pos i) ≡ int64 (pos (i * 10 ^ decimals code)) =
      ap (shift (decimals code)) (sym (int64_small i b)) ∙ shift_wraps (decimals code) i in
    rw (split-digits i (c ∷ s) h, parse_unsigned)
      (rw (int_loop_value 0 i (c ∷ s) h b, shifted) (ground arith))

-- A text of digits, a dot and more digits.
pub unsigned_decimal :
    (i j : ℕ) (s t : Text) (code : Code) (negative : Bool)
    → digits_value 0 s ≡ some i
    → digits_value 0 t ≡ some j
    → 0 < length s + length t
    → length t ≤ decimals code
    → i * 10 ^ decimals code + j * 10 ^ (decimals code - length t) < 2 ^ 63
    → parse_unsigned (s ++ b'.' ∷ t) code negative
      ≡ done (record {
        minor =
            with_sign negative (pos (i * 10 ^ decimals code + j * 10 ^ (decimals code - length t)));
        code = code;
      })
unfolding parse_unsigned
unsigned_decimal i j s t code negative hi hj l d b =
    let d10 = decimals code in
    let e10 = decimals code - length t in
    let hi63 : i < 2 ^ 63 = int_le i (j * 10 ^ e10) d10 b in
    let hj63 : j < 2 ^ 63 = frac_le (i * 10 ^ d10) j e10 b in
    rw (split-append i s t hi, parse_unsigned)
      (rw (int_loop_value 0 i s hi hi63, frac_loop_value 0 j t hj hj63)
        (ground (
          arith,
          shift_exact d10 i hi63,
          shift_exact e10 j hj63,
          pos_add (i * 10 ^ d10) (j * 10 ^ e10),
          int64_small (i * 10 ^ d10 + j * 10 ^ e10),
        )))
