-- ===== src/Money.antt =====
-- The money package (money/money.go): an amount in minor units with its currency. Amounts are
-- integers in the range of int64; the arithmetic wraps as Go's does.
pub mod Arithmetic
pub mod Product
pub mod Parse
pub mod ParseValue
pub mod ParseMajor
use go_monobank_sdk.Base.{
  ℕ, ◌∷◌, ◌++◌, ◌+◌, ◌-◌, ◌*◌, ◌/◌, ◌%◌, ◌^◌, suc, ◌≡◌, Bool, true, false, not, ◌&&◌, ◌||◌, ltb,
  ◌==◌, if◌then◌else◌,
}
use go_monobank_sdk.Base.Int.{ℤ, pos, negsuc, pos_part, neg_part, sub_ℕ, ◌*ℤ◌}
use go_monobank_sdk.Base.Decimal.{Text}
use go_monobank_sdk.Base.Word.{to_u64, of_u64, int64, InInt64, ◌==ℤ◌, is_neg}

-- `currency.Code`, an ISO 4217 number.
abbrev pub Code : Type 0
Code = ℤ

pub record Money : Type 0 where
  pub minor : ℤ
  pub code : Code

pub data Error : Type 0 where
  currencies_differ overflow : Error

pub data Result {ℓ} (A : Type ℓ) : Type ℓ where
  ok : A → Result A
  err : Error → Result A

abbrev pub IsValid : Money → Type 0
IsValid m = InInt64 m.minor

unfoldable pub new : ℤ → Code → Money
new minor code = record { minor = minor; code = code }

unfoldable pub is_zero : Money → Bool
is_zero m = m.minor ==ℤ pos 0

unfoldable pub equal : Money → Money → Bool
equal m other = m.minor ==ℤ other.minor && m.code ==ℤ other.code

-- Boolean equality, as Go compares two conditions.
abbrev same : Bool → Bool → Bool
same true b = b
same false b = not b

-- `bits.Add64` and `bits.Sub64` with no carry in: the sum and the difference of two bit patterns.
abbrev pub add64 : ℕ → ℕ → ℕ
add64 a b = (a + b) % 2 ^ 64

abbrev pub sub64 : ℕ → ℕ → ℕ
sub64 a b = (a + 2 ^ 64 - b) % 2 ^ 64

unfoldable pub add : Money → Money → Result Money
add m other =
    if not (m.code ==ℤ other.code)
    then err currencies_differ
    else (let sum = add64 (to_u64 m.minor) (to_u64 other.minor) in
        if same (is_neg m.minor) (is_neg other.minor)
          && not (same (is_neg m.minor) (is_neg (of_u64 sum)))
        then err overflow
        else ok (record { minor = of_u64 sum; code = m.code }))

unfoldable pub sub : Money → Money → Result Money
sub m other =
    if not (m.code ==ℤ other.code)
    then err currencies_differ
    else (let diff = sub64 (to_u64 m.minor) (to_u64 other.minor) in
        if not (same (is_neg m.minor) (is_neg other.minor))
          && not (same (is_neg m.minor) (is_neg (of_u64 diff)))
        then err overflow
        else ok (record { minor = of_u64 diff; code = m.code }))

-- Unary minus on int64.
abbrev pub neg_int64 : ℤ → ℤ
neg_int64 z = int64 (sub_ℕ (neg_part z) (pos_part z))

unfoldable pub neg : Money → Money
neg m = record { minor = neg_int64 m.minor; code = m.code }

-- Go's integer division, which truncates towards 0.
abbrev pub quot : ℤ → ℤ → ℤ
quot (pos a) (pos b) = pos (a / b)
quot (pos a) (negsuc b) = sub_ℕ 0 (a / suc b)
quot (negsuc a) (pos b) = sub_ℕ 0 (suc a / b)
quot (negsuc a) (negsuc b) = pos (suc a / suc b)

abbrev pub min_int64 : ℤ
min_int64 = negsuc (2 ^ 63 - 1)

unfoldable pub mul : Money → ℤ → Result Money
mul m n =
    if (m.minor ==ℤ pos 0) || (n ==ℤ pos 0)
    then ok (record { minor = pos 0; code = m.code })
    else (let prod = int64 (m.minor *ℤ n) in
        if (m.minor ==ℤ min_int64 && n ==ℤ negsuc 0) || (n ==ℤ min_int64 && m.minor ==ℤ negsuc 0)
        then err overflow
        else (if not (int64 (quot prod n) ==ℤ m.minor)
            then err overflow
            else ok (record { minor = prod; code = m.code })))

-- Money.String: the decimals, the amount over ten to their power as `%.*f` prints the float, which
-- is a parameter, and the currency.
unfoldable pub string : (ℕ → ℤ → Text) → Money → Text
unfolding go_monobank_sdk.Currency.decimals go_monobank_sdk.Currency.string
string print_float m =
    print_float (go_monobank_sdk.Currency.decimals m.code) m.minor
    ++ (b' ' ∷ go_monobank_sdk.Currency.string m.code)
