-- ===== src/Money/Parse.antt =====
-- ParseMajor (money/money.go): a decimal text in major units, read with int64 arithmetic. The text
-- is the list of its bytes; a byte of a longer character is no digit, as its character is none.
use go_monobank_sdk.Base.{
  ℕ, zero, suc, ◌-◌, Bool, true, false, ◌&&◌, Option, none, some, [], ◌∷◌, ltb, ◌==◌, if◌then◌else◌,
  length, take, drop,
}
use go_monobank_sdk.Base.Int.{ℤ, pos, ltb_ℤ, ◌+ℤ◌, ◌*ℤ◌}
use go_monobank_sdk.Base.Word.{int64}
use go_monobank_sdk.Base.Decimal.{Text, is_digit}
use go_monobank_sdk.Currency.{Code, decimals}
use go_monobank_sdk.Money.{Money, neg_int64}

pub data ParseError : Type 0 where
  empty_text not_valid too_many_digits not_a_digit parse_overflow : ParseError

pub data Parsed {ℓ} (A : Type ℓ) : Type ℓ where
  done : A → Parsed A
  fail : ParseError → Parsed A

infixl 5 ◌>>=◌
abbrev pub ◌>>=◌ {ℓ κ} : {A : Type ℓ} {B : Type κ} → Parsed A → (A → Parsed B) → Parsed B
done a >>= f = f a
fail e >>= f = fail e

-- `none` is Go's -1.
unfoldable pub index_byte : Text → ℕ → Option ℕ
index_byte [] b = none
index_byte (c ∷ s) b =
    if c == b then some 0 else elim (index_byte s b) [ none ↦ none | some i ↦ some (suc i) ]

unfoldable pub digit : ℕ → Parsed ℕ
digit r = if is_digit r then done (r - b'0') else fail not_a_digit

-- The loop over the integer part, with its overflow check.
unfoldable pub int_loop : ℤ → Text → Parsed ℤ
unfolding digit ◌+ℤ◌ ◌*ℤ◌
int_loop minor [] = done minor
int_loop minor (r ∷ s) = elim (digit r) [
  | fail e ↦ fail e
  | done d ↦
      let next = int64 (minor *ℤ pos 10 +ℤ pos d) in
      elim (ltb_ℤ next minor) [ true ↦ fail parse_overflow | false ↦ int_loop next s ]
]

-- The loop over the fraction, which has none.
unfoldable pub frac_loop : ℤ → Text → Parsed ℤ
unfolding digit ◌+ℤ◌ ◌*ℤ◌
frac_loop frac [] = done frac
frac_loop frac (r ∷ s) = elim (digit r) [
  | fail e ↦ fail e
  | done d ↦ frac_loop (int64 (frac *ℤ pos 10 +ℤ pos d)) s
]

-- `for range n { x *= 10 }`.
unfoldable pub shift : ℕ → ℤ → ℤ
unfolding ◌*ℤ◌
shift zero x = x
shift (suc n) x = shift n (int64 (x *ℤ pos 10))

pub record Parts : Type 0 where
  pub int_part : Text
  pub frac_part : Text
  pub has_frac : Bool

unfoldable pub split : Text → Parts
unfolding index_byte
split s = elim (index_byte s b'.') [
  | some i ↦ record { int_part = take i s; frac_part = drop (suc i) s; has_frac = true }
  | none ↦ record { int_part = s; frac_part = []; has_frac = false }
]

abbrev is_empty : Text → Bool
is_empty [] = true
is_empty (c ∷ s) = false

unfoldable pub add_frac : ℕ → Parts → ℤ → Parsed ℤ
add_frac d p minor =
    if p.has_frac
    then (do
      frac ← frac_loop (pos 0) p.frac_part
      done (int64 (minor +ℤ shift (d - length p.frac_part) frac)))
    else done minor

-- What follows the sign.
unfoldable pub parse_unsigned : Text → Code → Bool → Parsed Money
unfolding add_frac
parse_unsigned s code negative =
    let p = split s in
    let d = decimals code in
    if is_empty p.int_part && is_empty p.frac_part
    then fail not_valid
    else (if ltb d (length p.frac_part) then fail too_many_digits else (do
      minor ← int_loop (pos 0) p.int_part
      total ← add_frac d p (shift d minor)
      done (record { minor = if negative then neg_int64 total else total; code = code })))

unfoldable pub parse_major : Text → Code → Parsed Money
parse_major [] code = fail empty_text
parse_major (c ∷ s) code =
    if c == b'+'
    then parse_unsigned s code false
    else (if c == b'-' then parse_unsigned s code true else parse_unsigned (c ∷ s) code false)
