-- ===== src/Installment.antt =====
-- Amounts of the installment package (installment/money.go): a count of kopecks, its decimal text, and
-- the reading of a JSON value.
pub mod Printed
pub mod RoundTrip
use go_monobank_sdk.Base.{
  ℕ, zero, suc, ◌+◌, ◌*◌, ◌/◌, ◌%◌, Bool, true, false, ◌&&◌, Option, none, some, List, [], ◌∷◌,
  ◌++◌, ltb, leb, ◌==◌, if◌then◌else◌, length,
}
use go_monobank_sdk.Base.Int.{ℤ, pos, negsuc, sub_ℕ, ◌+ℤ◌, ◌*ℤ◌}
use go_monobank_sdk.Base.Word.{int64, is_neg}
use go_monobank_sdk.Base.Decimal.{Text, codes, text_eq, itoa, atoi}
use go_monobank_sdk.Money.{neg_int64, quot}
use go_monobank_sdk.Money.Parse.{split}
use go_monobank_sdk.Retry.{trim_space}

pub record Money : Type 0 where
  pub kopecks : ℤ

unfoldable pub new_money : ℤ → ℤ → Money
unfolding ◌+ℤ◌ ◌*ℤ◌
new_money hryvnia kopecks = record { kopecks = int64 (int64 (hryvnia *ℤ pos 100) +ℤ kopecks) }

unfoldable pub is_zero : Money → Bool
is_zero m = elim m.kopecks [ pos zero ↦ true | _ ↦ false ]

-- Go's remainder by 100 has the sign of the dividend.
abbrev pub rem_100 : ℤ → ℤ
rem_100 (pos n) = pos (n % 100)
rem_100 (negsuc n) = sub_ℕ 0 (suc n % 100)

-- `%02d`, where a sign counts for the width.
abbrev pub pad : Text → Text
pad [] = b'0' ∷ b'0' ∷ []
pad (c ∷ []) = b'0' ∷ c ∷ []
pad (c ∷ d ∷ s) = c ∷ d ∷ s

unfoldable pub string : Money → Text
unfolding itoa
string m =
    let abs = if is_neg m.kopecks then neg_int64 m.kopecks else m.kopecks in
    let digits = itoa (quot abs (pos 100)) ++ (b'.' ∷ pad (itoa (rem_100 abs))) in
    if is_neg m.kopecks then b'-' ∷ digits else digits

-- `none` is an error.
infixl 5 ◌>>=◌
abbrev pub ◌>>=◌ : {A B : Type 0} → Option A → (A → Option B) → Option B
none >>= f = none
some a >>= f = f a

-- The fraction: padded to two digits, or rounded on its third byte.
unfoldable pub fraction : Text → Option ℤ
unfolding atoi ◌+ℤ◌
fraction [] = some (pos 0)
fraction (c ∷ []) = atoi (c ∷ b'0' ∷ [])
fraction (c ∷ d ∷ []) = atoi (c ∷ d ∷ [])
fraction (c ∷ d ∷ r ∷ rest) =
    if leb b'5' r then (do k ← atoi (c ∷ d ∷ []); some (k +ℤ pos 1)) else atoi (c ∷ d ∷ [])

abbrev pub or_zero : Text → Text
or_zero [] = b'0' ∷ []
or_zero (c ∷ s) = c ∷ s

abbrev pub with_sign : Bool → ℤ → ℤ
with_sign neg z = if neg then neg_int64 z else z

abbrev pub total : Bool → ℤ → ℤ → Option ℤ
total neg hr kop =
    if is_neg hr then none else some (with_sign neg (int64 (int64 (hr *ℤ pos 100) +ℤ kop)))

-- What follows the sign.
unfoldable pub parse_unsigned : Bool → Text → Option ℤ
unfolding fraction ◌+ℤ◌ ◌*ℤ◌ split
parse_unsigned neg [] = none
parse_unsigned neg (c ∷ s) =
    let p = split (c ∷ s) in
    (do hr ← atoi (or_zero p.int_part); kop ← fraction p.frac_part; total neg hr kop)

-- The caller hands over no empty text.
unfoldable pub parse_decimal_kopecks : Text → Option ℤ
unfolding parse_unsigned
parse_decimal_kopecks [] = none
parse_decimal_kopecks (c ∷ s) =
    if c == b'+'
    then parse_unsigned false s
    else (if c == b'-' then parse_unsigned true s else parse_unsigned false (c ∷ s))

-- The text without its last byte, where that is a quote.
unfoldable pub before_quote : Text → Option Text
before_quote [] = none
before_quote (c ∷ []) = if c == b'"' then some [] else none
before_quote (c ∷ d ∷ s) = do t ← before_quote (d ∷ s); some (c ∷ t)

unfoldable pub strip_quotes : Text → Text
unfolding before_quote
strip_quotes [] = []
strip_quotes (c ∷ s) =
    if c == b'"' then elim (before_quote s) [ none ↦ c ∷ s | some t ↦ t ] else c ∷ s

abbrev pub parse_or_zero : Text → Option ℤ
parse_or_zero [] = some (pos 0)
parse_or_zero (c ∷ s) = parse_decimal_kopecks (c ∷ s)

-- UnmarshalJSON: the kopecks, or an error.
unfoldable pub unmarshal_json : Text → Option ℤ
unfolding parse_decimal_kopecks strip_quotes trim_space
unmarshal_json bytes =
    let s = trim_space bytes in
    if text_eq s (codes "null") then some (pos 0) else parse_or_zero (strip_quotes s)
