-- ===== src/Currency.antt =====
-- The currency package (currency/currency.go): ISO 4217 numeric codes, their alpha-3 names and
-- their decimals. The two maps of the source are association lists with its entries in its order.
pub mod Names
use go_monobank_sdk.Base.{
  ℕ, zero, suc, ◌*◌, ◌≡◌, Bool, true, false, Option, none, some, List, [], ◌∷◌, map, ltb, ◌==◌,
  if◌then◌else◌,
}
use go_monobank_sdk.Base.Int.{ℤ, pos, negsuc}
use go_monobank_sdk.Base.Word.{◌==ℤ◌}
use go_monobank_sdk.Base.Decimal.{Text, codes, text_eq, itoa, atoi}

-- `currency.Code` is a Go int.
abbrev pub Code : Type 0
Code = ℤ

abbrev pub uah : Code
uah = pos 980

abbrev pub jpy : Code
jpy = pos 392

abbrev pub krw : Code
krw = pos 410

abbrev pub bhd : Code
bhd = pos 48

abbrev pub jod : Code
jod = pos 400

abbrev pub kwd : Code
kwd = pos 414

abbrev pub omr : Code
omr = pos 512

abbrev pub tnd : Code
tnd = pos 788

abbrev pub alpha3 : List (Code × Text)
alpha3 =
    (uah, codes "UAH")
    ∷ (pos 840, codes "USD")
    ∷ (pos 978, codes "EUR")
    ∷ (pos 826, codes "GBP")
    ∷ (pos 985, codes "PLN")
    ∷ (pos 756, codes "CHF")
    ∷ (jpy, codes "JPY")
    ∷ (pos 203, codes "CZK")
    ∷ (pos 124, codes "CAD")
    ∷ (pos 36, codes "AUD")
    ∷ (pos 156, codes "CNY")
    ∷ (bhd, codes "BHD")
    ∷ (jod, codes "JOD")
    ∷ (kwd, codes "KWD")
    ∷ (omr, codes "OMR")
    ∷ (tnd, codes "TND")
    ∷ (krw, codes "KRW")
    ∷ []

-- Reads of a map keyed by code, and of one keyed by name.
unfoldable pub by_code {ℓ} : {A : Type ℓ} → Code → List (Code × A) → Option A
by_code c [] = none
by_code c ((j, v) ∷ m) = if j ==ℤ c then some v else by_code c m

unfoldable pub by_name : Text → List (Text × Code) → Option Code
by_name s [] = none
by_name s ((t, c) ∷ m) = if text_eq t s then some c else by_name s m

-- The loop of `init`, which turns the pairs of `alpha3` round.
unfoldable pub invert : List (Code × Text) → List (Text × Code)
invert [] = []
invert ((c, t) ∷ m) = (t, c) ∷ invert m

unfoldable pub from_alpha3 : Text → Option Code
unfolding by_name invert
from_alpha3 s = by_name s (invert alpha3)

positive : Option ℤ → Option Code
positive none = none
positive (some (pos n)) = if ltb 0 n then some (pos n) else none
positive (some (negsuc n)) = none

-- The first answer, or the second where there is none.
abbrev pub or_else {ℓ} : {A : Type ℓ} → Option A → Option A → Option A
or_else (some a) o = some a
or_else none o = o

-- `none` is ok=false.
unfoldable pub parse : Text → Option Code
unfolding positive
parse s = or_else (from_alpha3 s) (positive (atoi s))

abbrev pub text_or : Option Text → Text → Text
text_or (some s) t = s
text_or none t = t

unfoldable pub string : Code → Text
string c = text_or (by_code c alpha3) (itoa c)

abbrev pub decimals_table : List (Code × ℕ)
decimals_table = (jpy, 0) ∷ (krw, 0) ∷ (bhd, 3) ∷ (jod, 3) ∷ (kwd, 3) ∷ (omr, 3) ∷ (tnd, 3) ∷ []

abbrev pub or_two : Option ℕ → ℕ
or_two (some d) = d
or_two none = 2

unfoldable pub decimals : Code → ℕ
unfolding by_code
decimals c = or_two (by_code c decimals_table)

unfoldable pub times_ten : ℕ → ℕ → ℕ
times_ten zero p = p
times_ten (suc n) p = times_ten n (p * 10)

unfoldable pub minor_per_major : Code → ℕ
unfolding times_ten
minor_per_major c =
    let d = decimals c in
    if d == 0
    then 1
    else (if d == 1 then 10 else (if d == 2 then 100 else (if d == 3 then 1000 else times_ten d 1)))
