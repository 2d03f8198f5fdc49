-- ===== src/Tests/Amounts.antt =====
-- Amounts and currencies on concrete values.
use go_monobank_sdk.Base.{◌*◌, ◌^◌, ◌≤◌, ◌≡◌, ◌≢◌, ◌↔◌, refl, some, arith}
use go_monobank_sdk.Base.Int.{pos, negsuc, ◌+ℤ◌, ◌-ℤ◌, ◌*ℤ◌}
use go_monobank_sdk.Base.Decimal.{codes, digits_value}
use go_monobank_sdk.Currency
use go_monobank_sdk.Currency.{Code, alpha3, by_code, from_alpha3, decimals, minor_per_major}
use go_monobank_sdk.Currency.Names.{from_alpha3_iff, parse-string, minor_per_major_lem}
use go_monobank_sdk.Money.{Money, ok, err, overflow, add, sub, neg, mul}
use go_monobank_sdk.Money.Arithmetic.{add_lem, sub_lem, neg-neg}
use go_monobank_sdk.Money.Product.{mul_lem}
use go_monobank_sdk.Money.Parse.{
  done, parse_major, parse_unsigned, index_byte, digit, int_loop, frac_loop, shift, split, add_frac,
}
use go_monobank_sdk.Money.ParseMajor.{
  unmarked, minus, parse_major_decimal, parse_major_digits, parse_major_wraps,
}

abbrev hryvnia : Code
hryvnia = pos 980

abbrev dollar : Code
dollar = pos 840

abbrev yen : Code
yen = pos 392

abbrev price : Money
price = record { minor = pos 1050; code = hryvnia }

abbrev refund : Money
refund = record { minor = negsuc 99; code = hryvnia }

abbrev highest : Money
highest = record { minor = pos 9223372036854775807; code = hryvnia }

add_lem_test : add price refund ≡ ok (record { minor = pos 950; code = hryvnia })
unfolding ◌+ℤ◌
add_lem_test = add_lem price refund (omega arith, omega arith) (omega arith, omega arith)

add_overflow_test : add highest price ≡ err overflow
unfolding add ◌+ℤ◌
add_overflow_test = refl

sub_lem_test : sub price refund ≡ ok (record { minor = pos 1150; code = hryvnia })
unfolding ◌-ℤ◌
sub_lem_test = sub_lem price refund (omega arith, omega arith) (omega arith, omega arith)

neg-neg_test : neg (neg refund) ≡ refund
neg-neg_test = neg-neg refund (omega arith, omega arith)

mul_lem_example : mul refund (pos 3) ≡ ok (record { minor = negsuc 299; code = hryvnia })
unfolding ◌*ℤ◌
mul_lem_example = mul_lem refund (pos 3) (omega arith, omega arith) (omega arith, omega arith)

mul_overflow_test : mul highest (pos 2) ≡ err overflow
unfolding mul ◌*ℤ◌
mul_overflow_test = refl

parse_major_decimal_example :
    parse_major (codes "-10.5") hryvnia ≡ done (record { minor = negsuc 1049; code = hryvnia })
unfolding decimals digits_value
parse_major_decimal_example =
    parse_major_decimal minus 10 5 (codes "10") (codes "5") hryvnia refl refl (omega arith)
      (omega arith) (omega arith)

parse_major_digits_test :
    parse_major (codes "42") yen ≡ done (record { minor = pos 42; code = yen })
unfolding decimals digits_value
parse_major_digits_test = parse_major_digits unmarked b'4' 42 (codes "2") yen refl (omega arith)

-- 184467440737095517 hryvnia is read as 84 kopiykas.
parse_major_wraps_test :
    parse_major (codes "184467440737095517") hryvnia
    ≡ done (record { minor = pos 84; code = hryvnia })
unfolding parse_major parse_unsigned index_byte digit int_loop frac_loop shift split add_frac
    decimals
parse_major_wraps_test = refl

parse_major_wraps_example :
    (m : Money) × (parse_major (codes "184467440737095517") hryvnia ≡ done m)
    × (m.minor ≢ pos (184467440737095517 * 10 ^ decimals hryvnia))
unfolding decimals digits_value
parse_major_wraps_example =
    parse_major_wraps b'1' 184467440737095517 (codes "84467440737095517") hryvnia refl (omega arith)
      (omega arith)

from_alpha3_iff_test :
    (from_alpha3 (codes "UAH") ≡ some hryvnia) ↔ (by_code hryvnia alpha3 ≡ some (codes "UAH"))
from_alpha3_iff_test = from_alpha3_iff hryvnia (codes "UAH")

parse-string_example : Currency.parse (Currency.string hryvnia) ≡ some hryvnia
parse-string_example = parse-string 980 (omega arith) (omega arith)

minor_per_major_lem_test : (minor_per_major yen ≡ 10 ^ decimals yen) × (decimals yen ≤ 3)
minor_per_major_lem_test = minor_per_major_lem yen
