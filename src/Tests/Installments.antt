-- ===== src/Tests/Installments.antt =====
-- Amounts of the installment package on concrete texts.
use go_monobank_sdk.Base.{◌+◌, ◌*◌, ◌≡◌, refl, some, [], ◌∷◌, ◌++◌, arith, leb, if◌then◌else◌}
use go_monobank_sdk.Base.Int.{pos, negsuc}
use go_monobank_sdk.Base.Decimal.{codes, digits_value}
use go_monobank_sdk.Installment.{Money, string, unmarshal_json, parse_decimal_kopecks}
use go_monobank_sdk.Installment.RoundTrip.{unmarshal_json-string, parse_decimal_kopecks_tail}

abbrev refund : Money
refund = record { kopecks = negsuc 249998 }

unmarshal_json-string_example : unmarshal_json (string refund) ≡ some (negsuc 249998)
unmarshal_json-string_example = unmarshal_json-string refund (omega arith) (omega arith)

parse_decimal_kopecks_tail_example :
    parse_decimal_kopecks (codes "1" ++ (b'.' ∷ (b'0' + 2) ∷ (b'0' + 5) ∷ b'e' ∷ codes "3"))
    ≡ some (pos (1 * 100 + (2 * 10 + 5) + (if leb b'5' b'e' then 1 else 0)))
unfolding digits_value
parse_decimal_kopecks_tail_example =
    parse_decimal_kopecks_tail b'1' 1 2 5 b'e' [] (codes "3") refl (omega arith) (omega arith)
      (omega arith)
