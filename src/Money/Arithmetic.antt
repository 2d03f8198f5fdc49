-- ===== src/Money/Arithmetic.antt =====
-- Money.Add, Sub and Neg against the integers.
use go_monobank_sdk.Base.{◌≡◌, arith, if◌then◌else◌}
use go_monobank_sdk.Base.Int.{◌+ℤ◌, ◌-ℤ◌}
use go_monobank_sdk.Base.Word.{in_int64, ◌==ℤ◌}
use go_monobank_sdk.Money.{Money, ok, err, currencies_differ, overflow, IsValid, add, sub, neg}

-- For two amounts in range, Add refuses different currencies, gives the exact sum when it fits
-- into an int64, and reports an overflow exactly when it does not.
pub add_lem :
    (m o : Money)
    → IsValid m
    → IsValid o
    → add m o ≡ (
        if m.code ==ℤ o.code
        then (if in_int64 (m.minor +ℤ o.minor)
            then ok (record { minor = m.minor +ℤ o.minor; code = m.code })
            else err overflow)
        else err currencies_differ)
unfolding add ◌+ℤ◌
add_lem m o hm ho = ground arith

-- Sub of two amounts in range is the exact difference in their common currency, where it fits in
-- int64; otherwise an overflow error; and an error where the currencies differ.
pub sub_lem :
    (m o : Money)
    → IsValid m
    → IsValid o
    → sub m o ≡ (
        if m.code ==ℤ o.code
        then (if in_int64 (m.minor -ℤ o.minor)
            then ok (record { minor = m.minor -ℤ o.minor; code = m.code })
            else err overflow)
        else err currencies_differ)
unfolding sub ◌-ℤ◌
sub_lem m o hm ho = ground arith

-- Neg twice gives the amount back, for every amount in range.
pub neg-neg : (m : Money) → IsValid m → neg (neg m) ≡ m
unfolding neg
neg-neg m h = ground arith
