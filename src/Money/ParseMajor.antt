-- ===== src/Money/ParseMajor.antt =====
-- ParseMajor on whole texts: the exact amount where it fits, and what becomes of a larger one.
use go_monobank_sdk.Base.{
  ℕ, ◌+◌, ◌-◌, ◌*◌, ◌^◌, ◌≤◌, ◌<◌, ◌≡◌, ◌≢◌, Bool, true, false, some, [], ◌∷◌, ◌++◌, arith, length,
}
use go_monobank_sdk.Base.Int.{pos}
use go_monobank_sdk.Base.Word.{int64}
use go_monobank_sdk.Base.Decimal.{Text, digits_value}
use go_monobank_sdk.Currency.{Code, decimals}
use go_monobank_sdk.Money.{Money}
use go_monobank_sdk.Money.Parse.{done, parse_major}
use go_monobank_sdk.Money.ParseValue.{with_sign, unsigned_digits, unsigned_decimal}

-- The optional sign of a text.
pub data Sign : Type 0 where
  unmarked plus minus : Sign

abbrev pub sign_text : Sign → Text
sign_text unmarked = []
sign_text plus = b'+' ∷ []
sign_text minus = b'-' ∷ []

abbrev pub is_minus : Sign → Bool
is_minus minus = true
is_minus _ = false

-- A text of an optional sign, digits, a dot and at most as many digits as the currency has
-- decimals, with a digit somewhere, is read as exactly the amount that it writes, where that is
-- below 2^63.
pub parse_major_decimal :
    (g : Sign) (i j : ℕ) (s t : Text) (code : Code)
    → digits_value 0 s ≡ some i
    → digits_value 0 t ≡ some j
    → 0 < length s + length t
    → length t ≤ decimals code
    → i * 10 ^ decimals code + j * 10 ^ (decimals code - length t) < 2 ^ 63
    → parse_major (sign_text g ++ (s ++ b'.' ∷ t)) code
      ≡ done (record {
        minor =
            with_sign
              (is_minus g)
              (pos (i * 10 ^ decimals code + j * 10 ^ (decimals code - length t)));
        code = code;
      })
unfolding parse_major
parse_major_decimal plus i j s t code hi hj l d b = unsigned_decimal i j s t code false hi hj l d b
parse_major_decimal minus i j s t code hi hj l d b = unsigned_decimal i j s t code true hi hj l d b
parse_major_decimal unmarked i j [] t code hi hj l d b =
    unsigned_decimal i j [] t code false hi hj l d b
parse_major_decimal unmarked i j (c ∷ s) t code hi hj l d b =
    unfold digits_value in ground (arith, unsigned_decimal i j (c ∷ s) t code false hi hj l d b)

-- A text of an optional sign and digits whose value is below 2^63 is never refused: the amount is
-- the value in minor units, wrapped around to an int64.
pub parse_major_digits :
    (g : Sign) (c i : ℕ) (s : Text) (code : Code)
    → digits_value 0 (c ∷ s) ≡ some i
    → i < 2 ^ 63
    → parse_major (sign_text g ++ (c ∷ s)) code
      ≡ done (record {
        minor = with_sign (is_minus g) (int64 (pos (i * 10 ^ decimals code)));
        code = code;
      })
unfolding parse_major
parse_major_digits plus c i s code h b = unsigned_digits c i s code false h b
parse_major_digits minus c i s code h b = unsigned_digits c i s code true h b
parse_major_digits unmarked c i s code h b =
    unfold digits_value in ground (arith, unsigned_digits c i s code false h b)

wrapped_ne : (x : ℕ) → 2 ^ 63 ≤ x → int64 (pos x) ≢ pos x
wrapped_ne x h = ground arith

-- An unsigned text of digits whose value fits into an int64 in major units, and does not in minor
-- units, is accepted with another amount than it writes.
pub parse_major_wraps :
    (c i : ℕ) (s : Text) (code : Code)
    → digits_value 0 (c ∷ s) ≡ some i
    → i < 2 ^ 63
    → 2 ^ 63 ≤ i * 10 ^ decimals code
    → (m : Money) × (parse_major (c ∷ s) code ≡ done m) × (m.minor ≢ pos (i * 10 ^ decimals code))
parse_major_wraps c i s code h b big = (
  record { minor = int64 (pos (i * 10 ^ decimals code)); code = code },
  parse_major_digits unmarked c i s code h b,
  wrapped_ne (i * 10 ^ decimals code) big,
)
