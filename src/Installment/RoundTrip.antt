-- ===== src/Installment/RoundTrip.antt =====
-- UnmarshalJSON reads back what MarshalJSON writes; and what it makes of a longer fraction.
use mathlib.Core.Path.{subst}
use go_monobank_sdk.Base.{
  ℕ, suc, ◌+◌, ◌*◌, ◌/◌, ◌%◌, ◌^◌, ◌<◌, ◌≡◌, refl, sym, ap, ◌∙◌, inl, inr, Bool, true, false, some,
  [], ◌∷◌, ◌++◌, arith, ltb, leb, if◌then◌else◌, Bool-cases,
}
use go_monobank_sdk.Base.Int.{ℤ, pos, negsuc, pos_part, neg_part, ◌+ℤ◌, ◌*ℤ◌}
use go_monobank_sdk.Base.Word.{int64}
use go_monobank_sdk.Base.Decimal.{
  Text, is_digit, itoa, itoa_nat, itoa_nat_head, digits_value, digits_value-itoa_nat, atoi,
  atoi-itoa,
}
use go_monobank_sdk.Money.{neg_int64}
use go_monobank_sdk.Money.ParseValue.{split-append}
use go_monobank_sdk.Installment.{
  Money, string, pad, fraction, with_sign, total, parse_unsigned, parse_decimal_kopecks,
  strip_quotes, unmarshal_json, ◌>>=◌,
}
use go_monobank_sdk.Installment.Printed.{
  all_plain, all_plain-append, all_plain-itoa_nat, trim_space_plain, itoa_nat_small, itoa_nat_two,
}

abbrev two_digits : ℕ → Text
two_digits k = (b'0' + k / 10) ∷ (b'0' + k % 10) ∷ []

pad-itoa_nat : (k : ℕ) → k < 100 → pad (itoa_nat k) ≡ two_digits k
pad-itoa_nat k h = elim (Bool-cases (ltb k 10)) [
  | inl small ↦ rw (itoa_nat_small k (ground arith)) (ground arith)
  | inr more ↦ rw (itoa_nat_two k h (ground arith)) refl
]

atoi-two_digits : (k : ℕ) → k < 100 → atoi (two_digits k) ≡ some (pos k)
unfolding atoi digits_value
atoi-two_digits k h = ground arith

-- The text of a number of kopecks.
abbrev amount : ℕ → Text
amount n = itoa_nat (n / 100) ++ (b'.' ∷ pad (itoa_nat (n % 100)))

hundreds : (n : ℕ) → n < 2 ^ 63 → int64 (int64 (pos (n / 100) *ℤ pos 100) +ℤ pos (n % 100)) ≡ pos n
unfolding ◌+ℤ◌ ◌*ℤ◌
hundreds n h = ground arith

-- The same after the split at the dot.
parse_unsigned_head :
    (neg : Bool) (c : ℕ) (s t : Text) (v : ℕ)
    → digits_value 0 (c ∷ s) ≡ some v
    → parse_unsigned neg ((c ∷ s) ++ (b'.' ∷ t))
      ≡ (atoi (c ∷ s) >>= λ hr. fraction t >>= λ kop. total neg hr kop)
unfolding parse_unsigned
parse_unsigned_head neg c s t v h = rw (split-append v (c ∷ s) t h) refl

parse_unsigned_digits :
    (neg : Bool) (c : ℕ) (s : Text) (v k : ℕ)
    → digits_value 0 (c ∷ s) ≡ some v
    → atoi (c ∷ s) ≡ some (pos v)
    → k < 100
    → parse_unsigned neg ((c ∷ s) ++ (b'.' ∷ two_digits k)) ≡ total neg (pos v) (pos k)
unfolding fraction
parse_unsigned_digits neg c s v k h a lt =
    parse_unsigned_head neg c s (two_digits k) v h ∙ rw (a, atoi-two_digits k lt) refl

-- The digits of a number, as a text that is not empty.
record Digits (v : ℕ) : Type 0 where
  head : ℕ
  tail : Text
  same : itoa_nat v ≡ head ∷ tail
  digit : is_digit head ≡ true
  value : digits_value 0 (head ∷ tail) ≡ some v
  read : v < 2 ^ 63 → atoi (head ∷ tail) ≡ some (pos v)

itoa_nat-Digits : (v : ℕ) → Digits v
unfolding itoa
itoa_nat-Digits v =
    let (c, s, e, d) = itoa_nat_head v in
    record {
      head = c;
      tail = s;
      same = e;
      digit = d;
      value = subst (λ (w : Text). digits_value 0 w ≡ some v) e (digits_value-itoa_nat v);
      read =
          λ h. subst (λ (w : Text). atoi w ≡ some (pos v)) e (atoi-itoa (pos v) (h, omega arith));
    }

parse_unsigned-amount :
    (neg : Bool) (n : ℕ) → n < 2 ^ 63 → parse_unsigned neg (amount n) ≡ some (with_sign neg (pos n))
parse_unsigned-amount neg n h =
    let d = itoa_nat-Digits (n / 100) in
    rw (pad-itoa_nat (n % 100) (omega arith)) (
      subst
        (λ (w : Text).
          parse_unsigned neg (w ++ (b'.' ∷ two_digits (n % 100))) ≡ some (with_sign neg (pos n)))
        (sym d.same)
        (parse_unsigned_digits neg d.head d.tail (n / 100) (n % 100) d.value (d.read (omega arith))
            (omega arith)
          ∙ ap (λ (z : ℤ). some (with_sign neg z)) (hundreds n h)))

-- A plain text other than null stands for itself.
unmarshal_json_plain :
    (c : ℕ) (s : Text)
    → all_plain (c ∷ s) ≡ true
    → unmarshal_json (c ∷ s) ≡ parse_decimal_kopecks (c ∷ s)
unfolding unmarshal_json strip_quotes all_plain
unmarshal_json_plain c s h = rw (trim_space_plain (c ∷ s) h) (ground arith)

all_plain-amount : (n : ℕ) → all_plain (amount n) ≡ true
unfolding all_plain
all_plain-amount n = rw (pad-itoa_nat (n % 100) (omega arith)) (
    ground (
      arith,
      all_plain-append (itoa_nat (n / 100)) (b'.' ∷ two_digits (n % 100)),
      all_plain-itoa_nat (n / 100),
    ))

-- A text that begins with a digit has no sign.
parse_decimal_kopecks_digit :
    (c : ℕ) (s : Text)
    → is_digit c ≡ true
    → parse_decimal_kopecks (c ∷ s) ≡ parse_unsigned false (c ∷ s)
unfolding parse_decimal_kopecks
parse_decimal_kopecks_digit c s h = ground arith

unmarshal_json-amount : (n : ℕ) → n < 2 ^ 63 → unmarshal_json (amount n) ≡ some (pos n)
unmarshal_json-amount n h =
    let d = itoa_nat-Digits (n / 100) in
    let rest = b'.' ∷ pad (itoa_nat (n % 100)) in
    subst
      (λ (w : Text).
        all_plain (w ++ rest) ≡ true
        → parse_unsigned false (w ++ rest) ≡ some (pos n)
        → unmarshal_json (w ++ rest) ≡ some (pos n))
      (sym d.same)
      (λ plain value.
        unmarshal_json_plain d.head (d.tail ++ rest) plain
        ∙ parse_decimal_kopecks_digit d.head (d.tail ++ rest) d.digit
        ∙ value)
      (all_plain-amount n) (parse_unsigned-amount false n h)

unmarshal_json-negative :
    (n : ℕ) → n < 2 ^ 63 → unmarshal_json (b'-' ∷ amount n) ≡ some (neg_int64 (pos n))
unfolding parse_decimal_kopecks all_plain
unmarshal_json-negative n h =
    unmarshal_json_plain b'-' (amount n) (ground (arith, all_plain-amount n))
    ∙ parse_unsigned-amount true n h

kopecks_roundtrip :
    (z : ℤ)
    → pos_part z < 2 ^ 63
    → neg_part z < 2 ^ 63
    → unmarshal_json (string (record { kopecks = z })) ≡ some z
unfolding string itoa
kopecks_roundtrip (pos n) h k = unmarshal_json-amount n h
kopecks_roundtrip (negsuc n) h k =
    let abs : neg_int64 (negsuc n) ≡ pos (suc n) = ground arith in
    let back : neg_int64 (pos (suc n)) ≡ negsuc n = ground arith in
    rw abs (unmarshal_json-negative (suc n) k ∙ ap some back)

-- UnmarshalJSON reads back what MarshalJSON writes, for every amount of kopecks above the least int64.
pub unmarshal_json-string :
    (m : Money)
    → pos_part m.kopecks < 2 ^ 63
    → neg_part m.kopecks < 2 ^ 63
    → unmarshal_json (string m) ≡ some m.kopecks
unmarshal_json-string m h k = kopecks_roundtrip m.kopecks h k

digit_of_value : (c i : ℕ) (s : Text) → digits_value 0 (c ∷ s) ≡ some i → is_digit c ≡ true
unfolding digits_value
digit_of_value c i s h = ground arith

atoi_of_value :
    (c i : ℕ) (s : Text)
    → digits_value 0 (c ∷ s) ≡ some i
    → i < 2 ^ 63
    → atoi (c ∷ s) ≡ some (pos i)
unfolding atoi
atoi_of_value c i s h b = ground (arith, digit_of_value c i s h)

atoi_two :
    (x y : ℕ) → x < 10 → y < 10 → atoi ((b'0' + x) ∷ (b'0' + y) ∷ []) ≡ some (pos (x * 10 + y))
unfolding atoi digits_value
atoi_two x y hx hy = ground arith

fraction_longer :
    (x y r : ℕ) (rest : Text)
    → x < 10
    → y < 10
    → fraction ((b'0' + x) ∷ (b'0' + y) ∷ r ∷ rest)
      ≡ some (pos (x * 10 + y + (if leb b'5' r then 1 else 0)))
unfolding fraction ◌+ℤ◌
fraction_longer x y r rest hx hy = rw (atoi_two x y hx hy) (ground arith)

total_in_range :
    (i k : ℕ) → i * 100 + k < 2 ^ 63 → total false (pos i) (pos k) ≡ some (pos (i * 100 + k))
unfolding ◌+ℤ◌ ◌*ℤ◌
total_in_range i k h = ground arith

-- Of a number with digits, a dot, two digits and more, UnmarshalJSON's parser looks at the first
-- byte of what is more and at nothing after it: the amount is that of the two digits, and a kopeck
-- more where that byte is not below the digit 5, as a letter is not. So 1.25e3 is read as 1.26.
pub parse_decimal_kopecks_tail :
    (c i x y r : ℕ) (s rest : Text)
    → digits_value 0 (c ∷ s) ≡ some i
    → x < 10
    → y < 10
    → i * 100 + 100 < 2 ^ 63
    → parse_decimal_kopecks ((c ∷ s) ++ (b'.' ∷ (b'0' + x) ∷ (b'0' + y) ∷ r ∷ rest))
      ≡ some (pos (i * 100 + (x * 10 + y) + (if leb b'5' r then 1 else 0)))
parse_decimal_kopecks_tail c i x y r s rest h hx hy fits =
    let up : ℕ = if leb b'5' r then 1 else 0 in
    parse_decimal_kopecks_digit c (s ++ (b'.' ∷ (b'0' + x) ∷ (b'0' + y) ∷ r ∷ rest))
      (digit_of_value c i s h)
    ∙ parse_unsigned_head false c s ((b'0' + x) ∷ (b'0' + y) ∷ r ∷ rest) i h
    ∙ rw (atoi_of_value c i s h (omega arith), fraction_longer x y r rest hx hy)
        (total_in_range i (x * 10 + y + up) (ground arith) ∙ ground arith)
