-- ===== src/Base/Decimal.antt =====
-- Decimal numbers in text, as strconv.Itoa, Atoi and ParseInt (base 10, 64 bits) write and read
-- them. A text is the list of its bytes.
use Prim.Native.Char.{code}
use go_monobank_sdk.Base.{
  ℕ, zero, suc, ◌+◌, ◌-◌, ◌*◌, ◌/◌, ◌%◌, ◌^◌, ◌≤◌, ◌<◌, ◌≡◌, refl, Bool, true, false, ◌&&◌, Option,
  none, some, List, [], ◌∷◌, ◌++◌, String, arith, ltb, leb, ◌==◌, if◌then◌else◌, Bool-cases, inl,
  inr,
}
use go_monobank_sdk.Base.Int.{ℤ, pos, negsuc, pos_part, neg_part, sub_ℕ}

abbrev pub Text : Type 0
Text = List ℕ

-- The bytes of an ASCII literal.
abbrev pub codes : String → Text
codes String.[] = []
codes (String.◌∷◌ c s) = code c ∷ codes s

abbrev pub text_eq : Text → Text → Bool
text_eq [] [] = true
text_eq [] (d ∷ t) = false
text_eq (c ∷ s) [] = false
text_eq (c ∷ s) (d ∷ t) = c == d && text_eq s t

pub text_eq_refl : (s : Text) → text_eq s s ≡ true
text_eq_refl [] = refl
text_eq_refl (c ∷ s) = ground (arith, text_eq_refl s)

pub eq_of_text_eq : (s t : Text) → text_eq s t ≡ true → s ≡ t
eq_of_text_eq [] [] h = refl
eq_of_text_eq [] (d ∷ t) h = cc
eq_of_text_eq (c ∷ s) [] h = cc
eq_of_text_eq (c ∷ s) (d ∷ t) h = ground (arith, eq_of_text_eq s t)

abbrev pub is_digit : ℕ → Bool
is_digit c = leb b'0' c && leb c b'9'

-- Itoa of a number, with fuel that bounds its digits.
unfoldable pub digits_from : ℕ → ℕ → Text
digits_from zero n = []
digits_from (suc f) n =
    let rest = digits_from f (n / 10) in
    if ltb n 10 then (b'0' + n) ∷ [] else rest ++ (b'0' + n % 10) ∷ []

unfoldable pub itoa_nat : ℕ → Text
unfolding digits_from
itoa_nat n = digits_from (suc n) n

unfoldable pub itoa : ℤ → Text
unfolding itoa_nat
itoa (pos n) = itoa_nat n
itoa (negsuc n) = b'-' ∷ itoa_nat (suc n)

-- The value of a run of digits; `none` where a byte is no digit.
unfoldable pub digits_value : ℕ → Text → Option ℕ
digits_value acc [] = some acc
digits_value acc (c ∷ s) =
    let rest = digits_value (acc * 10 + (c - b'0')) s in if is_digit c then rest else none

-- Atoi: an optional sign, then at least one digit, and a value in the range of int64.
abbrev unsigned : Text → Option ℕ
unsigned [] = none
unsigned (c ∷ s) = digits_value 0 (c ∷ s)

abbrev in_range_pos : Option ℕ → Option ℤ
in_range_pos none = none
in_range_pos (some n) = if ltb n (2 ^ 63) then some (pos n) else none

abbrev in_range_neg : Option ℕ → Option ℤ
in_range_neg none = none
in_range_neg (some n) = if leb n (2 ^ 63) then some (sub_ℕ 0 n) else none

unfoldable pub atoi : Text → Option ℤ
unfolding digits_value
atoi [] = none
atoi (c ∷ s) =
    if c == b'-'
    then in_range_neg (unsigned s)
    else (if c == b'+' then in_range_pos (unsigned s) else in_range_pos (unsigned (c ∷ s)))

-- A run followed by one more digit.
digits_value-snoc :
    (acc d v : ℕ) (s : Text)
    → digits_value acc s ≡ some v
    → d < 10
    → digits_value acc (s ++ (b'0' + d) ∷ []) ≡ some (v * 10 + d)
unfolding digits_value
digits_value-snoc acc d v [] h hd = ground arith
digits_value-snoc acc d v (c ∷ s) h hd =
    ground (arith, digits_value-snoc (acc * 10 + (c - b'0')) d v s)

digits_value-digits_from : (f n : ℕ) → n < f → digits_value 0 (digits_from f n) ≡ some n
unfolding digits_value digits_from
digits_value-digits_from zero n h = absurd (omega arith)
digits_value-digits_from (suc f) n h = elim (Bool-cases (ltb n 10)) [
  | inl small ↦ rw small (ground arith)
  | inr more ↦ rw more (
      ground (
        arith,
        digits_value-snoc 0 (n % 10) (n / 10) (digits_from f (n / 10)),
        digits_value-digits_from f (n / 10),
      ))
]

-- The text of a number begins with a digit.
digits_from_head :
    (f n : ℕ) → n < f → (c : ℕ) × (s : Text) × (digits_from f n ≡ c ∷ s) × (is_digit c ≡ true)
unfolding digits_from
digits_from_head zero n h = absurd (omega arith)
digits_from_head (suc f) n h = elim (Bool-cases (ltb n 10)) [
  | inl small ↦ rw small (b'0' + n, [], refl, ground arith)
  | inr more ↦ rw more (
      let (c, s, e, d) = digits_from_head f (n / 10) (ground arith) in
      (c, s ++ (b'0' + n % 10) ∷ [], rw e, d))
]

pub itoa_nat_head : (n : ℕ) → (c : ℕ) × (s : Text) × (itoa_nat n ≡ c ∷ s) × (is_digit c ≡ true)
unfolding itoa_nat
itoa_nat_head n = digits_from_head (suc n) n (omega arith)

pub digits_value-itoa_nat : (n : ℕ) → digits_value 0 (itoa_nat n) ≡ some n
unfolding itoa_nat
digits_value-itoa_nat n = digits_value-digits_from (suc n) n (omega arith)

unsigned-itoa_nat : (n : ℕ) → unsigned (itoa_nat n) ≡ some n
unsigned-itoa_nat n =
    let (c, s, e, d) = itoa_nat_head n in ground (arith, digits_value-itoa_nat n, e)

-- Atoi reads back what Itoa writes, for every int64.
pub atoi-itoa : (z : ℤ) → (pos_part z < 2 ^ 63) × (neg_part z ≤ 2 ^ 63) → atoi (itoa z) ≡ some z
unfolding atoi itoa
atoi-itoa (pos n) h =
    let (c, s, e, d) = itoa_nat_head n in rw e (ground (arith, unsigned-itoa_nat n))
atoi-itoa (negsuc n) h = ground (arith, unsigned-itoa_nat (suc n))
