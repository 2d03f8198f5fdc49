-- ===== src/Currency/Names.antt =====
-- Names and codes are inverse to one another, and every code is read back from its text.
use native.Mathlib.Nat.{pow-suc}
use go_monobank_sdk.Base.{
  ℕ, suc, ◌≤◌, ◌<◌, ◌^◌, ◌*◌, zero, ◌≡◌, ◌↔◌, refl, Bool, true, false, not, ◌&&◌, ◌||◌, none, some,
  List, [], ◌∷◌, inl, inr, arith, Option-cases,
}
use go_monobank_sdk.Base.Int.{ℤ, pos, negsuc}
use go_monobank_sdk.Base.Word.{◌==ℤ◌}
use go_monobank_sdk.Base.Decimal.{
  Text, text_eq, text_eq_refl, eq_of_text_eq, is_digit, itoa, itoa_nat_head, atoi-itoa,
}
use go_monobank_sdk.Currency.{
  Code, alpha3, by_code, by_name, invert, from_alpha3, parse, string, decimals, times_ten,
  minor_per_major,
}

-- No name, and no code, stands twice in a table.
abbrev has_name : Text → List (Code × Text) → Bool
has_name s [] = false
has_name s ((c, t) ∷ m) = text_eq t s || has_name s m

abbrev has_code : Code → List (Code × Text) → Bool
has_code k [] = false
has_code k ((c, t) ∷ m) = c ==ℤ k || has_code k m

abbrev distinct : List (Code × Text) → Bool
distinct [] = true
distinct ((c, t) ∷ m) = not (has_name t m) && (not (has_code c m) && distinct m)

==ℤ-refl : (c : ℤ) → (c ==ℤ c) ≡ true
==ℤ-refl (pos n) = ground arith
==ℤ-refl (negsuc n) = ground arith

eq_of_==ℤ : (c d : ℤ) → (c ==ℤ d) ≡ true → c ≡ d
eq_of_==ℤ c d h = ground arith

has_name_of_by_code :
    (c : Code) (s : Text) (m : List (Code × Text)) → by_code c m ≡ some s → has_name s m ≡ true
unfolding by_code
has_name_of_by_code c s [] h = cc
has_name_of_by_code c s ((j, t) ∷ m) h = ground (arith, text_eq_refl t, has_name_of_by_code c s m)

has_code_of_by_name :
    (c : Code) (s : Text) (m : List (Code × Text))
    → by_name s (invert m) ≡ some c
    → has_code c m ≡ true
unfolding by_name invert
has_code_of_by_name c s [] h = cc
has_code_of_by_name c s ((j, t) ∷ m) h = ground (arith, ==ℤ-refl j, has_code_of_by_name c s m)

by_name-by_code :
    (c : Code) (s : Text) (m : List (Code × Text))
    → distinct m ≡ true
    → by_code c m ≡ some s
    → by_name s (invert m) ≡ some c
unfolding by_code by_name invert
by_name-by_code c s [] d h = cc
by_name-by_code c s ((j, t) ∷ m) d h = ground (
  arith,
  eq_of_==ℤ j c,
  text_eq_refl t,
  eq_of_text_eq t s,
  has_name_of_by_code c s m,
  by_name-by_code c s m,
)

by_code-by_name :
    (c : Code) (s : Text) (m : List (Code × Text))
    → distinct m ≡ true
    → by_name s (invert m) ≡ some c
    → by_code c m ≡ some s
unfolding by_code by_name invert
by_code-by_name c s [] d h = cc
by_code-by_name c s ((j, t) ∷ m) d h = ground (
  arith,
  eq_of_==ℤ j c,
  ==ℤ-refl j,
  eq_of_text_eq t s,
  has_code_of_by_name c s m,
  by_code-by_name c s m,
)

-- FromAlpha3 gives a code for a name exactly when the table of names has that name for the code.
pub from_alpha3_iff : (c : Code) (s : Text) → (from_alpha3 s ≡ some c) ↔ (by_code c alpha3 ≡ some s)
unfolding from_alpha3
from_alpha3_iff c s = (by_code-by_name c s alpha3 refl, by_name-by_code c s alpha3 refl)

-- Every name of the table begins with a letter.
abbrev letters_first : List (Code × Text) → Bool
letters_first [] = true
letters_first ((c, []) ∷ m) = false
letters_first ((c, a ∷ t) ∷ m) = not (is_digit a) && letters_first m

by_name_digit :
    (a : ℕ) (s : Text) (m : List (Code × Text))
    → letters_first m ≡ true
    → is_digit a ≡ true
    → by_name (a ∷ s) (invert m) ≡ none
unfolding by_name invert
by_name_digit a s [] h d = refl
by_name_digit a s ((c, []) ∷ m) h d = cc
by_name_digit a s ((c, b ∷ t) ∷ m) h d = ground (arith, by_name_digit a s m)

from_alpha3-itoa : (n : ℕ) → from_alpha3 (itoa (pos n)) ≡ none
unfolding from_alpha3 itoa
from_alpha3-itoa n = let (a, s, e, d) = itoa_nat_head n in rw e (by_name_digit a s alpha3 refl d)

-- Parse reads back what String writes, for every positive code below 2^63, known to the SDK or not.
pub parse-string : (n : ℕ) → 0 < n → n < 2 ^ 63 → parse (string (pos n)) ≡ some (pos n)
unfolding parse string
parse-string n h b = elim (Option-cases (by_code (pos n) alpha3)) [
  | inl unknown ↦ rw unknown (ground (arith, from_alpha3-itoa n, atoi-itoa (pos n)))
  | inr (s, known) ↦ rw known (ground (arith, (from_alpha3_iff (pos n) s).1 known))
]

times_ten_lem : (n p : ℕ) → times_ten n p ≡ p * 10 ^ n
unfolding times_ten
times_ten_lem zero p = omega arith
times_ten_lem (suc n) p = rw (times_ten_lem n (p * 10)) (simp pow-suc (omega arith))

decimals-le : (c : Code) → decimals c ≤ 3
unfolding decimals
decimals-le c = ground arith

-- The factor between major and minor units is the power of ten of the decimals, which are at
-- most three.
pub minor_per_major_lem : (c : Code) → (minor_per_major c ≡ 10 ^ decimals c) × (decimals c ≤ 3)
unfolding minor_per_major
minor_per_major_lem c = (ground (arith, times_ten_lem (decimals c) 1, decimals-le c), decimals-le c)
