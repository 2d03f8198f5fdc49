-- ===== src/Log.antt =====
-- What the LogValue methods share (bank/data.go, and the same helpers in business/logvalue.go and
-- openbanking/logvalue.go): values of log/slog, and the masks of names, accounts and identifiers.
pub mod Masks
use go_monobank_sdk.Base.{
  ℕ, zero, suc, ◌-◌, Bool, true, false, ◌&&◌, ◌||◌, Option, none, some, List, [], ◌∷◌, ◌++◌, ltb,
  leb, if◌then◌else◌, length, take, drop, replicate,
}
use go_monobank_sdk.Base.Int.{ℤ}
use go_monobank_sdk.Base.Decimal.{Text, codes}

-- slog.Value, as the methods build it.
mutual
  pub data Value : Type 0 where
    string_value : Text → Value
    int_value : ℤ → Value
    count_value time_value : ℕ → Value
    bool_value : Bool → Value
    group_value : Attrs → Value
    any_value : Values → Value

  pub data Attrs : Type 0 where
    no_attrs : Attrs
    attr : Text → Value → Attrs → Attrs

  pub data Values : Type 0 where
    no_values : Values
    value : Value → Values → Values

-- LogValue of a slice, from that of its elements.
unfoldable pub log_all : {A : Type 0} → (A → Value) → List A → Values
log_all log [] = no_values
log_all log (x ∷ xs) = value (log x) (log_all log xs)

-- UTF-8, as a range loop reads it: how many bytes the rune at the head of a text takes, 0 where
-- they are no encoding.
abbrev pub is_between : ℕ → ℕ → ℕ → Bool
is_between lo hi b = leb lo b && leb b hi

abbrev pub tail_at : ℕ → Text → Bool
tail_at zero s = true
tail_at (suc n) [] = false
tail_at (suc n) (b ∷ s) = is_between 128 191 b && tail_at n s

-- The range of the second byte.
abbrev pub second_ok : ℕ → Text → Bool
second_ok c [] = false
second_ok c (b ∷ s) =
    if is_between 224 224 c
    then is_between 160 191 b
    else (if is_between 237 237 c
        then is_between 128 159 b
        else (if is_between 240 240 c
            then is_between 144 191 b
            else (if is_between 244 244 c then is_between 128 143 b else is_between 128 191 b)))

abbrev pub lead : ℕ → ℕ
lead c =
    if is_between 194 223 c
    then 1
    else (if is_between 224 239 c then 2 else (if is_between 240 244 c then 3 else 0))

-- The bytes after the first one, of the rune at the head; `none` is an encoding error.
unfoldable pub more_bytes : ℕ → Text → Option ℕ
more_bytes c s =
    if ltb c 128
    then some 0
    else (if leb 1 (lead c) && second_ok c s && tail_at (lead c) s then some (lead c) else none)

-- A rune as its encoding; an error is U+FFFD, and takes one byte of the text.
unfoldable pub runes_from : ℕ → Text → List Text
unfolding more_bytes
runes_from skip [] = []
runes_from (suc n) (c ∷ s) = runes_from n s
runes_from zero (c ∷ s) =
    let next = λ (n : ℕ). runes_from n s in
    elim (more_bytes c s) [
      | none ↦ (239 ∷ 191 ∷ 189 ∷ []) ∷ next 0
      | some n ↦ (c ∷ take n s) ∷ next n
    ]

unfoldable pub runes : Text → List Text
unfolding runes_from
runes s = runes_from 0 s

abbrev pub stars : ℕ → Text
stars n = replicate n b'*'

abbrev pub masked : List Text → Text
masked [] = codes "*"
masked (r ∷ []) = codes "*"
masked (r ∷ q ∷ rs) = r ++ stars (suc (length rs))

unfoldable pub mask_name : Text → Text
unfolding runes
mask_name [] = []
mask_name (c ∷ s) = masked (runes (c ∷ s))

unfoldable pub redact_iban : Text → Text
redact_iban [] = []
redact_iban (c ∷ s) =
    let iban = c ∷ s in
    if leb (length iban) 6
    then codes "***"
    else take 2 iban ++ codes "***" ++ drop (length iban - 4) iban

-- redactTIN, and redactID in the other packages.
unfoldable pub redact_id : Text → Text
redact_id [] = []
redact_id (c ∷ s) = codes "***"

unfoldable pub redact_card_mask : Text → Text
redact_card_mask m =
    if leb (length m) 4 then codes "****" else codes "****" ++ drop (length m - 4) m

abbrev pub is_set : Text → Bool
is_set [] = false
is_set (c ∷ s) = true
