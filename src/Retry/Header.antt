-- ===== src/Retry/Header.antt =====
-- The Retry-After header: whatever the server sends, the wait is bounded.
use go_monobank_sdk.Base.{
  ℕ, ◌≤◌, ◌*◌, ◌≡◌, ◌⊎◌, Bool-cases, inl, inr, refl, Option, none, some, [], ◌∷◌, arith, ltb,
  if◌then◌else◌,
}
use go_monobank_sdk.Base.Int.{ℤ, pos, negsuc}
use go_monobank_sdk.Base.Word.{int64, InInt64, int64_of_InInt64}
use go_monobank_sdk.Base.Decimal.{Text, atoi}
use go_monobank_sdk.Retry.{
  no_retry_after, max_retry_after, max_retry_after_seconds, seconds_or_date, until_date, first_text,
  trim_space, parse_value, parse_retry_after,
}

-- A wait that is a hint: absent, or from 0 to 24 hours.
abbrev pub IsWait : ℤ → Type 0
IsWait r = (r ≡ no_retry_after) ⊎ ((n : ℕ) × (r ≡ pos n) × (n ≤ max_retry_after))

capped : (n k : ℕ) → (if ltb k n then k else n) ≤ k
capped n k = ground arith

until_date-IsWait : (o : Option ℤ) → IsWait (until_date o)
until_date-IsWait none = inl refl
until_date-IsWait (some (pos n)) =
    inr (if ltb max_retry_after n then max_retry_after else n, refl, capped n max_retry_after)
until_date-IsWait (some (negsuc n)) = inr (0, refl, omega arith)

seconds_fit : (secs : ℕ) → secs ≤ max_retry_after_seconds → InInt64 (pos (secs * 1_000_000_000))
seconds_fit secs h = (omega arith, omega arith)

seconds_cases :
    (secs : ℕ)
    → IsWait (
        if ltb max_retry_after_seconds secs
        then pos max_retry_after
        else int64 (pos (secs * 1_000_000_000)))
seconds_cases secs = elim (Bool-cases (ltb max_retry_after_seconds secs)) [
  | inl more ↦ rw (more) (inr (max_retry_after, refl, omega arith))
  | inr fits ↦
      let le : secs ≤ max_retry_after_seconds = ground arith in
      let same = int64_of_InInt64 (pos (secs * 1_000_000_000)) (seconds_fit secs le) in
      rw (fits) (inr (secs * 1_000_000_000, same, omega arith))
]

seconds_or_date-IsWait : (o d : Option ℤ) → IsWait (seconds_or_date o d)
seconds_or_date-IsWait (some (pos secs)) d = seconds_cases secs
seconds_or_date-IsWait (some (negsuc n)) d = until_date-IsWait d
seconds_or_date-IsWait none d = until_date-IsWait d

parse_value-IsWait : (until : Text → Option ℤ) (v : Text) → IsWait (parse_value until v)
unfolding parse_value
parse_value-IsWait until [] = inl refl
parse_value-IsWait until (c ∷ s) = seconds_or_date-IsWait (atoi (c ∷ s)) (until (c ∷ s))

-- Whatever the two headers hold and however dates are read, the hint is absent or a wait between 0
-- and 24 hours: no value overflows, and none reads as another sentinel.
pub parse_retry_after-IsWait :
    (until : Text → Option ℤ) (retry_after rate_limit : Text)
    → IsWait (parse_retry_after until retry_after rate_limit)
unfolding parse_retry_after
parse_retry_after-IsWait until retry_after rate_limit =
    parse_value-IsWait until (first_text (trim_space retry_after) (trim_space rate_limit))
