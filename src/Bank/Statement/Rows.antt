-- ===== src/Bank/Statement/Rows.antt =====
-- Rows of an account, newest first, as the server keeps them: windows, seconds and ids.
use go_monobank_sdk.Base.{
  ◌≤◌, ◌≡◌, refl, Bool, true, false, not, ◌&&◌, ◌||◌, List, [], ◌∷◌, ◌++◌, arith, leb, ◌==◌,
  if◌then◌else◌, length, Bool-cases, inl, inr,
}
use go_monobank_sdk.Base.Decimal.{Text, text_eq}
use go_monobank_sdk.Bank.{Seconds, Transaction}
use go_monobank_sdk.Bank.Statement.{last_time}

unfoldable pub keep : (Transaction → Bool) → List Transaction → List Transaction
keep p [] = []
keep p (t ∷ ts) = if p t then t ∷ keep p ts else keep p ts

abbrev pub in_window : Seconds → Seconds → Transaction → Bool
in_window from to t = leb from t.time && leb t.time to

-- The rows of a window, both ends included; the rows of one second; those up to a second.
abbrev pub window : Seconds → Seconds → List Transaction → List Transaction
window from to = keep (in_window from to)

abbrev pub at_second : Seconds → List Transaction → List Transaction
at_second s = keep (λ t. t.time == s)

abbrev pub up_to : Seconds → List Transaction → List Transaction
up_to s = keep (λ t. leb t.time s)

abbrev pub AllUpTo : Seconds → List Transaction → Type 0
AllUpTo s [] = Unit
AllUpTo s (t ∷ ts) = (t.time ≤ s) × AllUpTo s ts

abbrev pub AllFrom : Seconds → List Transaction → Type 0
AllFrom s [] = Unit
AllFrom s (t ∷ ts) = (s ≤ t.time) × AllFrom s ts

-- Times do not rise along the list.
abbrev pub IsNewestFirst : List Transaction → Type 0
IsNewestFirst [] = Unit
IsNewestFirst (t ∷ ts) = AllUpTo t.time ts × IsNewestFirst ts

unfoldable pub has_id : Text → List Transaction → Bool
has_id k [] = false
has_id k (t ∷ ts) = text_eq t.id k || has_id k ts

unfoldable pub distinct_ids : List Transaction → Bool
unfolding has_id
distinct_ids [] = true
distinct_ids (t ∷ ts) = not (has_id t.id ts) && distinct_ids ts

pub keep-append :
    (p : Transaction → Bool) (xs ys : List Transaction) → keep p (xs ++ ys) ≡ keep p xs ++ keep p ys
unfolding keep
keep-append p [] ys = refl
keep-append p (t ∷ ts) ys = ground (arith, keep-append p ts ys)

AllUpTo-keep :
    (p : Transaction → Bool) (s : Seconds) (xs : List Transaction)
    → AllUpTo s xs
    → AllUpTo s (keep p xs)
unfolding keep
AllUpTo-keep p s [] h = h
AllUpTo-keep p s (t ∷ ts) h = elim (Bool-cases (p t)) [
  | inl e ↦ rw e (h.0, AllUpTo-keep p s ts h.1)
  | inr e ↦ rw e (AllUpTo-keep p s ts h.1)
]

pub keep-IsNewestFirst :
    (p : Transaction → Bool) (xs : List Transaction) → IsNewestFirst xs → IsNewestFirst (keep p xs)
unfolding keep
keep-IsNewestFirst p [] h = h
keep-IsNewestFirst p (t ∷ ts) h = elim (Bool-cases (p t)) [
  | inl e ↦ rw e (AllUpTo-keep p t.time ts h.0, keep-IsNewestFirst p ts h.1)
  | inr e ↦ rw e (keep-IsNewestFirst p ts h.1)
]

has_id-keep :
    (p : Transaction → Bool) (k : Text) (xs : List Transaction)
    → has_id k xs ≡ false
    → has_id k (keep p xs) ≡ false
unfolding has_id keep
has_id-keep p k [] h = refl
has_id-keep p k (t ∷ ts) h = ground (arith, has_id-keep p k ts)

pub distinct_ids-keep :
    (p : Transaction → Bool) (xs : List Transaction)
    → distinct_ids xs ≡ true
    → distinct_ids (keep p xs) ≡ true
unfolding distinct_ids keep
distinct_ids-keep p [] h = refl
distinct_ids-keep p (t ∷ ts) h = ground (arith, distinct_ids-keep p ts, has_id-keep p t.id ts)

-- A smaller window is cut from a larger one.
pub window-up_to :
    (from to c : Seconds) (xs : List Transaction)
    → c ≤ to
    → up_to c (window from to xs) ≡ window from c xs
unfolding keep
window-up_to from to c [] h = refl
window-up_to from to c (t ∷ ts) h = ground (arith, window-up_to from to c ts h)

pub length-at_second-up_to :
    (s c : Seconds) (xs : List Transaction)
    → length (at_second s (up_to c xs)) ≤ length (at_second s xs)
unfolding keep
length-at_second-up_to s c [] = omega arith
length-at_second-up_to s c (t ∷ ts) = ground (arith, length-at_second-up_to s c ts)

pub up_to_all : (s : Seconds) (xs : List Transaction) → AllUpTo s xs → up_to s xs ≡ xs
unfolding keep
up_to_all s [] h = refl
up_to_all s (t ∷ ts) h = ground (arith, up_to_all s ts h.1)

pub up_to-at_second :
    (s : Seconds) (xs : List Transaction) → AllFrom s xs → up_to s xs ≡ at_second s xs
unfolding keep
up_to-at_second s [] h = refl
up_to-at_second s (t ∷ ts) h = ground (arith, up_to-at_second s ts h.1)

AllUpTo-append : (s : Seconds) (xs ys : List Transaction) → AllUpTo s (xs ++ ys) → AllUpTo s ys
AllUpTo-append s [] ys h = h
AllUpTo-append s (t ∷ ts) ys h = AllUpTo-append s ts ys h.1

pub last_time-le :
    (s : Seconds) (t : Transaction) (ts ys : List Transaction)
    → AllUpTo s ((t ∷ ts) ++ ys)
    → last_time t ts ≤ s
unfolding last_time
last_time-le s t [] ys h = h.0
last_time-le s t (u ∷ us) ys h = last_time-le s u us ys h.1

-- What stands before and after the last row of a page.
pub last_time_bounds :
    (t : Transaction) (ts ys : List Transaction)
    → IsNewestFirst ((t ∷ ts) ++ ys)
    → AllUpTo (last_time t ts) ys × AllFrom (last_time t ts) (t ∷ ts)
unfolding last_time
last_time_bounds t [] ys h = (h.0, (omega arith, tt))
last_time_bounds t (u ∷ us) ys h =
    let (below, above) = last_time_bounds u us ys h.1 in
    (below, (last_time-le t.time u us ys h.0, above))

pub window-AllUpTo : (from c : Seconds) (xs : List Transaction) → AllUpTo c (window from c xs)
unfolding keep
window-AllUpTo from c [] = tt
window-AllUpTo from c (t ∷ ts) = elim (Bool-cases (in_window from c t)) [
  | inl e ↦ rw e (ground arith, window-AllUpTo from c ts)
  | inr e ↦ rw e (window-AllUpTo from c ts)
]
