-- ===== src/Tests/Statements.antt =====
-- Statements on concrete rows.
use go_monobank_sdk.Base.{
  ℕ, zero, suc, true, none, ◌+◌, ◌≤◌, ◌<◌, ◌≡◌, refl, Bool, false, ◌&&◌, some, List, [], ◌∷◌, ◌++◌,
  arith, length, take, replicate, leb, ◌==◌, if◌then◌else◌,
}
use go_monobank_sdk.Base.Int.{pos}
use go_monobank_sdk.Base.Decimal.{Text, codes}
use go_monobank_sdk.Money.{Money}
use go_monobank_sdk.Bank.{Seconds, Transaction}
use go_monobank_sdk.Bank.Statement.{
  StatementFetcher, finished, collect, drain_window, statement_max_rows,
}
use go_monobank_sdk.Bank.Statement.Rows.{
  keep, window, at_second, has_id, distinct_ids, AllUpTo, IsNewestFirst,
}
use go_monobank_sdk.Bank.Statement.Complete.{drain_window_complete}
use go_monobank_sdk.Bank.Statement.Stuck.{AllAt, drain_window_stuck}
use go_monobank_sdk.Personal.{ranged, transactions_range}
use go_monobank_sdk.Personal.Range.{transactions_range_lem}

abbrev cents : Money
cents = record { minor = pos 100; code = pos 980 }

abbrev row : Text → Seconds → Transaction
row id time = record {
  id = id;
  time = time;
  description = [];
  mcc = pos 0;
  original_mcc = pos 0;
  hold = false;
  amount = cents;
  operation_amount = cents;
  currency = pos 980;
  commission_rate = cents;
  cashback_amount = cents;
  balance = cents;
  comment = [];
  receipt_id = [];
  invoice_id = [];
  edrpou = [];
  iban = [];
  counter_name = [];
}

abbrev two_rows : List Transaction
two_rows = row (codes "b") 20 ∷ row (codes "a") 10 ∷ []

-- A server that keeps what the statement endpoint promises.
abbrev server : List Transaction → StatementFetcher
server rows from to = some (take statement_max_rows (window from to rows))

length-keep : (p : Transaction → Bool) (xs : List Transaction) → length (keep p xs) ≤ length xs
unfolding keep
length-keep p [] = omega arith
length-keep p (x ∷ xs) = ground (arith, length-keep p xs)

few : (rows : List Transaction) (s : Seconds) → length rows < 500 → length (at_second s rows) < 500
few rows s h = omega (arith, h, length-keep (λ t. t.time == s) rows)

drain_window_complete_example :
    drain_window collect 3 0 30 (server two_rows) [] ≡ finished (window 0 30 two_rows)
unfolding keep distinct_ids has_id
drain_window_complete_example =
    drain_window_complete 3 two_rows (server two_rows) 0 30 [] (λ from to. refl)
      ((omega arith, tt), (tt, tt)) refl (λ s. few (window 0 30 two_rows) s (omega arith))
      (omega arith)

-- A server that answers no window of more than 31 days.
abbrev limited : List Transaction → StatementFetcher
limited rows from to =
    if leb to (from + 2_678_400) then some (take statement_max_rows (window from to rows)) else none

limited_serves :
    (rows : List Transaction) (from to : Seconds)
    → to ≤ from + 2_678_400
    → limited rows from to ≡ some (take statement_max_rows (window from to rows))
limited_serves rows from to h =
    let yes : leb to (from + 2_678_400) ≡ true = ground arith in rw (yes) refl

transactions_range_lem_example :
    (out : List Transaction) × (transactions_range (limited two_rows) 3 (suc 2) 0 (some 5_000_000)
      ≡ ranged out)
    × ((s : Seconds)
        → at_second s out ≡ (if leb 0 s && leb s 5_000_000 then at_second s two_rows else []))
unfolding distinct_ids has_id
transactions_range_lem_example =
    transactions_range_lem two_rows (limited two_rows) 3 2 0 5_000_000 (limited_serves two_rows)
      ((omega arith, tt), (tt, tt)) refl (λ s. few two_rows s (omega arith)) (omega arith)
      (omega arith) (omega arith)

-- 500 rows of one second, and an older one that is never reached.
abbrev same : Transaction
same = row (codes "x") 20

abbrev lost : List Transaction
lost = row (codes "lost") 10 ∷ []

abbrev crowded : List Transaction
crowded = replicate 500 same ++ lost

replicate-AllAt : (n : ℕ) → AllAt 20 (replicate n same)
replicate-AllAt zero = tt
replicate-AllAt (suc n) = (refl, replicate-AllAt n)

replicate-AllUpTo : (n : ℕ) → AllUpTo 20 (replicate n same ++ lost)
replicate-AllUpTo zero = (omega arith, tt)
replicate-AllUpTo (suc n) = (omega arith, replicate-AllUpTo n)

replicate-IsNewestFirst : (n : ℕ) → IsNewestFirst (replicate n same ++ lost)
replicate-IsNewestFirst zero = (tt, tt)
replicate-IsNewestFirst (suc n) = (replicate-AllUpTo n, replicate-IsNewestFirst n)

drain_window_stuck_example :
    drain_window collect 5 0 30 (server crowded) [] ≡ finished (replicate 500 same)
unfolding keep
drain_window_stuck_example =
    drain_window_stuck 3 crowded (server crowded) 0 30 same (replicate 499 same)
      (replicate 499 same ++ lost) (λ from to. refl) (replicate-IsNewestFirst 500) refl refl refl
      (replicate-AllAt 500) (omega arith)
