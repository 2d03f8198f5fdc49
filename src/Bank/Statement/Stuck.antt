-- ===== src/Bank/Statement/Stuck.antt =====
-- A second with a whole page of rows: the loop guard ends the drain there.
use go_monobank_sdk.Base.{
  ℕ, suc, ◌≤◌, ◌≡◌, refl, sym, ap, ◌∙◌, true, none, some, List, [], ◌∷◌, ◌++◌, arith, length, take,
}
use mathlib.Core.List.{append-nil}
use go_monobank_sdk.Base.Decimal.{Text}
use go_monobank_sdk.Bank.{Seconds, Transaction}
use go_monobank_sdk.Bank.Statement.{
  StatementFetcher, finished, last_time, remember, Pass, pass, collect, drain, drain_window,
  statement_max_rows,
}
use go_monobank_sdk.Bank.Statement.Rows.{
  keep, in_window, window, at_second, up_to, AllUpTo, IsNewestFirst, keep-IsNewestFirst,
  window-up_to, up_to_all,
}
use go_monobank_sdk.Bank.Statement.Seen.{AllSeen, pass_page, remember-AllSeen, NoneSeen-nil}
use go_monobank_sdk.Bank.Statement.Complete.{Serves}

abbrev pub AllAt : Seconds → List Transaction → Type 0
AllAt s [] = Unit
AllAt s (t ∷ ts) = (t.time ≡ s) × AllAt s ts

at_second_all : (s : Seconds) (ts : List Transaction) → AllAt s ts → at_second s ts ≡ ts
unfolding keep
at_second_all s [] h = refl
at_second_all s (t ∷ ts) h = ground (arith, at_second_all s ts h.1)

last_time-AllAt :
    (s : Seconds) (t : Transaction) (ts : List Transaction) → AllAt s (t ∷ ts) → last_time t ts ≡ s
unfolding last_time
last_time-AllAt s t [] h = h.0
last_time-AllAt s t (u ∷ us) h = last_time-AllAt s u us h.1

-- The two rounds on a full page whose rows share a second.
drain_twice :
    (cap f : ℕ) (from to s : Seconds) (fetch : StatementFetcher) (t : Transaction)
    (ts : List Transaction)
    → length (t ∷ ts) ≡ cap
    → AllAt s (t ∷ ts)
    → fetch from to ≡ some (t ∷ ts)
    → fetch from s ≡ some (t ∷ ts)
    → drain collect cap from fetch (suc (suc f)) to [] none [] ≡ finished (t ∷ ts)
unfolding drain
drain_twice cap f from to s fetch t ts full one first again =
    let o = last_time t ts in
    let os : o ≡ s = last_time-AllAt s t ts one in
    let seen : List Text = remember o (t ∷ ts) [] in
    let known : AllSeen seen (t ∷ ts) =
      rw (ap (λ (u : Seconds). at_second u (t ∷ ts)) os ∙ at_second_all s (t ∷ ts) one) at
        (remember-AllSeen o (t ∷ ts) []) in
    let p1 = pass_page [] [] (t ∷ ts) 0 [] tt (NoneSeen-nil (t ∷ ts)) in
    let p2 : pass collect seen (t ∷ ts) 0 (t ∷ ts)
        ≡ record { state = (t ∷ ts) ++ []; newly = 0; going = true } =
      ap (λ (l : List Transaction). pass collect seen l 0 (t ∷ ts)) (sym (append-nil (t ∷ ts)))
      ∙ pass_page seen (t ∷ ts) [] 0 (t ∷ ts) known tt in
    ground (
      arith,
      first,
      ap (fetch from) os,
      again,
      ap (λ (p : Pass (List Transaction)). p.state) p1,
      ap (λ (p : Pass (List Transaction)). p.newly) p1,
      ap (λ (p : Pass (List Transaction)). p.going) p1,
      ap (λ (p : Pass (List Transaction)). p.state) p2,
      ap (λ (p : Pass (List Transaction)). p.newly) p2,
      ap (λ (p : Pass (List Transaction)). p.going) p2,
      append-nil (t ∷ ts),
      full,
    )

AllUpTo-trans : (s c : Seconds) (ts : List Transaction) → s ≤ c → AllUpTo s ts → AllUpTo c ts
AllUpTo-trans s c [] h a = a
AllUpTo-trans s c (t ∷ ts) h a = (omega (arith, a.0), AllUpTo-trans s c ts h a.1)

-- Where the newest page of the window fills one second, the server's answer from that second on
-- is the same page.
same_page :
    (cap : ℕ) (from to s : Seconds) (rows : List Transaction) (t : Transaction)
    (us : List Transaction)
    → IsNewestFirst rows
    → window from to rows ≡ t ∷ us
    → t.time ≡ s
    → s ≤ to
    → take cap (window from s rows) ≡ take cap (window from to rows)
same_page cap from to s rows t us newest w e le =
    let sorted : IsNewestFirst (t ∷ us) =
      rw w at (keep-IsNewestFirst (in_window from to) rows newest) in
    ap (take cap) (
      sym (window-up_to from to s rows le)
      ∙ ap (up_to s) w
      ∙ up_to_all s (t ∷ us)
          (omega (arith, e), AllUpTo-trans t.time s us (omega (arith, e)) sorted.0)
      ∙ sym w)

-- Where the newest 500 rows of the window share one second, DrainWindow yields those and ends with
-- no error: an older row of the window is never yielded, also where the second has exactly 500.
pub drain_window_stuck :
    (f : ℕ) (rows : List Transaction) (fetch : StatementFetcher) (from to : Seconds)
    (t : Transaction) (ts us : List Transaction)
    → Serves statement_max_rows rows fetch
    → IsNewestFirst rows
    → window from to rows ≡ t ∷ us
    → take statement_max_rows (t ∷ us) ≡ t ∷ ts
    → length (t ∷ ts) ≡ statement_max_rows
    → AllAt t.time (t ∷ ts)
    → t.time ≤ to
    → drain_window collect (suc (suc f)) from to fetch [] ≡ finished (t ∷ ts)
unfolding drain_window
drain_window_stuck f rows fetch from to t ts us serves newest w page full one le =
    drain_twice statement_max_rows f from to t.time fetch t ts full one first (
      serves from t.time
      ∙ ap some (same_page statement_max_rows from to t.time rows t us newest w refl le)
      ∙ sym (serves from to)
      ∙ first)
  where
    first : fetch from to ≡ some (t ∷ ts)
    first =
        serves from to
        ∙ ap (λ (l : List Transaction). some (take statement_max_rows l)) w
        ∙ ap some page
