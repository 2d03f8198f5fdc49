-- ===== src/Personal/Range.antt =====
-- TransactionsRange reads each row of the range once.
use go_monobank_sdk.Base.{
  lt→ltb, ◌*◌, ℕ, zero, suc, ◌+◌, ◌≤◌, ◌<◌, ◌≡◌, refl, sym, ap, ◌∙◌, true, ◌&&◌, some, List, [],
  ◌∷◌, ◌++◌, arith, ltb, leb, ◌==◌, if◌then◌else◌, length, take, Bool-cases, inl, inr,
}
use mathlib.Core.List.{append-nil, append_assoc}
use go_monobank_sdk.Bank.{Seconds, Transaction}
use go_monobank_sdk.Bank.Statement.{
  StatementFetcher, finished, collect, drain_window, statement_max_rows,
}
use go_monobank_sdk.Bank.Statement.Rows.{
  keep, window, at_second, IsNewestFirst, distinct_ids, keep-append,
}
use go_monobank_sdk.Bank.Statement.Complete.{drain_window_served}
use go_monobank_sdk.Personal.{window_end, ranged, range_loop, transactions_range}

-- The longest window that the endpoint answers for: 31 days, in seconds.
abbrev pub longest_window : ℕ
longest_window = 2_678_400

-- The documented behaviour of the endpoint: of the rows in a window of at most 31 days, both ends
-- included, the newest `cap`. Of its answer for a longer one nothing is known.
abbrev pub ServesWindows : ℕ → List Transaction → StatementFetcher → Type 0
ServesWindows cap rows fetch =
    (from to : Seconds)
    → to ≤ from + longest_window
    → fetch from to ≡ some (take cap (window from to rows))

at_second-window :
    (s a b : Seconds) (rows : List Transaction)
    → at_second s (window a b rows) ≡ (if leb a s && leb s b then at_second s rows else [])
unfolding keep
at_second-window s a b [] = ground arith
at_second-window s a b (t ∷ ts) = ground (arith, at_second-window s a b ts)

length-at_second-window :
    (s a b : Seconds) (rows : List Transaction)
    → length (at_second s (window a b rows)) ≤ length (at_second s rows)
length-at_second-window s a b rows = ground (arith, at_second-window s a b rows)

length-window : (a b : Seconds) (rows : List Transaction) → length (window a b rows) ≤ length rows
unfolding keep
length-window a b [] = omega arith
length-window a b (t ∷ ts) = ground (arith, length-window a b ts)

at_second-nil : (s : Seconds) → at_second s [] ≡ []
unfolding keep
at_second-nil s = refl

no_rows :
    (s cursor to : Seconds) (rows all : List Transaction)
    → to < cursor
    → at_second s all ≡ at_second s all ++ at_second s (window cursor to rows)
no_rows s cursor to rows all h =
    sym (append-nil (at_second s all))
    ∙ ap (λ (l : List Transaction). at_second s all ++ l)
        (ground (arith, at_second-window s cursor to rows))

-- A window cut in two.
window_split :
    (s c e to : Seconds) (rows : List Transaction)
    → c ≤ e
    → e ≤ to
    → at_second s (window c e rows) ++ at_second s (window (e + 1) to rows)
      ≡ at_second s (window c to rows)
window_split s c e to rows h k = ground (
  arith,
  at_second-window s c e rows,
  at_second-window s (e + 1) to rows,
  at_second-window s c to rows,
  append-nil (at_second s rows),
)

two_windows :
    (s c e to : Seconds) (rows all out : List Transaction)
    → c ≤ e
    → e ≤ to
    → at_second s out ≡ at_second s (all ++ window c e rows) ++ at_second s (window (e + 1) to rows)
    → at_second s out ≡ at_second s all ++ at_second s (window c to rows)
two_windows s c e to rows all out h k got =
    got
    ∙ ap (λ (l : List Transaction). l ++ at_second s (window (e + 1) to rows))
        (keep-append (λ t. t.time == s) all (window c e rows))
    ∙ append_assoc (at_second s all) (at_second s (window c e rows))
        (at_second s (window (e + 1) to rows))
    ∙ ap (λ (l : List Transaction). at_second s all ++ l) (window_split s c e to rows h k)

module _ (rows : List Transaction) (fetch : StatementFetcher) (drain_fuel : ℕ)
    (serves : ServesWindows statement_max_rows rows fetch) (newest : IsNewestFirst rows)
    (ids : distinct_ids rows ≡ true)
    (sparse : (s : Seconds) → length (at_second s rows) < statement_max_rows)
    (enough : length rows < drain_fuel) where
  drained :
      (a b : Seconds) (all : List Transaction)
      → b ≤ a + longest_window
      → drain_window collect drain_fuel a b fetch all ≡ finished (all ++ window a b rows)
  drained a b all short =
      drain_window_served drain_fuel rows fetch a b all (λ c le. serves a c (omega arith)) newest
        ids (λ s. omega (arith, length-at_second-window s a b rows, sparse s))
        (omega (arith, length-window a b rows))

  -- The result of the loop has, at each second, what was there before and then the rows of the rest
  -- of the range.
  range_loop_lem :
      (f : ℕ) (cursor to : Seconds) (all : List Transaction)
      → to < cursor + f * (longest_window + 1)
      → (out : List Transaction) × (range_loop fetch drain_fuel (suc f) cursor to all ≡ ranged out)
        × ((s : Seconds) → at_second s out ≡ at_second s all ++ at_second s (window cursor to rows))
  unfolding range_loop
  range_loop_lem zero cursor to all lt =
      let done : to < cursor = omega arith in
      (all, ground arith, λ s. no_rows s cursor to rows all done)
  range_loop_lem (suc f) cursor to all lt = elim (Bool-cases (ltb to cursor)) [
    | inl done ↦ (all, rw (done, range_loop), λ s. no_rows s cursor to rows all (ground arith))
    | inr more ↦
        let e = window_end cursor to in
        let le : cursor ≤ e = ground arith in
        let ge : e ≤ to = ground arith in
        let short : e ≤ cursor + longest_window = ground arith in
        let later : ltb cursor (e + 1) ≡ true = ground arith in
        let (out, got, same) =
          range_loop_lem f (e + 1) to (all ++ window cursor e rows) (ground arith) in
        (
          out,
          rw (more, range_loop) (rw (drained cursor e all short, later, range_loop) got),
          λ s. two_windows s cursor e to rows all out le ge (same s),
        )
  ]

-- Against a server that answers a window of at most 31 days with its newest 500 rows, and of which
-- nothing is known for a longer one, whose rows are newest first with distinct ids, with fewer than
-- 500 rows in each second, and with fuel for the windows and the rows, TransactionsRange gives for a
-- range that is not empty a list that has at each second of the range the server's rows of that
-- second, in their order, and no others.
pub transactions_range_lem :
    (rows : List Transaction) (fetch : StatementFetcher) (drain_fuel f : ℕ) (from to : Seconds)
    → ServesWindows statement_max_rows rows fetch
    → IsNewestFirst rows
    → distinct_ids rows ≡ true
    → ((s : Seconds) → length (at_second s rows) < statement_max_rows)
    → length rows < drain_fuel
    → from < to
    → to < from + f * (longest_window + 1)
    → (out : List Transaction) × (transactions_range fetch drain_fuel (suc f) from (some to)
        ≡ ranged out)
      × ((s : Seconds)
          → at_second s out ≡ (if leb from s && leb s to then at_second s rows else []))
unfolding transactions_range
transactions_range_lem rows fetch drain_fuel f from to serves newest ids sparse enough lt fuel =
    let (out, got, same) =
      range_loop_lem rows fetch drain_fuel serves newest ids sparse enough f from to [] fuel in
    (
      out,
      rw (lt→ltb from to lt) got,
      λ s.
          same s
          ∙ ap (λ (l : List Transaction). l ++ at_second s (window from to rows)) (at_second-nil s)
          ∙ at_second-window s from to rows,
    )
