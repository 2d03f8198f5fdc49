-- ===== src/Personal.antt =====
-- TransactionsRange (personal/client.go): a statement over any range, in windows of at most 31
-- days. Times are whole seconds; `none` is the zero time.
pub mod Range
use go_monobank_sdk.Base.{
  ℕ, zero, suc, ◌+◌, ◌*◌, Bool, true, false, Option, none, some, List, [], ◌∷◌, ltb, if◌then◌else◌,
}
use go_monobank_sdk.Bank.{Seconds, Transaction}
use go_monobank_sdk.Bank.Statement.{
  StatementFetcher, Drained, finished, stopped, failed, out_of_fuel, collect, drain_window,
}

-- bank.MaxStatementWindow, 31 days.
abbrev pub max_statement_window : ℕ
max_statement_window = 31 * 24 * 3600

pub data Ranged : Type 0 where
  ranged : List Transaction → Ranged
  range_failed : Ranged
  no_fuel : Ranged

abbrev pub window_end : Seconds → Seconds → Seconds
window_end cursor to =
    if ltb to (cursor + max_statement_window) then to else cursor + max_statement_window

module _ (fetch : StatementFetcher) (drain_fuel : ℕ) where
  -- The loop over the windows, which ends where the next one is not later. The error of a drain ends it, and drops what was read.
  unfoldable pub range_loop : ℕ → Seconds → Seconds → List Transaction → Ranged
  range_loop zero cursor to all = no_fuel
  range_loop (suc f) cursor to all = elim (ltb to cursor) [
    | true ↦ ranged all
    | false ↦
        let end = window_end cursor to in
        elim (drain_window collect drain_fuel cursor end fetch all) [
          | finished all' ↦ elim (ltb cursor (end + 1)) [
            | true ↦ range_loop f (end + 1) to all'
            | false ↦ ranged all'
          ]
          | stopped all' ↦ elim (ltb cursor (end + 1)) [
            | true ↦ range_loop f (end + 1) to all'
            | false ↦ ranged all'
          ]
          | failed all' ↦ range_failed
          | out_of_fuel ↦ no_fuel
        ]
  ]

  unfoldable pub transactions_range : ℕ → Seconds → Option Seconds → Ranged
  transactions_range fuel from none = ranged []
  transactions_range fuel from (some to) =
      if ltb from to then range_loop fuel from to [] else ranged []
