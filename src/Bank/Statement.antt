-- ===== src/Bank/Statement.antt =====
-- DrainWindow (bank/statement.go): pages through one statement window from its end, over a server
-- that answers with at most `cap` rows. The loop takes fuel; `Complete` says how much is enough.
pub mod Rows
pub mod Seen
pub mod Complete
pub mod Stuck
use go_monobank_sdk.Base.{
  ℕ, zero, suc, ◌+◌, Bool, true, false, ◌||◌, Option, none, some, List, [], ◌∷◌, ◌++◌, ltb, ◌==◌,
  if◌then◌else◌, length,
}
use go_monobank_sdk.Base.Decimal.{Text, text_eq}
use go_monobank_sdk.Bank.{Seconds, Transaction}

abbrev pub statement_max_rows : ℕ
statement_max_rows = 500

-- `none` is a fetch error.
abbrev pub StatementFetcher : Type 0
StatementFetcher = Seconds → Seconds → Option (List Transaction)

-- A map whose keys alone matter.
unfoldable pub seen_id : Text → List Text → Bool
seen_id k [] = false
seen_id k (j ∷ ks) = text_eq j k || seen_id k ks

-- How a drain ends: `cont` and `err`, with the consumer's state; or the fuel ran out.
pub data Drained (S : Type 0) : Type 0 where
  finished : S → Drained S
  stopped : S → Drained S
  failed : S → Drained S
  out_of_fuel : Drained S

pub record Pass (S : Type 0) : Type 0 where
  pub state : S
  pub newly : ℕ
  pub going : Bool

unfoldable pub last_time : Transaction → List Transaction → Seconds
last_time t [] = t.time
last_time t (u ∷ us) = last_time u us

-- The second loop over a page: `seen` takes the ids of the oldest second.
unfoldable pub remember : Seconds → List Transaction → List Text → List Text
remember oldest [] seen = seen
remember oldest (t ∷ ts) seen = remember oldest ts (if t.time == oldest then t.id ∷ seen else seen)

abbrev pub same_second : Option Seconds → Seconds → Bool
same_second none s = false
same_second (some b) s = b == s

module _ {S : Type 0} (yield : Transaction → S → S × Bool) where
  -- The first loop over a page.
  unfoldable pub pass : List Text → List Transaction → ℕ → S → Pass S
  pass seen [] newly s = record { state = s; newly = newly; going = true }
  pass seen (t ∷ ts) newly s = elim (seen_id t.id seen) [
    | true ↦ pass seen ts newly s
    | false ↦
        let (s', going) = yield t s in
        elim going [
          | true ↦ pass seen ts (newly + 1) s'
          | false ↦ record { state = s'; newly = newly; going = false }
        ]
  ]

  module _ (cap : ℕ) (from : Seconds) (fetch : StatementFetcher) where
    unfoldable pub drain : ℕ → Seconds → List Text → Option Seconds → S → Drained S
    drain zero cursor seen boundary s = out_of_fuel
    drain (suc f) cursor seen boundary s = elim (fetch from cursor) [
      | none ↦ failed s
      | some [] ↦ finished s
      | some (t ∷ ts) ↦
          let p = pass seen (t ∷ ts) 0 s in
          elim p.going [
            | false ↦ stopped p.state
            | true ↦ elim (ltb (length (t ∷ ts)) cap) [
              | true ↦ finished p.state
              | false ↦ elim (p.newly == 0) [
                | true ↦ finished p.state
                | false ↦
                    let oldest = last_time t ts in
                    let kept = if same_second boundary oldest then seen else [] in
                    drain f oldest (remember oldest (t ∷ ts) kept) (some oldest) p.state
              ]
            ]
          ]
    ]

  unfoldable pub drain_window : ℕ → Seconds → Seconds → StatementFetcher → S → Drained S
  drain_window fuel from to fetch s = drain statement_max_rows from fetch fuel to [] none s

-- The consumer that appends every row and never stops.
abbrev pub collect : Transaction → List Transaction → List Transaction × Bool
collect t ts = (ts ++ t ∷ [], true)
