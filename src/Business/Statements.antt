-- ===== src/Business/Statements.antt =====
-- StatementAll (business/iter.go): pages from the newest row back, over what Statement answers. The
-- loop takes fuel; `Ends` says how much is enough.
pub mod Ends
pub mod Lost
use go_monobank_sdk.Base.{
  ℕ, zero, suc, ◌+◌, ◌-◌, Bool, true, false, not, ◌&&◌, ◌||◌, Option, none, some, List, [], ◌∷◌,
  ltb, leb, ◌==◌, if◌then◌else◌, length,
}
use go_monobank_sdk.Base.Int.{ℤ, pos, negsuc}
use go_monobank_sdk.Base.Decimal.{Text, text_eq}
use go_monobank_sdk.Bank.{Seconds}
use go_monobank_sdk.Bank.Statement.{seen_id, same_second}
use go_monobank_sdk.Business.{StatementItem, Ended, finished, stopped, failed, out_of_fuel}

pub record Pass (S : Type 0) : Type 0 where
  pub state : S
  pub newly : ℕ
  pub going : Bool

-- What a turn of the loop decides: to end, or to go on with a cursor, the ids seen and the second
-- that they belong to.
pub data Turn (S : Type 0) : Type 0 where
  ends : Ended S → Turn S
  again : Seconds → List Text → Option Seconds → S → Turn S

unfoldable pub last_time : StatementItem → List StatementItem → Seconds
last_time t [] = t.time
last_time t (u ∷ us) = last_time u us

-- Every id of a page goes to `seen`.
unfoldable pub remember : List StatementItem → List Text → List Text
remember [] seen = seen
remember (t ∷ ts) seen = remember ts (t.id ∷ seen)

-- A page size of 0 or less is the server's.
abbrev pub full_page : ℤ → ℕ → Bool
full_page (pos zero) n = true
full_page (pos (suc k)) n = leb (suc k) n
full_page (negsuc k) n = true

module _ {S : Type 0} (yield : StatementItem → S → S × Bool) (cancelled : S → Bool) where
  unfoldable pub pass : List Text → List StatementItem → ℕ → S → Pass S
  pass seen [] newly s = record { state = s; newly = newly; going = true }
  pass seen (t ∷ ts) newly s = elim (seen_id t.id seen) [
    | true ↦ pass seen ts newly s
    | false ↦
        let (s', going) = yield t s in
        elim going [
          | true ↦ pass seen ts (newly + 1) s'
          | false ↦ record { state = s'; newly = newly; going = false }
        ]
  ]

  -- A page with a row, after the consumer had it.
  unfoldable pub after_page :
      ℤ
      → Seconds
      → List Text
      → Option Seconds
      → StatementItem
      → List StatementItem
      → Pass S
      → Turn S
  unfolding last_time remember
  after_page page_size cursor seen second t ts p =
      let oldest = last_time t ts in
      if not p.going
      then ends (stopped p.state)
      else (if (oldest == t.time) && full_page page_size (length (t ∷ ts))
          then (if p.newly == 0
              then ends (finished p.state)
              else again oldest (remember (t ∷ ts) (if same_second second oldest then seen else []))
                  (some oldest) p.state)
          else (if ltb (oldest - 1) cursor
              then again (oldest - 1) [] none p.state
              else ends (finished p.state)))

  -- `fetch from to` is what Statement answers, newest row first; `none` is an error.
  module _ (page_size : ℤ) (from : Seconds)
      (fetch : Seconds → Seconds → Option (List StatementItem)) where
    unfoldable pub turn : Seconds → List Text → Option Seconds → S → Turn S
    unfolding pass after_page
    turn cursor seen second s =
        if cancelled s
        then ends (failed s)
        else (if not (ltb from cursor) then ends (finished s) else elim (fetch from cursor) [
          | none ↦ ends (failed s)
          | some [] ↦ ends (finished s)
          | some (t ∷ ts) ↦ after_page page_size cursor seen second t ts (pass seen (t ∷ ts) 0 s)
        ])

    unfoldable pub loop : ℕ → Seconds → List Text → Option Seconds → S → Ended S
    unfolding turn
    loop zero cursor seen second s = out_of_fuel
    loop (suc f) cursor seen second s = elim (turn cursor seen second s) [
      | ends e ↦ e
      | again cursor' seen' second' s' ↦ loop f cursor' seen' second' s'
    ]

    -- A zero `to` is the present.
    unfoldable pub statement_all : ℕ → Seconds → Option Seconds → S → Ended S
    unfolding loop
    statement_all fuel now none s = loop fuel now [] none s
    statement_all fuel now (some to) s = loop fuel to [] none s
