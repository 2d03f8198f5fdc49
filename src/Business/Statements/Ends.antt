-- ===== src/Business/Statements/Ends.antt =====
-- That StatementAll ends (business/iter.go).
use go_monobank_sdk.Base.{
  ℕ, zero, suc, ◌+◌, ◌-◌, ◌≤◌, ◌<◌, Bool, true, ◌&&◌, Option, none, some, List, [], ◌∷◌, ◌≡◌, ◌≢◌,
  ◌⊎◌, refl, ap, sym, ◌∙◌, arith, ltb, ◌==◌, length, Bool-cases, inl, inr,
}
use go_monobank_sdk.Base.Int.{ℤ}
use go_monobank_sdk.Base.Decimal.{Text, text_eq_refl}
use go_monobank_sdk.Bank.{Seconds}
use go_monobank_sdk.Bank.Statement.{seen_id}
use go_monobank_sdk.Business.{StatementItem, Ended, finished, failed, out_of_fuel}
use go_monobank_sdk.Business.Statements.{
  Pass, Turn, ends, again, pass, after_page, last_time, remember, full_page, turn, loop,
  statement_all,
}
use go_monobank_sdk.Business.Statements.Lost.{Bounded, last_time-up_to, rows-cases}

-- Whether every id of a page was seen.
unfoldable all_seen : List Text → List StatementItem → Bool
all_seen seen [] = true
all_seen seen (t ∷ ts) = seen_id t.id seen && all_seen seen ts

seen_id-remember :
    (k : Text) (ts : List StatementItem) (seen : List Text)
    → seen_id k seen ≡ true
    → seen_id k (remember ts seen) ≡ true
unfolding remember seen_id
seen_id-remember k [] seen h = h
seen_id-remember k (t ∷ ts) seen h = seen_id-remember k ts (t.id ∷ seen) (ground arith)

all_seen-remember :
    (ts : List StatementItem) (seen : List Text) → all_seen (remember ts seen) ts ≡ true
unfolding remember all_seen seen_id
all_seen-remember [] seen = refl
all_seen-remember (t ∷ ts) seen =
    let same = text_eq_refl t.id in
    let here = seen_id-remember t.id ts (t.id ∷ seen) (ground arith) in
    ground (arith, all_seen-remember ts (t.id ∷ seen))

module _ {S : Type 0} (yield : StatementItem → S → S × Bool) (cancelled : S → Bool) where
  pass_nothing :
      (seen : List Text) (ts : List StatementItem) (n : ℕ) (s : S)
      → all_seen seen ts ≡ true
      → pass yield cancelled seen ts n s ≡ record { state = s; newly = n; going = true }
  unfolding pass all_seen
  pass_nothing seen [] n s h = refl
  pass_nothing seen (t ∷ ts) n s h =
      let dup : seen_id t.id seen ≡ true = ground arith in
      rw (dup, pass) (pass_nothing seen ts n s (ground arith))

  module _ (page_size : ℤ) (from : Seconds)
      (fetch : Seconds → Seconds → Option (List StatementItem)) where
    -- The page at the cursor is known: of one second, full, and all seen.
    Known : Seconds → List Text → Type 0
    Known cursor seen =
        (t : StatementItem) × (ts : List StatementItem) × (fetch from cursor ≡ some (t ∷ ts))
        × (((last_time t ts == t.time) && full_page page_size (length (t ∷ ts))) ≡ true)
        × (all_seen seen (t ∷ ts) ≡ true)

    -- A turn that goes on does so from an earlier cursor, or from the same one on a known page.
    Advances : Seconds → Turn S → Type 0
    Advances c (ends e) = e ≢ out_of_fuel
    Advances c (again c' seen second s) = (from < c) × ((c' < c) ⊎ Known c' seen)

    after_overflow :
        (c : Seconds) (t : StatementItem) (ts : List StatementItem) (kept : List Text)
        → last_time t ts ≤ c
        → fetch from c ≡ some (t ∷ ts)
        → ((last_time t ts == t.time) && full_page page_size (length (t ∷ ts))) ≡ true
        → (last_time t ts < c) ⊎ Known (last_time t ts) (remember (t ∷ ts) kept)
    unfolding Known
    after_overflow c t ts kept old got overflow = elim (Bool-cases (ltb (last_time t ts) c)) [
      | inl earlier ↦ inl (ground arith)
      | inr same ↦
          let e : c ≡ last_time t ts = ground arith in
          inr (t, ts, ap (fetch from) (sym e) ∙ got, overflow, all_seen-remember (t ∷ ts) kept)
    ]

    after_page-Advances :
        (c : Seconds) (seen : List Text) (second : Option Seconds) (t : StatementItem)
        (ts : List StatementItem) (p : Pass S)
        → last_time t ts ≤ c
        → from < c
        → fetch from c ≡ some (t ∷ ts)
        → Advances c (after_page yield cancelled page_size c seen second t ts p)
    unfolding after_page Advances Known
    after_page-Advances c seen second t ts p old after got = elim (Bool-cases p.going) [
      | inr off ↦ rw (off, after_page) (λ e. absurd (ground arith))
      | inl on ↦
          elim (Bool-cases ((last_time t ts == t.time) && full_page page_size (length (t ∷ ts)))) [
            | inr normal ↦ elim (Bool-cases (ltb (last_time t ts - 1) c)) [
              | inl earlier ↦ rw (on, normal, earlier, after_page) (after, inl (ground arith))
              | inr last ↦ rw (on, normal, last, after_page) (λ e. absurd (ground arith))
            ]
            | inl overflow ↦ elim (Bool-cases (p.newly == 0)) [
              | inl stuck ↦ rw (on, overflow, stuck, after_page) (λ e. absurd (ground arith))
              | inr some_new ↦
                  rw (on, overflow, some_new, after_page)
                    (after, after_overflow c t ts _ old got overflow)
            ]
          ]
    ]

    turn-Advances :
        (c : Seconds) (seen : List Text) (second : Option Seconds) (s : S)
        → Bounded from fetch
        → Advances c (turn yield cancelled page_size from fetch c seen second s)
    unfolding turn Advances Bounded
    turn-Advances c seen second s honest = elim (Bool-cases (cancelled s)) [
      | inl dead ↦ rw (dead, turn) (λ e. absurd (ground arith))
      | inr alive ↦ elim (Bool-cases (ltb from c)) [
        | inr before ↦ rw (alive, before, turn) (λ e. absurd (ground arith))
        | inl after ↦ elim (rows-cases (fetch from c)) [
          | inl lost ↦ rw (alive, after, lost, turn) (λ e. absurd (ground arith))
          | inr (inl empty) ↦ rw (alive, after, empty, turn) (λ e. absurd (ground arith))
          | inr (inr (t, ts, got)) ↦
              rw (alive, after, got, turn)
                (after_page-Advances c seen second t ts (pass yield cancelled seen (t ∷ ts) 0 s)
                  (last_time-up_to c t ts (honest c (t ∷ ts) got)) (ground arith) got)
        ]
      ]
    ]

    -- On a known page the iteration ends.
    turn-Known :
        (c : Seconds) (seen : List Text) (second : Option Seconds) (s : S)
        → Known c seen
        → (e : Ended S) × (turn yield cancelled page_size from fetch c seen second s ≡ ends e)
          × (e ≢ out_of_fuel)
    unfolding turn Known after_page
    turn-Known c seen second s (t, ts, got, overflow, old) = elim (Bool-cases (cancelled s)) [
      | inl dead ↦ (failed s, rw (dead, turn) refl, λ e. absurd (ground arith))
      | inr alive ↦ elim (Bool-cases (ltb from c)) [
        | inr before ↦ (finished s, rw (alive, before, turn) refl, λ e. absurd (ground arith))
        | inl after ↦
            let nothing = pass_nothing seen (t ∷ ts) 0 s old in
            (
              finished s,
              rw (alive, after, got, turn, nothing, overflow, after_page) refl,
              λ e. absurd (ground arith),
            )
      ]
    ]

    loop-Known :
        (f : ℕ) (c : Seconds) (seen : List Text) (second : Option Seconds) (s : S)
        → 1 ≤ f
        → Known c seen
        → loop yield cancelled page_size from fetch f c seen second s ≢ out_of_fuel
    unfolding loop
    loop-Known zero c seen second s h k = absurd (omega arith)
    loop-Known (suc f) c seen second s h k =
        let (e, ended, ne) = turn-Known c seen second s k in rw (ended, loop) ne

    -- How a turn is followed.
    follow_ends :
        (f : ℕ) (c : Seconds) (u : Turn S)
        → Advances c u
        → ((c' : Seconds) (seen : List Text) (second : Option Seconds) (s : S)
            → from < c
            → (c' < c) ⊎ Known c' seen
            → loop yield cancelled page_size from fetch f c' seen second s ≢ out_of_fuel)
        → (elim u [
          | ends e ↦ e
          | again c' seen second s ↦ loop yield cancelled page_size from fetch f c' seen second s
        ])
          ≢ out_of_fuel
    unfolding Advances
    follow_ends f c (ends e) a rest = a
    follow_ends f c (again c' seen second s) a rest = rest c' seen second s a.0 a.1

    loop_ends :
        (f : ℕ) (c : Seconds) (seen : List Text) (second : Option Seconds) (s : S)
        → Bounded from fetch
        → c - from + 2 ≤ f
        → loop yield cancelled page_size from fetch f c seen second s ≢ out_of_fuel
    unfolding loop
    loop_ends zero c seen second s honest h = absurd (omega arith)
    loop_ends (suc f) c seen second s honest h =
        follow_ends f c (turn yield cancelled page_size from fetch c seen second s)
          (turn-Advances c seen second s honest)
          (λ c' seen' second' s' after next. elim next [
            | inl earlier ↦ loop_ends f c' seen' second' s' honest (omega arith)
            | inr known ↦ loop-Known f c' seen' second' s' (omega arith) known
          ])

    -- StatementAll ends, whatever its consumer does, over a server that gives the same answer to the
    -- same question and answers with rows up to the end of the window: one turn for each second
    -- between `from` and `to`, and two more, are enough.
    pub statement_all_ends :
        (fuel : ℕ) (now to : Seconds) (s : S)
        → Bounded from fetch
        → to - from + 2 ≤ fuel
        → statement_all yield cancelled page_size from fetch fuel now (some to) s ≢ out_of_fuel
    unfolding statement_all
    statement_all_ends fuel now to s honest enough = loop_ends fuel to [] none s honest enough
