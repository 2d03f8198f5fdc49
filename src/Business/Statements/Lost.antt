-- ===== src/Business/Statements/Lost.antt =====
-- Rows that StatementAll leaves out (business/iter.go).
use go_monobank_sdk.Base.{
  ℕ, zero, suc, ◌+◌, ◌-◌, ◌≤◌, ◌<◌, Bool, true, false, ◌&&◌, Option, none, some, List, [], ◌∷◌,
  ◌++◌, ◌≡◌, ◌⊎◌, refl, sym, ◌∙◌, arith, ltb, leb, ◌==◌, if◌then◌else◌, Bool-cases, inl, inr,
}
use go_monobank_sdk.Base.Int.{ℤ}
use go_monobank_sdk.Base.Decimal.{Text}
use go_monobank_sdk.Bank.{Seconds}
use go_monobank_sdk.Bank.Statement.{seen_id}
use go_monobank_sdk.Business.{StatementItem, Ended, finished, stopped, failed, out_of_fuel}
use go_monobank_sdk.Business.Contacts.Complete.{append-nil, snoc-append}
use go_monobank_sdk.Business.Statements.{
  Pass, Turn, ends, again, pass, after_page, last_time, turn, loop, statement_all,
}

-- The consumer that appends every row and never stops.
abbrev pub collect : StatementItem → List StatementItem → List StatementItem × Bool
collect t ts = (ts ++ t ∷ [], true)

-- The ids of the rows of one second.
unfoldable pub ids_at : Seconds → List StatementItem → List Text
ids_at o [] = []
ids_at o (t ∷ ts) = let rest = ids_at o ts in if t.time == o then t.id ∷ rest else rest

-- Rows that are no later than a time.
unfoldable pub up_to : Seconds → List StatementItem → Bool
up_to c [] = true
up_to c (t ∷ ts) = leb t.time c && up_to c ts

-- A server that answers with rows up to the end of the window that it is asked for.
unfoldable pub Bounded : Seconds → (Seconds → Seconds → Option (List StatementItem)) → Type 0
Bounded from fetch =
    (c : Seconds) (page : List StatementItem) → fetch from c ≡ some page → up_to c page ≡ true

-- Of the second `o`, the iteration yielded the rows `v`, however it ended.
unfoldable pub Yielded : Seconds → List Text → Ended (List StatementItem) → Type 0
Yielded o v (finished acc) = ids_at o acc ≡ v
Yielded o v (stopped acc) = ids_at o acc ≡ v
Yielded o v (failed acc) = ids_at o acc ≡ v
Yielded o v out_of_fuel = Unit

ids_at-snoc :
    (o : Seconds) (acc : List StatementItem) (t : StatementItem)
    → (t.time == o) ≡ false
    → ids_at o (acc ++ t ∷ []) ≡ ids_at o acc
unfolding ids_at
ids_at-snoc o [] t e = ground arith
ids_at-snoc o (a ∷ acc) t e = rw (ids_at-snoc o acc t e) refl

-- The same of a turn that began at the cursor `c`: where it goes on, it does so no later.
unfoldable pub TurnYielded : Seconds → List Text → Seconds → Turn (List StatementItem) → Type 0
unfolding Yielded
TurnYielded o v c (ends e) = Yielded o v e
TurnYielded o v c (again c' seen second acc) = (c' ≤ c) × (ids_at o acc ≡ v)

pub rows-cases :
    (r : Option (List StatementItem))
    → (r ≡ none)
      ⊎ ((r ≡ some []) ⊎ ((t : StatementItem) × (ts : List StatementItem) × (r ≡ some (t ∷ ts))))
rows-cases none = inl refl
rows-cases (some []) = inr (inl refl)
rows-cases (some (t ∷ ts)) = inr (inr (t, ts, refl))

pub last_time-up_to :
    (c : Seconds) (t : StatementItem) (ts : List StatementItem)
    → up_to c (t ∷ ts) ≡ true
    → last_time t ts ≤ c
unfolding up_to last_time
last_time-up_to c t [] h = ground arith
last_time-up_to c t (u ∷ us) h = last_time-up_to c u us (ground arith)

module _ (cancelled : List StatementItem → Bool) where
  pass_kept :
      (o c : Seconds) (seen : List Text) (ts : List StatementItem) (n : ℕ)
      (acc : List StatementItem)
      → c < o
      → up_to c ts ≡ true
      → (ids_at o (pass collect cancelled seen ts n acc).state ≡ ids_at o acc)
        × ((pass collect cancelled seen ts n acc).going ≡ true)
  unfolding pass up_to
  pass_kept o c seen [] n acc lt h = (refl, refl)
  pass_kept o c seen (t ∷ ts) n acc lt h = elim (Bool-cases (seen_id t.id seen)) [
    | inl dup ↦ rw (dup, pass) (pass_kept o c seen ts n acc lt (ground arith))
    | inr fresh ↦
        rw (fresh, pass)
          (let (kept, going) = pass_kept o c seen ts (n + 1) (acc ++ t ∷ []) lt (ground arith) in
            (kept ∙ ids_at-snoc o acc t (ground arith), going))
  ]

  pass_all :
      (ts : List StatementItem) (n : ℕ) (acc : List StatementItem)
      → ((pass collect cancelled [] ts n acc).state ≡ acc ++ ts)
        × ((pass collect cancelled [] ts n acc).going ≡ true)
  unfolding pass seen_id
  pass_all [] n acc = (sym (append-nil acc), refl)
  pass_all (t ∷ ts) n acc =
      let (all, going) = pass_all ts (n + 1) (acc ++ t ∷ []) in (all ∙ snoc-append acc t ts, going)

  after_page-TurnYielded :
      (o : Seconds) (v : List Text) (page_size : ℤ) (c : Seconds) (seen : List Text)
      (second : Option Seconds) (t : StatementItem) (ts : List StatementItem)
      (p : Pass (List StatementItem))
      → last_time t ts ≤ c
      → ids_at o p.state ≡ v
      → TurnYielded o v c (after_page collect cancelled page_size c seen second t ts p)
  unfolding after_page TurnYielded Yielded
  after_page-TurnYielded o v page_size c seen second t ts p old e = ground arith

  module _ (page_size : ℤ) (from : Seconds)
      (fetch : Seconds → Seconds → Option (List StatementItem)) where
    turn-TurnYielded :
        (o : Seconds) (v : List Text) (cursor : Seconds) (seen : List Text)
        (second : Option Seconds) (acc : List StatementItem)
        → Bounded from fetch
        → cursor < o
        → ids_at o acc ≡ v
        → TurnYielded o v cursor
            (turn collect cancelled page_size from fetch cursor seen second acc)
    unfolding turn TurnYielded Yielded Bounded
    turn-TurnYielded o v cursor seen second acc honest lt e = elim (Bool-cases (cancelled acc)) [
      | inl dead ↦ rw (dead, turn) e
      | inr alive ↦ elim (Bool-cases (ltb from cursor)) [
        | inr before ↦ rw (alive, before, turn) e
        | inl after ↦ elim (rows-cases (fetch from cursor)) [
          | inl lost ↦ rw (alive, after, lost, turn) e
          | inr (inl empty) ↦ rw (alive, after, empty, turn) e
          | inr (inr (t, ts, got)) ↦
              let bound = honest cursor (t ∷ ts) got in
              let (kept, going) = pass_kept o cursor seen (t ∷ ts) 0 acc lt bound in
              rw (alive, after, got, turn)
                (after_page-TurnYielded o v page_size cursor seen second t ts
                  (pass collect cancelled seen (t ∷ ts) 0 acc) (last_time-up_to cursor t ts bound)
                  (kept ∙ e))
        ]
      ]
    ]

    follow :
        (o : Seconds) (v : List Text) (f : ℕ) (c : Seconds) (u : Turn (List StatementItem))
        → TurnYielded o v c u
        → ((c' : Seconds) (seen : List Text) (second : Option Seconds) (acc : List StatementItem)
            → c' ≤ c
            → ids_at o acc ≡ v
            → Yielded o v (loop collect cancelled page_size from fetch f c' seen second acc))
        → Yielded o v (elim u [
          | ends e ↦ e
          | again c' seen second acc ↦
              loop collect cancelled page_size from fetch f c' seen second acc
        ])
    unfolding TurnYielded
    follow o v f c (ends e) k rest = k
    follow o v f c (again c' seen second acc) k rest = rest c' seen second acc k.0 k.1

    loop-Yielded :
        (o : Seconds) (v : List Text) (f : ℕ) (cursor : Seconds) (seen : List Text)
        (second : Option Seconds) (acc : List StatementItem)
        → Bounded from fetch
        → cursor < o
        → ids_at o acc ≡ v
        → Yielded o v (loop collect cancelled page_size from fetch f cursor seen second acc)
    unfolding loop Yielded
    loop-Yielded o v zero cursor seen second acc honest lt e = tt
    loop-Yielded o v (suc f) cursor seen second acc honest lt e =
        follow o v f cursor (turn collect cancelled page_size from fetch cursor seen second acc)
          (turn-TurnYielded o v cursor seen second acc honest lt e)
          (λ c' seen' second' acc' le e'.
            loop-Yielded o v f c' seen' second' acc' honest (omega arith) e')

    -- What the first page leaves, where it spans more than one second.
    first_turn :
        (to : Seconds) (t : StatementItem) (ts : List StatementItem)
        → cancelled [] ≡ false
        → from < to
        → fetch from to ≡ some (t ∷ ts)
        → (last_time t ts == t.time) ≡ false
        → TurnYielded
            (last_time t ts)
            (ids_at (last_time t ts) (t ∷ ts))
            (last_time t ts - 1)
            (turn collect cancelled page_size from fetch to [] none [])
    unfolding turn TurnYielded Yielded after_page
    first_turn to t ts alive after got spans =
        let (all, going) = pass_all (t ∷ ts) 0 [] in
        let open_window : ltb from to ≡ true = ground arith in
        rw (alive, open_window, got, turn, going, spans, all, after_page) (ground arith)

    -- StatementAll, with a consumer that never stops, over a server that answers with rows up to the
    -- end of the window that it is asked for: where its first page spans more than one second, the
    -- rows that it ever yields of the oldest second of that page are those of that page, whatever
    -- other rows the server has for that second.
    pub statement_all_lost :
        (f : ℕ) (now to : Seconds) (t : StatementItem) (ts : List StatementItem)
        → Bounded from fetch
        → cancelled [] ≡ false
        → from < to
        → fetch from to ≡ some (t ∷ ts)
        → (last_time t ts == t.time) ≡ false
        → 1 ≤ last_time t ts
        → Yielded
            (last_time t ts)
            (ids_at (last_time t ts) (t ∷ ts))
            (statement_all collect cancelled page_size from fetch (suc f) now (some to) [])
    unfolding statement_all loop
    statement_all_lost f now to t ts honest alive after got spans later =
        let o = last_time t ts in
        let v = ids_at o (t ∷ ts) in
        follow o v f (o - 1) (turn collect cancelled page_size from fetch to [] none [])
          (first_turn to t ts alive after got spans)
          (λ c' seen' second' acc' le e'.
            loop-Yielded o v f c' seen' second' acc' honest (omega arith) e')
