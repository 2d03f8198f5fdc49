-- ===== src/Bank/Statement/Complete.antt =====
-- DrainWindow yields the whole window, each row once and newest first.
use go_monobank_sdk.Base.{
  ℕ, zero, suc, ◌+◌, ◌-◌, ◌≤◌, ◌<◌, ◌≡◌, refl, sym, ap, ◌∙◌, Bool, true, false, Option, none, some,
  List, [], ◌∷◌, ◌++◌, arith, leb, ◌==◌, if◌then◌else◌, length, take, drop, length-append,
  length-take, length-drop, take-append-drop,
}
use mathlib.Core.Path.{ap₂}
use mathlib.Core.List.{append-nil, append_assoc}
use go_monobank_sdk.Base.Decimal.{Text}
use go_monobank_sdk.Bank.{Seconds, Transaction}
use go_monobank_sdk.Bank.Statement.{
  StatementFetcher, finished, same_second, last_time, remember, Pass, pass, collect, drain,
  drain_window, statement_max_rows,
}
use go_monobank_sdk.Bank.Statement.Rows.{
  in_window, window, at_second, up_to, IsNewestFirst, distinct_ids, keep-append, keep-IsNewestFirst,
  distinct_ids-keep, window-up_to, length-at_second-up_to, up_to_all, up_to-at_second,
  last_time_bounds, last_time-le, window-AllUpTo,
}
use go_monobank_sdk.Bank.Statement.Seen.{
  AllSeen, NoneSeen, Apart, pass_page, remember-AllSeen, Apart-of_distinct_ids, remember-NoneSeen,
  NoneSeen-nil, NoneSeen-append,
}

take-append_le :
    (n : ℕ) (bs cs : List Transaction)
    → length bs ≤ n
    → take n (bs ++ cs) ≡ bs ++ take (n - length bs) cs
take-append_le n [] cs h = ap (λ (k : ℕ). take k cs) (omega arith)
take-append_le zero (t ∷ ts) cs h = absurd (omega arith)
take-append_le (suc n) (t ∷ ts) cs h =
    ap (◌∷◌ t)
      (take-append_le n ts cs (omega arith) ∙ ap (λ (k : ℕ). ts ++ take k cs) (omega arith))

nil_of_length : (cs : List Transaction) → length cs ≡ 0 → cs ≡ []
nil_of_length [] h = refl
nil_of_length (t ∷ ts) h = absurd (omega arith)

take_all : (n : ℕ) (cs : List Transaction) → length cs ≤ n → take n cs ≡ cs
take_all zero [] h = refl
take_all zero (t ∷ ts) h = absurd (omega arith)
take_all (suc n) [] h = refl
take_all (suc n) (t ∷ ts) h = ap (◌∷◌ t) (take_all n ts (omega arith))

length-at_second_prefix :
    (s : Seconds) (ps cs : List Transaction)
    → length (at_second s ps) ≤ length (at_second s (ps ++ cs))
length-at_second_prefix s ps cs = omega (
  arith,
  ap length (keep-append (λ t. t.time == s) ps cs),
  length-append (at_second s ps) (at_second s cs),
)

-- The documented behaviour of the statement endpoint: of the rows in the window, both ends
-- included, the newest `cap`.
abbrev pub Serves : ℕ → List Transaction → StatementFetcher → Type 0
Serves cap rows fetch = (from to : Seconds) → fetch from to ≡ some (take cap (window from to rows))

module _ (cap : ℕ) (rows : List Transaction) (fetch : StatementFetcher) (from to : Seconds)
    (serves : (c : Seconds) → c ≤ to → fetch from c ≡ some (take cap (window from c rows)))
    (newest : IsNewestFirst rows) (ids : distinct_ids rows ≡ true)
    (sparse : (s : Seconds) → length (at_second s (window from to rows)) < cap) where
  -- Where the loop stands: `bs` are the seen rows of the cursor's second, `cs` the rows to come.
  record Head (cursor : Seconds) (seen : List Text) (bs cs : List Transaction) : Type 0 where
    rest : window from cursor rows ≡ bs ++ cs
    within : cursor ≤ to
    seen_all : AllSeen seen bs
    seen_none : NoneSeen seen cs
    short : length bs < cap

  -- The page that is fetched there.
  fetch_page :
      (c : Seconds) (seen : List Text) (bs cs : List Transaction)
      → Head c seen bs cs
      → fetch from c ≡ some (bs ++ take (cap - length bs) cs)
  fetch_page c seen bs cs h =
      serves c h.within
      ∙ ap (λ (l : List Transaction). some (take cap l)) h.rest
      ∙ ap some (take-append_le cap bs cs (omega (arith, h.short)))

  -- After a full page that ends at second `o`, the loop stands at `o`.
  next_Head :
      (c : Seconds) (seen kept : List Text) (bs cs ds es : List Transaction) (t : Transaction)
      (ts : List Transaction)
      → Head c seen bs cs
      → cs ≡ ds ++ es
      → bs ++ ds ≡ t ∷ ts
      → NoneSeen kept cs
      → Head
          (last_time t ts)
          (remember (last_time t ts) (t ∷ ts) kept)
          (at_second (last_time t ts) (t ∷ ts))
          es
  next_Head c seen kept bs cs ds es t ts h split page fresh =
      let o = last_time t ts in
      let whole : window from c rows ≡ (t ∷ ts) ++ es =
        h.rest
        ∙ ap (λ (l : List Transaction). bs ++ l) split
        ∙ sym (append_assoc bs ds es)
        ∙ ap (λ (l : List Transaction). l ++ es) page in
      let sorted : IsNewestFirst ((t ∷ ts) ++ es) =
        rw whole at (keep-IsNewestFirst (in_window from c) rows newest) in
      let o-le : o ≤ c = last_time-le c t ts es (rw whole at (window-AllUpTo from c rows)) in
      let (below, above) = last_time_bounds t ts es sorted in
      let apart : Apart (t ∷ ts) es =
        Apart-of_distinct_ids (t ∷ ts) es
          (rw whole at (distinct_ids-keep (in_window from c) rows ids)) in
      let rest : window from o rows ≡ at_second o (t ∷ ts) ++ es =
        sym (window-up_to from c o rows o-le)
        ∙ ap (up_to o) whole
        ∙ keep-append (λ u. leb u.time o) (t ∷ ts) es
        ∙ ap₂ (λ (a b : List Transaction). a ++ b) (up_to-at_second o (t ∷ ts) above)
            (up_to_all o es below) in
      record {
        rest = rest;
        within = omega (arith, h.within);
        seen_all = remember-AllSeen o (t ∷ ts) kept;
        seen_none =
            remember-NoneSeen o (t ∷ ts) es kept apart
              (NoneSeen-append kept ds es (rw split at fresh)).1;
        short = omega (
          arith,
          length-at_second_prefix o (t ∷ ts) es,
          ap (λ (l : List Transaction). length (at_second o l)) whole,
          ap (λ (l : List Transaction). length (at_second o l))
              (window-up_to from to c rows h.within),
          length-at_second-up_to o c (window from to rows),
          sparse o,
        );
      }

  kept_NoneSeen :
      (b : Bool) (seen : List Text) (cs : List Transaction)
      → NoneSeen seen cs
      → NoneSeen (if b then seen else []) cs
  kept_NoneSeen true seen cs h = h
  kept_NoneSeen false seen cs h = NoneSeen-nil cs

  -- What the loop does from a place with fuel `f`.
  abbrev Drains : ℕ → Type 0
  Drains f =
      (c : Seconds) (seen : List Text) (boundary : Option Seconds) (s bs cs : List Transaction)
      → Head c seen bs cs
      → length cs < f
      → drain collect cap from fetch f c seen boundary s ≡ finished (s ++ cs)

  -- The round on a page with a row.
  drain_page :
      (f : ℕ) (c : Seconds) (seen : List Text) (boundary : Option Seconds)
      (s bs cs : List Transaction) (t : Transaction) (ts : List Transaction)
      → Drains f
      → Head c seen bs cs
      → length cs < suc f
      → bs ++ take (cap - length bs) cs ≡ t ∷ ts
      → fetch from c ≡ some (t ∷ ts)
      → drain collect cap from fetch (suc f) c seen boundary s ≡ finished (s ++ cs)
  unfolding drain
  drain_page f c seen boundary s bs cs t ts rounds h lt e got =
      let m = cap - length bs in
      let ds = take m cs in
      let es = drop m cs in
      let split : cs ≡ ds ++ es = sym (take-append-drop m cs) in
      let o = last_time t ts in
      let kept = if same_second boundary o then seen else [] in
      let fresh : NoneSeen kept cs = kept_NoneSeen (same_second boundary o) seen cs h.seen_none in
      let yielded : pass collect seen (t ∷ ts) 0 s
          ≡ record { state = s ++ ds; newly = 0 + length ds; going = true } =
        ap (λ (l : List Transaction). pass collect seen l 0 s) (sym e)
        ∙ pass_page seen bs ds 0 s h.seen_all
            (NoneSeen-append seen ds es (rw split at h.seen_none)).0 in
      let size : length (t ∷ ts) ≡ length bs + length ds =
        ap length (sym e) ∙ length-append bs ds in
      let taken = length-take m cs in
      let dropped = length-drop m cs in
      let go : length es < f
          → drain collect cap from fetch f o (remember o (t ∷ ts) kept) (some o) (s ++ ds)
            ≡ finished ((s ++ ds) ++ es) =
        rounds o (remember o (t ∷ ts) kept) (some o) (s ++ ds) (at_second o (t ∷ ts)) es
          (next_Head c seen kept bs cs ds es t ts h split e fresh) in
      let joined : (s ++ ds) ++ es ≡ s ++ cs =
        append_assoc s ds es ∙ ap (λ (l : List Transaction). s ++ l) (sym split) in
      let all : length cs ≤ m → ds ≡ cs = take_all m cs in
      ground (
        arith,
        got,
        ap (λ (p : Pass (List Transaction)). p.state) yielded,
        ap (λ (p : Pass (List Transaction)). p.newly) yielded,
        ap (λ (p : Pass (List Transaction)). p.going) yielded,
        go,
        joined,
        all,
        taken,
        dropped,
        size,
        h.short,
      )

  -- The round on an empty page.
  drain_empty :
      (f : ℕ) (c : Seconds) (seen : List Text) (boundary : Option Seconds)
      (s bs cs : List Transaction)
      → Head c seen bs cs
      → bs ++ take (cap - length bs) cs ≡ []
      → fetch from c ≡ some []
      → drain collect cap from fetch (suc f) c seen boundary s ≡ finished (s ++ cs)
  unfolding drain
  drain_empty f c seen boundary s bs cs h e got =
      let none_left : length cs ≡ 0 = omega (
        arith,
        ap length e,
        length-append bs (take (cap - length bs) cs),
        length-take (cap - length bs) cs,
        h.short,
      ) in
      rw (got, drain)
        (ap (λ (l : List Transaction). finished l)
          (sym (append-nil s)
            ∙ ap (λ (l : List Transaction). s ++ l) (sym (nil_of_length cs none_left))))

  drain_round :
      (f : ℕ) (c : Seconds) (seen : List Text) (boundary : Option Seconds)
      (s bs cs page : List Transaction)
      → Drains f
      → Head c seen bs cs
      → length cs < suc f
      → bs ++ take (cap - length bs) cs ≡ page
      → fetch from c ≡ some page
      → drain collect cap from fetch (suc f) c seen boundary s ≡ finished (s ++ cs)
  drain_round f c seen boundary s bs cs [] rounds h lt e got =
      drain_empty f c seen boundary s bs cs h e got
  drain_round f c seen boundary s bs cs (t ∷ ts) rounds h lt e got =
      drain_page f c seen boundary s bs cs t ts rounds h lt e got

  -- From any such place the rest of the window is yielded, with fuel for each row of it.
  drain_rest : (f : ℕ) → Drains f
  drain_rest zero c seen boundary s bs cs h lt = absurd (omega arith)
  drain_rest (suc f) c seen boundary s bs cs h lt =
      drain_round f c seen boundary s bs cs (bs ++ take (cap - length bs) cs) (drain_rest f) h lt
        refl (fetch_page c seen bs cs h)

  pub drain_complete :
      (f : ℕ) (s : List Transaction)
      → length (window from to rows) < f
      → drain collect cap from fetch f to [] none s ≡ finished (s ++ window from to rows)
  drain_complete f s lt =
      drain_rest f to [] none s [] (window from to rows)
        (record {
          rest = refl;
          within = omega arith;
          seen_all = tt;
          seen_none = NoneSeen-nil (window from to rows);
          short = omega (arith, sparse 0);
        })
        lt

-- The same for a server of which only the answers to the windows that the drain asks for are known.
pub drain_window_served :
    (fuel : ℕ) (rows : List Transaction) (fetch : StatementFetcher) (from to : Seconds)
    (s : List Transaction)
    → ((c : Seconds) → c ≤ to → fetch from c ≡ some (take statement_max_rows (window from c rows)))
    → IsNewestFirst rows
    → distinct_ids rows ≡ true
    → ((u : Seconds) → length (at_second u (window from to rows)) < statement_max_rows)
    → length (window from to rows) < fuel
    → drain_window collect fuel from to fetch s ≡ finished (s ++ window from to rows)
unfolding drain_window
drain_window_served fuel rows fetch from to s serves newest ids sparse lt =
    drain_complete statement_max_rows rows fetch from to serves newest ids sparse fuel s lt

-- Against a server whose rows are newest first with distinct ids, that answers with the newest 500
-- rows of a window, and with fewer than 500 rows of the window in each second, DrainWindow ends,
-- with one round of fuel for each row and one more, and has yielded after the rows `s` exactly the
-- rows of the window, each once and newest first.
pub drain_window_complete :
    (fuel : ℕ) (rows : List Transaction) (fetch : StatementFetcher) (from to : Seconds)
    (s : List Transaction)
    → Serves statement_max_rows rows fetch
    → IsNewestFirst rows
    → distinct_ids rows ≡ true
    → ((u : Seconds) → length (at_second u (window from to rows)) < statement_max_rows)
    → length (window from to rows) < fuel
    → drain_window collect fuel from to fetch s ≡ finished (s ++ window from to rows)
drain_window_complete fuel rows fetch from to s serves newest ids sparse lt =
    drain_window_served fuel rows fetch from to s (λ c le. serves from c) newest ids sparse lt
