-- ===== src/Bank/Statement/Seen.antt =====
-- One page: what the pass over it yields and what the loop remembers of it.
use go_monobank_sdk.Base.{
  ℕ, ◌+◌, ◌≡◌, refl, ◌∙◌, true, false, ◌||◌, List, [], ◌∷◌, ◌++◌, arith, length,
}
use mathlib.Core.List.{append-nil, append_assoc}
use go_monobank_sdk.Base.Decimal.{Text, text_eq, text_eq_refl, eq_of_text_eq}
use go_monobank_sdk.Bank.{Seconds, Transaction}
use go_monobank_sdk.Bank.Statement.{seen_id, remember, pass, collect}
use go_monobank_sdk.Bank.Statement.Rows.{keep, at_second, has_id, distinct_ids}

abbrev pub AllSeen : List Text → List Transaction → Type 0
AllSeen seen [] = Unit
AllSeen seen (t ∷ ts) = (seen_id t.id seen ≡ true) × AllSeen seen ts

abbrev pub NoneSeen : List Text → List Transaction → Type 0
NoneSeen seen [] = Unit
NoneSeen seen (t ∷ ts) = (seen_id t.id seen ≡ false) × NoneSeen seen ts

pass-NoneSeen :
    (seen : List Text) (ds : List Transaction) (n : ℕ) (s : List Transaction)
    → NoneSeen seen ds
    → pass collect seen ds n s ≡ record { state = s ++ ds; newly = n + length ds; going = true }
unfolding pass
pass-NoneSeen seen [] n s h = ground (arith, append-nil s)
pass-NoneSeen seen (t ∷ ts) n s h =
    rw (h.0, pass)
      (pass-NoneSeen seen ts (n + 1) (s ++ t ∷ []) h.1 ∙ ground (arith, append_assoc s (t ∷ []) ts))

-- Of a page whose first rows were seen and whose other rows were not, the others are yielded.
pub pass_page :
    (seen : List Text) (bs ds : List Transaction) (n : ℕ) (s : List Transaction)
    → AllSeen seen bs
    → NoneSeen seen ds
    → pass collect seen (bs ++ ds) n s
      ≡ record { state = s ++ ds; newly = n + length ds; going = true }
unfolding pass
pass_page seen [] ds n s hb hd = pass-NoneSeen seen ds n s hd
pass_page seen (t ∷ bs) ds n s hb hd = rw (hb.0, pass) (pass_page seen bs ds n s hb.1 hd)

-- After a page, an id is remembered if it was kept or stands in the page at the oldest second.
seen_id-remember :
    (k : Text) (o : Seconds) (ts : List Transaction) (seen : List Text)
    → seen_id k (remember o ts seen) ≡ (seen_id k seen || has_id k (at_second o ts))
unfolding seen_id remember has_id keep
seen_id-remember k o [] seen = ground arith
seen_id-remember k o (t ∷ ts) seen =
    ground (arith, seen_id-remember k o ts seen, seen_id-remember k o ts (t.id ∷ seen))

seen_id-remember_at :
    (t : Transaction) (o : Seconds) (ps : List Transaction) (seen : List Text)
    → has_id t.id (at_second o ps) ≡ true
    → seen_id t.id (remember o ps seen) ≡ true
seen_id-remember_at t o ps seen h = ground (arith, seen_id-remember t.id o ps seen)

-- Every row is among the rows that it stands in.
AllIn : List Transaction → List Transaction → Type 0
AllIn [] ys = Unit
AllIn (t ∷ ts) ys = (has_id t.id ys ≡ true) × AllIn ts ys

AllIn-cons : (u : Transaction) (xs ys : List Transaction) → AllIn xs ys → AllIn xs (u ∷ ys)
unfolding AllIn has_id
AllIn-cons u [] ys h = h
AllIn-cons u (t ∷ ts) ys h = (ground (arith, h.0), AllIn-cons u ts ys h.1)

AllIn-self : (xs : List Transaction) → AllIn xs xs
unfolding AllIn has_id
AllIn-self [] = tt
AllIn-self (t ∷ ts) = (ground (arith, text_eq_refl t.id), AllIn-cons t ts ts (AllIn-self ts))

AllSeen-of_AllIn :
    (o : Seconds) (xs ps : List Transaction) (seen : List Text)
    → AllIn xs (at_second o ps)
    → AllSeen (remember o ps seen) xs
unfolding AllIn
AllSeen-of_AllIn o [] ps seen h = tt
AllSeen-of_AllIn o (t ∷ ts) ps seen h =
    (seen_id-remember_at t o ps seen h.0, AllSeen-of_AllIn o ts ps seen h.1)

-- The rows of the oldest second are remembered.
pub remember-AllSeen :
    (o : Seconds) (ps : List Transaction) (seen : List Text)
    → AllSeen (remember o ps seen) (at_second o ps)
remember-AllSeen o ps seen =
    AllSeen-of_AllIn o (at_second o ps) ps seen (AllIn-self (at_second o ps))

-- No row of `cs` shares an id with a row of `ps`.
abbrev pub Apart : List Transaction → List Transaction → Type 0
Apart ps [] = Unit
Apart ps (t ∷ ts) = (has_id t.id ps ≡ false) × Apart ps ts

has_id-sym : (t u : Transaction) → text_eq t.id u.id ≡ false → text_eq u.id t.id ≡ false
has_id-sym t u h = ground (arith, eq_of_text_eq u.id t.id, text_eq_refl t.id)

Apart-of_absent :
    (u : Transaction) (ps cs : List Transaction)
    → has_id u.id cs ≡ false
    → Apart ps cs
    → Apart (u ∷ ps) cs
unfolding has_id
Apart-of_absent u ps [] h a = a
Apart-of_absent u ps (t ∷ ts) h a =
    (ground (arith, has_id-sym t u), Apart-of_absent u ps ts (ground arith) a.1)

Apart-nil : (cs : List Transaction) → Apart [] cs
unfolding has_id
Apart-nil [] = tt
Apart-nil (t ∷ ts) = (refl, Apart-nil ts)

has_id-append :
    (k : Text) (ps cs : List Transaction) → has_id k (ps ++ cs) ≡ (has_id k ps || has_id k cs)
unfolding has_id
has_id-append k [] cs = refl
has_id-append k (t ∷ ts) cs = ground (arith, has_id-append k ts cs)

pub Apart-of_distinct_ids :
    (ps cs : List Transaction) → distinct_ids (ps ++ cs) ≡ true → Apart ps cs
unfolding distinct_ids
Apart-of_distinct_ids [] cs d = Apart-nil cs
Apart-of_distinct_ids (t ∷ ts) cs d =
    Apart-of_absent t ts cs (ground (arith, has_id-append t.id ts cs))
      (Apart-of_distinct_ids ts cs (ground arith))

has_id-at_second :
    (k : Text) (o : Seconds) (ps : List Transaction)
    → has_id k ps ≡ false
    → has_id k (at_second o ps) ≡ false
unfolding has_id keep
has_id-at_second k o [] h = refl
has_id-at_second k o (t ∷ ts) h = ground (arith, has_id-at_second k o ts)

-- Rows after the page stay unseen.
pub remember-NoneSeen :
    (o : Seconds) (ps cs : List Transaction) (seen : List Text)
    → Apart ps cs
    → NoneSeen seen cs
    → NoneSeen (remember o ps seen) cs
remember-NoneSeen o ps [] seen a h = tt
remember-NoneSeen o ps (t ∷ ts) seen a h = (
  ground (arith, seen_id-remember t.id o ps seen, has_id-at_second t.id o ps a.0, h.0),
  remember-NoneSeen o ps ts seen a.1 h.1,
)

pub NoneSeen-nil : (cs : List Transaction) → NoneSeen [] cs
unfolding seen_id
NoneSeen-nil [] = tt
NoneSeen-nil (t ∷ ts) = (refl, NoneSeen-nil ts)

pub NoneSeen-append :
    (seen : List Text) (xs ys : List Transaction)
    → NoneSeen seen (xs ++ ys)
    → NoneSeen seen xs × NoneSeen seen ys
NoneSeen-append seen [] ys h = (tt, h)
NoneSeen-append seen (t ∷ ts) ys h = let (a, b) = NoneSeen-append seen ts ys h.1 in ((h.0, a), b)
