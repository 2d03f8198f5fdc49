-- ===== src/Acquiring/Report.antt =====
-- What a reconciliation reports.
use go_monobank_sdk.Base.{
  ◌≡◌, refl, ap, ◌∙◌, inl, inr, Bool, true, false, not, ◌&&◌, ◌||◌, none, some, List, [], ◌∷◌, ◌++◌,
  arith, Bool-cases, Option-cases,
}
use go_monobank_sdk.Base.Word.{◌==ℤ◌}
use go_monobank_sdk.Base.Decimal.{Text, text_eq, eq_of_text_eq}
use go_monobank_sdk.Acquiring.Reconcile.{
  StatementInvoice, Reconciliation, Local, payment, seen, is_nil, clean, amount_mismatches,
  status_mismatches, reconcile_row, reconcile_rows, unseen, insert, sort_strings,
  reconcile_statement,
}

-- A row that agrees with the merchant's record: the payment is there, the amounts are equal, and
-- the recorded status is empty or the row's.
unfoldable pub agrees : Local → StatementInvoice → Bool
agrees local row = elim (payment row.invoice_id local) [
  | none ↦ false
  | some lp ↦
      (lp.amount.minor ==ℤ row.amount.minor)
      && (text_eq lp.status [] || text_eq lp.status row.status)
]

unfoldable pub all_agree : Local → List StatementInvoice → Bool
all_agree local [] = true
all_agree local (row ∷ rows) = agrees local row && all_agree local rows

unfoldable pub all_seen : List StatementInvoice → Local → Bool
all_seen statement [] = true
all_seen statement ((id, lp) ∷ m) = seen id statement && all_seen statement m

is_nil-append : {A : Type 0} → (xs ys : List A) → is_nil (xs ++ ys) ≡ is_nil xs && is_nil ys
is_nil-append [] ys = refl
is_nil-append (x ∷ xs) ys = refl

clean-reconcile_row :
    (local : Local) (row : StatementInvoice) (rec : Reconciliation)
    → clean (reconcile_row local row rec) ≡ clean rec && agrees local row
unfolding clean reconcile_row agrees amount_mismatches status_mismatches
clean-reconcile_row local row rec = elim (Option-cases (payment row.invoice_id local)) [
  | inl absent ↦
      rw (absent, reconcile_row, agrees) (ground (arith, is_nil-append rec.only_remote (row ∷ [])))
  | inr (lp, known) ↦
      rw (known, reconcile_row, agrees)
        (ground (
          arith,
          is_nil-append rec.mismatches (amount_mismatches row lp ++ status_mismatches row lp),
        ))
]

clean-reconcile_rows :
    (local : Local) (rows : List StatementInvoice) (rec : Reconciliation)
    → clean (reconcile_rows local rows rec) ≡ clean rec && all_agree local rows
unfolding reconcile_rows all_agree
clean-reconcile_rows local [] rec = ground arith
clean-reconcile_rows local (row ∷ rows) rec = ground (
  arith,
  clean-reconcile_rows local rows (reconcile_row local row rec),
  clean-reconcile_row local row rec,
)

only_local-reconcile_row :
    (local : Local) (row : StatementInvoice) (rec : Reconciliation)
    → (reconcile_row local row rec).only_local ≡ rec.only_local
unfolding reconcile_row
only_local-reconcile_row local row rec = elim (Option-cases (payment row.invoice_id local)) [
  | inl absent ↦ rw (absent, reconcile_row) refl
  | inr (lp, known) ↦ rw (known, reconcile_row) refl
]

only_local-reconcile_rows :
    (local : Local) (rows : List StatementInvoice) (rec : Reconciliation)
    → (reconcile_rows local rows rec).only_local ≡ rec.only_local
unfolding reconcile_rows
only_local-reconcile_rows local [] rec = refl
only_local-reconcile_rows local (row ∷ rows) rec =
    only_local-reconcile_rows local rows (reconcile_row local row rec)
    ∙ only_local-reconcile_row local row rec

is_nil-insert : (s : Text) (ss : List Text) → is_nil (insert s ss) ≡ false
unfolding insert
is_nil-insert s [] = refl
is_nil-insert s (t ∷ ts) = ground arith

is_nil-sort_strings : (ss : List Text) → is_nil (sort_strings ss) ≡ is_nil ss
unfolding sort_strings
is_nil-sort_strings [] = refl
is_nil-sort_strings (s ∷ ss) = is_nil-insert s (sort_strings ss)

is_nil-unseen :
    (statement : List StatementInvoice) (m : Local)
    → is_nil (unseen statement m) ≡ all_seen statement m
unfolding unseen all_seen
is_nil-unseen statement [] = refl
is_nil-unseen statement ((id, lp) ∷ m) = ground (arith, is_nil-unseen statement m)

-- A reconciliation is clean exactly when every row of the statement agrees with the payment
-- recorded for it and every recorded payment has a row.
pub clean-reconcile_statement :
    (statement : List StatementInvoice) (local : Local)
    → clean (reconcile_statement statement local)
      ≡ all_agree local statement && all_seen statement local
unfolding reconcile_statement clean
clean-reconcile_statement statement local =
    let rec =
      reconcile_rows local statement
        (record { only_remote = []; only_local = []; mismatches = [] }) in
    ground (
      arith,
      clean-reconcile_rows local statement
          (record { only_remote = []; only_local = []; mismatches = [] }),
      only_local-reconcile_rows local statement
          (record { only_remote = []; only_local = []; mismatches = [] }),
      is_nil-sort_strings (unseen statement local),
      is_nil-unseen statement local,
    )

unfoldable pub listed : Text → List Text → Bool
listed k [] = false
listed k (j ∷ ks) = text_eq j k || listed k ks

unfoldable pub recorded : Text → Local → Bool
recorded k [] = false
recorded k ((j, lp) ∷ m) = text_eq j k || recorded k m

listed-insert : (k s : Text) (ss : List Text) → listed k (insert s ss) ≡ text_eq s k || listed k ss
unfolding listed insert
listed-insert k s [] = refl
listed-insert k s (t ∷ ts) = ground (arith, listed-insert k s ts)

listed-sort_strings : (k : Text) (ss : List Text) → listed k (sort_strings ss) ≡ listed k ss
unfolding sort_strings listed
listed-sort_strings k [] = refl
listed-sort_strings k (s ∷ ss) =
    ground (arith, listed-insert k s (sort_strings ss), listed-sort_strings k ss)

listed-unseen :
    (k : Text) (statement : List StatementInvoice) (m : Local)
    → listed k (unseen statement m) ≡ recorded k m && not (seen k statement)
unfolding unseen listed recorded
listed-unseen k statement [] = refl
listed-unseen k statement ((id, lp) ∷ m) = elim (Bool-cases (text_eq id k)) [
  | inl same ↦ ground (
    arith,
    listed-unseen k statement m,
    ap (λ (x : Text). seen x statement) (eq_of_text_eq id k same),
  )
  | inr other ↦ ground (arith, listed-unseen k statement m)
]

-- OnlyLocal lists exactly the ids that have a recorded payment and no row in the statement.
pub listed-only_local :
    (k : Text) (statement : List StatementInvoice) (local : Local)
    → listed k (reconcile_statement statement local).only_local
      ≡ recorded k local && not (seen k statement)
unfolding reconcile_statement
listed-only_local k statement local =
    listed-sort_strings k (unseen statement local) ∙ listed-unseen k statement local
