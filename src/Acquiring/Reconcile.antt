-- ===== src/Acquiring/Reconcile.antt =====
-- ReconcileStatement (acquiring/reconcile.go): a statement of the bank against the payments that the
-- merchant recorded. The map of local payments is an association list with distinct keys.
use go_monobank_sdk.Base.{
  Bool, true, false, ◌&&◌, ◌||◌, Option, none, some, List, [], ◌∷◌, ◌++◌, ltb, ◌==◌, if◌then◌else◌,
}
use go_monobank_sdk.Base.Int.{pos}
use go_monobank_sdk.Base.Word.{◌==ℤ◌}
use go_monobank_sdk.Base.Decimal.{Text, codes, text_eq}
use go_monobank_sdk.Money.{Money}

-- StatementInvoice: the fields that the reconciliation compares.
pub record StatementInvoice : Type 0 where
  pub invoice_id : Text
  pub status : Text
  pub amount : Money

pub record LocalPayment : Type 0 where
  pub amount : Money
  pub status : Text

pub record Mismatch : Type 0 where
  pub invoice_id : Text
  pub reason : Text
  pub local_amount : Money
  pub remote_amount : Money
  pub local_status : Text
  pub remote_status : Text

abbrev no_money : Money
no_money = record { minor = pos 0; code = pos 0 }

pub record Reconciliation : Type 0 where
  pub only_remote : List StatementInvoice
  pub only_local : List Text
  pub mismatches : List Mismatch

abbrev pub Local : Type 0
Local = List (Text × LocalPayment)

unfoldable pub payment : Text → Local → Option LocalPayment
payment k [] = none
payment k ((j, p) ∷ m) = if text_eq j k then some p else payment k m

unfoldable pub seen : Text → List StatementInvoice → Bool
seen k [] = false
seen k (row ∷ rows) = text_eq row.invoice_id k || seen k rows

abbrev pub is_nil : {A : Type 0} → List A → Bool
is_nil [] = true
is_nil (x ∷ xs) = false

-- Reconciliation.Clean.
unfoldable pub clean : Reconciliation → Bool
clean r = is_nil r.only_remote && (is_nil r.only_local && is_nil r.mismatches)

unfoldable pub amount_mismatches : StatementInvoice → LocalPayment → List Mismatch
amount_mismatches row lp =
    if lp.amount.minor ==ℤ row.amount.minor
    then []
    else record {
      invoice_id = row.invoice_id;
      reason = codes "amount";
      local_amount = lp.amount;
      remote_amount = row.amount;
      local_status = [];
      remote_status = [];
    }
      ∷ []

unfoldable pub status_mismatches : StatementInvoice → LocalPayment → List Mismatch
status_mismatches row lp =
    if text_eq lp.status [] || text_eq lp.status row.status
    then []
    else record {
      invoice_id = row.invoice_id;
      reason = codes "status";
      local_amount = no_money;
      remote_amount = no_money;
      local_status = lp.status;
      remote_status = row.status;
    }
      ∷ []

-- One row of the statement.
unfoldable pub reconcile_row : Local → StatementInvoice → Reconciliation → Reconciliation
unfolding amount_mismatches status_mismatches
reconcile_row local row rec = elim (payment row.invoice_id local) [
  | none ↦ record rec { only_remote = rec.only_remote ++ (row ∷ []) }
  | some lp ↦ record rec {
    mismatches = rec.mismatches ++ (amount_mismatches row lp ++ status_mismatches row lp);
  }
]

unfoldable pub reconcile_rows : Local → List StatementInvoice → Reconciliation → Reconciliation
reconcile_rows local [] rec = rec
reconcile_rows local (row ∷ rows) rec = reconcile_rows local rows (reconcile_row local row rec)

-- The ids of the local payments that no row has, before they are sorted.
unfoldable pub unseen : List StatementInvoice → Local → List Text
unseen statement [] = []
unseen statement ((id, lp) ∷ m) =
    if seen id statement then unseen statement m else id ∷ unseen statement m

-- `sort.Strings`: by bytes.
unfoldable pub text_lt : Text → Text → Bool
text_lt s [] = false
text_lt [] (d ∷ t) = true
text_lt (c ∷ s) (d ∷ t) = ltb c d || (c == d && text_lt s t)

unfoldable pub insert : Text → List Text → List Text
insert s [] = s ∷ []
insert s (t ∷ ts) = if text_lt t s then t ∷ insert s ts else s ∷ t ∷ ts

unfoldable pub sort_strings : List Text → List Text
sort_strings [] = []
sort_strings (s ∷ ss) = insert s (sort_strings ss)

unfoldable pub reconcile_statement : List StatementInvoice → Local → Reconciliation
unfolding reconcile_rows unseen sort_strings
reconcile_statement statement local =
    let rec =
      reconcile_rows local statement
        (record { only_remote = []; only_local = []; mismatches = [] }) in
    record rec { only_local = sort_strings (unseen statement local) }
