-- ===== src/Tests/Merchants.antt =====
-- A merchant's payments on concrete values.
use go_monobank_sdk.Base.{
  ◌++◌, ◌≡◌, ◌≢◌, ◌↔◌, ◌⊎◌, refl, true, false, not, ◌&&◌, some, List, [], ◌∷◌,
}
use go_monobank_sdk.Base.Int.{pos}
use go_monobank_sdk.Base.Decimal.{codes}
use go_monobank_sdk.Money.{Money}
use go_monobank_sdk.Acquiring.{
  InvoiceStatus, InvoiceStatusResponse, success, is_terminal, active, cancelled, payment_failed,
  wallet_created, wallet_failed, hold, success, is_terminal, dedup_key,
}
use go_monobank_sdk.Acquiring.Poll.{
  Turn, answered, finished, poll_invoice, poll_loop, pending, ends, is_final, poll_invoice_iff,
}
use go_monobank_sdk.Acquiring.Lifecycle.{
  SubscriptionStatusResponse, retain_access, grace_eligible, classify_subscription, classify_charge,
  retain_access-classify_subscription, classify_charge_lem,
}
use go_monobank_sdk.Acquiring.Reconcile.{
  StatementInvoice, Local, clean, seen, insert, text_lt, reconcile_statement,
}
use go_monobank_sdk.Acquiring.Report.{
  all_agree, all_seen, listed, recorded, clean-reconcile_statement, listed-only_local,
}

abbrev dead_card : SubscriptionStatusResponse
dead_card = record { status = active; wallet_status = wallet_failed }

retain_access-classify_subscription_test :
    (retain_access (classify_subscription (some dead_card)) ≡ false) ↔ (
      (s : SubscriptionStatusResponse) × (some dead_card ≡ some s)
      × ((s.status ≡ cancelled) ⊎ (s.wallet_status ≡ wallet_failed)))
retain_access-classify_subscription_test = retain_access-classify_subscription (some dead_card)

classify_charge_lem_test :
    ((retain_access (classify_charge payment_failed wallet_created) ≡ false)
      ↔ (wallet_created ≡ wallet_failed))
    × ((grace_eligible (classify_charge payment_failed wallet_created) ≡ true)
        ↔ ((payment_failed ≡ payment_failed) × (wallet_created ≢ wallet_failed)))
classify_charge_lem_test = classify_charge_lem payment_failed wallet_created

abbrev hundred : Money
hundred = record { minor = pos 10000; code = pos 980 }

abbrev statement : List StatementInvoice
statement = record { invoice_id = codes "p1"; status = codes "success"; amount = hundred } ∷ []

abbrev local : Local
local =
    (codes "p3", record { amount = hundred; status = [] })
    ∷ (codes "p1", record { amount = hundred; status = [] })
    ∷ (codes "p2", record { amount = hundred; status = [] })
    ∷ []

only_local_test : (reconcile_statement statement local).only_local ≡ codes "p2" ∷ codes "p3" ∷ []
unfolding reconcile_statement seen insert text_lt
only_local_test = refl

clean-reconcile_statement_example :
    clean (reconcile_statement statement local)
    ≡ all_agree local statement && all_seen statement local
clean-reconcile_statement_example = clean-reconcile_statement statement local

listed-only_local_test :
    listed (codes "p2") (reconcile_statement statement local).only_local
    ≡ recorded (codes "p2") local && not (seen (codes "p2") statement)
listed-only_local_test = listed-only_local (codes "p2") statement local

dedup_key_test :
    dedup_key
      (some (record { invoice_id = codes "p2"; status = hold; modified_date = codes "2024" }))
    ≡ codes "p2|2024"
unfolding dedup_key
dedup_key_test = refl

abbrev invoice : InvoiceStatus → InvoiceStatusResponse
invoice s = record { invoice_id = codes "p2"; status = s; modified_date = [] }

abbrev turns : List Turn
turns = answered (some (invoice hold)) ∷ answered (some (invoice success)) ∷ []

poll_invoice_iff_example : (poll_invoice (codes "p2") false turns ≡ finished (invoice success)) ↔ (
    (before after : List Turn) × (turns ≡ before ++ (answered (some (invoice success)) ∷ after))
    × (pending false before ≡ true)
    × (is_final false (invoice success).status ≡ true))
poll_invoice_iff_example = poll_invoice_iff (codes "p2") false turns (invoice success) refl

poll_invoice_hold_test : poll_invoice (codes "p2") true turns ≡ finished (invoice hold)
unfolding poll_invoice poll_loop ends is_terminal
poll_invoice_hold_test = refl

poll_invoice_test : poll_invoice (codes "p2") false turns ≡ finished (invoice success)
unfolding poll_invoice poll_loop ends is_terminal
poll_invoice_test = refl
