-- ===== src/Tests/Iterators.antt =====
-- The iterators of the business package on concrete rows.
use go_monobank_sdk.Base.{
  ◌≡◌, ◌≢◌, ◌+◌, refl, Bool, false, Option, some, List, [], ◌∷◌, arith, leb, if◌then◌else◌,
}
use go_monobank_sdk.Base.Int.{ℤ, pos}
use go_monobank_sdk.Base.Decimal.{Text, codes}
use go_monobank_sdk.Bank.{Seconds}
use go_monobank_sdk.Bank.Statement.{seen_id}
use go_monobank_sdk.Acquiring.{active, payment_success}
use go_monobank_sdk.Acquiring.Subscriptions.{
  SubscriptionPayment, SubscriptionListItem, subscription_list_all, subscription_payments_all,
}
use go_monobank_sdk.Acquiring.Subscriptions.Pages.{subscription_list_all_complete}
use go_monobank_sdk.Business.{Contact, StatementItem, Ended, finished, out_of_fuel}
use go_monobank_sdk.Business.Contacts.{contacts_all}
use go_monobank_sdk.Business.Contacts.Complete.{serve, contacts_all_complete}
use go_monobank_sdk.Business.Statements.{
  pass, after_page, turn, loop, last_time, remember, statement_all,
}
use go_monobank_sdk.Business.Statements.Ends.{statement_all_ends}
use go_monobank_sdk.Business.Statements.Lost.{
  Bounded, up_to, ids_at, Yielded, collect, statement_all_lost,
}

abbrev contact : Text → Contact
contact id = record {
  id = id;
  le_client_id = pos 1;
  full_name = [];
  inn = [];
  document_type = [];
  document_number = [];
  document_series = [];
  iban = [];
  pan = [];
}

abbrev directory : List Contact
directory = contact (codes "a") ∷ contact (codes "b") ∷ contact (codes "c") ∷ []

contacts_all_complete_example :
    contacts_all go_monobank_sdk.Business.Contacts.Complete.collect
      go_monobank_sdk.Business.Contacts.Complete.never
      (λ size. serve directory (λ n. 2))
      4
      (pos 2)
      []
    ≡ finished directory
contacts_all_complete_example =
    contacts_all_complete directory (λ size n. 2) (pos 2) 4 (λ n. omega arith) (omega arith)

abbrev row : Text → Seconds → StatementItem
row id time = record {
  id = id;
  external_reference = [];
  time = time;
  completed_time = time;
  description = [];
  amount = record { minor = pos 100; code = pos 980 };
  currency_code = codes "UAH";
  receipt_id = [];
  counter_edrpou = [];
  counter_iban = [];
  counter_name = [];
  reverse = false;
  status = [];
}

-- A server with rows `a` at 9 and `b`, `c` at 8, that answers with two rows at most.
abbrev fetch : Seconds → Seconds → Option (List StatementItem)
fetch from to =
    if leb 9 to
    then some (row (codes "a") 9 ∷ row (codes "b") 8 ∷ [])
    else (if leb 8 to then some (row (codes "b") 8 ∷ row (codes "c") 8 ∷ []) else some [])

fetch-Bounded : Bounded 1 fetch
unfolding Bounded up_to
fetch-Bounded c page e = ground arith

abbrev never : List StatementItem → Bool
never acc = false

-- The row `c` is never yielded.
lost_test :
    statement_all collect never (pos 2) 1 fetch 12 20 (some 10) []
    ≡ finished (row (codes "a") 9 ∷ row (codes "b") 8 ∷ [])
unfolding statement_all loop turn pass after_page last_time remember seen_id
lost_test = refl

statement_all_lost_example :
    Yielded 8
      (ids_at 8 (row (codes "a") 9 ∷ row (codes "b") 8 ∷ []))
      (statement_all collect never (pos 2) 1 fetch 12 20 (some 10) [])
unfolding last_time
statement_all_lost_example =
    statement_all_lost never (pos 2) 1 fetch 11 20 10 (row (codes "a") 9) (row (codes "b") 8 ∷ [])
      fetch-Bounded refl (omega arith) refl refl (omega arith)

statement_all_ends_example :
    statement_all collect never (pos 2) 1 fetch 11 20 (some 10) [] ≢ out_of_fuel
statement_all_ends_example =
    statement_all_ends collect never (pos 2) 1 fetch 11 20 10 [] fetch-Bounded (omega arith)

abbrev payment : ℤ → SubscriptionPayment
payment n = record { amount = n; currency = pos 980; status = payment_success; charged_at = [] }

abbrev item : Text → SubscriptionListItem
item id = record {
  subscription_id = id;
  amount = pos 100;
  interval = codes "1m";
  start_date = [];
  created = [];
  next_charge_date = [];
  end_date = [];
  status = active;
}

abbrev item_pages : List (List SubscriptionListItem)
item_pages = (item (codes "a") ∷ item (codes "b") ∷ []) ∷ (item (codes "c") ∷ []) ∷ []

abbrev payment_pages : List (List SubscriptionPayment)
payment_pages = (payment (pos 1) ∷ []) ∷ (payment (pos 2) ∷ []) ∷ []

subscription_list_all_complete_example :
    (subscription_list_all go_monobank_sdk.Acquiring.Subscriptions.Pages.never
        go_monobank_sdk.Acquiring.Subscriptions.Pages.collect
        (go_monobank_sdk.Acquiring.Subscriptions.Pages.serve item_pages)
        2
        (pos (1 + 1))
        []
      ≡ go_monobank_sdk.Acquiring.Subscriptions.finished
          (go_monobank_sdk.Acquiring.Subscriptions.Pages.concat ((item (codes "c") ∷ []) ∷ [])))
    × (subscription_payments_all go_monobank_sdk.Acquiring.Subscriptions.Pages.never
          go_monobank_sdk.Acquiring.Subscriptions.Pages.collect
          (go_monobank_sdk.Acquiring.Subscriptions.Pages.serve payment_pages)
          2
          (pos (1 + 1))
          []
        ≡ go_monobank_sdk.Acquiring.Subscriptions.finished
            (go_monobank_sdk.Acquiring.Subscriptions.Pages.concat ((payment (pos 2) ∷ []) ∷ [])))
subscription_list_all_complete_example =
    subscription_list_all_complete item_pages payment_pages 2 1 (item (codes "c") ∷ []) []
      (payment (pos 2) ∷ []) [] refl refl refl refl (omega arith) (omega arith)
