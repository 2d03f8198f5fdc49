-- ===== src/Acquiring/Subscriptions.antt =====
-- SubscriptionListAll and SubscriptionPaymentsAll (acquiring/subscription.go): pages by number, over
-- what SubscriptionList or SubscriptionPayments answers. The consumer is a function on a state, which
-- also says whether the context is cancelled. The loop takes fuel.
pub mod Pages
use go_monobank_sdk.Base.{
  ℕ, zero, suc, ◌+◌, Bool, true, false, ◌||◌, Option, none, some, List, [], ◌∷◌, if◌then◌else◌,
}
use go_monobank_sdk.Base.Int.{ℤ, pos, negsuc}
use go_monobank_sdk.Base.Decimal.{Text}
use go_monobank_sdk.Currency.{Code}
use go_monobank_sdk.Money.{Money, new}
use go_monobank_sdk.Acquiring.{SubscriptionStatus, PaymentStatus}

pub record SubscriptionPayment : Type 0 where
  pub amount : ℤ
  pub currency : Code
  pub status : PaymentStatus
  pub charged_at : Text

unfoldable pub amount_money : SubscriptionPayment → Money
unfolding new
amount_money p = new p.amount p.currency

pub record SubscriptionListItem : Type 0 where
  pub subscription_id : Text
  pub amount : ℤ
  pub interval : Text
  pub start_date : Text
  pub created : Text
  pub next_charge_date : Text
  pub end_date : Text
  pub status : SubscriptionStatus

-- Without a currency.
unfoldable pub item_money : SubscriptionListItem → Money
unfolding new
item_money i = new i.amount (pos 0)

-- A page of a list: its entries, and Pagination.TotalPages.
pub record Page (A : Type 0) : Type 0 where
  pub entries : List A
  pub total_pages : ℤ

-- How an iteration ends: at the end of the pages, by the consumer, by an error, or the fuel ran out.
pub data Ended (S : Type 0) : Type 0 where
  finished stopped failed : S → Ended S
  out_of_fuel : Ended S

-- `page >= total`.
abbrev pub is_last : ℕ → ℤ → Bool
is_last page (pos n) = go_monobank_sdk.Base.leb n page
is_last page (negsuc n) = true

-- The first page: that of the options, or 1.
abbrev pub first_page : ℤ → ℕ
first_page (pos zero) = 1
first_page (pos (suc n)) = suc n
first_page (negsuc n) = 1

abbrev pub is_empty : {A : Type 0} → List A → Bool
is_empty [] = true
is_empty (a ∷ as_) = false

module _ {A S : Type 0} (yield : A → S → S × Bool) (cancelled : S → Bool) where
  unfoldable pub yield_page : List A → S → S × Bool
  yield_page [] s = (s, true)
  yield_page (a ∷ as_) s =
      let (s', going) = yield a s in elim going [ true ↦ yield_page as_ s' | false ↦ (s', false) ]

  unfoldable pub pages : (ℕ → Option (Page A)) → ℕ → ℕ → S → Ended S
  unfolding yield_page
  pages fetch zero page s = out_of_fuel
  pages fetch (suc f) page s = elim (cancelled s) [
    | true ↦ failed s
    | false ↦ elim (fetch page) [
      | none ↦ failed s
      | some resp ↦
          let (s', going) = yield_page resp.entries s in
          elim going [
            | false ↦ stopped s'
            | true ↦ elim (is_empty resp.entries || is_last page resp.total_pages) [
              | true ↦ finished s'
              | false ↦ pages fetch f (page + 1) s'
            ]
          ]
    ]
  ]

-- From the page of their options, over what the pages of the two lists answer.
module _ {S : Type 0} (cancelled : S → Bool) where
  unfoldable pub subscription_list_all :
      (SubscriptionListItem → S → S × Bool)
      → (ℕ → Option (Page SubscriptionListItem))
      → ℕ
      → ℤ
      → S
      → Ended S
  unfolding pages
  subscription_list_all yield fetch fuel page s =
      pages yield cancelled fetch fuel (first_page page) s

  unfoldable pub subscription_payments_all :
      (SubscriptionPayment → S → S × Bool)
      → (ℕ → Option (Page SubscriptionPayment))
      → ℕ
      → ℤ
      → S
      → Ended S
  unfolding pages
  subscription_payments_all yield fetch fuel page s =
      pages yield cancelled fetch fuel (first_page page) s
