-- ===== src/Acquiring.antt =====
-- The acquiring package: the types of a merchant's payments that the pure parts read
-- (acquiring/types.go, acquiring/subscription.go) and the key of a webhook (acquiring/dedup.go).
pub mod Lifecycle
pub mod Reconcile
pub mod Report
pub mod Poll
pub mod Subscriptions
pub mod Webhook
pub mod Handler
use go_monobank_sdk.Base.{Bool, true, false, Option, none, some, List, [], ◌∷◌, ◌++◌, if◌then◌else◌}
use go_monobank_sdk.Base.Decimal.{Text, codes, text_eq}
use go_monobank_sdk.Money.{Money}

-- The values of a status that the source names; any other string is `other_…`.
pub data InvoiceStatus : Type 0 where
  created processing hold success failure reversed expired : InvoiceStatus
  other_status : Text → InvoiceStatus

pub data SubscriptionStatus : Type 0 where
  active cancelled : SubscriptionStatus
  other_subscription : Text → SubscriptionStatus

pub data PaymentStatus : Type 0 where
  payment_new payment_success payment_failed : PaymentStatus
  other_payment : Text → PaymentStatus

pub data WalletStatus : Type 0 where
  wallet_new wallet_created wallet_failed : WalletStatus
  other_wallet : Text → WalletStatus

-- InvoiceStatusResponse, the fields that the key reads.
pub record InvoiceStatusResponse : Type 0 where
  pub invoice_id : Text
  pub status : InvoiceStatus
  pub modified_date : Text

-- `none` is a nil pointer.
unfoldable pub dedup_key : Option InvoiceStatusResponse → Text
dedup_key none = []
dedup_key (some inv) =
    if text_eq inv.modified_date []
    then inv.invoice_id
    else inv.invoice_id ++ codes "|" ++ inv.modified_date

-- InvoiceStatus.IsTerminal.
unfoldable pub is_terminal : InvoiceStatus → Bool
is_terminal success = true
is_terminal failure = true
is_terminal reversed = true
is_terminal expired = true
is_terminal created = false
is_terminal processing = false
is_terminal hold = false
is_terminal (other_status s) = false
