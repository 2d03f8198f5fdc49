-- ===== src/Bank.antt =====
-- The bank package: a statement entry (bank/data.go) and the parts that page through statements.
pub mod Statement
pub mod Accounts
pub mod Lookup
pub mod Logs
pub mod Private
use go_monobank_sdk.Base.{ℕ, Bool, false, ◌&&◌, leb, if◌then◌else◌, List}
use go_monobank_sdk.Base.Int.{ℤ, pos, negsuc}
use go_monobank_sdk.Base.Decimal.{Text}
use go_monobank_sdk.Currency.{Code}
use go_monobank_sdk.Money.{Money}

-- `epoch.Seconds`: a time, as whole seconds since the epoch.
abbrev pub Seconds : Type 0
Seconds = ℕ

pub record Transaction : Type 0 where
  pub id : Text
  pub time : Seconds
  pub description : Text
  pub mcc : ℤ
  pub original_mcc : ℤ
  pub hold : Bool
  pub amount : Money
  pub operation_amount : Money
  pub currency : Code
  pub commission_rate : Money
  pub cashback_amount : Money
  pub balance : Money
  pub comment : Text
  pub receipt_id : Text
  pub invoice_id : Text
  pub edrpou : Text
  pub iban : Text
  pub counter_name : Text

abbrev pub with_code : Code → Money → Money
with_code c m = record m { code = c }

-- What UnmarshalJSON does to the decoded value: the currency goes to every amount.
unfoldable pub attach_currency : Transaction → Transaction
attach_currency t = record t {
  amount = with_code t.currency t.amount;
  operation_amount = with_code t.currency t.operation_amount;
  commission_rate = with_code t.currency t.commission_rate;
  cashback_amount = with_code t.currency t.cashback_amount;
  balance = with_code t.currency t.balance;
}

abbrev pub valid_mcc : ℤ → Bool
valid_mcc (pos n) = leb 1 n && leb n 9999
valid_mcc (negsuc n) = false

unfoldable pub mcc_code : Transaction → ℤ
mcc_code t = if valid_mcc t.mcc then t.mcc else pos 0
