-- ===== src/Business.antt =====
-- The business package: the rows of its lists (business/types.go) and the iterators over them
-- (business/iter.go). An iterator's consumer is a function on a state that says whether to go on; a
-- context is cancelled or not according to that state.
pub mod Contacts
pub mod Statements
use go_monobank_sdk.Base.{ℕ, Bool, List}
use go_monobank_sdk.Base.Int.{ℤ}
use go_monobank_sdk.Base.Decimal.{Text}
use go_monobank_sdk.Money.{Money}
use go_monobank_sdk.Bank.{Seconds}

pub record Contact : Type 0 where
  pub id : Text
  pub le_client_id : ℤ
  pub full_name : Text
  pub inn : Text
  pub document_type : Text
  pub document_number : Text
  pub document_series : Text
  pub iban : Text
  pub pan : Text

pub record ContactsPage : Type 0 where
  pub has_more : Bool
  pub contacts : List Contact

pub record StatementItem : Type 0 where
  pub id : Text
  pub external_reference : Text
  pub time : Seconds
  pub completed_time : Seconds
  pub description : Text
  pub amount : Money
  pub currency_code : Text
  pub receipt_id : Text
  pub counter_edrpou : Text
  pub counter_iban : Text
  pub counter_name : Text
  pub reverse : Bool
  pub status : Text

-- How an iteration ends: at the end of the rows, by the consumer, by an error, or the fuel ran out.
pub data Ended (S : Type 0) : Type 0 where
  finished stopped failed : S → Ended S
  out_of_fuel : Ended S
