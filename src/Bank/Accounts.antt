-- ===== src/Bank/Accounts.antt =====
-- Accounts, jars and managed clients (bank/data.go): the types, what UnmarshalJSON does to a decoded
-- value, and the lookups. A slice is a part of a store of cells, and a pointer is the address of one.
use go_monobank_sdk.Base.{
  ℕ, zero, suc, ◌+◌, length, get_elem?, Bool, Option, none, some, List, [], ◌∷◌, if◌then◌else◌,
}
use go_monobank_sdk.Base.Word.{◌==ℤ◌}
use go_monobank_sdk.Base.Decimal.{Text, text_eq}
use go_monobank_sdk.Currency.{Code}
use go_monobank_sdk.Money.{Money}
use go_monobank_sdk.Bank.{Transaction, with_code, valid_mcc}
use go_monobank_sdk.Base.Int.{ℤ, pos}

pub record Account : Type 0 where
  pub account_id : Text
  pub send_id : Text
  pub balance : Money
  pub credit_limit : Money
  pub currency : Code
  pub cashback_type : Text
  pub card_masks : List Text
  pub type : Text
  pub iban : Text

pub record Jar : Type 0 where
  pub id : Text
  pub send_id : Text
  pub title : Text
  pub description : Text
  pub currency : Code
  pub balance : Money
  pub goal : Money

pub record ManagedClient : Type 0 where
  pub id : Text
  pub tin : Text
  pub name : Text
  pub accounts : List Account

pub record ClientInfo : Type 0 where
  pub id : Text
  pub name : Text
  pub web_hook_url : Text
  pub permissions : Text
  pub accounts : List Account
  pub jars : List Jar
  pub managed_clients : List ManagedClient

unfoldable pub attach_account : Account → Account
attach_account a = record a {
  balance = with_code a.currency a.balance;
  credit_limit = with_code a.currency a.credit_limit;
}

unfoldable pub attach_jar : Jar → Jar
attach_jar j = record j {
  balance = with_code j.currency j.balance;
  goal = with_code j.currency j.goal;
}

unfoldable pub original_mcc_code : Transaction → ℤ
original_mcc_code t = if valid_mcc t.original_mcc then t.original_mcc else pos 0

-- A slice of the cells of a store: where it begins, and how many they are.
pub record Slice : Type 0 where
  pub base : ℕ
  pub size : ℕ

-- The slice of all cells.
abbrev pub whole : {A : Type 0} → List A → Slice
whole cells = record { base = 0; size = length cells }

-- The loop of the lookups over `n` cells from `at` on: the address of the first one that a test
-- accepts. A slice has no cells outside the store.
unfoldable pub find_from : {A : Type 0} → (A → Bool) → List A → ℕ → ℕ → Option ℕ
find_from test cells at zero = none
find_from test cells at (suc n) =
    let rest = find_from test cells (at + 1) n in
    elim (get_elem? cells at) [ none ↦ none | some x ↦ if test x then some at else rest ]

-- The store after a lookup, and the pointer that it returns.
unfoldable pub find_in : {A : Type 0} → (A → Bool) → List A → Slice → List A × Option ℕ
unfolding find_from
find_in test cells s = (cells, find_from test cells s.base s.size)

abbrev pub has_account_id : Text → Account → Bool
has_account_id id a = text_eq a.account_id id

abbrev pub has_iban : Text → Account → Bool
has_iban iban a = text_eq a.iban iban

abbrev pub has_currency : Code → Account → Bool
has_currency code a = a.currency ==ℤ code

abbrev pub has_jar_id : Text → Jar → Bool
has_jar_id id j = text_eq j.id id

abbrev pub has_client_id : Text → ManagedClient → Bool
has_client_id id m = text_eq m.id id

unfoldable pub by_id : Text → List Account → Slice → List Account × Option ℕ
unfolding find_in
by_id id cells accounts = find_in (has_account_id id) cells accounts

unfoldable pub by_iban : Text → List Account → Slice → List Account × Option ℕ
unfolding find_in
by_iban iban cells accounts = find_in (has_iban iban) cells accounts

unfoldable pub jar_by_id : Text → List Jar → Slice → List Jar × Option ℕ
unfolding find_in
jar_by_id id cells jars = find_in (has_jar_id id) cells jars

unfoldable pub client_by_id : Text → List ManagedClient → Slice → List ManagedClient × Option ℕ
unfolding find_in
client_by_id id cells clients = find_in (has_client_id id) cells clients

-- Accounts.ByCurrency, which copies what it finds.
unfoldable pub by_currency : Code → List Account → List Account
by_currency code [] = []
by_currency code (a ∷ accounts) =
    let rest = by_currency code accounts in if has_currency code a then a ∷ rest else rest

-- The slices of a ClientInfo as stores of their own.
unfoldable pub account : Text → ClientInfo → List Account × Option ℕ
unfolding by_id
account id c = by_id id c.accounts (whole c.accounts)

unfoldable pub jar : Text → ClientInfo → List Jar × Option ℕ
unfolding jar_by_id
jar id c = jar_by_id id c.jars (whole c.jars)

unfoldable pub managed_client : Text → ClientInfo → List ManagedClient × Option ℕ
unfolding client_by_id
managed_client id c = client_by_id id c.managed_clients (whole c.managed_clients)
