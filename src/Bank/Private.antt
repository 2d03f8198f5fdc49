-- ===== src/Bank/Private.antt =====
-- What the LogValue methods (bank/data.go) keep out of a log.
use go_monobank_sdk.Base.{ℕ, List, [], ◌∷◌, ◌≡◌, refl, ap, length}
use go_monobank_sdk.Base.Int.{ℤ}
use go_monobank_sdk.Base.Decimal.{Text}
use go_monobank_sdk.Log.{Value, any_value, log_all, is_set}
use go_monobank_sdk.Log.Masks.{
  NamesAlike, IbansAlike, mask_name-alike, redact_iban-alike, redact_id-alike,
}
use go_monobank_sdk.Bank.{Transaction}
use go_monobank_sdk.Bank.Accounts.{ManagedClient}
use go_monobank_sdk.Bank.Logs.{log_transaction, log_transactions, log_client, log_clients}

-- Two statement entries that differ in what a log keeps secret: the texts of the description and
-- the comment, the counterparty's code, the inside of its IBAN, its name but for the first rune, and
-- every field that is no part of a log.
pub record EntriesAlike (t u : Transaction) : Type 0 where
  pub id : t.id ≡ u.id
  pub time : t.time ≡ u.time
  pub amount : t.amount ≡ u.amount
  pub currency : t.currency ≡ u.currency
  pub mcc : t.mcc ≡ u.mcc
  pub hold : t.hold ≡ u.hold
  pub description : is_set t.description ≡ is_set u.description
  pub comment : is_set t.comment ≡ is_set u.comment
  pub iban : IbansAlike t.iban u.iban
  pub edrpou : is_set t.edrpou ≡ is_set u.edrpou
  pub counter_name : NamesAlike t.counter_name u.counter_name

pub data AllAlike {A : Type 0} (R : A → A → Type 0) : List A → List A → Type 0 where
  none_alike : AllAlike R [] []
  both_alike :
      {a b : A} {as_ bs : List A} → R a b → AllAlike R as_ bs → AllAlike R (a ∷ as_) (b ∷ bs)

log_all-alike :
    {A : Type 0} {R : A → A → Type 0} (log : A → Value)
    → ((a b : A) → R a b → log a ≡ log b)
    → {as_ bs : List A} → AllAlike R as_ bs
    → log_all log as_ ≡ log_all log bs
unfolding log_all
log_all-alike log same none_alike = refl
log_all-alike log same (both_alike {a} {b} r rs) = rw (same a b r, log_all-alike log same rs) refl

log_transaction-alike :
    (print_float : ℕ → ℤ → Text) (t u : Transaction)
    → EntriesAlike t u
    → log_transaction print_float t ≡ log_transaction print_float u
unfolding log_transaction
log_transaction-alike print_float t u p =
    rw
      (
        p.id,
        p.time,
        p.amount,
        p.currency,
        p.mcc,
        p.hold,
        p.description,
        p.comment,
        redact_iban-alike p.iban,
        redact_id-alike t.edrpou u.edrpou p.edrpou,
        mask_name-alike p.counter_name,
      )
      refl

-- The log of a list of statement entries shows only what EntriesAlike names: lists of as many
-- entries, alike one by one, have the same log.
pub log_transactions-alike :
    (print_float : ℕ → ℤ → Text) (ts us : List Transaction)
    → AllAlike EntriesAlike ts us
    → log_transactions print_float ts ≡ log_transactions print_float us
unfolding log_transactions
log_transactions-alike print_float ts us p =
    ap any_value (log_all-alike (log_transaction print_float) (log_transaction-alike print_float) p)

-- Two clients of an accountant that differ in what a log keeps secret.
pub record ClientsAlike (m n : ManagedClient) : Type 0 where
  pub id : m.id ≡ n.id
  pub tin : is_set m.tin ≡ is_set n.tin
  pub name : NamesAlike m.name n.name
  pub count : length m.accounts ≡ length n.accounts

log_client-alike : (m n : ManagedClient) → ClientsAlike m n → log_client m ≡ log_client n
unfolding log_client
log_client-alike m n p =
    rw (p.id, redact_id-alike m.tin n.tin p.tin, mask_name-alike p.name, p.count) refl

-- The log of a list of managed clients shows only what ClientsAlike names: their ids, whether each
-- has a tax number, how long its name is and how that begins, and how many accounts it has.
pub log_clients-alike :
    (ms ns : List ManagedClient) → AllAlike ClientsAlike ms ns → log_clients ms ≡ log_clients ns
unfolding log_clients
log_clients-alike ms ns p = ap any_value (log_all-alike log_client log_client-alike p)
