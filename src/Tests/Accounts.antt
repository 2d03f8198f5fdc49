-- ===== src/Tests/Accounts.antt =====
-- Options of the client, and a client's accounts and their logs, on concrete values.
use go_monobank_sdk.Base.{
  ℕ, ◌+◌, ◌≤◌, ◌<◌, ◌≡◌, ◌≢◌, ◌↔◌, ◌⊎◌, refl, true, false, none, some, List, [], ◌∷◌, arith,
  get_elem?,
}
use go_monobank_sdk.Base.Int.{pos}
use go_monobank_sdk.Base.Decimal.{Text, codes}
use go_monobank_sdk.Money.{Money}
use go_monobank_sdk.Log.{runes, runes_from, more_bytes, mask_name}
use go_monobank_sdk.Log.Masks.{NamesAlike, IbansAlike}
use go_monobank_sdk.Bank.{Transaction}
use go_monobank_sdk.Bank.Accounts.{Account, ManagedClient, Slice, by_id, find_in, find_from}
use go_monobank_sdk.Bank.Lookup.{by_id_lem}
use go_monobank_sdk.Bank.Logs.{log_transactions, log_clients}
use go_monobank_sdk.Bank.Private.{
  EntriesAlike, ClientsAlike, AllAlike, log_transactions-alike, log_clients-alike,
}
use go_monobank_sdk.Options.{
  Urls, with_base_url, with_insecure_base_url, with_logger, ClientOption, is_insecure_url, new,
}
use go_monobank_sdk.Options.Secure.{all_accept, new-opt_err, new_secure}

abbrev urls : Urls
urls = record {
  parse = λ s. some (record { scheme = codes "http"; hostname = s });
  is_loopback_ip = λ h. false;
}

-- The base URL stands before the option that allows it.
abbrev opts : List ClientOption
opts = with_base_url (codes "proxy") ∷ with_insecure_base_url true ∷ []

new-opt_err_example : ((new urls opts).opt_err ≡ none) ↔ (all_accept urls true opts ≡ true)
new-opt_err_example = new-opt_err urls true opts refl refl

abbrev refused : List ClientOption
refused = with_logger (some 1) ∷ with_base_url (codes "proxy") ∷ []

new_secure_example : is_insecure_url urls (new urls refused).base_url ≡ false
new_secure_example = new_secure urls refused refl

abbrev hryvnias : Money
hryvnias = record { minor = pos 100; code = pos 980 }

abbrev account : Text → Account
account id = record {
  account_id = id;
  send_id = [];
  balance = hryvnias;
  credit_limit = hryvnias;
  currency = pos 980;
  cashback_type = [];
  card_masks = [];
  type = codes "black";
  iban = [];
}

abbrev accounts : List Account
accounts = account (codes "a") ∷ account (codes "b") ∷ []

-- A slice of the last two of three cells; an account outside it has the id too.
abbrev three : List Account
three = account (codes "b") ∷ accounts

abbrev last_two : Slice
last_two = record { base = 1; size = 2 }

by_id_lem_example :
    ((p : ℕ) × (by_id (codes "b") three last_two ≡ (three, some p))
      × (1 ≤ p)
      × (p < 1 + 2)
      × ((a : Account) × (get_elem? three p ≡ some a) × (a.account_id ≡ codes "b"))
      × ((q : ℕ) (b : Account)
          → 1 ≤ q
          → q < p
          → get_elem? three q ≡ some b
          → b.account_id ≢ codes "b"))
    ⊎ ((by_id (codes "b") three last_two ≡ (three, none))
        × ((q : ℕ) (b : Account)
            → 1 ≤ q
            → q < 1 + 2
            → get_elem? three q ≡ some b
            → b.account_id ≢ codes "b"))
by_id_lem_example = by_id_lem (codes "b") three last_two (omega arith)

by_id_test : by_id (codes "b") three last_two ≡ (three, some 2)
unfolding by_id find_in find_from
by_id_test = refl

abbrev entry : Text → Text → Text → Transaction
entry description name iban = record {
  id = codes "t";
  time = 20;
  description = description;
  mcc = pos 0;
  original_mcc = pos 0;
  hold = false;
  amount = hryvnias;
  operation_amount = hryvnias;
  currency = pos 980;
  commission_rate = hryvnias;
  cashback_amount = hryvnias;
  balance = hryvnias;
  comment = [];
  receipt_id = [];
  invoice_id = [];
  edrpou = [];
  iban = iban;
  counter_name = name;
}

abbrev rent : Transaction
rent = entry (codes "rent") (codes "Olha") (codes "UA1111119999")

abbrev gift : Transaction
gift = entry (codes "gift") (codes "Oleh") (codes "UA22222229999")

names_alike : NamesAlike (codes "Olha") (codes "Oleh")
unfolding runes runes_from more_bytes
names_alike = NamesAlike.more_runes refl refl refl

entries_alike : EntriesAlike rent gift
entries_alike = record {
  id = refl;
  time = refl;
  amount = refl;
  currency = refl;
  mcc = refl;
  hold = refl;
  description = refl;
  comment = refl;
  iban =
      IbansAlike.ends b'U' b'A' (codes "111111") (codes "2222222") (codes "9999") (omega arith)
        (omega arith) refl;
  edrpou = refl;
  counter_name = names_alike;
}

log_transactions-alike_example :
    log_transactions (λ d m. codes "1.00") (rent ∷ [])
    ≡ log_transactions (λ d m. codes "1.00") (gift ∷ [])
log_transactions-alike_example =
    log_transactions-alike (λ d m. codes "1.00") (rent ∷ []) (gift ∷ [])
      (AllAlike.both_alike entries_alike AllAlike.none_alike)

abbrev client : Text → Text → ManagedClient
client tin name = record { id = codes "c"; tin = tin; name = name; accounts = [] }

clients_alike : ClientsAlike (client (codes "1") (codes "Olha")) (client (codes "2") (codes "Oleh"))
clients_alike = record { id = refl; tin = refl; name = names_alike; count = refl }

log_clients-alike_test :
    log_clients (client (codes "1") (codes "Olha") ∷ [])
    ≡ log_clients (client (codes "2") (codes "Oleh") ∷ [])
log_clients-alike_test =
    log_clients-alike (client (codes "1") (codes "Olha") ∷ [])
      (client (codes "2") (codes "Oleh") ∷ [])
      (AllAlike.both_alike clients_alike AllAlike.none_alike)

-- A first rune of two bytes is kept whole.
mask_name_test : mask_name (208 ∷ 158 ∷ codes "leh") ≡ 208 ∷ 158 ∷ codes "***"
unfolding mask_name runes runes_from more_bytes
mask_name_test = refl
