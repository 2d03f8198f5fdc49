-- ===== src/Bank/Logs.antt =====
-- The LogValue methods (bank/data.go). Printing a float and parsing a URL are parameters.
use go_monobank_sdk.Base.{
  ℕ, ◌||◌, Option, none, some, List, [], ◌∷◌, ◌++◌, if◌then◌else◌, length, map,
}
use go_monobank_sdk.Base.Int.{ℤ}
use go_monobank_sdk.Base.Decimal.{Text, codes, text_eq}
use go_monobank_sdk.Currency.{string}
use go_monobank_sdk.Money.{Money}
use go_monobank_sdk.Log.{
  Value, string_value, int_value, count_value, time_value, bool_value, group_value, any_value,
  Attrs, no_attrs, attr, Values, no_values, value, log_all, mask_name, redact_iban, redact_id,
  redact_card_mask, is_set,
}
use go_monobank_sdk.Bank.{Transaction}
use go_monobank_sdk.Bank.Accounts.{Account, Jar, ManagedClient, ClientInfo}

-- What `url.Parse` gives of a URL.
pub record Url : Type 0 where
  pub scheme : Text
  pub host : Text
  pub path : Text

abbrev pub text_attr : Text → Text → Attrs → Attrs
text_attr key text rest = attr key (string_value text) rest

unfoldable pub log_texts : List Text → Values
log_texts [] = no_values
log_texts (t ∷ ts) = value (string_value t) (log_texts ts)

abbrev pub redacted : Option Url → Text
redacted none = codes "***"
redacted (some u) =
    if text_eq u.host []
    then codes "***"
    else (if text_eq u.path [] || text_eq u.path (codes "/")
        then u.scheme ++ codes "://" ++ u.host
        else u.scheme ++ codes "://" ++ u.host ++ codes "/***")

unfoldable pub redact_url : (Text → Option Url) → Text → Text
redact_url parse_url [] = []
redact_url parse_url (c ∷ s) = redacted (parse_url (c ∷ s))

unfoldable pub log_info : (Text → Option Url) → ClientInfo → Value
unfolding mask_name redact_url
log_info parse_url c = group_value (
    text_attr (codes "clientId") c.id (
      text_attr (codes "name") (mask_name c.name) (
        text_attr (codes "webHookUrl") (redact_url parse_url c.web_hook_url) (
          attr (codes "accounts") (count_value (length c.accounts)) (
            attr (codes "jars") (count_value (length c.jars))
              (attr (codes "managedClients") (count_value (length c.managed_clients)) no_attrs))))))

unfoldable pub log_client : ManagedClient → Value
unfolding mask_name redact_id
log_client m = group_value (
    text_attr (codes "clientId") m.id (
      text_attr (codes "name") (mask_name m.name) (
        text_attr (codes "tin") (redact_id m.tin)
          (attr (codes "accounts") (count_value (length m.accounts)) no_attrs))))

unfoldable pub log_clients : List ManagedClient → Value
unfolding log_client log_all
log_clients ms = any_value (log_all log_client ms)

module _ (print_float : ℕ → ℤ → Text) where
  abbrev pub money : Money → Text
  money m = go_monobank_sdk.Money.string print_float m

  unfoldable pub log_account : Account → Value
  unfolding redact_iban redact_card_mask log_texts string
  log_account a = group_value (
      text_attr (codes "id") a.account_id (
        text_attr (codes "type") a.type (
          text_attr (codes "currency") (string a.currency) (
            text_attr (codes "iban") (redact_iban a.iban) (
              attr (codes "cardMasks") (any_value (log_texts (map redact_card_mask a.card_masks)))
                (text_attr (codes "balance") (money a.balance) no_attrs))))))

  unfoldable pub log_accounts : List Account → Value
  unfolding log_account log_all
  log_accounts as_ = any_value (log_all log_account as_)

  unfoldable pub log_transaction : Transaction → Value
  unfolding redact_iban redact_id mask_name string
  log_transaction t = group_value (
      text_attr (codes "id") t.id (
        attr (codes "time") (time_value t.time) (
          text_attr (codes "amount") (money t.amount) (
            text_attr (codes "currency") (string t.currency) (
              attr (codes "mcc") (int_value t.mcc) (
                attr (codes "hold") (bool_value t.hold) (
                  attr (codes "descriptionSet") (bool_value (is_set t.description)) (
                    attr (codes "commentSet") (bool_value (is_set t.comment)) (
                      text_attr (codes "counterIban") (redact_iban t.iban) (
                        text_attr (codes "counterEdrpou") (redact_id t.edrpou) (
                          text_attr (codes "counterName") (mask_name t.counter_name)
                            no_attrs)))))))))))

  unfoldable pub log_transactions : List Transaction → Value
  unfolding log_transaction log_all
  log_transactions ts = any_value (log_all log_transaction ts)

  unfoldable pub log_jar : Jar → Value
  unfolding string
  log_jar j = group_value (
      text_attr (codes "id") j.id (
        text_attr (codes "currency") (string j.currency) (
          text_attr (codes "balance") (money j.balance) (
            text_attr (codes "goal") (money j.goal) (
              attr (codes "titleSet") (bool_value (is_set j.title))
                (attr (codes "descriptionSet") (bool_value (is_set j.description)) no_attrs))))))

  unfoldable pub log_jars : List Jar → Value
  unfolding log_jar log_all
  log_jars js = any_value (log_all log_jar js)
