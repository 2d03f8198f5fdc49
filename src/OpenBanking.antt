-- ===== src/OpenBanking.antt =====
-- The requests of the Open Banking client (openbanking/client.go, accounts.go, consents.go,
-- payments.go, testintegration.go): what each method checks and what it then gives to the client's
-- Do. url.PathEscape, Values.Encode and the parsing of the URI by http.NewRequest are parameters; a
-- body that is nil is `none`, one that json.Marshal refuses is `some none`, another is its JSON.
pub mod Segments
pub mod Resource
pub mod Paths
use go_monobank_sdk.Base.{
  ℕ, Bool, true, false, ◌||◌, Option, none, some, List, [], ◌∷◌, ◌++◌, if◌then◌else◌,
}
use go_monobank_sdk.Base.Decimal.{Text, codes, text_eq}
use go_monobank_sdk.Client.{Method, get, post, delete}

pub record Urls : Type 0 where
  pub path_escape : Text → Text
  pub encode : List (Text × Text) → Text
  pub parses : Text → Bool

pub data Rejection : Type 0 where
  empty_id nil_request missing_consent_id missing_psu_ip_address : Rejection
  missing_booking_status marshal create_request : Rejection

-- A request, with the status that Do expects.
pub record Call : Type 0 where
  pub method : Method
  pub uri : Text
  pub headers : List (Text × Text)
  pub body : Text
  pub expected : ℕ

pub data Built : Type 0 where
  rejected : Rejection → Built
  do_call : Call → Built

abbrev pub is_bad_path_segment : Text → Bool
is_bad_path_segment s = text_eq s [] || (text_eq s (codes ".") || text_eq s (codes ".."))

abbrev pub remove_header : Text → List (Text × Text) → List (Text × Text)
remove_header name [] = []
remove_header name ((n, v) ∷ h) =
    let rest = remove_header name h in if text_eq n name then rest else (n, v) ∷ rest

-- Header.Set: the value replaces those that the name had.
abbrev pub set_header : Text → Text → List (Text × Text) → List (Text × Text)
set_header name v h = (name, v) ∷ remove_header name h

abbrev pub set_if_not_empty : Text → Text → List (Text × Text) → List (Text × Text)
set_if_not_empty name [] h = h
set_if_not_empty name (c ∷ v) h = set_header name (c ∷ v) h

pub record Psu : Type 0 where
  pub id : Text
  pub id_type : Text
  pub corporate_id : Text
  pub corporate_id_type : Text
  pub ip_address : Text

unfoldable pub apply_psu : Psu → List (Text × Text) → List (Text × Text)
apply_psu p h =
    let h1 = set_if_not_empty (codes "PSU-ID") p.id h in
    let h2 = set_if_not_empty (codes "PSU-ID-Type") p.id_type h1 in
    let h3 = set_if_not_empty (codes "PSU-Corporate-ID") p.corporate_id h2 in
    let h4 = set_if_not_empty (codes "PSU-Corporate-ID-Type") p.corporate_id_type h3 in
    set_if_not_empty (codes "PSU-IP-Address") p.ip_address h4

pub record InitiationOptions : Type 0 where
  pub psu : Psu
  pub tpp_redirect_uri : Text

pub record AccountOptions : Type 0 where
  pub consent_id : Text
  pub psu_ip_address : Text

-- A date is the text that it is written as, empty where it is zero.
pub record TransactionsOptions : Type 0 where
  pub account : AccountOptions
  pub booking_status : Text
  pub date_from : Text
  pub date_to : Text
  pub page_id : Text

unfoldable pub apply_options : AccountOptions → List (Text × Text) → List (Text × Text)
apply_options o h =
    let h' = set_header (codes "Consent-ID") o.consent_id h in
    set_if_not_empty (codes "PSU-IP-Address") o.psu_ip_address h'

unfoldable pub initiation_headers : InitiationOptions → List (Text × Text)
unfolding apply_psu
initiation_headers o =
    set_if_not_empty (codes "TPP-Redirect-URI") o.tpp_redirect_uri (apply_psu o.psu [])

abbrev accounts_path : Text
accounts_path = codes "/ext/v2/accounts"

abbrev consents_path : Text
consents_path = codes "/ext/v2/consents/account-access"

abbrev payments_path : Text
payments_path = codes "/ext/v2/payments"

abbrev cert_request_path : Text
cert_request_path = codes "/ext/test-integration/cert-request"

abbrev slash : Text → Text
slash s = b'/' ∷ s

module _ (u : Urls) where
  -- http.NewRequestWithContext, and then Do.
  unfoldable pub send : Method → Text → List (Text × Text) → Text → ℕ → Built
  send m uri h body expected =
      if u.parses uri
      then do_call record { method = m; uri = uri; headers = h; body = body; expected = expected }
      else rejected create_request

  unfoldable pub accounts : AccountOptions → Bool → Built
  unfolding send apply_options
  accounts o with_balance =
      let query = if with_balance then codes "?withBalance=true" else [] in
      if text_eq o.consent_id []
      then rejected missing_consent_id
      else send get (accounts_path ++ query) (apply_options o []) [] 200

  unfoldable pub balances : Text → AccountOptions → Built
  unfolding send apply_options
  balances id o =
      if is_bad_path_segment id
      then rejected empty_id
      else if text_eq o.consent_id []
      then rejected missing_consent_id
      else send get (accounts_path ++ slash (u.path_escape id ++ codes "/balances"))
          (apply_options o []) [] 200

  unfoldable pub transactions_query : TransactionsOptions → List (Text × Text)
  transactions_query o =
      let q = set_header (codes "bookingStatus") o.booking_status [] in
      let q' = set_if_not_empty (codes "dateFrom") o.date_from q in
      let q'' = set_if_not_empty (codes "dateTo") o.date_to q' in
      set_if_not_empty (codes "pageId") o.page_id q''

  unfoldable pub transactions : Text → TransactionsOptions → Built
  unfolding send apply_options transactions_query
  transactions id o =
      let query = u.encode (transactions_query o) in
      let uri = accounts_path ++ slash (u.path_escape id ++ (codes "/transactions?" ++ query)) in
      if is_bad_path_segment id
      then rejected empty_id
      else if text_eq o.account.consent_id []
      then rejected missing_consent_id
      else if text_eq o.booking_status []
      then rejected missing_booking_status
      else send get uri (apply_options o.account []) [] 200

  -- The path of a consent, and what follows its id.
  unfoldable pub on_consent : Method → Text → Text → ℕ → Built
  unfolding send
  on_consent m id suffix expected =
      if is_bad_path_segment id
      then rejected empty_id
      else send m (consents_path ++ slash (u.path_escape id ++ suffix)) [] [] expected

  unfoldable pub start_consent_authorisation : Text → Built
  unfolding on_consent
  start_consent_authorisation id = on_consent post id (codes "/authorisations") 201

  unfoldable pub consent : Text → Built
  unfolding on_consent
  consent id = on_consent get id [] 200

  unfoldable pub consent_status : Text → Built
  unfolding on_consent
  consent_status id = on_consent get id (codes "/status") 200

  unfoldable pub revoke_consent : Text → Built
  unfolding on_consent
  revoke_consent id = on_consent delete id [] 204

  unfoldable pub initiate : Option (Option Text) → InitiationOptions → Text → Built
  unfolding send initiation_headers
  initiate none o uri = rejected nil_request
  initiate (some none) o uri =
      if text_eq o.psu.ip_address [] then rejected missing_psu_ip_address else rejected marshal
  initiate (some (some body)) o uri =
      if text_eq o.psu.ip_address []
      then rejected missing_psu_ip_address
      else send post uri (initiation_headers o) body 201

  unfoldable pub create_consent : Option (Option Text) → InitiationOptions → Built
  unfolding initiate
  create_consent body o = initiate body o consents_path

  unfoldable pub create_payment : Text → Option (Option Text) → InitiationOptions → Built
  unfolding initiate
  create_payment product body o =
      if is_bad_path_segment product
      then rejected empty_id
      else initiate body o (payments_path ++ slash (u.path_escape product))

  unfoldable pub payment_path : Text → Text → Text → Option Text
  payment_path product id suffix =
      if is_bad_path_segment product || is_bad_path_segment id
      then none
      else some
          (payments_path ++ slash (u.path_escape product ++ slash (u.path_escape id ++ suffix)))

  unfoldable pub on_payment : Option Text → Method → List (Text × Text) → ℕ → Built
  unfolding send
  on_payment none m h expected = rejected empty_id
  on_payment (some uri) m h expected = send m uri h [] expected

  unfoldable pub payment : Text → Text → Built
  unfolding on_payment payment_path
  payment product id = on_payment (payment_path product id []) get [] 200

  unfoldable pub payment_status : Text → Text → Built
  unfolding on_payment payment_path
  payment_status product id = on_payment (payment_path product id (codes "/status")) get [] 200

  unfoldable pub cancel_payment : Text → Text → Built
  unfolding on_payment payment_path
  cancel_payment product id = on_payment (payment_path product id []) delete [] 204

  unfoldable pub start_payment_authorisation : Text → Text → Text → Built
  unfolding on_payment payment_path
  start_payment_authorisation product id preference =
      on_payment (payment_path product id (codes "/authorisations")) post
        (set_if_not_empty (codes "TPP-SCA-Approach-Preference") preference []) 201

  unfoldable pub payment_authorisations : Text → Text → Built
  unfolding on_payment payment_path
  payment_authorisations product id =
      on_payment (payment_path product id (codes "/authorisations")) get [] 200

  unfoldable pub payment_authorisation_status : Text → Text → Text → Built
  unfolding on_payment payment_path
  payment_authorisation_status product id authorisation =
      if is_bad_path_segment authorisation
      then rejected empty_id
      else on_payment
          (payment_path product id (codes "/authorisations/" ++ u.path_escape authorisation)) get []
          200

  unfoldable pub request_test_certificate : Option (Option Text) → Built
  unfolding send
  request_test_certificate none = rejected nil_request
  request_test_certificate (some none) = rejected marshal
  request_test_certificate (some (some body)) = send post cert_request_path [] body 201

  -- `json` is the JSON of the application's text.
  unfoldable pub test_certificate_status : (Text → Text) → Text → Built
  unfolding send
  test_certificate_status json csr =
      if text_eq csr []
      then rejected empty_id
      else send post (cert_request_path ++ codes "/status") [] (json csr) 200
