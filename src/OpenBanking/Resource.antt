-- ===== src/OpenBanking/Resource.antt =====
-- The Open Banking operations on a resource that the caller names (openbanking/accounts.go, consents.go
-- and payments.go), and the paths that the API documents for them.
use go_monobank_sdk.Base.{◌||◌, Bool, true, false, none, some, true, Option, List, [], ◌∷◌, ◌≡◌}
use go_monobank_sdk.Base.Decimal.{text_eq, Text, codes}
use go_monobank_sdk.OpenBanking.{
  create_request, Urls, Rejection, Built, rejected, do_call, Call, AccountOptions,
  TransactionsOptions, InitiationOptions, balances, transactions, start_consent_authorisation,
  consent, consent_status, revoke_consent, create_payment, payment, payment_status, cancel_payment,
  start_payment_authorisation, payment_authorisations, payment_authorisation_status,
}
use go_monobank_sdk.OpenBanking.Segments.{is_unsafe, segments, are_safe}

-- An operation on a resource that its caller names, with what the caller gives.
pub data Operation : Type 0 where
  op_balances : Text → AccountOptions → Operation
  op_transactions : Text → TransactionsOptions → Operation
  op_start_consent_authorisation op_consent op_consent_status op_revoke_consent : Text → Operation
  op_create_payment : Text → Option (Option Text) → InitiationOptions → Operation
  op_payment op_payment_status op_cancel_payment : Text → Text → Operation
  op_start_payment_authorisation : Text → Text → Text → Operation
  op_payment_authorisations : Text → Text → Operation
  op_payment_authorisation_status : Text → Text → Text → Operation

module _ (u : Urls) where
  unfoldable pub build : Operation → Built
  unfolding balances transactions start_consent_authorisation consent consent_status revoke_consent
      create_payment payment payment_status cancel_payment start_payment_authorisation
      payment_authorisations payment_authorisation_status
  build (op_balances id o) = balances u id o
  build (op_transactions id o) = transactions u id o
  build (op_start_consent_authorisation id) = start_consent_authorisation u id
  build (op_consent id) = consent u id
  build (op_consent_status id) = consent_status u id
  build (op_revoke_consent id) = revoke_consent u id
  build (op_create_payment product body o) = create_payment u product body o
  build (op_payment product id) = payment u product id
  build (op_payment_status product id) = payment_status u product id
  build (op_cancel_payment product id) = cancel_payment u product id
  build (op_start_payment_authorisation product id preference) =
      start_payment_authorisation u product id preference
  build (op_payment_authorisations product id) = payment_authorisations u product id
  build (op_payment_authorisation_status product id authorisation) =
      payment_authorisation_status u product id authorisation

  abbrev pub in_accounts : Text → List Text → List Text
  in_accounts id rest = codes "ext" ∷ codes "v2" ∷ codes "accounts" ∷ u.path_escape id ∷ rest

  abbrev pub in_consents : Text → List Text → List Text
  in_consents id rest =
      codes "ext" ∷ codes "v2" ∷ codes "consents" ∷ codes "account-access" ∷ u.path_escape id ∷ rest

  abbrev pub in_payments : Text → List Text → List Text
  in_payments product rest =
      codes "ext" ∷ codes "v2" ∷ codes "payments" ∷ u.path_escape product ∷ rest

  abbrev pub in_payment : Text → Text → List Text → List Text
  in_payment product id rest = in_payments product (u.path_escape id ∷ rest)

  -- The segments of the resource that an operation is about, as the API's paths are documented.
  abbrev pub resource : Operation → List Text
  resource (op_balances id o) = in_accounts id (codes "balances" ∷ [])
  resource (op_transactions id o) = in_accounts id (codes "transactions" ∷ [])
  resource (op_start_consent_authorisation id) = in_consents id (codes "authorisations" ∷ [])
  resource (op_consent id) = in_consents id []
  resource (op_consent_status id) = in_consents id (codes "status" ∷ [])
  resource (op_revoke_consent id) = in_consents id []
  resource (op_create_payment product body o) = in_payments product []
  resource (op_payment product id) = in_payment product id []
  resource (op_payment_status product id) = in_payment product id (codes "status" ∷ [])
  resource (op_cancel_payment product id) = in_payment product id []
  resource (op_start_payment_authorisation product id preference) =
      in_payment product id (codes "authorisations" ∷ [])
  resource (op_payment_authorisations product id) =
      in_payment product id (codes "authorisations" ∷ [])
  resource (op_payment_authorisation_status product id authorisation) =
      in_payment product id (codes "authorisations" ∷ u.path_escape authorisation ∷ [])

-- Whether there is no JSON of a body.
abbrev pub is_none : Option (Option Text) → Bool
is_none none = true
is_none (some none) = true
is_none (some (some s)) = false

-- Whether something that the operation needs is missing or cannot stand in a path.
abbrev pub is_incomplete : Operation → Bool
is_incomplete (op_balances id o) = is_unsafe id || (text_eq o.consent_id [] || false)
is_incomplete (op_transactions id o) =
    is_unsafe id || (text_eq o.account.consent_id [] || (text_eq o.booking_status [] || false))
is_incomplete (op_start_consent_authorisation id) = is_unsafe id || false
is_incomplete (op_consent id) = is_unsafe id || false
is_incomplete (op_consent_status id) = is_unsafe id || false
is_incomplete (op_revoke_consent id) = is_unsafe id || false
is_incomplete (op_create_payment product body o) =
    is_unsafe product || (is_none body || (text_eq o.psu.ip_address [] || false))
is_incomplete (op_payment product id) = (is_unsafe product || is_unsafe id) || false
is_incomplete (op_payment_status product id) = (is_unsafe product || is_unsafe id) || false
is_incomplete (op_cancel_payment product id) = (is_unsafe product || is_unsafe id) || false
is_incomplete (op_start_payment_authorisation product id preference) =
    (is_unsafe product || is_unsafe id) || false
is_incomplete (op_payment_authorisations product id) = (is_unsafe product || is_unsafe id) || false
is_incomplete (op_payment_authorisation_status product id authorisation) =
    is_unsafe authorisation || ((is_unsafe product || is_unsafe id) || false)

-- What a method makes of its inputs. Where they are incomplete it refuses them. Else it has a URI
-- with these segments, none of them empty, "." or "..": if that does not parse there is no request,
-- and if it parses the request is sent.
pub data Addresses (u : Urls) (incomplete : Bool) (segs : List Text) : Built → Type 0 where
  is_refused : incomplete ≡ true → (e : Rejection) → Addresses u incomplete segs (rejected e)
  is_unparsed :
      incomplete ≡ false
      → (uri : Text) → segments uri ≡ ([], segs)
      → u.parses uri ≡ false
      → Addresses u incomplete segs (rejected create_request)
  is_sent :
      incomplete ≡ false
      → (c : Call) → segments c.uri ≡ ([], segs)
      → are_safe segs ≡ true
      → u.parses c.uri ≡ true
      → Addresses u incomplete segs (do_call c)
