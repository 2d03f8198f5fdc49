-- ===== src/OpenBanking/Paths.antt =====
-- Which resource a request of the Open Banking client names, by the segments of its path
-- (openbanking/accounts.go, consents.go and payments.go).
use go_monobank_sdk.Base.{
  ℕ, Bool, true, false, ◌||◌, Option, none, some, List, [], ◌∷◌, ◌++◌, ◌≡◌, refl, if◌then◌else◌,
}
use go_monobank_sdk.Base.Decimal.{Text, codes, text_eq}
use go_monobank_sdk.Client.{Method}
use go_monobank_sdk.OpenBanking.{
  Urls, Rejection, Built, rejected, do_call, create_request, Call, is_bad_path_segment,
  AccountOptions, TransactionsOptions, InitiationOptions, send, balances, transactions,
  transactions_query, on_consent, initiate, create_payment, payment_path, on_payment,
  payment_authorisation_status,
}
use go_monobank_sdk.OpenBanking.Segments.{
  is_unsafe, segments, are_safe, PathEscapes, segments-append_end, segments_clean,
  segments-append_slash, authorisations_segments, or-false, is_bad-escape,
}
use go_monobank_sdk.OpenBanking.Resource.{
  is_incomplete, is_none, is_unparsed, Operation, op_balances, op_transactions,
  op_start_consent_authorisation, op_consent, op_consent_status, op_revoke_consent,
  op_create_payment, op_payment, op_payment_status, op_cancel_payment,
  op_start_payment_authorisation, op_payment_authorisations, op_payment_authorisation_status, build,
  resource, in_consents, in_payments, in_payment, Addresses, is_refused, is_sent,
}

refused_or :
    (u : Urls) (b rest : Bool) (e : Rejection) (segs : List Text) (x : Built)
    → (b ≡ false → Addresses u rest segs x)
    → Addresses u (b || rest) segs (if b then rejected e else x)
refused_or u true rest e segs x f = is_refused refl e
refused_or u false rest e segs x f = f refl

refused_twice :
    (u : Urls) (b : Bool) (e e' : Rejection) (segs : List Text)
    → Addresses u true segs (if b then rejected e else rejected e')
refused_twice u true e e' segs = is_refused refl e
refused_twice u false e e' segs = is_refused refl e'

sent_or :
    (u : Urls) (b : Bool) (c : Call) (segs : List Text)
    → u.parses c.uri ≡ b
    → segments c.uri ≡ ([], segs)
    → are_safe segs ≡ true
    → Addresses u false segs (if b then do_call c else rejected create_request)
sent_or u true c segs p s a = is_sent refl c s a p
sent_or u false c segs p s a = is_unparsed refl c.uri s p

module _ (u : Urls) (laws : PathEscapes u) where
  send-Addresses :
      (m : Method) (uri : Text) (h : List (Text × Text)) (body : Text) (expected : ℕ)
      → (segs : List Text) → segments uri ≡ ([], segs)
      → are_safe segs ≡ true
      → Addresses u false segs (send u m uri h body expected)
  unfolding send
  send-Addresses m uri h body expected segs s a = sent_or u (u.parses uri) _ segs refl s a

  balances-Addresses :
      (id : Text) (o : AccountOptions)
      → Addresses u
          (is_incomplete (op_balances id o))
          (resource u (op_balances id o))
          (balances u id o)
  unfolding balances
  balances-Addresses id o = refused_or u (is_bad_path_segment id) _ _ _ _ (λ h.
      refused_or u (text_eq o.consent_id []) _ _ _ _ (λ h'.
        send-Addresses _ _ _ _ _ _
          (rw (segments-append_slash (u.path_escape id) (codes "balances") (laws.escape_clean id))
            refl)
          (rw (is_bad-escape u laws id h) refl)))

  transactions-Addresses :
      (id : Text) (o : TransactionsOptions)
      → Addresses u
          (is_incomplete (op_transactions id o))
          (resource u (op_transactions id o))
          (transactions u id o)
  unfolding transactions
  transactions-Addresses id o =
      let rest = codes "transactions?" ++ u.encode (transactions_query u o) in
      refused_or u (is_bad_path_segment id) _ _ _ _ (λ h.
        refused_or u (text_eq o.account.consent_id []) _ _ _ _ (λ h'.
          refused_or u (text_eq o.booking_status []) _ _ _ _ (λ h''.
            send-Addresses _ _ _ _ _ _
              (rw (segments-append_slash (u.path_escape id) rest (laws.escape_clean id)) refl)
              (rw (is_bad-escape u laws id h) refl))))

  on_consent-end :
      (m : Method) (id : Text) (expected : ℕ)
      → Addresses u (is_unsafe id || false) (in_consents u id []) (on_consent u m id [] expected)
  unfolding on_consent
  on_consent-end m id expected = refused_or u (is_bad_path_segment id) _ _ _ _ (λ h.
      send-Addresses _ _ _ _ _ _
        (rw (segments-append_end (u.path_escape id) (laws.escape_clean id)) refl)
        (rw (is_bad-escape u laws id h) refl))

  on_consent-slash :
      (m : Method) (id word : Text) (expected : ℕ)
      → are_safe ((segments word).0 ∷ (segments word).1) ≡ true
      → Addresses u
          (is_unsafe id || false)
          (in_consents u id ((segments word).0 ∷ (segments word).1))
          (on_consent u m id (b'/' ∷ word) expected)
  unfolding on_consent
  on_consent-slash m id word expected safe = refused_or u (is_bad_path_segment id) _ _ _ _ (λ h.
      send-Addresses _ _ _ _ _ _
        (rw (segments-append_slash (u.path_escape id) word (laws.escape_clean id)) refl)
        (rw (is_bad-escape u laws id h) safe))

  initiate-Addresses :
      (body : Option (Option Text)) (o : InitiationOptions) (uri : Text) (segs : List Text)
      → segments uri ≡ ([], segs)
      → are_safe segs ≡ true
      → Addresses u
          (is_none body || (text_eq o.psu.ip_address [] || false))
          segs
          (initiate u body o uri)
  unfolding initiate
  initiate-Addresses none o uri segs s a = is_refused refl _
  initiate-Addresses (some none) o uri segs s a =
      refused_twice u (text_eq o.psu.ip_address []) _ _ segs
  initiate-Addresses (some (some body)) o uri segs s a =
      refused_or u (text_eq o.psu.ip_address []) _ _ _ _ (λ h. send-Addresses _ _ _ _ _ _ s a)

  create_payment-Addresses :
      (product : Text) (body : Option (Option Text)) (o : InitiationOptions)
      → Addresses u
          (is_incomplete (op_create_payment product body o))
          (in_payments u product [])
          (create_payment u product body o)
  unfolding create_payment
  create_payment-Addresses product body o = refused_or u (is_bad_path_segment product) _ _ _ _ (λ h.
      initiate-Addresses body o _ _
        (rw (segments_clean (u.path_escape product) (laws.escape_clean product)) refl)
        (rw (is_bad-escape u laws product h) refl))

  on_payment-Addresses :
      (bad : Bool) (uri : Text) (m : Method) (h : List (Text × Text)) (expected : ℕ)
      → (segs : List Text) → (bad ≡ false → (segments uri ≡ ([], segs)) × (are_safe segs ≡ true))
      → Addresses u (bad || false) segs (on_payment u (if bad then none else some uri) m h expected)
  unfolding on_payment
  on_payment-Addresses true uri m h expected segs f = is_refused refl _
  on_payment-Addresses false uri m h expected segs f =
      send-Addresses _ _ _ _ _ _ (f refl).0 (f refl).1

  payment-end :
      (product id : Text) (m : Method) (h : List (Text × Text)) (expected : ℕ)
      → Addresses u
          ((is_unsafe product || is_unsafe id) || false)
          (in_payment u product id [])
          (on_payment u (payment_path u product id []) m h expected)
  unfolding payment_path
  payment-end product id m h expected =
      on_payment-Addresses (is_bad_path_segment product || is_bad_path_segment id) _ m h expected _
        (λ e.
          let (p, i) = or-false (is_bad_path_segment product) (is_bad_path_segment id) e in
          let tail = u.path_escape id ++ [] in
          (
            rw
                (
                  segments-append_slash (u.path_escape product) tail (laws.escape_clean product),
                  segments-append_end (u.path_escape id) (laws.escape_clean id),
                )
                refl,
            rw (is_bad-escape u laws product p, is_bad-escape u laws id i) refl,
          ))

  payment-slash :
      (product id word : Text) (m : Method) (h : List (Text × Text)) (expected : ℕ)
      → (w : Text) (ws : List Text) → segments word ≡ (w, ws)
      → are_safe (w ∷ ws) ≡ true
      → Addresses u
          ((is_unsafe product || is_unsafe id) || false)
          (in_payment u product id (w ∷ ws))
          (on_payment u (payment_path u product id (b'/' ∷ word)) m h expected)
  unfolding payment_path
  payment-slash product id word m h expected w ws parts safe =
      on_payment-Addresses (is_bad_path_segment product || is_bad_path_segment id) _ m h expected _
        (λ e.
          let (p, i) = or-false (is_bad_path_segment product) (is_bad_path_segment id) e in
          let tail = u.path_escape id ++ b'/' ∷ word in
          (
            rw
                (
                  segments-append_slash (u.path_escape product) tail (laws.escape_clean product),
                  segments-append_slash (u.path_escape id) word (laws.escape_clean id),
                  parts,
                )
                refl,
            rw (is_bad-escape u laws product p, is_bad-escape u laws id i) safe,
          ))

  authorisation-Addresses :
      (product id authorisation : Text)
      → Addresses u
          (is_incomplete (op_payment_authorisation_status product id authorisation))
          (resource u (op_payment_authorisation_status product id authorisation))
          (payment_authorisation_status u product id authorisation)
  unfolding payment_authorisation_status
  authorisation-Addresses product id authorisation =
      refused_or u (is_bad_path_segment authorisation) _ _ _ _ (λ h.
        payment-slash product id (codes "authorisations/" ++ u.path_escape authorisation) _ _ _
          (codes "authorisations") (u.path_escape authorisation ∷ [])
          (authorisations_segments (u.path_escape authorisation) (laws.escape_clean authorisation))
          (rw (is_bad-escape u laws authorisation h) refl))

-- Every operation on a resource that its caller names, by its id, its product or both, is refused
-- where what it needs is missing, a body has no JSON, or an id is "." or "..". Else it has a URI whose
-- path has exactly the segments of that resource, with the caller's texts escaped: where the URI
-- does not parse no request is made, and where it parses the request is sent, and no segment of its
-- path is empty, "." or "..", so that resolving the path reaches no other resource. The escaping is
-- that of net/url.
pub build-Addresses :
    (u : Urls)
    → PathEscapes u
    → (op : Operation) → Addresses u (is_incomplete op) (resource u op) (build u op)
unfolding build
build-Addresses u laws (op_balances id o) = balances-Addresses u laws id o
build-Addresses u laws (op_transactions id o) = transactions-Addresses u laws id o
build-Addresses u laws (op_start_consent_authorisation id) =
    on_consent-slash u laws _ id (codes "authorisations") _ refl
build-Addresses u laws (op_consent id) = on_consent-end u laws _ id _
build-Addresses u laws (op_consent_status id) = on_consent-slash u laws _ id (codes "status") _ refl
build-Addresses u laws (op_revoke_consent id) = on_consent-end u laws _ id _
build-Addresses u laws (op_create_payment product body o) =
    create_payment-Addresses u laws product body o
build-Addresses u laws (op_payment product id) = payment-end u laws product id _ _ _
build-Addresses u laws (op_payment_status product id) =
    payment-slash u laws product id (codes "status") _ _ _ _ _ refl refl
build-Addresses u laws (op_cancel_payment product id) = payment-end u laws product id _ _ _
build-Addresses u laws (op_start_payment_authorisation product id preference) =
    payment-slash u laws product id (codes "authorisations") _ _ _ _ _ refl refl
build-Addresses u laws (op_payment_authorisations product id) =
    payment-slash u laws product id (codes "authorisations") _ _ _ _ _ refl refl
build-Addresses u laws (op_payment_authorisation_status product id authorisation) =
    authorisation-Addresses u laws product id authorisation
