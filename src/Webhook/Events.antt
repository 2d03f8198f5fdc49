-- ===== src/Webhook/Events.antt =====
-- The events in a log of effects, and lemmas on the parts of a delivery.
use go_monobank_sdk.Base.{
  ◌++◌, Bool, true, false, some, List, [], ◌∷◌, ◌≡◌, ◌⊎◌, inl, inr, refl, arith, Bool-cases,
  Option-cases, if◌then◌else◌,
}
use go_monobank_sdk.Base.Decimal.{Text}
use go_monobank_sdk.Webhook.{Response, Parsed, known, unknown_type, malformed}
use go_monobank_sdk.Webhook.Signature.{Verified, valid}
use go_monobank_sdk.Webhook.Handler.{
  ServerKey, Handler, Options, Method, get, post, other, Moment, Fault, Effect, event, unknown,
  error, report, is_fresh, refresh, refresh_once, refresh_coalesced, accepted,
}

-- The payloads that OnEvent ran on.
unfoldable pub events : List Effect → List Response
events [] = []
events (event v ∷ l) = v ∷ events l
events (unknown b ∷ l) = events l
events (error f ∷ l) = events l

pub events-append : (a b : List Effect) → events (a ++ b) ≡ events a ++ events b
unfolding events
events-append [] b = refl
events-append (event v ∷ a) b = rw (events-append a b) refl
events-append (unknown u ∷ a) b = events-append a b
events-append (error f ∷ a) b = events-append a b

pub events-report : (opts : Options) (f : Fault) → events (report opts f) ≡ []
unfolding events report
events-report opts f = ground arith

pub with_report :
    (opts : Options) (before : List Effect) (f : Fault)
    → events before ≡ []
    → events (before ++ report opts f) ≡ []
with_report opts before f e =
    ground (arith, events-append before (report opts f), events-report opts f)

pub with_unknown :
    (on : Bool) (before : List Effect) (body : Text)
    → events before ≡ []
    → events (before ++ (if on then unknown body ∷ [] else [])) ≡ []
unfolding events
with_unknown true before body e = ground (arith, events-append before (unknown body ∷ []))
with_unknown false before body e = ground (arith, events-append before [])

pub Parsed-cases :
    (x : Parsed)
    → ((v : Response) × (x ≡ known v)) ⊎ (((v : Response) × (x ≡ unknown_type v)) ⊎ (x ≡ malformed))
Parsed-cases (known v) = inl (v, refl)
Parsed-cases (unknown_type v) = inr (inl (v, refl))
Parsed-cases malformed = inr (inr refl)

pub Method-cases : (x : Method) → (x ≡ get) ⊎ ((x ≡ post) ⊎ (x ≡ other))
Method-cases get = inl refl
Method-cases post = inr (inl refl)
Method-cases other = inr (inr refl)

pub accepted-valid : (x : Verified) → accepted x ≡ true → x ≡ valid
accepted-valid x h = ground arith

-- A handler that has a key has one after a refresh; one that failed leaves the handler.
pub refresh_key :
    {P : Type 0} (h : Handler P) (key : ServerKey P) (m : Moment P)
    → h.key ≡ some key
    → (k : ServerKey P) × ((refresh_coalesced h m).handler.key ≡ some k)
      × ((refresh_coalesced h m).failed ≡ true → k ≡ key)
unfolding refresh_coalesced refresh_once refresh
refresh_key h key m e = elim (Bool-cases (is_fresh h.last_refresh_at m.now)) [
  | inl early ↦ (key, rw early e, λ x. refl)
  | inr late ↦ elim (Bool-cases (is_fresh h.last_refresh_at m.again)) [
    | inl early ↦ (key, rw (late, early, refresh_coalesced, refresh_once) e, λ x. refl)
    | inr still ↦ elim (Option-cases m.fetched) [
      | inl lost ↦
          (key, rw (late, still, lost, refresh_coalesced, refresh_once, refresh) e, λ x. refl)
      | inr (sk, got) ↦ (
        sk,
        rw (late, still, got, refresh_coalesced, refresh_once, refresh) refl,
        λ x. absurd (ground arith),
      )
    ]
  ]
]
