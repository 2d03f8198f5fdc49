-- ===== src/Acquiring/Handler/Events.antt =====
-- When ServeHTTP runs OnEvent (acquiring/handler.go).
use go_monobank_sdk.Base.{
  ℕ, ◌++◌, Bool, true, false, Option, none, some, List, [], ◌∷◌, ◌≡◌, ◌⊎◌, inl, inr, refl, arith,
  Bool-cases, Option-cases, if◌then◌else◌,
}
use go_monobank_sdk.Base.Int.{ℤ, pos, ◌≤ℤ◌, ltb_ℤ}
use go_monobank_sdk.Base.Decimal.{Text}
use go_monobank_sdk.Acquiring.{InvoiceStatusResponse}
use go_monobank_sdk.Acquiring.Webhook.{
  Outside, Verdict, fine, is_fine, is_bad_signature, bad_signature, parse_modified_date, since,
  check_age, verify_webhook, verify_webhook_fresh,
}
use go_monobank_sdk.Acquiring.Handler.{
  Key, Handler, Options, Request, Moment, Fault, Effect, event, error, report, refresh_coalesced,
  replacement,
}
use go_monobank_sdk.Acquiring.Handler.Verify.{
  Verified, Decision, refuse, pass, Admission, finish, try_again, recover, verify, parse_verified,
}

-- The invoices that OnEvent ran on.
unfoldable pub events : List Effect → List InvoiceStatusResponse
events [] = []
events (event v ∷ l) = v ∷ events l
events (error f ∷ l) = events l

pub events-append : (a b : List Effect) → events (a ++ b) ≡ events a ++ events b
unfolding events
events-append [] b = refl
events-append (event v ∷ a) b = rw (events-append a b) refl
events-append (error f ∷ a) b = events-append a b

pub events-report : (opts : Options) (f : Fault) → events (report opts f) ≡ []
unfolding events report
events-report opts f = ground arith

pub events-two :
    (opts : Options) (before : List Effect) (f : Fault)
    → events before ≡ []
    → events (before ++ report opts f) ≡ []
events-two opts before f e =
    ground (arith, events-append before (report opts f), events-report opts f)

pub is_fine-fine : (v : Verdict) → is_fine v ≡ true → v ≡ fine
is_fine-fine v h = ground arith

pub Decision-cases :
    (d : Decision) → ((n : ℕ) × (d ≡ refuse n)) ⊎ ((v : InvoiceStatusResponse) × (d ≡ pass v))
Decision-cases (refuse n) = inl (n, refl)
Decision-cases (pass v) = inr (v, refl)

module _ {P : Type 0} (out : Outside P) (opts : Options) where
  -- The date in the body is no older than the options allow.
  unfoldable pub Recent : Request → Moment P → Type 0
  Recent r m =
      (date : Text) × (t : ℤ) × (out.probe r.bytes ≡ some date)
      × (parse_modified_date out.parse_time date ≡ some t)
      × (since m.wall t ≤ℤ opts.max_age)

  check_age-Recent :
      (r : Request) (m : Moment P)
      → ltb_ℤ (pos 0) opts.max_age ≡ true
      → check_age out r.bytes opts.max_age m.wall ≡ fine
      → Recent r m
  unfolding check_age Recent
  check_age-Recent r m on ok = elim (Option-cases (out.probe r.bytes)) [
    | inl none_there ↦ absurd (ground arith)
    | inr (date, e) ↦ elim (Option-cases (parse_modified_date out.parse_time date)) [
      | inl no_time ↦ absurd (ground arith)
      | inr (t, f) ↦ (date, t, e, f, ground arith)
    ]
  ]

  finish-fine :
      (h : Handler P) (log : List Effect) (key : P) (v : Verdict) (r : Request) (m : Moment P)
      → (finish out opts h log key v r m).verdict ≡ fine
      → (v ≡ fine) × ((opts.max_age ≤ℤ pos 0) ⊎ Recent r m)
  unfolding finish verify_webhook_fresh
  finish-fine h log key v r m ok = elim (Bool-cases (is_fine v)) [
    | inr bad ↦ absurd (ground arith)
    | inl good ↦ elim (Bool-cases (ltb_ℤ (pos 0) opts.max_age)) [
      | inr off ↦ (is_fine-fine v good, inl (ground arith))
      | inl on ↦ (is_fine-fine v good, inr (check_age-Recent r m on (ground arith)))
    ]
  ]

  -- What a verification that passed shows of the handler it leaves.
  unfoldable pub Passed : Handler P → Request → Moment P → Type 0
  Passed h r m =
      (k : Key P) × (h.key ≡ some k)
      × (verify_webhook out (some k.target) r.bytes r.x_sign ≡ fine)
      × ((opts.max_age ≤ℤ pos 0) ⊎ Recent r m)

  -- That `v` shows it, where it passed.
  unfoldable pub Sound : Request → Moment P → Verified P → Type 0
  Sound r m v = v.verdict ≡ fine → Passed v.handler r m

  if-Sound :
      (b : Bool) (v w : Verified P) (r : Request) (m : Moment P)
      → Sound r m v
      → Sound r m w
      → Sound r m (if b then v else w)
  if-Sound true v w r m p q = p
  if-Sound false v w r m p q = q

  finish-Sound :
      (h : Handler P) (log : List Effect) (k : Key P) (r : Request) (m : Moment P)
      → h.key ≡ some k
      → Sound r m
          (finish out opts h log k.target (verify_webhook out (some k.target) r.bytes r.x_sign) r m)
  unfolding Sound Passed finish
  finish-Sound h log k r m e ok =
      let (good, recent) =
        finish-fine h log k.target (verify_webhook out (some k.target) r.bytes r.x_sign) r m ok in
      (k, e, good, recent)

  bad-Sound :
      (h : Handler P) (log : List Effect) (key : P) (r : Request) (m : Moment P)
      → Sound r m (finish out opts h log key bad_signature r m)
  unfolding Sound
  bad-Sound h log key r m ok =
      let (bad, _) = finish-fine h log key bad_signature r m ok in absurd (ground arith)

  replacement_key : (key k : Key P) (o : Option (Key P)) → replacement key o ≡ some k → o ≡ some k
  unfolding replacement
  replacement_key key k o e = ground arith

  try_again-Sound :
      (h : Handler P) (key : Key P) (o : Option (Key P)) (r : Request) (m : Moment P)
      → ((k : Key P) → o ≡ some k → h.key ≡ some k)
      → Sound r m (try_again out opts h key o r m)
  unfolding try_again
  try_again-Sound h key none r m e = bad-Sound h [] key.target r m
  try_again-Sound h key (some k) r m e = finish-Sound h [] k r m (e k refl)

  recover-Sound :
      (h : Handler P) (key : Key P) (r : Request) (m : Moment P)
      → Sound r m (recover out opts h key r m)
  unfolding recover
  recover-Sound h key r m =
      let f = refresh_coalesced h m in
      if-Sound f.failed _ _ r m
        (bad-Sound f.handler (report opts Fault.refresh_failed) key.target r m)
        (try_again-Sound f.handler key (replacement key f.handler.key) r m
          (λ k. replacement_key key k f.handler.key))

  pub verify-Sound :
      (h : Handler P) (key : Key P) (r : Request) (m : Moment P)
      → h.key ≡ some key
      → Sound r m (verify out opts h key r m)
  unfolding verify
  verify-Sound h key r m e =
      if-Sound (is_bad_signature (verify_webhook out (some key.target) r.bytes r.x_sign)) _ _ r m
        (recover-Sound h key r m) (finish-Sound h [] key r m e)

  -- What an admission that passed an invoice shows.
  unfoldable pub Admitted : Handler P → Request → Moment P → Admission P → Type 0
  Admitted h r m a =
      (inv : InvoiceStatusResponse)
      → a.decision ≡ pass inv
      → (out.unmarshal r.bytes ≡ some inv) × Passed a.handler r m

  pub parse_verified-Admitted :
      (h : Handler P) (v : Verified P) (r : Request) (m : Moment P)
      → Sound r m v
      → Admitted h r m (parse_verified out opts v r.bytes)
  unfolding parse_verified Admitted Sound
  parse_verified-Admitted h v r m sound inv = elim (Bool-cases (is_fine v.verdict)) [
    | inr bad ↦ rw bad (λ e. absurd (ground arith))
    | inl good ↦ elim (Option-cases (out.unmarshal r.bytes)) [
      | inl lost ↦ rw (good, lost) (λ e. absurd (ground arith))
      | inr (u, got) ↦ rw (good, got) (λ e. (ground arith, sound (is_fine-fine v.verdict good)))
    ]
  ]

  -- The verification runs no OnEvent.
  pub verify-events :
      (h : Handler P) (key : Key P) (r : Request) (m : Moment P)
      → events (verify out opts h key r m).log ≡ []
  unfolding verify recover try_again finish replacement events
  verify-events h key r m = ground (arith, events-report opts Fault.refresh_failed)
