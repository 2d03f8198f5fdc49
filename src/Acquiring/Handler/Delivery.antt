-- ===== src/Acquiring/Handler/Delivery.antt =====
-- ServeHTTP (acquiring/handler.go): what it answers, and when it runs OnEvent.
use go_monobank_sdk.Base.{
  ◌≤◌, ◌++◌, false, Option, none, some, List, [], ◌∷◌, ◌≡◌, ◌≢◌, ◌⊎◌, inl, inr, refl, ap, sym, ◌∙◌,
  arith, Bool-cases, length,
}
use go_monobank_sdk.Base.Int.{pos, ◌≤ℤ◌}
use go_monobank_sdk.Base.Decimal.{Text, text_eq}
use go_monobank_sdk.Webhook.{Deduper}
use go_monobank_sdk.Acquiring.{InvoiceStatusResponse, dedup_key}
use go_monobank_sdk.Acquiring.Webhook.{Outside, fine, verify_webhook}
use go_monobank_sdk.Acquiring.Handler.{
  Key, Handler, Options, Method, get, post, other, Request, Moment, Fault, Effect, event, report,
}
use go_monobank_sdk.Acquiring.Handler.Verify.{
  Verified, pass, Admission, verify, parse_verified, with_current_key, admit, run_event, deliver,
  serve_http, settle,
}
use go_monobank_sdk.Acquiring.Handler.Events.{
  events, events-append, events-report, events-two, Decision-cases, Recent, Passed, Admitted,
  verify-Sound, parse_verified-Admitted, verify-events,
}

Method-cases : (x : Method) → (x ≡ get) ⊎ ((x ≡ post) ⊎ (x ≡ other))
Method-cases get = inl refl
Method-cases post = inr (inl refl)
Method-cases other = inr (inr refl)

module _ {P : Type 0} (out : Outside P) (opts : Options) where
  parse_verified-events :
      (v : Verified P) (body : Text)
      → events v.log ≡ []
      → events (parse_verified out opts v body).log ≡ []
  unfolding parse_verified
  parse_verified-events v body e = ground (arith, events-two opts v.log Fault.malformed_payload e)

  with_current_key-events :
      (h : Handler P) (o : Option (Key P)) (r : Request) (m : Moment P)
      → events (with_current_key out opts h o r m).log ≡ []
  unfolding with_current_key
  with_current_key-events h none r m = events-report opts Fault.key_not_loaded
  with_current_key-events h (some key) r m =
      parse_verified-events (verify out opts h key r m) r.bytes (verify-events out opts h key r m)

  with_current_key-Admitted :
      (h : Handler P) (o : Option (Key P)) (r : Request) (m : Moment P)
      → h.key ≡ o
      → Admitted out opts h r m (with_current_key out opts h o r m)
  unfolding with_current_key Admitted
  with_current_key-Admitted h none r m e inv no_pass = absurd (ground arith)
  with_current_key-Admitted h (some key) r m e inv passed =
      parse_verified-Admitted out opts h (verify out opts h key r m) r m
        (verify-Sound out opts h key r m e) inv passed

  -- The checks run no OnEvent.
  pub admit-events :
      (h : Handler P) (r : Request) (m : Moment P) → events (admit out opts h r m).log ≡ []
  unfolding admit events
  admit-events h r m = ground (arith, with_current_key-events h h.key r m)

  admit_post :
      (h : Handler P) (r : Request) (m : Moment P)
      → r.method ≡ post
      → length r.bytes ≤ h.max_body_bytes
      → r.breaks ≡ false
      → admit out opts h r m ≡ with_current_key out opts h h.key r m
  unfolding admit
  admit_post h r m p fits whole = ground arith

  pass_post :
      (h : Handler P) (r : Request) (m : Moment P) (inv : InvoiceStatusResponse)
      → (admit out opts h r m).decision ≡ pass inv
      → (r.method ≡ post) × (r.breaks ≡ false) × (length r.bytes ≤ h.max_body_bytes)
  unfolding admit
  pass_post h r m inv e = ground arith

  pub admit-pass :
      (h : Handler P) (r : Request) (m : Moment P) (inv : InvoiceStatusResponse)
      → (admit out opts h r m).decision ≡ pass inv
      → (r.method ≡ post)
        × (r.breaks ≡ false)
        × (length r.bytes ≤ h.max_body_bytes)
        × (out.unmarshal r.bytes ≡ some inv)
        × Passed out opts (admit out opts h r m).handler r m
  unfolding Admitted
  admit-pass h r m inv e =
      let (p, whole, fits) = pass_post h r m inv e in
      let same = admit_post h r m p fits whole in
      let (got, passed) =
        with_current_key-Admitted h h.key r m refl inv
          (ap (λ (a : Admission P). a.decision) (sym same) ∙ e) in
      (p, whole, fits, got, rw same passed)

  module _ (deduper : Deduper) where
    pub run_event-events :
        (h : Handler P) (s : Option deduper.State) (before : List Effect)
        (inv : InvoiceStatusResponse) (m : Moment P)
        → events before ≡ []
        → events (run_event out opts deduper h s before inv m).log ≡ inv ∷ []
    unfolding run_event events
    run_event-events h s before inv m e = ground (
      arith,
      events-append before (event inv ∷ []),
      events-append (before ++ (event inv ∷ [])) (report opts Fault.callback_failed),
      events-report opts Fault.callback_failed,
    )

    deliver_handler :
        (h : Handler P) (s : Option deduper.State) (before : List Effect)
        (inv : InvoiceStatusResponse) (m : Moment P)
        → (deliver out opts deduper h s before inv m).handler.key ≡ h.key
    unfolding deliver run_event
    deliver_handler h none before inv m = ground arith
    deliver_handler h (some d) before inv m = ground arith

    pub deliver-events :
        (h : Handler P) (s : Option deduper.State) (before : List Effect)
        (inv : InvoiceStatusResponse) (m : Moment P)
        → events before ≡ []
        → (events (deliver out opts deduper h s before inv m).log ≡ [])
          ⊎ (events (deliver out opts deduper h s before inv m).log ≡ inv ∷ [])
    unfolding deliver
    deliver-events h none before inv m e = elim (Bool-cases (text_eq (dedup_key (some inv)) [])) [
      | inl nameless ↦ inr (
          rw nameless (
            run_event-events h none (before ++ report opts Fault.empty_invoice_id) inv m
              (events-two opts before Fault.empty_invoice_id e)))
      | inr named ↦ inr (rw named (run_event-events h none before inv m e))
    ]
    deliver-events h (some d) before inv m e =
        elim (Bool-cases (text_eq (dedup_key (some inv)) [])) [
          | inl nameless ↦ inr (
              rw nameless (
                run_event-events h (some d) (before ++ report opts Fault.empty_invoice_id) inv m
                  (events-two opts before Fault.empty_invoice_id e)))
          | inr named ↦ elim (Bool-cases (deduper.has (dedup_key (some inv)) d).1) [
            | inl seen ↦ inl (rw (named, seen, deliver) e)
            | inr fresh ↦ inr (
                rw (named, fresh, deliver)
                  (run_event-events h (some (deduper.has (dedup_key (some inv)) d).0) before inv m
                    e))
          ]
        ]

    -- ServeHTTP runs OnEvent only for a POST that the client sent whole, within the handler's limit,
    -- whose body verifies under the key that the handler holds when it answers, decodes to an invoice
    -- and, where the options set a maximal age, has a modifiedDate that is no older; and it runs it
    -- once, on that invoice.
    pub serve_http-verified :
        (h : Handler P) (s : Option deduper.State) (r : Request) (m : Moment P)
        → events (serve_http out opts deduper h s r m).log ≢ []
        → (r.method ≡ post)
          × (r.breaks ≡ false)
          × (length r.bytes ≤ h.max_body_bytes)
          × ((k : Key P) × (inv : InvoiceStatusResponse) × ((serve_http out opts deduper h s r
                  m).handler.key
                ≡ some k)
              × (verify_webhook out (some k.target) r.bytes r.x_sign ≡ fine)
              × ((opts.max_age ≤ℤ pos 0) ⊎ Recent out opts r m)
              × (out.unmarshal r.bytes ≡ some inv)
              × (events (serve_http out opts deduper h s r m).log ≡ inv ∷ []))
    unfolding serve_http Passed events settle
    serve_http-verified h s r m ran = elim (Decision-cases (admit out opts h r m).decision) [
      | inl (n, e) ↦ absurd (ran (rw (e, serve_http) (admit-events h r m)))
      | inr (inv, e) ↦
          let (p, whole, fits, got, (k, hk, ok, recent)) = admit-pass h r m inv e in
          let quiet = admit-events h r m in
          let a = admit out opts h r m in
          (
            p,
            whole,
            fits,
            (
              k,
              inv,
              rw (e, serve_http) (deliver_handler a.handler s a.log inv m ∙ hk),
              ok,
              recent,
              got,
              elim (deliver-events a.handler s a.log inv m quiet) [
                | inl none_ran ↦ absurd (ran (rw (e, serve_http) none_ran))
                | inr once ↦ rw (e, serve_http) once
              ],
            ),
          )
    ]
