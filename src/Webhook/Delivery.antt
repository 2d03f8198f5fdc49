-- ===== src/Webhook/Delivery.antt =====
-- What a delivery does: when ServeHTTP runs OnEvent.
use go_monobank_sdk.Base.{
  ◌++◌, false, Option, none, some, List, [], ◌∷◌, ◌≡◌, ◌≢◌, ◌⊎◌, inl, inr, refl, ap, ◌∙◌, ◌≤◌,
  arith, Bool-cases, ltb, length,
}
use go_monobank_sdk.Base.Decimal.{Text, text_eq}
use go_monobank_sdk.Webhook.{Crypto, Response, known, parse, Deduper}
use go_monobank_sdk.Webhook.Signature.{valid, verify}
use go_monobank_sdk.Webhook.Handler.{
  ServerKey, Handler, Options, post, Request, Moment, Fault, Effect, event, report,
  refresh_coalesced, is_rotated, accepted,
}
use go_monobank_sdk.Webhook.Serve.{
  with_current_key, run_event, deliver, dispatch, check_signature, with_key, serve_post, serve_http,
}
use go_monobank_sdk.Webhook.Events.{
  events, events-append, with_report, with_unknown, events-report, Parsed-cases, Method-cases,
  accepted-valid, refresh_key,
}

module _ {P : Type 0} (crypto : Crypto P) (unmarshal : Text → Option Response) (deduper : Deduper)
    (opts : Options) where
  pub events-run_event :
      (h : Handler P) (s : Option deduper.State) (before : List Effect) (ev : Response)
      (m : Moment P)
      → events before ≡ []
      → events (run_event crypto unmarshal deduper opts h s before ev m).log ≡ ev ∷ []
  unfolding run_event events
  events-run_event h s before ev m e = ground (
    arith,
    events-append before (event ev ∷ []),
    events-append (before ++ (event ev ∷ [])) (report opts Fault.callback_failed),
    events-report opts Fault.callback_failed,
  )

  run_event_handler :
      (h : Handler P) (s : Option deduper.State) (before : List Effect) (ev : Response)
      (m : Moment P)
      → (run_event crypto unmarshal deduper opts h s before ev m).handler ≡ h
  unfolding run_event
  run_event_handler h s before ev m = ground arith

  pub deliver_events :
      (h : Handler P) (s : Option deduper.State) (before : List Effect) (ev : Response)
      (m : Moment P)
      → events before ≡ []
      → (events (deliver crypto unmarshal deduper opts h s before ev m).log ≡ [])
        ⊎ (events (deliver crypto unmarshal deduper opts h s before ev m).log ≡ ev ∷ [])
  unfolding deliver
  deliver_events h none before ev m e = elim (Bool-cases (text_eq ev.payload.transaction.id [])) [
    | inl nameless ↦ inr (
        rw nameless (
          events-run_event h none (before ++ report opts Fault.empty_id) ev m
            (with_report opts before Fault.empty_id e)))
    | inr named ↦ inr (rw named (events-run_event h none before ev m e))
  ]
  deliver_events h (some d) before ev m e =
      elim (Bool-cases (text_eq ev.payload.transaction.id [])) [
        | inl nameless ↦ inr (
            rw nameless (
              events-run_event h (some d) (before ++ report opts Fault.empty_id) ev m
                (with_report opts before Fault.empty_id e)))
        | inr named ↦ elim (Bool-cases (deduper.has ev.payload.transaction.id d).1) [
          | inl seen ↦ inl (rw (named, seen, deliver) e)
          | inr fresh ↦ inr (
              rw (named, fresh, deliver)
                (events-run_event h (some (deduper.has ev.payload.transaction.id d).0) before ev m
                  e))
        ]
      ]

  pub deliver_handler :
      (h : Handler P) (s : Option deduper.State) (before : List Effect) (ev : Response)
      (m : Moment P)
      → (deliver crypto unmarshal deduper opts h s before ev m).handler ≡ h
  unfolding deliver
  deliver_handler h none before ev m = ground (
    arith,
    run_event_handler h none (before ++ report opts Fault.empty_id) ev m,
    run_event_handler h none before ev m,
  )
  deliver_handler h (some d) before ev m = ground (
    arith,
    run_event_handler h (some d) (before ++ report opts Fault.empty_id) ev m,
    run_event_handler h (some (deduper.has ev.payload.transaction.id d).0) before ev m,
  )

  dispatch-events :
      (h : Handler P) (s : Option deduper.State) (before : List Effect) (body : Text) (m : Moment P)
      → events before ≡ []
      → events (dispatch crypto unmarshal deduper opts h s before body m).log ≢ []
      → (v : Response) × (parse unmarshal body ≡ known v)
        × (events (dispatch crypto unmarshal deduper opts h s before body m).log ≡ v ∷ [])
  unfolding dispatch events
  dispatch-events h s before body m e ran = elim (Parsed-cases (parse unmarshal body)) [
    | inl (v, p) ↦ (
      v,
      p,
      rw (p, dispatch)
          (elim (deliver_events h s before v m e) [
            | inl quiet ↦ absurd (ran (rw (p, dispatch) quiet))
            | inr once ↦ once
          ]),
    )
    | inr (inl (v, p)) ↦
        absurd (ran (rw (p, dispatch) (with_unknown opts.on_unknown_type before body e)))
    | inr (inr p) ↦
        absurd (ran (rw (p, dispatch) (with_report opts before Fault.malformed_payload e)))
  ]

  check_signature-events :
      (h : Handler P) (s : Option deduper.State) (before : List Effect) (key : ServerKey P)
      (r : Request) (m : Moment P)
      → events before ≡ []
      → events (check_signature crypto unmarshal deduper opts h s before key r m).log ≢ []
      → (v : Response) × (verify crypto key.pub_key r.bytes r.x_sign ≡ valid)
        × (parse unmarshal r.bytes ≡ known v)
        × (events (check_signature crypto unmarshal deduper opts h s before key r m).log ≡ v ∷ [])
  unfolding check_signature
  check_signature-events h s before key r m e ran =
      elim (Bool-cases (accepted (verify crypto key.pub_key r.bytes r.x_sign))) [
        | inr refused ↦ absurd (ran (rw refused e))
        | inl fine ↦
            let (v, p, q) = dispatch-events h s before r.bytes m e (λ x. ran (rw fine x)) in
            (v, accepted-valid (verify crypto key.pub_key r.bytes r.x_sign) fine, p, rw fine q)
      ]

  dispatch_handler :
      (h : Handler P) (s : Option deduper.State) (before : List Effect) (body : Text) (m : Moment P)
      → (dispatch crypto unmarshal deduper opts h s before body m).handler ≡ h
  unfolding dispatch
  dispatch_handler h s before body m = elim (Parsed-cases (parse unmarshal body)) [
    | inl (v, p) ↦ rw (p, dispatch) (deliver_handler h s before v m)
    | inr (inl (v, p)) ↦ rw (p, dispatch) refl
    | inr (inr p) ↦ rw (p, dispatch) refl
  ]

  pub check_signature_handler :
      (h : Handler P) (s : Option deduper.State) (before : List Effect) (key : ServerKey P)
      (r : Request) (m : Moment P)
      → (check_signature crypto unmarshal deduper opts h s before key r m).handler ≡ h
  unfolding check_signature
  check_signature_handler h s before key r m = ground (arith, dispatch_handler h s before r.bytes m)

  -- What a request that ran OnEvent shows of the handler, the request and the events.
  Ran : Handler P → Request → List Effect → Type 0
  Ran h r log =
      (key : ServerKey P) × (v : Response) × (h.key ≡ some key)
      × (verify crypto key.pub_key r.bytes r.x_sign ≡ valid)
      × (parse unmarshal r.bytes ≡ known v)
      × (events log ≡ v ∷ [])

  check_signature-Ran :
      (h : Handler P) (s : Option deduper.State) (before : List Effect) (key : ServerKey P)
      (r : Request) (m : Moment P)
      → events before ≡ []
      → h.key ≡ some key
      → events (check_signature crypto unmarshal deduper opts h s before key r m).log ≢ []
      → Ran
          (check_signature crypto unmarshal deduper opts h s before key r m).handler
          r
          (check_signature crypto unmarshal deduper opts h s before key r m).log
  unfolding Ran
  check_signature-Ran h s before key r m e hk ran =
      let (v, a, b, c) = check_signature-events h s before key r m e ran in
      (
        key,
        v,
        ap (λ (x : Handler P). x.key) (check_signature_handler h s before key r m) ∙ hk,
        a,
        b,
        c,
      )

  with_key-Ran :
      (h : Handler P) (s : Option deduper.State) (key : ServerKey P) (r : Request) (m : Moment P)
      → h.key ≡ some key
      → events (with_key crypto unmarshal deduper opts h s key r m).log ≢ []
      → Ran
          (with_key crypto unmarshal deduper opts h s key r m).handler
          r
          (with_key crypto unmarshal deduper opts h s key r m).log
  unfolding with_key events
  with_key-Ran h s key r m hk ran = elim (Bool-cases (is_rotated r.key_id key)) [
    | inr same ↦ rw same (check_signature-Ran h s [] key r m refl hk (λ x. ran (rw same x)))
    | inl rotated ↦
        let (k, e, kept) = refresh_key h key m hk in
        elim (Bool-cases (refresh_coalesced h m).failed) [
          | inl failed ↦
              rw (rotated, failed, with_key)
                (check_signature-Ran (refresh_coalesced h m).handler s
                  (report opts Fault.refresh_failed) key r m
                  (events-report opts Fault.refresh_failed) (e ∙ ap some (kept failed))
                  (λ x. ran (rw (rotated, failed, with_key) x)))
          | inr done ↦
              rw (rotated, done, with_key)
                (rw e (
                  check_signature-Ran (refresh_coalesced h m).handler s [] k r m refl e
                    (λ x. ran (rw (rotated, done, with_key) (rw e x)))))
        ]
  ]

  with_current_key-Ran :
      (h : Handler P) (s : Option deduper.State) (k : Option (ServerKey P)) (r : Request)
      (m : Moment P)
      → h.key ≡ k
      → events (with_current_key crypto unmarshal deduper opts h s k r m).log ≢ []
      → Ran
          (with_current_key crypto unmarshal deduper opts h s k r m).handler
          r
          (with_current_key crypto unmarshal deduper opts h s k r m).log
  unfolding with_current_key
  with_current_key-Ran h s none r m hk ran = absurd (ran (events-report opts Fault.key_not_loaded))
  with_current_key-Ran h s (some key) r m hk ran = with_key-Ran h s key r m hk ran

  pub serve_http_post :
      (h : Handler P) (s : Option deduper.State) (r : Request) (m : Moment P)
      → r.method ≡ post
      → ltb h.max_body_bytes (length r.bytes) ≡ false
      → r.breaks ≡ false
      → serve_http crypto unmarshal deduper opts h s r m
        ≡ with_current_key crypto unmarshal deduper opts h s h.key r m
  unfolding serve_http serve_post
  serve_http_post h s r m p fits whole = ground arith

  -- ServeHTTP runs OnEvent only for a POST that the client sent whole, within the handler's limit,
  -- whose body verifies under the key that the handler holds when it answers and parses to an event
  -- of a known type; and it runs it once, on that event.
  pub serve_http-event :
      (h : Handler P) (s : Option deduper.State) (r : Request) (m : Moment P)
      → events (serve_http crypto unmarshal deduper opts h s r m).log ≢ []
      → (r.method ≡ post)
        × (r.breaks ≡ false)
        × (length r.bytes ≤ h.max_body_bytes)
        × ((key : ServerKey P) × (v : Response) × ((serve_http crypto unmarshal deduper opts h s r
                m).handler.key
              ≡ some key)
            × (verify crypto key.pub_key r.bytes r.x_sign ≡ valid)
            × (parse unmarshal r.bytes ≡ known v)
            × (events (serve_http crypto unmarshal deduper opts h s r m).log ≡ v ∷ []))
  unfolding serve_http serve_post Ran events
  serve_http-event h s r m ran = elim (Method-cases r.method) [
    | inl g ↦ absurd (ran (rw (g, serve_http) refl))
    | inr (inr o) ↦ absurd (ran (rw (o, serve_http) refl))
    | inr (inl p) ↦ elim (Bool-cases (ltb h.max_body_bytes (length r.bytes))) [
      | inl large ↦ absurd (ran (rw (p, large, serve_http, serve_post) refl))
      | inr fits ↦ elim (Bool-cases r.breaks) [
        | inl broken ↦ absurd (ran (rw (p, fits, broken, serve_http, serve_post) refl))
        | inr whole ↦
            let same = serve_http_post h s r m p fits whole in
            (
              p,
              whole,
              ground arith,
              rw same (with_current_key-Ran h s h.key r m refl (λ x. ran (rw same x))),
            )
      ]
    ]
  ]
