-- ===== src/Webhook/Delivered.antt =====
-- A request that ran OnEvent, and what it did to the deduper.
use mathlib.Core.Path.{subst}
use go_monobank_sdk.Base.{
  ℕ, false, Option, none, some, List, [], ◌∷◌, ◌≡◌, ◌≢◌, inl, inr, refl, ap, sym, ◌∙◌, arith,
  Bool-cases, if◌then◌else◌,
}
use go_monobank_sdk.Base.Decimal.{Text, text_eq}
use go_monobank_sdk.Webhook.{Crypto, Response, parse, Deduper}
use go_monobank_sdk.Webhook.Signature.{verify}
use go_monobank_sdk.Webhook.Handler.{
  ServerKey, Handler, Options, Request, Moment, Fault, Effect, Served, report, refresh_coalesced,
  is_rotated, accepted, key_or,
}
use go_monobank_sdk.Webhook.Serve.{
  run_event, deliver, dispatch, check_signature, with_key, with_current_key, serve_post, serve_http,
  add_id,
}
use go_monobank_sdk.Webhook.Delivery.{
  serve_http_post, events-run_event, deliver_events, serve_http-event,
}
use go_monobank_sdk.Webhook.Events.{events, with_report, with_unknown, events-report, Parsed-cases}

module _ {P : Type 0} (crypto : Crypto P) (unmarshal : Text → Option Response) (deduper : Deduper)
    (opts : Options) where
  -- A served request that ran OnEvent came to `deliver`.
  Delivered : Option deduper.State → Moment P → Served P deduper.State → Type 0
  Delivered s m out =
      (h : Handler P) × (before : List Effect) × (v : Response) × (events before ≡ [])
      × (out ≡ deliver crypto unmarshal deduper opts h s before v m)

  dispatch-Delivered :
      (h : Handler P) (s : Option deduper.State) (before : List Effect) (body : Text) (m : Moment P)
      → events before ≡ []
      → events (dispatch crypto unmarshal deduper opts h s before body m).log ≢ []
      → Delivered s m (dispatch crypto unmarshal deduper opts h s before body m)
  unfolding dispatch Delivered
  dispatch-Delivered h s before body m e ran = elim (Parsed-cases (parse unmarshal body)) [
    | inl (v, p) ↦ (h, before, v, e, rw (p, dispatch) refl)
    | inr (inl (v, p)) ↦
        absurd (ran (rw (p, dispatch) (with_unknown opts.on_unknown_type before body e)))
    | inr (inr p) ↦
        absurd (ran (rw (p, dispatch) (with_report opts before Fault.malformed_payload e)))
  ]

  check_signature-Delivered :
      (h : Handler P) (s : Option deduper.State) (before : List Effect) (key : ServerKey P)
      (r : Request) (m : Moment P)
      → events before ≡ []
      → events (check_signature crypto unmarshal deduper opts h s before key r m).log ≢ []
      → Delivered s m (check_signature crypto unmarshal deduper opts h s before key r m)
  unfolding check_signature
  check_signature-Delivered h s before key r m e ran =
      elim (Bool-cases (accepted (verify crypto key.pub_key r.bytes r.x_sign))) [
        | inr refused ↦ absurd (ran (rw refused e))
        | inl fine ↦ rw fine (dispatch-Delivered h s before r.bytes m e (λ x. ran (rw fine x)))
      ]

  with_current_key-Delivered :
      (h : Handler P) (s : Option deduper.State) (k : Option (ServerKey P)) (r : Request)
      (m : Moment P)
      → events (with_current_key crypto unmarshal deduper opts h s k r m).log ≢ []
      → Delivered s m (with_current_key crypto unmarshal deduper opts h s k r m)
  unfolding with_current_key with_key events
  with_current_key-Delivered h s none r m ran =
      absurd (ran (events-report opts Fault.key_not_loaded))
  with_current_key-Delivered h s (some key) r m ran = elim (Bool-cases (is_rotated r.key_id key)) [
    | inr same ↦ rw same (check_signature-Delivered h s [] key r m refl (λ x. ran (rw same x)))
    | inl rotated ↦
        let f = refresh_coalesced h m in
        elim (Bool-cases f.failed) [
          | inl failed ↦
              rw (rotated, failed, with_key)
                (check_signature-Delivered f.handler s (report opts Fault.refresh_failed) key r m
                  (events-report opts Fault.refresh_failed)
                  (λ x. ran (rw (rotated, failed, with_key) x)))
          | inr done ↦
              rw (rotated, done, with_key)
                (check_signature-Delivered f.handler s [] (key_or key f.handler.key) r m refl
                  (λ x. ran (rw (rotated, done, with_key) x)))
        ]
  ]

  serve_http-Delivered :
      (h : Handler P) (s : Option deduper.State) (r : Request) (m : Moment P)
      → events (serve_http crypto unmarshal deduper opts h s r m).log ≢ []
      → Delivered s m (serve_http crypto unmarshal deduper opts h s r m)
  unfolding serve_post
  serve_http-Delivered h s r m ran =
      let (p, whole, fits, _) = serve_http-event crypto unmarshal deduper opts h s r m ran in
      let same = serve_http_post crypto unmarshal deduper opts h s r m p (ground arith) whole in
      rw same (with_current_key-Delivered h s h.key r m (λ x. ran (rw same x)))

  -- What `deliver` does to a deduper on a payload with an id.
  pub deliver_named :
      (h : Handler P) (d : deduper.State) (before : List Effect) (v : Response) (m : Moment P)
      → events before ≡ []
      → text_eq v.payload.transaction.id [] ≡ false
      → events (deliver crypto unmarshal deduper opts h (some d) before v m).log ≢ []
      → ((deduper.has v.payload.transaction.id d).1 ≡ false)
        × (events (deliver crypto unmarshal deduper opts h (some d) before v m).log ≡ v ∷ [])
        × ((deliver crypto unmarshal deduper opts h (some d) before v m).status
            ≡ (if m.callback_fails then 500 else 200))
        × ((deliver crypto unmarshal deduper opts h (some d) before v m).dedup
            ≡ some (
                if m.callback_fails
                then (deduper.has v.payload.transaction.id d).0
                else deduper.add v.payload.transaction.id
                    (deduper.has v.payload.transaction.id d).0))
  unfolding deliver run_event add_id
  deliver_named h d before v m e named ran =
      elim (Bool-cases (deduper.has v.payload.transaction.id d).1) [
        | inl seen ↦ absurd (ran (rw (named, seen, deliver) e))
        | inr fresh ↦ (
          fresh,
          rw (named, fresh, deliver)
              (events-run_event crypto unmarshal deduper opts h
                (some (deduper.has v.payload.transaction.id d).0) before v m e),
          ground arith,
          ground arith,
        )
      ]

  pub delivered_named :
      (h : Handler P) (d : deduper.State) (r : Request) (m : Moment P) (v : Response) (c : ℕ)
      (id : Text)
      → v.payload.transaction.id ≡ c ∷ id
      → events (serve_http crypto unmarshal deduper opts h (some d) r m).log ≡ v ∷ []
      → ((deduper.has (c ∷ id) d).1 ≡ false)
        × ((serve_http crypto unmarshal deduper opts h (some d) r m).status
            ≡ (if m.callback_fails then 500 else 200))
        × ((serve_http crypto unmarshal deduper opts h (some d) r m).dedup
            ≡ some (
                if m.callback_fails
                then (deduper.has (c ∷ id) d).0
                else deduper.add (c ∷ id) (deduper.has (c ∷ id) d).0))
  unfolding Delivered
  delivered_named h d r m v c id iv ran =
      let (h0, before, u, e, same) =
        serve_http-Delivered h (some d) r m (λ x. absurd (ground arith)) in
      let ran' : events (deliver crypto unmarshal deduper opts h0 (some d) before u m).log
          ≡ v ∷ [] =
        ap (λ (x : Served P deduper.State). events x.log) (sym same) ∙ ran in
      let vu : u ≡ v =
        elim (deliver_events crypto unmarshal deduper opts h0 (some d) before u m e) [
          | inl quiet ↦ absurd (ground arith)
          | inr once ↦ ground arith
        ] in
      let iu : u.payload.transaction.id ≡ c ∷ id =
        ap (λ (x : Response). x.payload.transaction.id) vu ∙ iv in
      let (a, b, st, dd) =
        deliver_named h0 d before u m e (rw iu refl) (λ x. absurd (ground arith)) in
      subst
        (λ (k : Text).
          ((deduper.has k d).1 ≡ false)
          × ((serve_http crypto unmarshal deduper opts h (some d) r m).status
              ≡ (if m.callback_fails then 500 else 200))
          × ((serve_http crypto unmarshal deduper opts h (some d) r m).dedup
              ≡ some (
                  if m.callback_fails
                  then (deduper.has k d).0
                  else deduper.add k (deduper.has k d).0)))
        iu
        (
          a,
          ap (λ (x : Served P deduper.State). x.status) same ∙ st,
          ap (λ (x : Served P deduper.State). x.dedup) same ∙ dd,
        )
