-- ===== src/Webhook/Redelivery.antt =====
-- A delivery and the one after it: the deduper's part of ServeHTTP.
use go_monobank_sdk.Base.{
  ℕ, ◌≤◌, true, false, Option, some, [], ◌∷◌, ◌≡◌, ◌≢◌, inl, inr, refl, ap, sym, ◌∙◌, arith,
  Bool-cases, length,
}
use go_monobank_sdk.Base.Decimal.{Text, text_eq}
use go_monobank_sdk.Webhook.{Crypto, Response, known, parse, Deduper}
use go_monobank_sdk.Webhook.Signature.{valid, verify}
use go_monobank_sdk.Webhook.Handler.{
  ServerKey, Handler, Options, post, Request, Moment, Fault, Served, report, is_rotated,
}
use go_monobank_sdk.Webhook.Serve.{
  run_event, deliver, dispatch, check_signature, with_key, with_current_key, serve_http,
}
use go_monobank_sdk.Webhook.Delivery.{
  serve_http_post, events-run_event, check_signature_handler, serve_http-event,
}
use go_monobank_sdk.Webhook.Events.{events, events-report}
use go_monobank_sdk.Webhook.Delivered.{deliver_named, delivered_named}

module _ {P : Type 0} (crypto : Crypto P) (unmarshal : Text → Option Response) (deduper : Deduper)
    (opts : Options) where
  -- With a deduper in a good state: after a delivery whose OnEvent succeeded, on a payload with an
  -- id, the request answered next does not run OnEvent on a payload with that id, whatever the
  -- handler is and whatever the request says.
  pub serve_http-redelivery :
      (h h' : Handler P) (d : deduper.State) (r r' : Request) (m m' : Moment P) (v w : Response)
      (c : ℕ) (id : Text)
      → deduper.Good d
      → v.payload.transaction.id ≡ c ∷ id
      → w.payload.transaction.id ≡ c ∷ id
      → m.callback_fails ≡ false
      → events (serve_http crypto unmarshal deduper opts h (some d) r m).log ≡ v ∷ []
      → events
          (serve_http crypto unmarshal deduper opts h'
            (serve_http crypto unmarshal deduper opts h (some d) r m).dedup
            r'
            m').log
        ≢ w ∷ []
  serve_http-redelivery h h' d r r' m m' v w c id good iv iw worked first second =
      let (_, _, kept) = delivered_named crypto unmarshal deduper opts h d r m v c id iv first in
      let kept' : (serve_http crypto unmarshal deduper opts h (some d) r m).dedup
          ≡ some (deduper.add (c ∷ id) (deduper.has (c ∷ id) d).0) =
        ground arith in
      let (unseen, _, _) =
        delivered_named crypto unmarshal deduper opts h'
          (deduper.add (c ∷ id) (deduper.has (c ∷ id) d).0) r' m' w c id iw
          (ap
              (λ (x : Option deduper.State).
                events (serve_http crypto unmarshal deduper opts h' x r' m').log)
              (sym kept')
            ∙ second) in
      let seen =
        deduper.has-add c id (deduper.has (c ∷ id) d).0 (deduper.has-Good (c ∷ id) d good) in
      absurd (ground arith)

  -- A request that names the handler's key or none, on any state of the deduper.
  serve_http_same_key :
      (h : Handler P) (key : ServerKey P) (r : Request) (v : Response) (s : Option deduper.State)
      (m : Moment P)
      → h.key ≡ some key
      → is_rotated r.key_id key ≡ false
      → r.method ≡ post
      → r.breaks ≡ false
      → length r.bytes ≤ h.max_body_bytes
      → verify crypto key.pub_key r.bytes r.x_sign ≡ valid
      → parse unmarshal r.bytes ≡ known v
      → serve_http crypto unmarshal deduper opts h s r m
        ≡ deliver crypto unmarshal deduper opts h s [] v m
  unfolding with_current_key with_key check_signature dispatch
  serve_http_same_key h key r v s m hk same p whole fits ok known_v =
      serve_http_post crypto unmarshal deduper opts h s r m p (ground arith) whole
      ∙ ap (λ (k : Option (ServerKey P)). with_current_key crypto unmarshal deduper opts h s k r m)
          hk
      ∙ rw (same, ok, check_signature, known_v, dispatch) refl

  serve_http_same_key_handler :
      (h : Handler P) (key : ServerKey P) (r : Request) (s : Option deduper.State) (m : Moment P)
      → h.key ≡ some key
      → is_rotated r.key_id key ≡ false
      → r.method ≡ post
      → r.breaks ≡ false
      → length r.bytes ≤ h.max_body_bytes
      → (serve_http crypto unmarshal deduper opts h s r m).handler ≡ h
  unfolding with_current_key with_key
  serve_http_same_key_handler h key r s m hk same p whole fits =
      ap (λ (x : Served P deduper.State). x.handler)
        (serve_http_post crypto unmarshal deduper opts h s r m p (ground arith) whole
          ∙ ap
              (λ (k : Option (ServerKey P)).
                with_current_key crypto unmarshal deduper opts h s k r m)
              hk)
      ∙ rw same (check_signature_handler crypto unmarshal deduper opts h s [] key r m)

  deliver_again :
      (h : Handler P) (d : deduper.State) (v : Response) (m m' : Moment P)
      → deduper.Good d
      → m.callback_fails ≡ true
      → events (deliver crypto unmarshal deduper opts h (some d) [] v m).log ≢ []
      → ((deliver crypto unmarshal deduper opts h (some d) [] v m).status ≡ 500)
        × (d' : deduper.State) × ((deliver crypto unmarshal deduper opts h (some d) [] v m).dedup
            ≡ some d')
        × (events (deliver crypto unmarshal deduper opts h (some d') [] v m').log ≡ v ∷ [])
  unfolding deliver run_event events
  deliver_again h d v m m' good failed ran =
      elim (Bool-cases (text_eq v.payload.transaction.id [])) [
        | inl nameless ↦ (
          ground arith,
          d,
          ground arith,
          rw nameless (
              events-run_event crypto unmarshal deduper opts h (some d) (report opts Fault.empty_id)
                v m' (events-report opts Fault.empty_id)),
        )
        | inr named ↦
            let (a, b, st, dd) =
              deliver_named crypto unmarshal deduper opts h d [] v m refl named ran in
            let d' = (deduper.has v.payload.transaction.id d).0 in
            let again : (deduper.has v.payload.transaction.id d').1 ≡ false =
              deduper.has-has v.payload.transaction.id d good ∙ a in
            (
              ground arith,
              d',
              ground arith,
              rw (named, again, deliver)
                  (events-run_event crypto unmarshal deduper opts h
                    (some (deduper.has v.payload.transaction.id d').0) [] v m' refl),
            )
      ]

  -- With a deduper in a good state, and where the request names the handler's key or none: a delivery
  -- whose OnEvent failed answers 500, and OnEvent runs on the same payload when the bank sends the
  -- request again.
  pub serve_http-retry :
      (h : Handler P) (key : ServerKey P) (d : deduper.State) (r : Request) (m m' : Moment P)
      → deduper.Good d
      → h.key ≡ some key
      → is_rotated r.key_id key ≡ false
      → m.callback_fails ≡ true
      → events (serve_http crypto unmarshal deduper opts h (some d) r m).log ≢ []
      → ((serve_http crypto unmarshal deduper opts h (some d) r m).status ≡ 500)
        × (events
              (serve_http crypto unmarshal deduper opts
                (serve_http crypto unmarshal deduper opts h (some d) r m).handler
                (serve_http crypto unmarshal deduper opts h (some d) r m).dedup
                r
                m').log
            ≡ events (serve_http crypto unmarshal deduper opts h (some d) r m).log)
  serve_http-retry h key d r m m' good hk same failed ran =
      let first = serve_http crypto unmarshal deduper opts h (some d) r m in
      let (p, whole, fits, (k, v, hk', ok, known_v, once)) =
        serve_http-event crypto unmarshal deduper opts h (some d) r m ran in
      let kept : first.handler ≡ h =
        serve_http_same_key_handler h key r (some d) m hk same p whole fits in
      let kk : k ≡ key = ground (arith, hk', hk, kept, ap (λ (x : Handler P). x.key) kept) in
      let ok' : verify crypto key.pub_key r.bytes r.x_sign ≡ valid =
        ap (λ (x : ServerKey P). verify crypto x.pub_key r.bytes r.x_sign) (sym kk) ∙ ok in
      let eq = serve_http_same_key h key r v (some d) m hk same p whole fits ok' known_v in
      let (st, d', dd, ev) =
        deliver_again h d v m m' good failed
          (λ x. ran (ap (λ (y : Served P deduper.State). events y.log) eq ∙ x)) in
      let dd' : first.dedup ≡ some d' = ap (λ (x : Served P deduper.State). x.dedup) eq ∙ dd in
      let second = serve_http_same_key h key r v (some d') m' hk same p whole fits ok' known_v in
      (
        ap (λ (x : Served P deduper.State). x.status) eq ∙ st,
        ap
              (λ (x : Handler P).
                events (serve_http crypto unmarshal deduper opts x first.dedup r m').log)
              kept
            ∙ ap
                (λ (x : Option deduper.State).
                  events (serve_http crypto unmarshal deduper opts h x r m').log)
                dd'
            ∙ ap (λ (x : Served P deduper.State). events x.log) second
            ∙ ev
            ∙ sym once,
      )
