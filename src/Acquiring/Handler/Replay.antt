-- ===== src/Acquiring/Handler/Replay.antt =====
-- Deliveries that carry the same key (acquiring/handler.go): the deduper's part of ServeHTTP.
use go_monobank_sdk.Base.{
  ℕ, false, Option, some, List, [], ◌∷◌, ◌≡◌, ◌≢◌, inl, inr, ap, sym, ◌∙◌, arith, Bool-cases,
  if◌then◌else◌,
}
use go_monobank_sdk.Base.Decimal.{Text}
use go_monobank_sdk.Webhook.{Deduper}
use go_monobank_sdk.Acquiring.{InvoiceStatusResponse, dedup_key}
use go_monobank_sdk.Acquiring.Webhook.{Outside}
use go_monobank_sdk.Acquiring.Handler.{Handler, Options, Request, Moment, Effect}
use go_monobank_sdk.Acquiring.Handler.Verify.{
  Decision, refuse, pass, admit, add_key, run_event, deliver, settle, serve_http,
}
use go_monobank_sdk.Acquiring.Handler.Events.{events}
use go_monobank_sdk.Acquiring.Handler.Delivery.{admit-events, deliver-events}

module _ {P : Type 0} (out : Outside P) (opts : Options) (deduper : Deduper) where
  -- What `deliver` does to a deduper on an invoice with a key.
  deliver_keyed :
      (h : Handler P) (d : deduper.State) (before : List Effect) (inv : InvoiceStatusResponse)
      (m : Moment P) (c : ℕ) (k : Text)
      → dedup_key (some inv) ≡ c ∷ k
      → events before ≡ []
      → events (deliver out opts deduper h (some d) before inv m).log ≢ []
      → ((deduper.has (c ∷ k) d).1 ≡ false)
        × ((deliver out opts deduper h (some d) before inv m).dedup
            ≡ some (
                if m.callback_fails
                then (deduper.has (c ∷ k) d).0
                else deduper.add (c ∷ k) (deduper.has (c ∷ k) d).0))
  unfolding deliver run_event add_key
  deliver_keyed h d before inv m c k e quiet ran = elim (Bool-cases (deduper.has (c ∷ k) d).1) [
    | inl seen ↦ absurd (ran (rw (e, seen, deliver) quiet))
    | inr fresh ↦ (fresh, rw (e, fresh, deliver) (ground arith))
  ]

  settle_keyed :
      (h : Handler P) (d : deduper.State) (log : List Effect) (decision : Decision) (m : Moment P)
      (inv : InvoiceStatusResponse) (c : ℕ) (k : Text)
      → dedup_key (some inv) ≡ c ∷ k
      → events log ≡ []
      → events (settle out opts deduper h (some d) log decision m).log ≡ inv ∷ []
      → ((deduper.has (c ∷ k) d).1 ≡ false)
        × ((settle out opts deduper h (some d) log decision m).dedup
            ≡ some (
                if m.callback_fails
                then (deduper.has (c ∷ k) d).0
                else deduper.add (c ∷ k) (deduper.has (c ∷ k) d).0))
  unfolding settle
  settle_keyed h d log (refuse n) m inv c k e quiet ran = absurd (ground arith)
  settle_keyed h d log (pass u) m inv c k e quiet ran =
      elim (deliver-events out opts deduper h (some d) log u m quiet) [
        | inl none_ran ↦ absurd (ground arith)
        | inr once ↦
            let same : inv ≡ u = ground arith in
            deliver_keyed h d log u m c k
              (ap (λ (x : InvoiceStatusResponse). dedup_key (some x)) (sym same) ∙ e) quiet
              (λ x. absurd (ground arith))
      ]

  -- With a deduper in a good state: after a delivery whose OnEvent succeeded, on an invoice with a
  -- key, the request answered next does not run OnEvent on an invoice with that key, whatever the
  -- handler is and whatever the request says.
  pub serve_http-replay :
      (h h' : Handler P) (d : deduper.State) (r r' : Request) (m m' : Moment P)
      (inv inv' : InvoiceStatusResponse) (c : ℕ) (k : Text)
      → deduper.Good d
      → dedup_key (some inv) ≡ c ∷ k
      → dedup_key (some inv') ≡ c ∷ k
      → m.callback_fails ≡ false
      → events (serve_http out opts deduper h (some d) r m).log ≡ inv ∷ []
      → events
          (serve_http out opts deduper h'
            (serve_http out opts deduper h (some d) r m).dedup
            r'
            m').log
        ≢ inv' ∷ []
  unfolding serve_http
  serve_http-replay h h' d r r' m m' inv inv' c k good e e' worked first second =
      let a = admit out opts h r m in
      let b = admit out opts h' r' m' in
      let (_, kept) =
        settle_keyed a.handler d a.log a.decision m inv c k e (admit-events out opts h r m) first in
      let d' = deduper.add (c ∷ k) (deduper.has (c ∷ k) d).0 in
      let kept' : (settle out opts deduper a.handler (some d) a.log a.decision m).dedup ≡ some d' =
        ground arith in
      let (unseen, _) =
        settle_keyed b.handler d' b.log b.decision m' inv' c k e' (admit-events out opts h' r' m') (
          ap
            (λ (x : Option deduper.State).
              events (settle out opts deduper b.handler x b.log b.decision m').log)
            (sym kept')
          ∙ second) in
      let seen = deduper.has-add c k (deduper.has (c ∷ k) d).0 (deduper.has-Good (c ∷ k) d good) in
      absurd (ground arith)
