-- ===== src/Acquiring/Handler/Verify.antt =====
-- WebhookHandler.verify (acquiring/handler.go) and what ServeHTTP does before and after it.
use go_monobank_sdk.Base.{ℕ, Option, none, some, List, [], ◌∷◌, ◌++◌, ltb, if◌then◌else◌, length}
use go_monobank_sdk.Base.Int.{pos, ltb_ℤ}
use go_monobank_sdk.Base.Decimal.{Text, text_eq}
use go_monobank_sdk.Webhook.{Deduper}
use go_monobank_sdk.Acquiring.{InvoiceStatusResponse, dedup_key}
use go_monobank_sdk.Acquiring.Webhook.{
  Outside, Verdict, fine, bad_signature, is_fine, is_bad_signature, verify_webhook,
  verify_webhook_fresh,
}
use go_monobank_sdk.Acquiring.Handler.{
  Key, Handler, Options, get, post, other, Request, Moment, key_not_loaded, refresh_failed,
  malformed_payload, empty_invoice_id, callback_failed, Effect, event, report, refresh_coalesced,
  replacement,
}

-- What verify leaves: the handler, the error, the callbacks it ran.
pub record Verified (P : Type 0) : Type 0 where
  pub handler : Handler P
  pub verdict : Verdict
  pub log : List Effect

-- What the checks of ServeHTTP decide: an answer, or an invoice to deliver.
pub data Decision : Type 0 where
  refuse : ℕ → Decision
  pass : InvoiceStatusResponse → Decision

pub record Admission (P : Type 0) : Type 0 where
  pub handler : Handler P
  pub decision : Decision
  pub log : List Effect

pub record Served (P S : Type 0) : Type 0 where
  pub status : ℕ
  pub handler : Handler P
  pub dedup : Option S
  pub log : List Effect

module _ {P : Type 0} (out : Outside P) (opts : Options) where
  -- The last part of verify, under the key that it settled on.
  unfoldable pub finish : Handler P → List Effect → P → Verdict → Request → Moment P → Verified P
  unfolding verify_webhook_fresh
  finish h log key v r m = record {
    handler = h;
    verdict =
        if is_fine v
        then (if ltb_ℤ (pos 0) opts.max_age
            then verify_webhook_fresh out (some key) r.bytes r.x_sign opts.max_age m.wall
            else fine)
        else v;
    log = log;
  }

  unfoldable pub try_again : Handler P → Key P → Option (Key P) → Request → Moment P → Verified P
  unfolding finish verify_webhook
  try_again h key none r m = finish h [] key.target bad_signature r m
  try_again h key (some k) r m =
      finish h [] k.target (verify_webhook out (some k.target) r.bytes r.x_sign) r m

  -- After a bad signature: the refresh, and the second attempt.
  unfoldable pub recover : Handler P → Key P → Request → Moment P → Verified P
  unfolding refresh_coalesced report finish replacement try_again
  recover h key r m =
      let f = refresh_coalesced h m in
      if f.failed
      then finish f.handler (report opts refresh_failed) key.target bad_signature r m
      else try_again f.handler key (replacement key f.handler.key) r m

  unfoldable pub verify : Handler P → Key P → Request → Moment P → Verified P
  unfolding verify_webhook recover finish
  verify h key r m =
      let v = verify_webhook out (some key.target) r.bytes r.x_sign in
      if is_bad_signature v then recover h key r m else finish h [] key.target v r m

  -- ParseWebhook, after the verification.
  unfoldable pub parse_verified : Verified P → Text → Admission P
  unfolding report
  parse_verified v body =
      if is_fine v.verdict
      then elim (out.unmarshal body) [
        | none ↦ record {
          handler = v.handler;
          decision = refuse 400;
          log = v.log ++ report opts malformed_payload;
        }
        | some inv ↦ record { handler = v.handler; decision = pass inv; log = v.log }
      ]
      else record { handler = v.handler; decision = refuse 401; log = v.log }

  unfoldable pub with_current_key : Handler P → Option (Key P) → Request → Moment P → Admission P
  unfolding report verify parse_verified
  with_current_key h none r m = record {
    handler = h;
    decision = refuse 503;
    log = report opts key_not_loaded;
  }
  with_current_key h (some key) r m = parse_verified (verify h key r m) r.bytes

  unfoldable pub admit : Handler P → Request → Moment P → Admission P
  unfolding with_current_key
  admit h r m = elim r.method [
    | get ↦ record { handler = h; decision = refuse 200; log = [] }
    | post ↦
        if ltb h.max_body_bytes (length r.bytes)
        then record { handler = h; decision = refuse 413; log = [] }
        else (if r.breaks
            then record { handler = h; decision = refuse 400; log = [] }
            else with_current_key h h.key r m)
    | other ↦ record { handler = h; decision = refuse 405; log = [] }
  ]

  module _ (deduper : Deduper) where
    abbrev S : Type 0
    S = deduper.State

    -- Add, where there is a deduper and a key.
    unfoldable pub add_key : Text → Option S → Option S
    add_key [] s = s
    add_key (c ∷ k) none = none
    add_key (c ∷ k) (some s) = some (deduper.add (c ∷ k) s)

    -- OnEvent and what follows it.
    unfoldable pub run_event :
        Handler P → Option S → List Effect → InvoiceStatusResponse → Moment P → Served P S
    unfolding report add_key dedup_key
    run_event h s before inv m =
        let log = before ++ (event inv ∷ []) in
        if m.callback_fails
        then record {
          status = 500;
          handler = h;
          dedup = s;
          log = log ++ report opts callback_failed;
        }
        else record {
          status = 200;
          handler = h;
          dedup = add_key (dedup_key (some inv)) s;
          log = log;
        }

    unfoldable pub deliver :
        Handler P → Option S → List Effect → InvoiceStatusResponse → Moment P → Served P S
    unfolding run_event dedup_key report
    deliver h s before inv m =
        if text_eq (dedup_key (some inv)) []
        then run_event h s (before ++ report opts empty_invoice_id) inv m
        else elim s [
          | none ↦ run_event h none before inv m
          | some d ↦
              let (d', seen) = deduper.has (dedup_key (some inv)) d in
              if seen
              then record { status = 200; handler = h; dedup = some d'; log = before }
              else run_event h (some d') before inv m
        ]

    unfoldable pub settle : Handler P → Option S → List Effect → Decision → Moment P → Served P S
    unfolding deliver
    settle h s log (refuse status) m = record { status = status; handler = h; dedup = s; log = log }
    settle h s log (pass inv) m = deliver h s log inv m

    unfoldable pub serve_http : Handler P → Option S → Request → Moment P → Served P S
    unfolding admit settle
    serve_http h s r m = let a = admit h r m in settle a.handler s a.log a.decision m
