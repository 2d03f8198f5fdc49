-- ===== src/Webhook/Serve.antt =====
-- ServeHTTP (webhook/handler.go): the checks of a request in their order, and what the handler does
-- with a payload.
use go_monobank_sdk.Base.{◌++◌, Option, none, some, List, [], ◌∷◌, ltb, if◌then◌else◌, length}
use go_monobank_sdk.Base.Decimal.{Text, text_eq}
use go_monobank_sdk.Webhook.{Crypto, Response, known, unknown_type, malformed, parse, Deduper}
use go_monobank_sdk.Webhook.Signature.{verify}
use go_monobank_sdk.Webhook.Handler.{
  ServerKey, Handler, Options, get, post, other, Request, Moment, key_not_loaded, refresh_failed,
  malformed_payload, empty_id, callback_failed, Effect, event, unknown, Served, report, accepted,
  key_or, refresh_coalesced, is_rotated,
}

module _ {P : Type 0} (crypto : Crypto P) (unmarshal : Text → Option Response) (deduper : Deduper)
    (opts : Options) where
  abbrev S : Type 0
  S = deduper.State

  unfoldable pub add_id : Text → Option S → Option S
  add_id id none = none
  add_id id (some s) = some (deduper.add id s)

  -- OnEvent and what follows it.
  unfoldable pub run_event : Handler P → Option S → List Effect → Response → Moment P → Served P S
  unfolding report add_id
  run_event h s before ev m =
      let log = before ++ (event ev ∷ []) in
      if m.callback_fails
      then record { status = 500; handler = h; dedup = s; log = log ++ report opts callback_failed }
      else record {
        status = 200;
        handler = h;
        dedup = add_id ev.payload.transaction.id s;
        log = log;
      }

  -- The duplicate test. Has may move an id, so it returns a state.
  unfoldable pub deliver : Handler P → Option S → List Effect → Response → Moment P → Served P S
  unfolding run_event
  deliver h s before ev m =
      if text_eq ev.payload.transaction.id []
      then run_event h s (before ++ report opts empty_id) ev m
      else elim s [
        | none ↦ run_event h none before ev m
        | some d ↦
            let (d', seen) = deduper.has ev.payload.transaction.id d in
            if seen
            then record { status = 200; handler = h; dedup = some d'; log = before }
            else run_event h (some d') before ev m
      ]

  unfoldable pub dispatch : Handler P → Option S → List Effect → Text → Moment P → Served P S
  unfolding report deliver
  dispatch h s before body m = elim (parse unmarshal body) [
    | known ev ↦ deliver h s before ev m
    | unknown_type v ↦ record {
      status = 200;
      handler = h;
      dedup = s;
      log = before ++ (if opts.on_unknown_type then unknown body ∷ [] else []);
    }
    | malformed ↦ record {
      status = 400;
      handler = h;
      dedup = s;
      log = before ++ report opts malformed_payload;
    }
  ]

  -- The signature, under the key of the state: after a refresh that failed it is the old one.
  unfoldable pub check_signature :
      Handler P → Option S → List Effect → ServerKey P → Request → Moment P → Served P S
  unfolding dispatch
  check_signature h s before key r m =
      if accepted (verify crypto key.pub_key r.bytes r.x_sign)
      then dispatch h s before r.bytes m
      else record { status = 401; handler = h; dedup = s; log = before }

  unfoldable pub with_key : Handler P → Option S → ServerKey P → Request → Moment P → Served P S
  unfolding is_rotated refresh_coalesced check_signature report
  with_key h s key r m =
      if is_rotated r.key_id key
      then (let f = refresh_coalesced h m in
          if f.failed
          then check_signature f.handler s (report opts refresh_failed) key r m
          else check_signature f.handler s [] (key_or key f.handler.key) r m)
      else check_signature h s [] key r m

  -- The key is `none` in a handler that NewHandler did not make.
  unfoldable pub with_current_key :
      Handler P → Option S → Option (ServerKey P) → Request → Moment P → Served P S
  unfolding report with_key
  with_current_key h s none r m = record {
    status = 503;
    handler = h;
    dedup = s;
    log = report opts key_not_loaded;
  }
  with_current_key h s (some key) r m = with_key h s key r m

  unfoldable pub serve_post : Handler P → Option S → Request → Moment P → Served P S
  unfolding with_current_key
  serve_post h s r m =
      if ltb h.max_body_bytes (length r.bytes)
      then record { status = 413; handler = h; dedup = s; log = [] }
      else (if r.breaks
          then record { status = 400; handler = h; dedup = s; log = [] }
          else with_current_key h s h.key r m)

  unfoldable pub serve_http : Handler P → Option S → Request → Moment P → Served P S
  unfolding serve_post
  serve_http h s r m = elim r.method [
    | get ↦ record { status = 200; handler = h; dedup = s; log = [] }
    | post ↦ serve_post h s r m
    | other ↦ record { status = 405; handler = h; dedup = s; log = [] }
  ]
