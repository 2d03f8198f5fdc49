-- ===== src/Tests/Payments.antt =====
-- The acquiring handler on concrete deliveries.
use go_monobank_sdk.Base.{ℕ, ◌≤◌, ◌≡◌, ◌≢◌, ◌⊎◌, refl, true, false, none, some, [], ◌∷◌, arith}
use go_monobank_sdk.Base.Int.{pos, ◌≤ℤ◌}
use go_monobank_sdk.Base.Decimal.{codes, text_eq}
use go_monobank_sdk.Dedup.{new_memory_deduper, has, add, lookup}
use go_monobank_sdk.Dedup.Refines.{new_memory_deduper-IsValid}
use go_monobank_sdk.Webhook.{Crypto}
use go_monobank_sdk.Webhook.Memory.{memory_deduper}
use go_monobank_sdk.Acquiring.{InvoiceStatusResponse, success, dedup_key}
use go_monobank_sdk.Acquiring.Webhook.{
  Outside, fine, verify_webhook, verify_webhook_fresh, check_age, parse_modified_date, try_layouts,
  since,
}
use go_monobank_sdk.Acquiring.Handler.{
  Key, Handler, Options, post, Request, Moment, is_fresh, report,
}
use go_monobank_sdk.Acquiring.Handler.Verify.{
  Served, finish, verify, parse_verified, with_current_key, admit, run_event, deliver, settle,
  serve_http,
}
use go_monobank_sdk.Acquiring.Handler.Events.{events, Recent}
use go_monobank_sdk.Acquiring.Handler.Delivery.{serve_http-verified}
use go_monobank_sdk.Acquiring.Handler.Rotation.{Rotated, Same, serve_http-rotation}
use go_monobank_sdk.Acquiring.Handler.Replay.{serve_http-replay}

-- A key is a number, and a signature is that number.
abbrev toy : Crypto ℕ
toy = record {
  decode_base64 = λ s. some s;
  sha256 = λ s. s;
  verify_asn1 = λ k d s. text_eq s (k ∷ []);
  marshal_asn1 = λ r s. none;
}

abbrev paid : InvoiceStatusResponse
paid = record { invoice_id = codes "p1"; status = success; modified_date = codes "d" }

abbrev outside : Outside ℕ
outside = record {
  crypto = toy;
  unmarshal = λ s. some paid;
  probe = λ s. some (codes "d");
  parse_time = λ l s. some (pos 40);
}

abbrev options : Options
options = record {
  keys = true;
  on_event = true;
  on_error = true;
  max_age = pos 100;
  body_limit = pos 0;
}

abbrev old : Key ℕ
old = record { address = 1; target = 7 }

abbrev new : Key ℕ
new = record { address = 2; target = 8 }

abbrev handler : Handler ℕ
handler = record { key = some old; last_refresh_at = none; max_body_bytes = 100 }

abbrev signed_by : ℕ → Request
signed_by k = record { method = post; bytes = codes "b"; breaks = false; x_sign = k ∷ [] }

abbrev moment : Moment ℕ
moment = record {
  now = 10;
  again = 11;
  done = 12;
  fetched = some new;
  wall = pos 90;
  callback_fails = false;
}

abbrev seen_none : go_monobank_sdk.Dedup.Deduper
seen_none = new_memory_deduper (pos 8)

abbrev serve : ℕ → Served ℕ go_monobank_sdk.Dedup.Deduper
serve k = serve_http outside options memory_deduper handler (some seen_none) (signed_by k) moment

serve_ran : events (serve 7).log ≡ paid ∷ []
unfolding serve_http settle admit with_current_key verify finish verify_webhook verify_webhook_fresh
    check_age parse_modified_date try_layouts since parse_verified deliver run_event dedup_key has
    lookup new_memory_deduper events report
serve_ran = refl

serve_http-verified_example :
    (post ≡ post)
    × (false ≡ false)
    × (1 ≤ 100)
    × ((k : Key ℕ) × (inv : InvoiceStatusResponse) × ((serve 7).handler.key ≡ some k)
        × (verify_webhook outside (some k.target) (codes "b") (7 ∷ []) ≡ fine)
        × ((pos 100 ≤ℤ pos 0) ⊎ Recent outside options (signed_by 7) moment)
        × (some paid ≡ some inv)
        × (events (serve 7).log ≡ inv ∷ []))
serve_http-verified_example =
    serve_http-verified outside options memory_deduper handler (some seen_none) (signed_by 7) moment
      (λ e. absurd (ground (arith, serve_ran)))

rotated : Rotated outside options handler old new (signed_by 8) moment
unfolding verify_webhook is_fresh
rotated = record {
  held = refl;
  bad = refl;
  late = refl;
  still = refl;
  got = refl;
  ne = λ e. absurd (ground arith);
  ok = refl;
}

serve_http-rotation_example : Same outside options memory_deduper (serve 8) (
    serve_http outside options memory_deduper
      (record handler { key = some new })
      (some seen_none)
      (signed_by 8)
      moment)
serve_http-rotation_example =
    serve_http-rotation outside options memory_deduper handler old new (some seen_none)
      (signed_by 8) moment rotated

serve_http-replay_example :
    events
      (serve_http outside options memory_deduper handler (serve 7).dedup (signed_by 8) moment).log
    ≢ paid ∷ []
unfolding dedup_key
serve_http-replay_example =
    serve_http-replay outside options memory_deduper handler handler seen_none (signed_by 7)
      (signed_by 8) moment moment paid paid b'p' (codes "1|d")
      (new_memory_deduper-IsValid (pos 8)).0 refl refl refl serve_ran
