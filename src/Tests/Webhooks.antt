-- ===== src/Tests/Webhooks.antt =====
-- The webhook handler and its deduper on concrete deliveries.
use go_monobank_sdk.Base.{
  ℕ, ◌+◌, ◌*◌, ◌≤◌, ◌≡◌, ◌≢◌, ◌⊎◌, refl, Bool, true, false, Option, none, some, List, [], ◌∷◌,
  arith, take, if◌then◌else◌,
}
use go_monobank_sdk.Base.Int.{pos}
use go_monobank_sdk.Base.Decimal.{Text, codes, text_eq}
use go_monobank_sdk.Money.{Money}
use go_monobank_sdk.Bank.{Transaction}
use go_monobank_sdk.Dedup.{
  new_memory_deduper, has, add, is_empty, evict, push_front, lookup, find_ref,
}
use go_monobank_sdk.Dedup.Keys.{member, touch}
use go_monobank_sdk.Dedup.Refines.{new_memory_deduper-IsValid, has-view, add-view}
use go_monobank_sdk.Dedup.Valid.{IsValid, view}
use go_monobank_sdk.Webhook.{Crypto, Response, known, parse, type_statement_item}
use go_monobank_sdk.Webhook.Signature.{
  valid, verify, verify_sig, marshal_raw_sig_to_der, verify_valid,
}
use go_monobank_sdk.Webhook.Handler.{
  ServerKey, Handler, Options, post, Request, Moment, Served, is_rotated, report, refresh_coalesced,
  refresh_once, is_fresh, refresh, min_refresh_interval,
}
use go_monobank_sdk.Webhook.Serve.{
  serve_http, serve_post, with_current_key, with_key, check_signature, dispatch, deliver, run_event,
}
use go_monobank_sdk.Webhook.Delivery.{serve_http-event}
use go_monobank_sdk.Webhook.Events.{events}
use go_monobank_sdk.Webhook.Redelivery.{serve_http-redelivery, serve_http-retry}
use go_monobank_sdk.Webhook.Refresh.{calls, successes, successes-le, calls-fail}
use go_monobank_sdk.Webhook.Memory.{memory_deduper}

abbrev a : Text
a = codes "a"

abbrev b : Text
b = codes "b"

new_memory_deduper-IsValid_test :
    IsValid (new_memory_deduper (pos 1)) × (view (new_memory_deduper (pos 1)) ≡ [])
new_memory_deduper-IsValid_test = new_memory_deduper-IsValid (pos 1)

abbrev one_id : go_monobank_sdk.Dedup.Deduper
one_id = add a (new_memory_deduper (pos 1))

one_id-IsValid : IsValid one_id
one_id-IsValid = (add-view a (new_memory_deduper (pos 1)) (new_memory_deduper-IsValid (pos 1)).0).1

add-view_example :
    (view (add b one_id)
      ≡ (if is_empty b then view one_id else take one_id.capacity (touch b (view one_id))))
    × IsValid (add b one_id)
    × ((add b one_id).capacity ≡ one_id.capacity)
add-view_example = add-view b one_id one_id-IsValid

has-view_example :
    ((has b one_id).1 ≡ member b (view one_id))
    × (view (has b one_id).0
        ≡ (if member b (view one_id) then touch b (view one_id) else view one_id))
    × IsValid (has b one_id).0
    × ((has b one_id).0.capacity ≡ one_id.capacity)
has-view_example = has-view b one_id one_id-IsValid

-- A signature is the body's digest, and the digest is the body; a key is a number.
abbrev toy : Crypto ℕ
toy = record {
  decode_base64 = λ s. some s;
  sha256 = λ s. s;
  verify_asn1 = λ k d s. text_eq d s;
  marshal_asn1 = λ r s. none;
}

verify_valid_example :
    (sig der : Text) × (some a ≡ some sig)
    × (text_eq a der ≡ true)
    × ((der ≡ sig) ⊎ (marshal_raw_sig_to_der toy sig ≡ some der))
unfolding verify verify_sig
verify_valid_example = verify_valid toy 7 a a refl

abbrev cents : Money
cents = record { minor = pos 100; code = pos 980 }

abbrev row : Transaction
row = record {
  id = a;
  time = 20;
  description = [];
  mcc = pos 0;
  original_mcc = pos 0;
  hold = false;
  amount = cents;
  operation_amount = cents;
  currency = pos 980;
  commission_rate = cents;
  cashback_amount = cents;
  balance = cents;
  comment = [];
  receipt_id = [];
  invoice_id = [];
  edrpou = [];
  iban = [];
  counter_name = [];
}

abbrev payload : Response
payload = record {
  type = type_statement_item;
  payload = record { account_id = b; transaction = row };
}

abbrev unmarshal : Text → Option Response
unmarshal s = some payload

abbrev options : Options
options = record {
  keys = true;
  on_event = true;
  on_unknown_type = false;
  on_error = true;
  body_limit = pos 0;
}

abbrev key : ServerKey ℕ
key = record { id = codes "k1"; pub_key = some 7 }

abbrev handler : Handler ℕ
handler = record { key = some key; last_refresh_at = none; max_body_bytes = 100 }

abbrev delivery : Request
delivery = record { method = post; bytes = b; breaks = false; key_id = codes "k1"; x_sign = b }

abbrev moment : Bool → Moment ℕ
moment fails = record { now = 10; again = 11; done = 12; fetched = none; callback_fails = fails }

abbrev empty : go_monobank_sdk.Dedup.Deduper
empty = new_memory_deduper (pos 8)

abbrev serve :
    Option go_monobank_sdk.Dedup.Deduper → Moment ℕ → Served ℕ go_monobank_sdk.Dedup.Deduper
serve s m = serve_http toy unmarshal memory_deduper options handler s delivery m

serve_once : (fails : Bool) → events (serve (some empty) (moment fails)).log ≡ payload ∷ []
unfolding serve_http serve_post with_current_key with_key check_signature verify verify_sig dispatch
    parse deliver run_event events report has lookup new_memory_deduper is_rotated
serve_once true = refl
serve_once false = refl

serve_http-event_example :
    (post ≡ post)
    × (false ≡ false)
    × (1 ≤ 100)
    × ((k : ServerKey ℕ) × (v : Response) × ((serve (some empty) (moment false)).handler.key
          ≡ some k)
        × (verify toy k.pub_key b b ≡ valid)
        × (parse unmarshal b ≡ known v)
        × (events (serve (some empty) (moment false)).log ≡ v ∷ []))
serve_http-event_example =
    serve_http-event toy unmarshal memory_deduper options handler (some empty) delivery
      (moment false) (λ e. absurd (ground (arith, serve_once false)))

serve_http-redelivery_example :
    events
      (serve_http toy unmarshal memory_deduper options handler
        (serve (some empty) (moment false)).dedup
        delivery
        (moment false)).log
    ≢ payload ∷ []
serve_http-redelivery_example =
    serve_http-redelivery toy unmarshal memory_deduper options handler handler empty delivery
      delivery (moment false) (moment false) payload payload b'a' []
      (new_memory_deduper-IsValid (pos 8)).0 refl refl refl (serve_once false)

serve_http-retry_example :
    ((serve (some empty) (moment true)).status ≡ 500)
    × (events
          (serve_http toy unmarshal memory_deduper options
            (serve (some empty) (moment true)).handler
            (serve (some empty) (moment true)).dedup
            delivery
            (moment false)).log
        ≡ events (serve (some empty) (moment true)).log)
unfolding is_rotated
serve_http-retry_example =
    serve_http-retry toy unmarshal memory_deduper options handler key empty delivery (moment true)
      (moment false) (new_memory_deduper-IsValid (pos 8)).0 refl refl refl
      (λ e. absurd (ground (arith, serve_once true)))

abbrev tick : ℕ → Option (ServerKey ℕ) → Moment ℕ
tick t fetched = record {
  now = t;
  again = t;
  done = t + 1;
  fetched = fetched;
  callback_fails = false;
}

abbrev refreshed : Handler ℕ
refreshed = record { key = some key; last_refresh_at = some 5; max_body_bytes = 100 }

abbrev ticks : List (Moment ℕ)
ticks = tick 10 (some key) ∷ tick 40_000_000_000 (some key) ∷ []

successes-le_example : 5 + successes refreshed ticks * min_refresh_interval ≤ 40_000_000_001
successes-le_example =
    successes-le ticks refreshed 5 5 40_000_000_001 refl (omega arith)
      (omega arith, omega arith, omega arith, (omega arith, omega arith, omega arith, omega arith))

successes_test : successes refreshed ticks ≡ 1
unfolding successes refresh_coalesced refresh_once is_fresh refresh
successes_test = refl

calls-fail_example : calls handler (tick 10 none ∷ tick 10 none ∷ []) ≡ 2
calls-fail_example = calls-fail (tick 10 none ∷ tick 10 none ∷ []) handler refl (refl, (refl, tt))
