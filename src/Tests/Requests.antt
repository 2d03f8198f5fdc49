-- ===== src/Tests/Requests.antt =====
-- The client on a concrete network: a server that answers every call with the same status, and a
-- state that counts the calls.
use go_monobank_sdk.Base.{
  ℕ, ◌+◌, ◌≤◌, ◌≡◌, ◌↔◌, inr, refl, true, false, none, some, [], ◌∷◌, ◌++◌, arith, if◌then◌else◌,
}
use go_monobank_sdk.Base.Int.{ℤ, pos}
use go_monobank_sdk.Base.Decimal.{Text, codes}
use go_monobank_sdk.Retry.{failure, transient, default_retry, attempts, run, run_loop}
use go_monobank_sdk.Retry.Header.{IsWait}
use go_monobank_sdk.Client.{
  Method, get, post, nil_body, Request, Response, json, Error, Client, Network, contains,
  should_retry, answer, attempt, limited_attempt, with_defaults, buffer_body, send,
  prepare_and_send, do_request, put_body,
}
use go_monobank_sdk.Client.Attempt.{
  IsBusy, IsOther, of_none, of_more, attempt_transient, attempt_success,
}
use go_monobank_sdk.Client.Sends.{Counts, do_request_sends, calls-do_request}

abbrev reply : ℕ → Response
reply status = record {
  status = status;
  content_length = pos 2;
  retry_after = codes "1";
  rate_limit = [];
  body = some (codes "{}");
  partial = [];
}

abbrev network : ℕ → Network ℕ
network status = record {
  parse_url = λ u. some u;
  is_absolute = λ u. false;
  resolve = λ b u. b ++ u;
  set_auth = λ r. some r;
  limiter_wait = λ w. (w, false);
  http_do = λ r w. (w + 1, some (reply status));
  deliver = λ v b w. (w, true);
  error_fields = λ b. none;
  sleep = λ d w. (w, false);
  rand = λ n. 0;
  until_date = λ s. none;
  default_user_agent = codes "sdk";
}

abbrev client : Client
client = record {
  opt_err = false;
  base_url = some (codes "https://api.monobank.ua");
  user_agent = [];
  has_limiter = true;
  unsafe_retries = false;
  retry = default_retry;
}

abbrev request : Method → Request
request method = record {
  method = method;
  url = codes "/personal/client-info";
  content_type = [];
  user_agent = [];
  idempotency_key = [];
  body = nil_body;
}

network-Counts : (status : ℕ) → Counts (network status) (λ w. w)
network-Counts status = record {
  http = λ r w. refl;
  limiter = λ w. refl;
  slept = λ d w. refl;
  delivered = λ v b w. refl;
}

-- A post to a busy server is sent once, a get as often as the policy says.
post_test : (do_request (network 503) client (some (request post)) json [] 0).0 ≡ 1
unfolding do_request prepare_and_send with_defaults buffer_body send should_retry limited_attempt
    attempt answer
post_test = refl

get_test : (do_request (network 503) client (some (request get)) json [] 0).0 ≡ 4
unfolding do_request prepare_and_send with_defaults buffer_body send should_retry limited_attempt
    attempt answer run run_loop
get_test = refl

calls-do_request_example :
    (do_request (network 503) client (some (request post)) json [] 0).0
    ≤ 0 + (if should_retry client (request post) then attempts default_retry else 1)
calls-do_request_example =
    calls-do_request (network 503) (λ w. w) (network-Counts 503) client (request post) json [] 0
      (λ r q e. ground arith)

do_request_sends_example :
    (client.opt_err ≡ false)
    × ((base target : Text) × (signed : Request) × (client.base_url ≡ some base)
        × ((network 503).parse_url (codes "/personal/client-info") ≡ some target)
        × ((network 503).is_absolute target ≡ false)
        × ((network 503).set_auth (
              with_defaults (network 503) client ((network 503).resolve base target) (request post))
            ≡ some signed))
do_request_sends_example =
    do_request_sends (network 503) (λ w. w) (network-Counts 503) client (request post) json [] 0
      (λ e. absurd (omega (arith, post_test)))

attempt_transient_example :
    ((h : ℤ) × (e : Error) × ((attempt (network 503) (request get) json (200 ∷ []) 0).1
        ≡ failure (transient h e))
      × IsWait h)
    ↔ (IsBusy 503 × IsOther (200 ∷ []) 503)
attempt_transient_example =
    attempt_transient (network 503) (request get) json (200 ∷ []) 0 (reply 503) refl refl

retry_status_test : IsBusy 503 × IsOther (200 ∷ []) 503
retry_status_test = (inr (omega arith, omega arith), of_more (omega arith) of_none)

attempt_success_test :
    (r : Response) × (((network 200).http_do (request get) 0).1 ≡ some r)
    × (contains (200 ∷ []) r.status ≡ true)
unfolding attempt answer put_body
attempt_success_test = attempt_success (network 200) (request get) json (200 ∷ []) 0 refl
