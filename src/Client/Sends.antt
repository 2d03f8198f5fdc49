-- ===== src/Client/Sends.antt =====
-- When Do sends a request, and how often.
use mathlib.Core.Path.{subst}
use go_monobank_sdk.Base.{
  ℕ, ◌+◌, ◌≤◌, ◌≡◌, ◌≢◌, inl, inr, refl, ◌∙◌, Bool, false, Option, none, some, List, arith,
  Bool-cases, Option-cases, if◌then◌else◌,
}
use go_monobank_sdk.Base.Decimal.{Text}
use go_monobank_sdk.Retry.{attempts}
use go_monobank_sdk.Retry.Loop.{run_calls-le}
use go_monobank_sdk.Client.{
  Client, Request, Response, Sink, Network, put_body, answer, attempt, limited_attempt,
  with_defaults, buffer_body, should_retry, send, prepare_and_send, do_request, or_ok,
}

-- A count of the HTTP calls made: what else the client does leaves it.
pub record Counts {W : Type 0} (n : Network W) (calls : W → ℕ) : Type 0 where
  pub http : (req : Request) (w : W) → calls (n.http_do req w).0 ≡ calls w + 1
  pub limiter : (w : W) → calls (n.limiter_wait w).0 ≡ calls w
  pub slept : (d : ℕ) (w : W) → calls (n.sleep d w).0 ≡ calls w
  pub delivered : (v : Sink) (b : Text) (w : W) → calls (n.deliver v b w).0 ≡ calls w

module _ {W : Type 0} (n : Network W) (calls : W → ℕ) (counts : Counts n calls) where
  calls-put_body : (v : Sink) (b : Option Text) (w : W) → calls (put_body n v b w).0 ≡ calls w
  unfolding put_body
  calls-put_body Sink.discard b w = refl
  calls-put_body Sink.bytes none w = refl
  calls-put_body Sink.bytes (some b) w = counts.delivered Sink.bytes b w
  calls-put_body Sink.writer none w = refl
  calls-put_body Sink.writer (some b) w = counts.delivered Sink.writer b w
  calls-put_body Sink.json none w = refl
  calls-put_body Sink.json (some b) w = counts.delivered Sink.json b w

  calls-answer :
      (req : Request) (v : Sink) (expected : List ℕ) (r : Response) (w : W)
      → calls (answer n req v expected r w).0 ≡ calls w
  unfolding answer
  calls-answer req v expected r w = ground (arith, calls-put_body v r.body w)

  calls-attempt :
      (req : Request) (v : Sink) (expected : List ℕ) (w : W)
      → calls (attempt n req v expected w).0 ≤ calls w + 1
  unfolding attempt
  calls-attempt req v expected w = elim (Option-cases (n.http_do req w).1) [
    | inl lost ↦ ground (arith, counts.http req w)
    | inr (r, got) ↦
        ground (arith, counts.http req w, calls-answer req v expected r (n.http_do req w).0)
  ]

  calls-limited_attempt :
      (c : Client) (req : Request) (v : Sink) (expected : List ℕ) (w : W)
      → calls (limited_attempt n c req v expected w).0 ≤ calls w + 1
  unfolding limited_attempt
  calls-limited_attempt c req v expected w = ground (
    arith,
    calls-attempt req v expected w,
    counts.limiter w,
    calls-attempt req v expected (n.limiter_wait w).0,
  )

  -- A request that must not be retried is sent at most once; any other as often as the policy says.
  calls-send :
      (c : Client) (req : Request) (v : Sink) (expected : List ℕ) (w : W)
      → calls (send n c req v expected w).0
        ≤ calls w + (if should_retry c req then attempts c.retry else 1)
  unfolding send
  calls-send c req v expected w = elim (Bool-cases (should_retry c req)) [
    | inl again ↦ rw again (
        run_calls-le n.rand (limited_attempt n c req v expected) n.sleep c.retry calls
          (calls-limited_attempt c req v expected) counts.slept w)
    | inr once ↦ rw once (calls-limited_attempt c req v expected w)
  ]

  should_retry_same :
      (c : Client) (r q : Request)
      → q.method ≡ r.method
      → q.idempotency_key ≡ r.idempotency_key
      → should_retry c q ≡ should_retry c r
  unfolding should_retry
  should_retry_same c r q m k = ground arith

  buffer_body_same :
      (r q : Request)
      → buffer_body n r ≡ some q
      → (q.method ≡ r.method) × (q.idempotency_key ≡ r.idempotency_key)
  unfolding buffer_body
  buffer_body_same r q h = ground arith

  -- Where `calls` counts the HTTP calls, Do makes one only with no option error, over a base URL that
  -- is set, for a request URL that parses and is not absolute, and after the authorizer accepted the
  -- request with its URL resolved against the base.
  pub do_request_sends :
      (c : Client) (req : Request) (v : Sink) (expected : List ℕ) (w : W)
      → calls (do_request n c (some req) v expected w).0 ≢ calls w
      → (c.opt_err ≡ false)
        × ((base target : Text) × (signed : Request) × (c.base_url ≡ some base)
            × (n.parse_url req.url ≡ some target)
            × (n.is_absolute target ≡ false)
            × (n.set_auth (with_defaults n c (n.resolve base target) req) ≡ some signed))
  unfolding do_request prepare_and_send
  do_request_sends c req v expected w moved = elim (Bool-cases c.opt_err) [
    | inl bad ↦ absurd (moved (rw (bad, do_request) refl))
    | inr good ↦ elim (Option-cases c.base_url) [
      | inl none_set ↦ absurd (moved (rw (good, none_set, do_request) refl))
      | inr (base, eb) ↦ elim (Option-cases (n.parse_url req.url)) [
        | inl unparsed ↦ absurd (moved (rw (good, eb, unparsed, do_request) refl))
        | inr (target, et) ↦ elim (Bool-cases (n.is_absolute target)) [
          | inl absolute ↦ absurd (moved (rw (good, eb, et, absolute, do_request) refl))
          | inr relative ↦
              elim (Option-cases (n.set_auth (with_defaults n c (n.resolve base target) req))) [
                | inl refused ↦ absurd (
                    moved (rw (good, eb, et, relative, refused, do_request, prepare_and_send) refl))
                | inr (signed, es) ↦ (good, (base, target, signed, eb, et, relative, es))
              ]
        ]
      ]
    ]
  ]

  prepare_calls :
      (c : Client) (url : Text) (req : Request) (v : Sink) (expected : List ℕ) (w : W)
      → ((r q : Request)
          → n.set_auth r ≡ some q
          → (q.method ≡ r.method) × (q.idempotency_key ≡ r.idempotency_key))
      → calls (prepare_and_send n c url req v expected w).0
        ≤ calls w + (if should_retry c req then attempts c.retry else 1)
  unfolding prepare_and_send with_defaults
  prepare_calls c url req v expected w keeps =
      elim (Option-cases (n.set_auth (with_defaults n c url req))) [
        | inl refused ↦ rw (refused, prepare_and_send) (ground arith)
        | inr (q, eq) ↦ elim (Option-cases (buffer_body n q)) [
          | inl unread ↦ rw (eq, unread, prepare_and_send) (ground arith)
          | inr (b, eb) ↦
              let (m1, k1) = keeps (with_defaults n c url req) q eq in
              let (m2, k2) = buffer_body_same q b eb in
              let same : should_retry c b ≡ should_retry c req =
                should_retry_same c req b (m2 ∙ m1) (k2 ∙ k1) in
              rw (eq, eb, prepare_and_send)
                (subst
                  (λ (x : Bool).
                    calls (send n c b v expected w).0
                    ≤ calls w + (if x then attempts c.retry else 1))
                  same (calls-send c b v expected w))
        ]
      ]

  -- Where `calls` counts the HTTP calls and the authorizer leaves the method and the Idempotency-Key
  -- as they are, Do makes at most one HTTP call for a request that shouldRetry refuses, and at most
  -- the policy's number of calls for any other.
  pub calls-do_request :
      (c : Client) (req : Request) (v : Sink) (expected : List ℕ) (w : W)
      → ((r q : Request)
          → n.set_auth r ≡ some q
          → (q.method ≡ r.method) × (q.idempotency_key ≡ r.idempotency_key))
      → calls (do_request n c (some req) v expected w).0
        ≤ calls w + (if should_retry c req then attempts c.retry else 1)
  unfolding do_request
  calls-do_request c req v expected w keeps = elim (Bool-cases c.opt_err) [
    | inl bad ↦ rw (bad, do_request) (ground arith)
    | inr good ↦ elim (Option-cases c.base_url) [
      | inl none_set ↦ rw (good, none_set, do_request) (ground arith)
      | inr (base, eb) ↦ elim (Option-cases (n.parse_url req.url)) [
        | inl unparsed ↦ rw (good, eb, unparsed, do_request) (ground arith)
        | inr (target, et) ↦ elim (Bool-cases (n.is_absolute target)) [
          | inl absolute ↦ rw (good, eb, et, absolute, do_request) (ground arith)
          | inr relative ↦ ground (
            arith,
            good,
            eb,
            et,
            relative,
            prepare_calls c (n.resolve base target) req v (or_ok n expected) w keeps,
          )
        ]
      ]
    ]
  ]
