-- ===== src/Client/Attempt.antt =====
-- What one attempt makes of the server's answer.
use go_monobank_sdk.Base.{
  ℕ, ◌≤◌, ◌↔◌, ◌⊎◌, refl, [], ◌∷◌, ◌≡◌, ◌≢◌, inl, inr, true, false, Option, some, List, arith,
  Option-cases,
}
use go_monobank_sdk.Base.Int.{ℤ}
use go_monobank_sdk.Retry.{parse_retry_after, success, failure, transient}
use go_monobank_sdk.Retry.Header.{IsWait, parse_retry_after-IsWait}
use go_monobank_sdk.Client.{
  Request, Response, Sink, Network, Error, api, is_transient_status, contains, answer, attempt,
  get_body_fails, put_body, api_error,
}

-- The statuses of a server that is busy or broken.
abbrev pub IsBusy : ℕ → Type 0
IsBusy status = (status ≡ 429) ⊎ ((500 ≤ status) × (status ≤ 599))

-- A status that is none of a list.
pub data IsOther : List ℕ → ℕ → Type 0 where
  of_none : {s : ℕ} → IsOther [] s
  of_more : {e s : ℕ} {es : List ℕ} → e ≢ s → IsOther es s → IsOther (e ∷ es) s

is_transient_status-IsBusy : (s : ℕ) → is_transient_status s ≡ true → IsBusy s
is_transient_status-IsBusy s h = ground arith

IsBusy-is_transient_status : (s : ℕ) → IsBusy s → is_transient_status s ≡ true
IsBusy-is_transient_status s (inl h) = ground arith
IsBusy-is_transient_status s (inr h) = ground arith

contains-IsOther : (es : List ℕ) (s : ℕ) → contains es s ≡ false → IsOther es s
contains-IsOther [] s h = of_none
contains-IsOther (e ∷ es) s h = of_more (ground arith) (contains-IsOther es s (ground arith))

IsOther-contains : (es : List ℕ) (s : ℕ) → IsOther es s → contains es s ≡ false
IsOther-contains [] s of_none = refl
IsOther-contains (e ∷ es) s (of_more h k) = ground (arith, IsOther-contains es s k)

module _ {W : Type 0} (n : Network W) (req : Request) (v : Sink) (expected : List ℕ) where
  put_body_not_transient :
      (u : Sink) (b : Option (List ℕ)) (w : W) (h : ℤ) (e : Error)
      → (put_body n u b w).1 ≢ failure (transient h e)
  unfolding put_body
  put_body_not_transient u b w h e q = ground arith

  answer_transient :
      (r : Response) (w : W) (h : ℤ) (e : Error)
      → (answer n req v expected r w).1 ≡ failure (transient h e)
      → (is_transient_status r.status ≡ true)
        × (contains expected r.status ≡ false)
        × (e ≡ api (api_error n req expected r))
        × (h ≡ parse_retry_after n.until_date r.retry_after r.rate_limit)
  unfolding answer
  answer_transient r w h e q = ground (arith, put_body_not_transient v r.body w h e)

  answer_transient_iff :
      (r : Response) (w : W)
      → ((h : ℤ) × (e : Error) × ((answer n req v expected r w).1 ≡ failure (transient h e))
          × IsWait h)
        ↔ (IsBusy r.status × IsOther expected r.status)
  unfolding answer
  answer_transient_iff r w = (
    λ (h, e, q, wait).
        let (a, b, c, d) = answer_transient r w h e q in
        (is_transient_status-IsBusy r.status a, contains-IsOther expected r.status b),
    λ (busy, other).
        let hint = parse_retry_after n.until_date r.retry_after r.rate_limit in
        (
          hint,
          api (api_error n req expected r),
          rw (IsOther-contains expected r.status other, IsBusy-is_transient_status r.status busy)
              refl,
          parse_retry_after-IsWait n.until_date r.retry_after r.rate_limit,
        ),
  )

  -- An attempt whose GetBody, if there is one, does not fail, and which the server answers, fails
  -- with a transient error, with a hint that is absent or from 0 to 24 hours, exactly when the status
  -- of the answer is 429 or from 500 to 599 and none of those that the caller expects.
  pub attempt_transient :
      (w : W) (r : Response)
      → get_body_fails n req.body ≡ false
      → (n.http_do req w).1 ≡ some r
      → ((h : ℤ) × (e : Error) × ((attempt n req v expected w).1 ≡ failure (transient h e))
          × IsWait h)
        ↔ (IsBusy r.status × IsOther expected r.status)
  unfolding attempt
  attempt_transient w r ready got = rw (ready, got) (answer_transient_iff r (n.http_do req w).0)

  -- An attempt succeeds only if the server answered, and with an expected status.
  pub attempt_success :
      (w : W)
      → (attempt n req v expected w).1 ≡ success
      → (r : Response) × ((n.http_do req w).1 ≡ some r) × (contains expected r.status ≡ true)
  unfolding attempt answer
  attempt_success w q = elim (Option-cases (n.http_do req w).1) [
    | inl lost ↦ absurd (ground arith)
    | inr (r, got) ↦ (r, got, ground arith)
  ]
