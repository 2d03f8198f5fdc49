-- ===== src/Client.antt =====
-- The HTTP client that the sub-packages share (client.go): the guards of Do, one attempt, and the
-- retries. The network, the limiter, the authorizer, the URL library and the decoding of bodies
-- are parameters over a state `W`; hooks and loggers, which change no result, are left out.
pub mod Attempt
pub mod Sends
use go_monobank_sdk.Base.{
  ℕ, zero, suc, Bool, true, false, not, ◌&&◌, ◌||◌, Option, none, some, List, [], ◌∷◌, leb, ◌==◌,
  if◌then◌else◌,
}
use go_monobank_sdk.Base.Int.{ℤ, pos, negsuc}
use go_monobank_sdk.Base.Word.{◌==ℤ◌}
use go_monobank_sdk.Base.Decimal.{Text, codes}
use go_monobank_sdk.Retry.{
  RetryPolicy, Outcome, success, failure, Failure, transient, permanent, canceled,
  parse_retry_after, run,
}

pub data Method : Type 0 where
  get head put delete options post patch other_method : Method

-- A request's body: nil; http.NoBody; one with GetBody, which may fail; one without, whose read
-- may fail.
pub data Body : Type 0 where
  nil_body empty_body : Body
  replayable : Option Text → Body
  stream : Option Text → Body

pub record Request : Type 0 where
  pub method : Method
  pub url : Text
  pub content_type : Text
  pub user_agent : Text
  pub idempotency_key : Text
  pub body : Body

-- The body is `none` where reading it fails, after what `partial` holds.
pub record Response : Type 0 where
  pub status : ℕ
  pub content_length : ℤ
  pub retry_after : Text
  pub rate_limit : Text
  pub body : Option Text
  pub partial : Text

-- Where Do puts the response's body.
pub data Sink : Type 0 where
  discard bytes writer json : Sink

pub record ApiError : Type 0 where
  pub method : Method
  pub url : Text
  pub status_code : ℕ
  pub expected_status_codes : List ℕ
  pub error_description : Text
  pub error_code : Text
  pub body : Text

pub data Error : Type 0 where
  option_error empty_request invalid_url not_path_only parse_url set_auth_failed : Error
  read_request_body get_request_body limiter_error transport : Error
  read_response copy_response decode_response : Error
  api : ApiError → Error

pub record Client : Type 0 where
  pub opt_err : Bool
  pub base_url : Option Text
  pub user_agent : Text
  pub has_limiter : Bool
  pub unsafe_retries : Bool
  pub retry : RetryPolicy

-- What the client uses of the standard library, its transport and its caller.
pub record Network (W : Type 0) : Type 0 where
  pub parse_url : Text → Option Text
  pub is_absolute : Text → Bool
  pub resolve : Text → Text → Text
  pub set_auth : Request → Option Request
  pub limiter_wait : W → W × Bool
  pub http_do : Request → W → W × Option Response
  pub deliver : Sink → Text → W → W × Bool
  pub error_fields : Text → Option (Text × Text)
  pub sleep : ℕ → W → W × Bool
  pub rand : ℕ → ℕ
  pub until_date : Text → Option ℤ
  pub default_user_agent : Text

abbrev pub is_transient_status : ℕ → Bool
is_transient_status code = code == 429 || (leb 500 code && leb code 599)

abbrev pub contains : List ℕ → ℕ → Bool
contains [] c = false
contains (e ∷ es) c = e == c || contains es c

abbrev is_blank : Text → Bool
is_blank [] = true
is_blank (c ∷ s) = false

abbrev pub or_text : Text → Text → Text
or_text [] t = t
or_text (c ∷ s) t = c ∷ s

unfoldable pub should_retry : Client → Request → Bool
should_retry c req = elim req.method [
  | get ↦ true
  | head ↦ true
  | put ↦ true
  | delete ↦ true
  | options ↦ true
  | post ↦ c.unsafe_retries || not (is_blank req.idempotency_key)
  | patch ↦ c.unsafe_retries || not (is_blank req.idempotency_key)
  | other_method ↦ false
]

-- What is read of a body.
abbrev text_of : Option Text → Text → Text
text_of (some b) partial = b
text_of none partial = partial

abbrev fields_of : Option (Text × Text) → Text × Text
fields_of (some p) = p
fields_of none = ([], [])

module _ {W : Type 0} (n : Network W) where
  -- An empty body has no fields; one that does not parse has none either.
  unfoldable pub parse_error_body : Text → Text × Text
  parse_error_body [] = ([], [])
  parse_error_body (c ∷ s) = fields_of (n.error_fields (c ∷ s))

  unfoldable pub api_error : Request → List ℕ → Response → ApiError
  unfolding parse_error_body
  api_error req expected r =
      let (description, code) = parse_error_body (text_of r.body r.partial) in
      record {
        method = req.method;
        url = req.url;
        status_code = r.status;
        expected_status_codes = expected;
        error_description = description;
        error_code = code;
        body = text_of r.body r.partial;
      }

  -- The body of a response with an expected status goes to its sink.
  unfoldable pub put_body : Sink → Option Text → W → W × Outcome Error
  put_body discard b w = (w, success)
  put_body bytes none w = (w, failure (permanent read_response))
  put_body bytes (some b) w = ((n.deliver bytes b w).0, success)
  put_body writer none w = (w, failure (permanent copy_response))
  put_body writer (some b) w =
      let (w', done) = n.deliver writer b w in
      (w', if done then success else failure (permanent copy_response))
  put_body json none w = (w, failure (permanent decode_response))
  put_body json (some b) w =
      let (w', done) = n.deliver json b w in
      (w', if done then success else failure (permanent decode_response))

  unfoldable pub answer : Request → Sink → List ℕ → Response → W → W × Outcome Error
  answer req v expected r w =
      if not (contains expected r.status)
      then (let e = api (api_error req expected r) in
          if is_transient_status r.status
          then (
            w,
            failure (transient (parse_retry_after n.until_date r.retry_after r.rate_limit) e),
          )
          else (w, failure (permanent e)))
      else (if r.status == 204 || r.content_length ==ℤ pos 0
          then (w, success)
          else put_body v r.body w)

  abbrev pub get_body_fails : Body → Bool
  get_body_fails (replayable none) = true
  get_body_fails _ = false

  unfoldable pub attempt : Request → Sink → List ℕ → W → W × Outcome Error
  attempt req v expected w =
      if get_body_fails req.body
      then (w, failure (permanent get_request_body))
      else (let (w', resp) = n.http_do req w in
          elim resp [
            | none ↦ (w', failure (permanent transport))
            | some r ↦ answer req v expected r w'
          ])

  -- `attemptFn`: the limiter's wait, then the attempt.
  unfoldable pub limited_attempt : Client → Request → Sink → List ℕ → W → W × Outcome Error
  limited_attempt c req v expected w =
      if c.has_limiter
      then (let (w', stopped) = n.limiter_wait w in
          if stopped then (w', failure (permanent limiter_error)) else attempt req v expected w')
      else attempt req v expected w

  abbrev pub or_ok : List ℕ → List ℕ
  or_ok [] = 200 ∷ []
  or_ok (e ∷ es) = e ∷ es

  abbrev has_body : Body → Bool
  has_body nil_body = false
  has_body _ = true

  -- The headers that Do sets where the caller did not.
  unfoldable pub with_defaults : Client → Text → Request → Request
  with_defaults c url req = record req {
    url = url;
    content_type =
        if has_body req.body
        then or_text req.content_type (codes "application/json")
        else req.content_type;
    user_agent = or_text req.user_agent (or_text c.user_agent n.default_user_agent);
  }

  -- A body with no GetBody is read once and kept.
  unfoldable pub buffer_body : Request → Option Request
  buffer_body req = elim req.body [
    | nil_body ↦ some req
    | empty_body ↦ some req
    | replayable b ↦ some req
    | stream none ↦ none
    | stream (some b) ↦ some (record req { body = replayable (some b) })
  ]

  unfoldable pub send : Client → Request → Sink → List ℕ → W → W × Outcome Error
  send c req v expected w =
      if should_retry c req
      then run n.rand (limited_attempt c req v expected) n.sleep c.retry w
      else limited_attempt c req v expected w

  abbrev pub fail : Error → W → W × Outcome Error
  fail e w = (w, failure (permanent e))

  -- After the guards: the headers, the authorization, the body, and the request.
  unfoldable pub prepare_and_send : Client → Text → Request → Sink → List ℕ → W → W × Outcome Error
  prepare_and_send c url req v expected w = elim (n.set_auth (with_defaults c url req)) [
    | none ↦ fail set_auth_failed w
    | some req' ↦ elim (buffer_body req') [
      | none ↦ fail read_request_body w
      | some req'' ↦ send c req'' v expected w
    ]
  ]

  -- `none` is a nil request.
  unfoldable pub do_request : Client → Option Request → Sink → List ℕ → W → W × Outcome Error
  do_request c none v expected w = if c.opt_err then fail option_error w else fail empty_request w
  do_request c (some req) v expected w =
      if c.opt_err then fail option_error w else elim c.base_url [
        | none ↦ fail invalid_url w
        | some base ↦ elim (n.parse_url req.url) [
          | none ↦ fail parse_url w
          | some target ↦
              if n.is_absolute target
              then fail not_path_only w
              else prepare_and_send c (n.resolve base target) req v (or_ok expected) w
        ]
      ]
