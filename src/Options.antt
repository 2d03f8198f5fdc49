-- ===== src/Options.antt =====
-- Options of the client (options.go) and SetBaseURL (client.go). An option changes the client that
-- New builds; `url.Parse`, `URL.Hostname` and `net.ParseIP` are parameters.
pub mod Secure
use go_monobank_sdk.Base.{
  ℕ, zero, suc, Bool, true, false, not, ◌&&◌, ◌||◌, Option, none, some, List, [], ◌∷◌, ◌++◌, ◌==◌,
  if◌then◌else◌,
}
use go_monobank_sdk.Base.Int.{ℤ, pos, negsuc}
use go_monobank_sdk.Base.Decimal.{Text, codes, text_eq}
use go_monobank_sdk.Retry.{RetryPolicy, default_retry}

-- The parts of a parsed URL that the guard reads.
pub record Url : Type 0 where
  pub scheme : Text
  pub hostname : Text

-- `parse` is `none` on an error; `is_loopback_ip` says that a host is an IP of the loopback.
pub record Urls : Type 0 where
  pub parse : Text → Option Url
  pub is_loopback_ip : Text → Bool

-- What optErr holds.
pub data OptionError : Type 0 where
  insecure_base_url : Text → OptionError
  invalid_url : Text → OptionError

-- What `http` holds: a standard client with its transport, or another HTTPDoer. The values of the
-- caller, named by numbers, are opaque.
pub data Doer : Type 0 where
  std_client : Option ℕ → Option ℕ → Doer
  custom_doer : ℕ → Doer

-- The Client that the options set. A service that is nil is `none`; a hook is the callbacks that it
-- runs, in their order.
pub record Client : Type 0 where
  pub http : Doer
  pub authorizer : Option ℕ
  pub base_url : Url
  pub logger : Option ℕ
  pub on_req : List ℕ
  pub on_resp : List ℕ
  pub opt_err : Option OptionError
  pub allow_insecure_base_url : Bool
  pub retry : RetryPolicy
  pub user_agent : Text
  pub unsafe_retries : Bool
  pub limiter : Option ℕ

-- The options of the package, with their arguments; a function of the caller is left out.
pub data ClientOption : Type 0 where
  with_http_client with_http_doer with_round_tripper with_auth : Option ℕ → ClientOption
  with_logger with_request_hook with_response_hook with_rate_limiter : Option ℕ → ClientOption
  with_base_url : Text → ClientOption
  with_insecure_base_url : Bool → ClientOption
  with_retry : ℤ → ℤ → ℤ → ClientOption
  with_user_agent : Text → ClientOption
  with_unsafe_retries : Bool → ClientOption

abbrev default_url : Url
default_url = record { scheme = codes "https"; hostname = codes "api.monobank.ua" }

abbrev pub base_client : Client
base_client = record {
  http = std_client none none;
  authorizer = none;
  base_url = default_url;
  logger = none;
  on_req = [];
  on_resp = [];
  opt_err = none;
  allow_insecure_base_url = false;
  retry = record { max_attempts = pos 0; base_delay = pos 0; max_delay = pos 0 };
  user_agent = [];
  unsafe_retries = false;
  limiter = none;
}

abbrev pub is_positive : ℤ → Bool
is_positive (pos zero) = false
is_positive (pos (suc n)) = true
is_positive (negsuc n) = false

abbrev pub is_zero : ℤ → Bool
is_zero (pos zero) = true
is_zero (pos (suc n)) = false
is_zero (negsuc n) = false

-- A delay of WithRetry: the argument, or the client's, or the default.
abbrev pub delay_or : ℤ → ℤ → ℤ → ℤ
delay_or arg current default =
    if is_positive arg then arg else (if is_zero current then default else current)

unfoldable pub set_retry : ℤ → ℤ → ℤ → RetryPolicy → RetryPolicy
set_retry attempts base_delay max_delay r = if is_zero attempts then default_retry else record {
  max_attempts = attempts;
  base_delay = delay_or base_delay r.base_delay default_retry.base_delay;
  max_delay = delay_or max_delay r.max_delay default_retry.max_delay;
}

abbrev pub set_transport : ℕ → Doer → Doer
set_transport rt (std_client c t) = std_client c (some rt)
set_transport rt (custom_doer d) = std_client none (some rt)

abbrev pub or_kept : {A : Type 0} → Option A → Option A → Option A
or_kept none kept = kept
or_kept (some a) kept = some a

abbrev pub hook_or : Option ℕ → List ℕ → List ℕ
hook_or none kept = kept
hook_or (some fn) kept = fn ∷ []

-- ChainRequestHook and ChainResponseHook, on the hook.
abbrev pub chain : Option ℕ → List ℕ → List ℕ
chain none hook = hook
chain (some fn) hook = hook ++ (fn ∷ [])

unfoldable pub chain_request_hook : Option ℕ → Client → Client
chain_request_hook fn c = record c { on_req = chain fn c.on_req }

unfoldable pub chain_response_hook : Option ℕ → Client → Client
chain_response_hook fn c = record c { on_resp = chain fn c.on_resp }

abbrev pub or_user_agent : Text → Text → Text
or_user_agent [] kept = kept
or_user_agent (c ∷ s) kept = c ∷ s

module _ (urls : Urls) where
  -- The guard on a URL that parsed.
  unfoldable pub is_insecure_url : Url → Bool
  is_insecure_url u =
      if text_eq u.scheme (codes "https") || text_eq u.scheme []
      then false
      else (if text_eq u.hostname (codes "localhost")
          then false
          else not (urls.is_loopback_ip u.hostname))

  unfoldable pub is_insecure_base_url : Text → Bool
  unfolding is_insecure_url
  is_insecure_base_url uri = elim (urls.parse uri) [ none ↦ false | some u ↦ is_insecure_url u ]

  abbrev pub first_error : OptionError → Option OptionError → Option OptionError
  first_error e none = some e
  first_error e (some old) = some old

  unfoldable pub set_base_url : Text → Client → Client
  set_base_url uri c = elim (urls.parse uri) [
    | none ↦ record c { opt_err = first_error (invalid_url uri) c.opt_err }
    | some u ↦ record c { base_url = u }
  ]

  unfoldable pub apply : ClientOption → Client → Client
  unfolding is_insecure_base_url set_base_url set_retry
  apply (with_http_client none) c = c
  apply (with_http_client (some h)) c = record c { http = std_client (some h) none }
  apply (with_http_doer none) c = c
  apply (with_http_doer (some d)) c = record c { http = custom_doer d }
  apply (with_round_tripper none) c = c
  apply (with_round_tripper (some rt)) c = record c { http = set_transport rt c.http }
  apply (with_auth a) c = record c { authorizer = or_kept a c.authorizer }
  apply (with_logger l) c = record c { logger = or_kept l c.logger }
  apply (with_request_hook fn) c = record c { on_req = hook_or fn c.on_req }
  apply (with_response_hook fn) c = record c { on_resp = hook_or fn c.on_resp }
  apply (with_rate_limiter l) c = record c { limiter = or_kept l c.limiter }
  apply (with_base_url uri) c =
      if is_insecure_base_url uri && not c.allow_insecure_base_url
      then record c { opt_err = some (insecure_base_url uri) }
      else set_base_url uri c
  apply (with_insecure_base_url allow) c = record c { allow_insecure_base_url = allow }
  apply (with_retry attempts base_delay max_delay) c = record c {
    retry = set_retry attempts base_delay max_delay c.retry;
  }
  apply (with_user_agent ua) c = record c { user_agent = or_user_agent ua c.user_agent }
  apply (with_unsafe_retries enabled) c = record c { unsafe_retries = enabled }

  unfoldable pub apply_all : List ClientOption → Client → Client
  unfolding apply
  apply_all [] c = c
  apply_all (o ∷ os) c = apply_all os (apply o c)

  -- New: a first pass on a probe, for WithInsecureBaseURL alone, and a second.
  unfoldable pub new : List ClientOption → Client
  unfolding apply_all
  new opts =
      let probe = apply_all opts base_client in
      apply_all opts
        (record base_client { allow_insecure_base_url = probe.allow_insecure_base_url })
