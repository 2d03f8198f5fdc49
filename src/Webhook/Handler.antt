-- ===== src/Webhook/Handler.antt =====
-- Handler (webhook/handler.go): its state, NewHandler and the refresh of the bank's key. What a
-- request meets outside, the clock's readings, the answer of ServerKey and the result of OnEvent,
-- is a `Moment`; what ServeHTTP does besides its answer is a log of effects.
use go_monobank_sdk.Base.{
  ℕ, zero, suc, ◌-◌, Bool, true, false, not, Option, none, some, List, [], ◌∷◌, ltb, if◌then◌else◌,
}
use go_monobank_sdk.Base.Int.{ℤ, pos, negsuc}
use go_monobank_sdk.Base.Decimal.{Text, text_eq}
use go_monobank_sdk.Webhook.{Response}
use go_monobank_sdk.Webhook.Signature.{Verified, valid}

-- bank.ServerKey. The key itself is `none` where the pointer is nil.
pub record ServerKey (P : Type 0) : Type 0 where
  pub id : Text
  pub pub_key : Option P

-- Handler: `last_refresh_at` is `none` while it is the zero time.
pub record Handler (P : Type 0) : Type 0 where
  pub key : Option (ServerKey P)
  pub last_refresh_at : Option ℕ
  pub max_body_bytes : ℕ

-- The parts of Options that are a callback or a provider are present or nil.
pub record Options : Type 0 where
  pub keys : Bool
  pub on_event : Bool
  pub on_unknown_type : Bool
  pub on_error : Bool
  pub body_limit : ℤ

pub data Method : Type 0 where
  get post other : Method

-- A request: the bytes the client sends, and whether the connection breaks after them.
pub record Request : Type 0 where
  pub method : Method
  pub bytes : Text
  pub breaks : Bool
  pub key_id : Text
  pub x_sign : Text

-- The clock at the two tests of refreshCoalesced and when the fetch is done, what ServerKey
-- returns, and whether OnEvent returns an error. A provider that returns neither a key nor an error
-- is left out.
pub record Moment (P : Type 0) : Type 0 where
  pub now : ℕ
  pub again : ℕ
  pub done : ℕ
  pub fetched : Option (ServerKey P)
  pub callback_fails : Bool

pub data Fault : Type 0 where
  key_not_loaded refresh_failed malformed_payload empty_id callback_failed : Fault

pub data Effect : Type 0 where
  event : Response → Effect
  unknown : Text → Effect
  error : Fault → Effect

pub record Served (P S : Type 0) : Type 0 where
  pub status : ℕ
  pub handler : Handler P
  pub dedup : Option S
  pub log : List Effect

-- Nanoseconds, as time.Duration.
abbrev pub min_refresh_interval : ℕ
min_refresh_interval = 30000000000

abbrev pub default_max_body_bytes : ℕ
default_max_body_bytes = 1048576

unfoldable pub max_body : ℤ → ℕ
max_body (pos zero) = default_max_body_bytes
max_body (pos (suc n)) = suc n
max_body (negsuc n) = default_max_body_bytes

pub data NewHandler (P : Type 0) : Type 0 where
  nil_key_provider nil_on_event initial_fetch_failed : NewHandler P
  ready : Handler P → NewHandler P

-- Whether the last refresh is too recent. `time.Since` below 0 counts as recent, as 0 does here.
unfoldable pub is_fresh : Option ℕ → ℕ → Bool
is_fresh none now = false
is_fresh (some at) now = ltb (now - at) min_refresh_interval

-- `reportError`.
unfoldable pub report : Options → Fault → List Effect
report opts f = if opts.on_error then error f ∷ [] else []

abbrev pub accepted : Verified → Bool
accepted valid = true
accepted _ = false

abbrev pub key_or : {P : Type 0} → ServerKey P → Option (ServerKey P) → ServerKey P
key_or key none = key
key_or key (some k) = k

pub record Refreshed (P : Type 0) : Type 0 where
  pub handler : Handler P
  pub called : Bool
  pub failed : Bool

module _ {P : Type 0} where
  -- NewHandler, over what ServerKey returns.
  unfoldable pub new_handler : Options → Option (ServerKey P) → NewHandler P
  unfolding max_body
  new_handler opts fetched =
      if not opts.keys
      then nil_key_provider
      else (if not opts.on_event then nil_on_event else elim fetched [
        | none ↦ initial_fetch_failed
        | some sk ↦ ready (record {
          key = some sk;
          last_refresh_at = none;
          max_body_bytes = max_body opts.body_limit;
        })
      ])

  unfoldable pub refresh : Handler P → Option (ServerKey P) → Option (Handler P)
  refresh h none = none
  refresh h (some sk) = some (record h { key = some sk })

  -- The function that singleflight runs.
  unfoldable pub refresh_once : Handler P → Moment P → Refreshed P
  unfolding is_fresh refresh
  refresh_once h m =
      if is_fresh h.last_refresh_at m.again
      then record { handler = h; called = false; failed = false }
      else elim (refresh h m.fetched) [
        | none ↦ record { handler = h; called = true; failed = true }
        | some h' ↦ record {
          handler = record h' { last_refresh_at = some m.done };
          called = true;
          failed = false;
        }
      ]

  -- One call at a time, so that singleflight runs its function in each.
  unfoldable pub refresh_coalesced : Handler P → Moment P → Refreshed P
  unfolding is_fresh refresh_once
  refresh_coalesced h m =
      if is_fresh h.last_refresh_at m.now
      then record { handler = h; called = false; failed = false }
      else refresh_once h m

  -- Whether X-Key-Id is there and names another key.
  unfoldable pub is_rotated : Text → ServerKey P → Bool
  is_rotated [] key = false
  is_rotated (c ∷ s) key = not (text_eq (c ∷ s) key.id)
