-- ===== src/Acquiring/Handler.antt =====
-- WebhookHandler (acquiring/handler.go): its state, the refresh of the merchant's key after a bad
-- signature, and ServeHTTP, which first admits a request and then delivers its invoice.
pub mod Verify
pub mod Events
pub mod Delivery
pub mod Rotation
pub mod Replay
use go_monobank_sdk.Base.{
  ℕ, zero, suc, ◌-◌, Bool, true, false, not, Option, none, some, List, [], ◌∷◌, ◌++◌, ltb, ◌==◌,
  if◌then◌else◌, length,
}
use go_monobank_sdk.Base.Int.{ℤ, pos, negsuc, ltb_ℤ}
use go_monobank_sdk.Base.Decimal.{Text, text_eq}
use go_monobank_sdk.Webhook.{Deduper}
use go_monobank_sdk.Acquiring.{InvoiceStatusResponse, dedup_key}
use go_monobank_sdk.Acquiring.Webhook.{
  Outside, Verdict, fine, bad_signature, verify_webhook, verify_webhook_fresh,
}

-- A pointer to a key: where it points and what it points to.
pub record Key (P : Type 0) : Type 0 where
  pub address : ℕ
  pub target : P

-- WebhookHandler: `last_refresh_at` is `none` while it is the zero time.
pub record Handler (P : Type 0) : Type 0 where
  pub key : Option (Key P)
  pub last_refresh_at : Option ℕ
  pub max_body_bytes : ℕ

-- WebhookHandlerOptions; of the providers and callbacks, whether they are there.
pub record Options : Type 0 where
  pub keys : Bool
  pub on_event : Bool
  pub on_error : Bool
  pub max_age : ℤ
  pub body_limit : ℤ

pub data Method : Type 0 where
  get post other : Method

-- The bytes that the client sends, and whether the connection breaks after them.
pub record Request : Type 0 where
  pub method : Method
  pub bytes : Text
  pub breaks : Bool
  pub x_sign : Text

-- What a request meets: the clock at the two tests of refreshCoalesced and when the fetch is done,
-- the parsed key that PubKey gives (`none` where it or the parsing fails), the time at the test of
-- freshness, and whether OnEvent returns an error.
pub record Moment (P : Type 0) : Type 0 where
  pub now : ℕ
  pub again : ℕ
  pub done : ℕ
  pub fetched : Option (Key P)
  pub wall : ℤ
  pub callback_fails : Bool

pub data Fault : Type 0 where
  key_not_loaded refresh_failed malformed_payload empty_invoice_id callback_failed : Fault

pub data Effect : Type 0 where
  event : InvoiceStatusResponse → Effect
  error : Fault → Effect

abbrev default_max_body_bytes : ℕ
default_max_body_bytes = 1048576

-- Nanoseconds.
abbrev pub min_refresh_interval : ℕ
min_refresh_interval = 30000000000

unfoldable pub max_body : ℤ → ℕ
max_body (pos zero) = default_max_body_bytes
max_body (pos (suc n)) = suc n
max_body (negsuc n) = default_max_body_bytes

pub data Construction (P : Type 0) : Type 0 where
  nil_key_provider nil_on_event initial_fetch_failed : Construction P
  ready : Handler P → Construction P

unfoldable pub is_fresh : Option ℕ → ℕ → Bool
is_fresh none now = false
is_fresh (some at) now = ltb (now - at) min_refresh_interval

unfoldable pub report : Options → Fault → List Effect
report opts f = if opts.on_error then error f ∷ [] else []

pub record Refreshed (P : Type 0) : Type 0 where
  pub handler : Handler P
  pub called : Bool
  pub failed : Bool

module _ {P : Type 0} where
  -- NewWebhookHandler, over what the first fetch gives.
  unfoldable pub new_webhook_handler : Options → Option (Key P) → Construction P
  unfolding max_body
  new_webhook_handler opts fetched =
      if not opts.keys
      then nil_key_provider
      else (if not opts.on_event then nil_on_event else elim fetched [
        | none ↦ initial_fetch_failed
        | some k ↦ ready (record {
          key = some k;
          last_refresh_at = none;
          max_body_bytes = max_body opts.body_limit;
        })
      ])

  -- refreshCoalesced, one call at a time: the two tests of the clock, the fetch and its record.
  unfoldable pub refresh_coalesced : Handler P → Moment P → Refreshed P
  unfolding is_fresh
  refresh_coalesced h m =
      if is_fresh h.last_refresh_at m.now
      then record { handler = h; called = false; failed = false }
      else (if is_fresh h.last_refresh_at m.again
          then record { handler = h; called = false; failed = false }
          else elim m.fetched [
            | none ↦ record { handler = h; called = true; failed = true }
            | some k ↦ record {
              handler = record h { key = some k; last_refresh_at = some m.done };
              called = true;
              failed = false;
            }
          ])

  -- The key to try again with: the current one, where it is another pointer.
  unfoldable pub replacement : Key P → Option (Key P) → Option (Key P)
  replacement key none = none
  replacement key (some k) = if k.address == key.address then none else some k
