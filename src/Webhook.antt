-- ===== src/Webhook.antt =====
-- The webhook package: what the handler shares with the outside. The cryptography, base64, JSON
-- and the caller's callbacks are parameters; a key is a value of an abstract type `P`.
pub mod Signature
pub mod Handler
pub mod Serve
pub mod Events
pub mod Delivery
pub mod Delivered
pub mod Redelivery
pub mod Refresh
pub mod Memory
use go_monobank_sdk.Base.{
  ℕ, zero, suc, Bool, true, false, Option, none, some, List, [], ◌∷◌, ◌≡◌, ◌==◌, if◌then◌else◌,
}
use go_monobank_sdk.Base.Decimal.{Text, codes, text_eq}
use go_monobank_sdk.Bank.{Transaction}

-- `encoding/base64`, `crypto/sha256`, `crypto/ecdsa` and `encoding/asn1`, as Verify uses them.
pub record Crypto (P : Type 0) : Type 0 where
  pub decode_base64 : Text → Option Text
  pub sha256 : Text → Text
  pub verify_asn1 : P → Text → Text → Bool
  pub marshal_asn1 : ℕ → ℕ → Option Text

-- webhook.Data and webhook.Response.
pub record Data : Type 0 where
  pub account_id : Text
  pub transaction : Transaction

pub record Response : Type 0 where
  pub type : Text
  pub payload : Data

abbrev pub type_statement_item : Text
type_statement_item = codes "StatementItem"

pub data Parsed : Type 0 where
  known unknown_type : Response → Parsed
  malformed : Parsed

-- Parse, over the decoder of JSON.
unfoldable pub parse : (Text → Option Response) → Text → Parsed
parse unmarshal body = elim (unmarshal body) [
  | none ↦ malformed
  | some v ↦ if text_eq v.type type_statement_item then known v else unknown_type v
]

-- The Deduper interface, with what its documentation promises of the two methods. `Good` is what
-- an implementation keeps of its state.
pub record Deduper : Type 1 where
  pub State : Type 0
  pub Good : State → Type 0
  pub has : Text → State → State × Bool
  pub add : Text → State → State
  pub has-Good : (id : Text) (s : State) → Good s → Good (has id s).0
  pub add-Good : (id : Text) (s : State) → Good s → Good (add id s)
  pub has-add : (c : ℕ) (id : Text) (s : State) → Good s → (has (c ∷ id) (add (c ∷ id) s)).1 ≡ true
  pub has-has : (id : Text) (s : State) → Good s → (has id (has id s).0).1 ≡ (has id s).1
