-- ===== src/Acquiring/Webhook.antt =====
-- Signatures and freshness of acquiring's webhooks (acquiring/webhook.go). The cryptography, the
-- decoder of JSON and `time.Parse` are parameters; a time is a count of nanoseconds since the epoch.
use go_monobank_sdk.Base.{
  ◌-◌, ◌^◌, Bool, true, false, Option, none, some, List, [], ◌∷◌, if◌then◌else◌,
}
use go_monobank_sdk.Base.Int.{ℤ, pos, negsuc, ◌-ℤ◌, ltb_ℤ}
use go_monobank_sdk.Base.Word.{in_int64, is_neg}
use go_monobank_sdk.Base.Decimal.{Text, codes}
use go_monobank_sdk.Webhook.{Crypto}
use go_monobank_sdk.Acquiring.{InvoiceStatusResponse}

-- `unmarshal` decodes into InvoiceStatusResponse, `probe` into its modifiedDate alone.
pub record Outside (P : Type 0) : Type 0 where
  pub crypto : Crypto P
  pub unmarshal : Text → Option InvoiceStatusResponse
  pub probe : Text → Option Text
  pub parse_time : Text → Text → Option ℤ

-- The errors of a verification; `fine` is nil.
pub data Verdict : Type 0 where
  fine bad_signature bad_signature_encoding missing_pub_key stale no_timestamp : Verdict

abbrev pub is_fine : Verdict → Bool
is_fine fine = true
is_fine _ = false

abbrev pub is_bad_signature : Verdict → Bool
is_bad_signature bad_signature = true
is_bad_signature _ = false

abbrev layouts : List Text
layouts =
    codes "2006-01-02T15:04:05.999999999Z07:00"
    ∷ codes "2006-01-02T15:04:05Z07:00"
    ∷ codes "2006-01-02T15:04:05.000Z"
    ∷ codes "2006-01-02T15:04:05Z"
    ∷ codes "2006-01-02 15:04:05"
    ∷ []

-- The first layout that fits.
unfoldable pub try_layouts : (Text → Text → Option ℤ) → List Text → Text → Option ℤ
try_layouts parse_time [] s = none
try_layouts parse_time (l ∷ ls) s =
    let rest = try_layouts parse_time ls s in
    elim (parse_time l s) [ some t ↦ some t | none ↦ rest ]

-- `none` is ErrWebhookNoTimestamp.
unfoldable pub parse_modified_date : (Text → Text → Option ℤ) → Text → Option ℤ
unfolding try_layouts
parse_modified_date parse_time [] = none
parse_modified_date parse_time (c ∷ s) = try_layouts parse_time layouts (c ∷ s)

-- `time.Since`: the difference, held within a Duration.
unfoldable pub since : ℤ → ℤ → ℤ
unfolding ◌-ℤ◌
since now t =
    let d = now -ℤ t in
    if in_int64 d then d else (if is_neg d then negsuc (2 ^ 63 - 1) else pos (2 ^ 63 - 1))

abbrev pub ok_or_bad : Bool → Verdict
ok_or_bad b = if b then fine else bad_signature

abbrev pub age_verdict : ℤ → ℤ → Option ℤ → Verdict
age_verdict now max_age none = no_timestamp
age_verdict now max_age (some t) =
    if ltb_ℤ (pos 0) max_age then (if ltb_ℤ max_age (since now t) then stale else fine) else fine

module _ {P : Type 0} (out : Outside P) where
  -- A nil key is `none`.
  unfoldable pub verify_webhook : Option P → Text → Text → Verdict
  verify_webhook none body x_sign = missing_pub_key
  verify_webhook (some key) body x_sign = elim (out.crypto.decode_base64 x_sign) [
    | none ↦ bad_signature_encoding
    | some sig ↦ ok_or_bad (out.crypto.verify_asn1 key (out.crypto.sha256 body) sig)
  ]

  -- The freshness test alone, at the time `now`.
  unfoldable pub check_age : Text → ℤ → ℤ → Verdict
  unfolding parse_modified_date since
  check_age body max_age now = elim (out.probe body) [
    | none ↦ no_timestamp
    | some date ↦ age_verdict now max_age (parse_modified_date out.parse_time date)
  ]

  unfoldable pub verify_webhook_fresh : Option P → Text → Text → ℤ → ℤ → Verdict
  unfolding verify_webhook check_age
  verify_webhook_fresh key body x_sign max_age now = elim (verify_webhook key body x_sign) [
    | fine ↦ check_age body max_age now
    | v ↦ v
  ]
