-- ===== src/Webhook/Signature.antt =====
-- Verify (webhook/signature.go): a signature as DER, or as the raw pair r||s of 64 bytes.
use go_monobank_sdk.Base.{
  ℕ, ◌+◌, ◌*◌, ◌≡◌, ◌⊎◌, inl, inr, refl, Bool, true, false, Option, none, some, [], ◌∷◌, arith,
  ◌==◌, if◌then◌else◌, length, take, drop, Option-cases, Bool-cases,
}
use go_monobank_sdk.Base.Decimal.{Text}
use go_monobank_sdk.Webhook.{Crypto}

pub data Verified : Type 0 where
  valid missing_pub_key bad_encoding bad_signature : Verified

abbrev pub raw_sig_len : ℕ
raw_sig_len = 64

-- `big.Int.SetBytes`: big-endian.
unfoldable pub big_endian : ℕ → Text → ℕ
big_endian acc [] = acc
big_endian acc (b ∷ s) = big_endian (acc * 256 + b) s

module _ {P : Type 0} (crypto : Crypto P) where
  unfoldable pub marshal_raw_sig_to_der : Text → Option Text
  unfolding big_endian
  marshal_raw_sig_to_der sig =
      if length sig == raw_sig_len
      then crypto.marshal_asn1 (big_endian 0 (take 32 sig)) (big_endian 0 (drop 32 sig))
      else none

  abbrev pub accepts : P → Text → Option Text → Bool
  accepts pub_key digest none = false
  accepts pub_key digest (some der) = crypto.verify_asn1 pub_key digest der

  unfoldable pub verify_sig : P → Text → Text → Verified
  unfolding marshal_raw_sig_to_der
  verify_sig key digest sig =
      if crypto.verify_asn1 key digest sig
      then valid
      else (if length sig == raw_sig_len
          then (if accepts key digest (marshal_raw_sig_to_der sig) then valid else bad_signature)
          else bad_signature)

  -- The key is `none` where the caller has none.
  unfoldable pub verify : Option P → Text → Text → Verified
  verify none body x_sign = missing_pub_key
  verify (some key) body x_sign = elim (crypto.decode_base64 x_sign) [
    | none ↦ bad_encoding
    | some sig ↦ verify_sig key (crypto.sha256 body) sig
  ]

  -- Verify accepts only a signature that, as it is or marshaled from 64 raw bytes, ECDSA accepts
  -- for the digest of this very body under the key.
  pub verify_valid :
      (key : P) (body x_sign : Text)
      → verify (some key) body x_sign ≡ valid
      → (sig der : Text) × (crypto.decode_base64 x_sign ≡ some sig)
        × (crypto.verify_asn1 key (crypto.sha256 body) der ≡ true)
        × ((der ≡ sig) ⊎ (marshal_raw_sig_to_der sig ≡ some der))
  unfolding verify verify_sig
  verify_valid key body x_sign h = elim (Option-cases (crypto.decode_base64 x_sign)) [
    | inl bad ↦ absurd (ground arith)
    | inr (sig, e) ↦ elim (Bool-cases (crypto.verify_asn1 key (crypto.sha256 body) sig)) [
      | inl direct ↦ (sig, sig, e, direct, inl refl)
      | inr other ↦ elim (Option-cases (marshal_raw_sig_to_der sig)) [
        | inl failed ↦ absurd (ground arith)
        | inr (der, ed) ↦ (sig, der, e, ground arith, inr ed)
      ]
    ]
  ]
