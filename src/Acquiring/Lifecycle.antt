-- ===== src/Acquiring/Lifecycle.antt =====
-- The health of a subscription (acquiring/lifecycle.go): what the client grants access by.
use go_monobank_sdk.Base.{
  ◌≡◌, ◌≢◌, ◌↔◌, ◌⊎◌, inl, inr, refl, Bool, true, false, not, Option, none, some, arith,
  if◌then◌else◌,
}
use go_monobank_sdk.Acquiring.{
  SubscriptionStatus, active, cancelled, other_subscription, PaymentStatus, payment_new,
  payment_success, payment_failed, other_payment, WalletStatus, wallet_new, wallet_created,
  wallet_failed, other_wallet,
}

pub data SubscriptionHealth : Type 0 where
  health_active charge_failed wallet_dead health_cancelled health_unknown : SubscriptionHealth

-- SubscriptionStatusResponse: the two fields that are read.
pub record SubscriptionStatusResponse : Type 0 where
  pub status : SubscriptionStatus
  pub wallet_status : WalletStatus

unfoldable pub grace_eligible : SubscriptionHealth → Bool
grace_eligible charge_failed = true
grace_eligible health_active = false
grace_eligible wallet_dead = false
grace_eligible health_cancelled = false
grace_eligible health_unknown = false

unfoldable pub terminal : SubscriptionHealth → Bool
terminal health_cancelled = true
terminal wallet_dead = true
terminal health_active = false
terminal charge_failed = false
terminal health_unknown = false

unfoldable pub retain_access : SubscriptionHealth → Bool
unfolding terminal
retain_access h = not (terminal h)

abbrev is_cancelled : SubscriptionStatus → Bool
is_cancelled cancelled = true
is_cancelled active = false
is_cancelled (other_subscription s) = false

abbrev is_active : SubscriptionStatus → Bool
is_active active = true
is_active cancelled = false
is_active (other_subscription s) = false

abbrev pub is_failed : WalletStatus → Bool
is_failed wallet_failed = true
is_failed wallet_new = false
is_failed wallet_created = false
is_failed (other_wallet s) = false

-- `none` is a nil pointer.
unfoldable pub classify_subscription : Option SubscriptionStatusResponse → SubscriptionHealth
classify_subscription none = health_unknown
classify_subscription (some st) =
    if is_cancelled st.status
    then health_cancelled
    else (if is_failed st.wallet_status
        then wallet_dead
        else (if is_active st.status then health_active else health_unknown))

abbrev of_payment : PaymentStatus → SubscriptionHealth
of_payment payment_failed = charge_failed
of_payment payment_success = health_active
of_payment payment_new = health_active
of_payment (other_payment s) = health_unknown

unfoldable pub classify_charge : PaymentStatus → WalletStatus → SubscriptionHealth
classify_charge payment wallet = if is_failed wallet then wallet_dead else of_payment payment

retain_access_fields :
    (st : SubscriptionStatusResponse)
    → (retain_access (classify_subscription (some st)) ≡ false)
      ↔ ((st.status ≡ cancelled) ⊎ (st.wallet_status ≡ wallet_failed))
unfolding retain_access classify_subscription
retain_access_fields st = ground arith

-- A subscription loses its access exactly when it is there and is cancelled or its wallet failed.
pub retain_access-classify_subscription :
    (st : Option SubscriptionStatusResponse)
    → (retain_access (classify_subscription st) ≡ false) ↔ (
        (s : SubscriptionStatusResponse) × (st ≡ some s)
        × ((s.status ≡ cancelled) ⊎ (s.wallet_status ≡ wallet_failed)))
unfolding retain_access classify_subscription
retain_access-classify_subscription none = ground arith
retain_access-classify_subscription (some st) = (
  λ h. (st, refl, (retain_access_fields st).0 h),
  λ (s, e, h).
      (retain_access_fields st).1
        (elim h [ inl c ↦ inl (ground (arith, c)) | inr w ↦ inr (ground (arith, w)) ]),
)

-- A single charge takes the access away exactly when the wallet failed; it opens a grace period
-- exactly when the charge failed on a wallet that did not.
pub classify_charge_lem :
    (payment : PaymentStatus) (wallet : WalletStatus)
    → ((retain_access (classify_charge payment wallet) ≡ false) ↔ (wallet ≡ wallet_failed))
      × ((grace_eligible (classify_charge payment wallet) ≡ true)
          ↔ ((payment ≡ payment_failed) × (wallet ≢ wallet_failed)))
unfolding classify_charge retain_access grace_eligible
classify_charge_lem payment wallet = ground arith
