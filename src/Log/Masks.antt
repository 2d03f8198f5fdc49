-- ===== src/Log/Masks.antt =====
-- What the masks of a log show of a text, and what they do not.
use go_monobank_sdk.Base.{
  ℕ, suc, ◌-◌, ◌≤◌, false, List, [], ◌∷◌, ◌++◌, ◌≡◌, refl, arith, leb, length, drop, length-append,
}
use go_monobank_sdk.Base.Decimal.{Text, codes}
use go_monobank_sdk.Log.{runes, mask_name, redact_iban, redact_id, is_set}

-- Two names of which a log shows the same: both empty, both of one rune, or of as many runes with
-- the same one first.
pub data NamesAlike : Text → Text → Type 0 where
  no_names : NamesAlike [] []
  one_rune :
      {c d : ℕ} {s t p q : Text}
      → runes (c ∷ s) ≡ p ∷ []
      → runes (d ∷ t) ≡ q ∷ []
      → NamesAlike (c ∷ s) (d ∷ t)
  more_runes :
      {c d : ℕ} {s t r p q : Text} {ps qs : List Text}
      → runes (c ∷ s) ≡ r ∷ p ∷ ps
      → runes (d ∷ t) ≡ r ∷ q ∷ qs
      → length ps ≡ length qs
      → NamesAlike (c ∷ s) (d ∷ t)

pub mask_name-alike : {s t : Text} → NamesAlike s t → mask_name s ≡ mask_name t
unfolding mask_name
mask_name-alike no_names = refl
mask_name-alike (one_rune a b) = rw (a, b) refl
mask_name-alike (more_runes a b e) = rw (a, b, e) refl

-- Two IBANs of which a log shows the same: both empty, both short, or with the same two first bytes
-- and the same four last ones.
pub data IbansAlike : Text → Text → Type 0 where
  no_ibans : IbansAlike [] []
  short :
      {c d : ℕ} {s t : Text} → length (c ∷ s) ≤ 6 → length (d ∷ t) ≤ 6 → IbansAlike (c ∷ s) (d ∷ t)
  ends :
      (a b : ℕ) (m n last : Text)
      → 1 ≤ length m
      → 1 ≤ length n
      → length last ≡ 4
      → IbansAlike (a ∷ b ∷ m ++ last) (a ∷ b ∷ n ++ last)

drop-append : (m last : Text) → drop (length m) (m ++ last) ≡ last
drop-append [] last = refl
drop-append (c ∷ m) last = drop-append m last

redact_iban_ends :
    (a b : ℕ) (m last : Text)
    → 1 ≤ length m
    → length last ≡ 4
    → redact_iban (a ∷ b ∷ m ++ last) ≡ a ∷ b ∷ (codes "***" ++ last)
unfolding redact_iban
redact_iban_ends a b m last h e =
    let whole = length-append m last in
    let long : leb (suc (suc (length (m ++ last)))) 6 ≡ false = ground arith in
    let at : suc (suc (length (m ++ last))) - 4 ≡ suc (suc (length m)) = omega arith in
    rw (long, at, drop-append m last) refl

pub redact_iban-alike : {s t : Text} → IbansAlike s t → redact_iban s ≡ redact_iban t
unfolding redact_iban
redact_iban-alike no_ibans = refl
redact_iban-alike (short h k) = ground arith
redact_iban-alike (ends a b m n last h k e) =
    rw (redact_iban_ends a b m last h e, redact_iban_ends a b n last k e) refl

pub redact_id-alike : (s t : Text) → is_set s ≡ is_set t → redact_id s ≡ redact_id t
unfolding redact_id
redact_id-alike s t e = ground arith
