-- ===== src/Tests/Paths.antt =====
-- The paths of Open Banking requests on concrete ids, with an escaping of "/", "?" and "%".
use go_monobank_sdk.Base.{
  ℕ, true, false, Bool-cases, inl, inr, [], ◌∷◌, ◌++◌, ◌≡◌, refl, ap, ◌∙◌, arith, ◌==◌,
  if◌then◌else◌,
}
use go_monobank_sdk.Base.Decimal.{Text, codes}
use go_monobank_sdk.OpenBanking.{Urls, payment, empty_id, rejected}
use go_monobank_sdk.OpenBanking.Segments.{is_clean, PathEscapes}
use go_monobank_sdk.OpenBanking.Resource.{op_payment_status, Addresses, build}
use go_monobank_sdk.OpenBanking.Paths.{build-Addresses}

abbrev escape : Text → Text
escape [] = []
escape (c ∷ s) =
    let rest = escape s in
    if c == b'/'
    then codes "%2F" ++ rest
    else if c == b'?'
    then codes "%3F" ++ rest
    else if c == b'%'
    then codes "%25" ++ rest
    else c ∷ rest

abbrev escaped : ℕ → ℕ → ℕ
escaped a b = if b == b'5' then b'%' else if a == b'2' then b'/' else b'?'

abbrev unescape : Text → Text
unescape [] = []
unescape (c ∷ []) = c ∷ []
unescape (c ∷ a ∷ []) = c ∷ unescape (a ∷ [])
unescape (c ∷ a ∷ b ∷ s) =
    let rest = unescape s in
    let plain = unescape (a ∷ b ∷ s) in if c == b'%' then escaped a b ∷ rest else c ∷ plain

abbrev urls : Urls
urls = record { path_escape = escape; encode = λ q. []; parses = λ uri. true }

unescape_plain : (c : ℕ) (t : Text) → (c == b'%') ≡ false → unescape (c ∷ t) ≡ c ∷ unescape t
unescape_plain c [] h = refl
unescape_plain c (a ∷ []) h = refl
unescape_plain c (a ∷ b ∷ s) h = rw (h) refl

unescape-escape : (s : Text) → unescape (escape s) ≡ s
unescape-escape [] = refl
unescape-escape (c ∷ s) = elim (Bool-cases (c == b'/')) [
  | inl e ↦ let is : c ≡ b'/' = ground arith in rw (is, unescape-escape s) refl
  | inr n ↦ elim (Bool-cases (c == b'?')) [
    | inl e ↦ let is : c ≡ b'?' = ground arith in rw (is, unescape-escape s) refl
    | inr m ↦ elim (Bool-cases (c == b'%')) [
      | inl e ↦ let is : c ≡ b'%' = ground arith in rw (is, unescape-escape s) refl
      | inr k ↦ rw (n, m, k) (unescape_plain c (escape s) k ∙ ap (λ r. c ∷ r) (unescape-escape s))
    ]
  ]
]

escape_clean : (s : Text) → is_clean (escape s) ≡ true
escape_clean [] = refl
escape_clean (c ∷ s) = elim (Bool-cases (c == b'/')) [
  | inl e ↦ rw (e, escape_clean s) refl
  | inr n ↦ elim (Bool-cases (c == b'?')) [
    | inl e ↦ rw (n, e, escape_clean s) refl
    | inr m ↦ elim (Bool-cases (c == b'%')) [
      | inl e ↦ rw (n, m, e, escape_clean s) refl
      | inr k ↦ rw (n, m, k, n, m, escape_clean s) refl
    ]
  ]
]

urls-PathEscapes : PathEscapes urls
urls-PathEscapes = record {
  escape_clean = escape_clean;
  unescape = unescape;
  unescape-escape = unescape-escape;
  unescape_empty = refl;
  unescape_dot = refl;
  unescape_dots = refl;
}

payment_dots_test : payment urls (codes "instant") (codes "..") ≡ rejected empty_id
unfolding payment
payment_dots_test = refl

build-Addresses_example :
    Addresses urls false
      (codes "ext"
        ∷ codes "v2"
        ∷ codes "payments"
        ∷ codes "instant"
        ∷ codes "a%2Fb"
        ∷ codes "status"
        ∷ [])
      (build urls (op_payment_status (codes "instant") (codes "a/b")))
build-Addresses_example =
    build-Addresses urls urls-PathEscapes (op_payment_status (codes "instant") (codes "a/b"))
