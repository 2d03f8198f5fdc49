-- ===== src/Options/Secure.antt =====
-- The guard of New (options.go) against a base URL in cleartext.
use go_monobank_sdk.Base.{
  Bool, true, false, not, ◌&&◌, ◌||◌, none, some, List, [], ◌∷◌, ◌≡◌, ◌↔◌, refl, arith, Bool-cases,
  inl, inr,
}
use go_monobank_sdk.Base.Decimal.{Text}
use go_monobank_sdk.Options.{
  Urls, Client, ClientOption, with_base_url, with_insecure_base_url, base_client, is_insecure_url,
  is_insecure_base_url, set_base_url, apply, apply_all, new,
}

-- What an option says of WithInsecureBaseURL agrees with `b`.
abbrev pub says : Bool → ClientOption → Bool
says b (with_insecure_base_url true) = b
says b (with_insecure_base_url false) = not b
says b _ = true

abbrev pub all_say : Bool → List ClientOption → Bool
all_say b [] = true
all_say b (o ∷ os) = says b o && all_say b os

abbrev pub is_flag : ClientOption → Bool
is_flag (with_insecure_base_url allow) = true
is_flag _ = false

-- WithInsecureBaseURL(b) in every place where it stands, and in one at least where `b` is true.
abbrev pub has_flag : List ClientOption → Bool
has_flag [] = false
has_flag (o ∷ os) = is_flag o || has_flag os

module _ (urls : Urls) where
  abbrev pub parses : Text → Bool
  parses uri = elim (urls.parse uri) [ none ↦ false | some u ↦ true ]

  -- A base URL that parses and that is allowed.
  abbrev pub accepts : Bool → ClientOption → Bool
  accepts b (with_base_url uri) = parses uri && (b || not (is_insecure_base_url urls uri))
  accepts b _ = true

  abbrev pub all_accept : Bool → List ClientOption → Bool
  all_accept b [] = true
  all_accept b (o ∷ os) = accepts b o && all_accept b os

  apply_allow :
      (b : Bool) (o : ClientOption) (c : Client)
      → says b o ≡ true
      → c.allow_insecure_base_url ≡ b
      → (apply urls o c).allow_insecure_base_url ≡ b
  unfolding apply set_base_url
  apply_allow b o c s a = ground arith

  flag_allow :
      (b : Bool) (o : ClientOption) (c : Client)
      → says b o ≡ true
      → is_flag o ≡ true
      → (apply urls o c).allow_insecure_base_url ≡ b
  unfolding apply
  flag_allow b o c s f = ground arith

  apply-opt_err :
      (b : Bool) (o : ClientOption) (c : Client)
      → c.allow_insecure_base_url ≡ b
      → ((apply urls o c).opt_err ≡ none) ↔ ((c.opt_err ≡ none) × (accepts b o ≡ true))
  unfolding apply set_base_url is_insecure_base_url
  apply-opt_err b o c a = ground arith

  apply_secure :
      (o : ClientOption) (c : Client)
      → c.allow_insecure_base_url ≡ false
      → is_insecure_url urls c.base_url ≡ false
      → is_insecure_url urls (apply urls o c).base_url ≡ false
  unfolding apply set_base_url is_insecure_base_url
  apply_secure o c a k = ground arith

  apply_all_allow :
      (b : Bool) (os : List ClientOption) (c : Client)
      → all_say b os ≡ true
      → c.allow_insecure_base_url ≡ b
      → (apply_all urls os c).allow_insecure_base_url ≡ b
  unfolding apply_all
  apply_all_allow b [] c s a = a
  apply_all_allow b (o ∷ os) c s a =
      apply_all_allow b os (apply urls o c) (ground arith) (apply_allow b o c (ground arith) a)

  apply_all-opt_err :
      (b : Bool) (os : List ClientOption) (c : Client)
      → all_say b os ≡ true
      → c.allow_insecure_base_url ≡ b
      → ((apply_all urls os c).opt_err ≡ none) ↔ ((c.opt_err ≡ none) × (all_accept b os ≡ true))
  unfolding apply_all
  apply_all-opt_err b [] c s a = (λ e. (e, refl), λ p. p.0)
  apply_all-opt_err b (o ∷ os) c s a =
      let here = apply-opt_err b o c a in
      let rest =
        apply_all-opt_err b os (apply urls o c) (ground arith)
          (apply_allow b o c (ground arith) a) in
      (
        λ e.
            let (now, later) = rest.0 e in
            let (before, first) = here.0 now in (before, ground arith),
        λ p. rest.1 (here.1 (p.0, ground arith), ground arith),
      )

  apply_all_secure :
      (os : List ClientOption) (c : Client)
      → all_say false os ≡ true
      → c.allow_insecure_base_url ≡ false
      → is_insecure_url urls c.base_url ≡ false
      → is_insecure_url urls (apply_all urls os c).base_url ≡ false
  unfolding apply_all
  apply_all_secure [] c s a k = k
  apply_all_secure (o ∷ os) c s a k =
      apply_all_secure os (apply urls o c) (ground arith) (apply_allow false o c (ground arith) a)
        (apply_secure o c a k)

  -- A flag that is there settles what the first pass finds, whatever the client was before.
  probe_allow :
      (b : Bool) (os : List ClientOption) (c : Client)
      → all_say b os ≡ true
      → has_flag os ≡ true
      → (apply_all urls os c).allow_insecure_base_url ≡ b
  unfolding apply_all
  probe_allow b [] c s h = absurd (ground arith)
  probe_allow b (o ∷ os) c s h = elim (Bool-cases (is_flag o)) [
    | inl flag ↦
        apply_all_allow b os (apply urls o c) (ground arith) (flag_allow b o c (ground arith) flag)
    | inr none_here ↦ probe_allow b os (apply urls o c) (ground arith) (ground arith)
  ]

  new_allow :
      (b : Bool) (os : List ClientOption)
      → all_say b os ≡ true
      → (has_flag os || not b) ≡ true
      → (apply_all urls os base_client).allow_insecure_base_url ≡ b
  new_allow true os s h = probe_allow true os base_client s (ground arith)
  new_allow false os s h = apply_all_allow false os base_client s refl

  -- Where the WithInsecureBaseURL options agree on `b`, and one is there if `b` is true: New gives a
  -- client with no option error just if each WithBaseURL, wherever it stands among the options, has
  -- a URL that parses and that is https, of the loopback or without a scheme, or `b` is true.
  pub new-opt_err :
      (b : Bool) (os : List ClientOption)
      → all_say b os ≡ true
      → (has_flag os || not b) ≡ true
      → ((new urls os).opt_err ≡ none) ↔ (all_accept b os ≡ true)
  unfolding new
  new-opt_err b os s h =
      let allow = new_allow b os s h in
      let start : Client = record base_client {
        allow_insecure_base_url = (apply_all urls os base_client).allow_insecure_base_url;
      } in
      let both = apply_all-opt_err b os start s allow in (λ e. (both.0 e).1, λ a. both.1 (refl, a))

  -- With no WithInsecureBaseURL(true) among the options, the client that New gives, used or not, has
  -- a base URL that is https, of the loopback or without a scheme.
  pub new_secure :
      (os : List ClientOption)
      → all_say false os ≡ true
      → is_insecure_url urls (new urls os).base_url ≡ false
  unfolding new is_insecure_url
  new_secure os s =
      apply_all_secure os
        (record base_client {
          allow_insecure_base_url = (apply_all urls os base_client).allow_insecure_base_url;
        })
        s (apply_all_allow false os base_client s refl) refl
