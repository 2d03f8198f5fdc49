-- ===== src/Tests/Limits.antt =====
-- A KeyedLimiter on concrete keys.
use go_monobank_sdk.Base.{
  ◌≡◌, ◌≢◌, refl, false, not, none, some, [], ◌∷◌, arith, get_elem?, if◌then◌else◌,
}
use go_monobank_sdk.Base.Int.{ℤ, pos, ◌+ℤ◌, ◌-ℤ◌, ◌*ℤ◌, ltb_ℤ}
use go_monobank_sdk.Base.Decimal.{Text, codes}
use go_monobank_sdk.RateLimit.{
  Floats, KeyedLimiter, new_keyed_limiter, find, is_idle, wait_key, evict_idle,
}
use go_monobank_sdk.RateLimit.Keys.{IsValid, unique, address, limiter_of, limiter_of-evict_idle}
use go_monobank_sdk.RateLimit.Isolation.{wait_key-IsValid}

-- Whole numbers in place of floats.
abbrev whole : Floats
whole = record {
  F = ℤ;
  of_int = λ n. n;
  add = λ a b. a +ℤ b;
  sub = λ a b. a -ℤ b;
  mul = λ a b. a *ℤ b;
  div = λ a b. pos 0;
  lt = λ a b. ltb_ℤ a b;
  le = λ a b. not (ltb_ℤ b a);
  to_duration = λ a. a;
}

abbrev fresh : KeyedLimiter whole
fresh = record { every = pos 60; burst = pos 1; idle_ttl = pos 600; limiters = []; heap = [] }

new_keyed_limiter_test : new_keyed_limiter whole (pos 60) (pos 0) (pos 600) ≡ fresh
unfolding new_keyed_limiter
new_keyed_limiter_test = refl

fresh-IsValid : IsValid whole fresh
unfolding unique address find
fresh-IsValid = record {
  once = refl;
  within = λ key a e. absurd (ground arith);
  own = λ key other a e f. absurd (ground arith);
}

abbrev after_one : KeyedLimiter whole
after_one =
    (wait_key whole (codes "a") 10 false (record { now = 11; cancelled = false } ∷ []) fresh).0

wait_key-IsValid_example :
    IsValid whole after_one
    × ((other : Text)
        → codes "a" ≢ other
        → limiter_of whole other after_one ≡ limiter_of whole other fresh)
wait_key-IsValid_example =
    wait_key-IsValid whole (codes "a") 10 false (record { now = 11; cancelled = false } ∷ []) fresh
      fresh-IsValid

limiter_of-evict_idle_example :
    limiter_of whole (codes "a") (evict_idle whole 611 after_one)
    ≡ elim (find whole (codes "a") after_one.limiters) [
      | none ↦ none
      | some b ↦
          if is_idle whole after_one.idle_ttl 611 b then none else get_elem? after_one.heap b.lim
    ]
limiter_of-evict_idle_example =
    limiter_of-evict_idle whole after_one (codes "a") 611 wait_key-IsValid_example.0
