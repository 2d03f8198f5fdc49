-- ===== src/RateLimit/Isolation.antt =====
-- WaitKey (ratelimit.go): waiting on one key leaves the tokens of every other key.
use go_monobank_sdk.Base.{
  ℕ, ◌<◌, Bool, false, Option, none, some, List, [], ◌∷◌, ◌++◌, ◌≡◌, ◌≢◌, refl, ap, sym, ◌∙◌, arith,
  inl, inr, Bool-cases, Option-cases, if◌then◌else◌, length, get_or, set, length-set,
  get_elem?-set_ne,
}
use go_monobank_sdk.Base.Decimal.{Text, text_eq, text_eq_refl, eq_of_text_eq}
use go_monobank_sdk.RateLimit.{
  Floats, Moment, Bucket, Limiter, KeyedLimiter, new_limiter, find, bucket, wait, wait_key,
}
use go_monobank_sdk.RateLimit.Keys.{
  address, IsValid, limiter_of, at_place, place, bucket-some, bucket-none, touched-IsValid,
  new_key-IsValid, address-touch, address_cons, get_elem?-append,
}

module _ (fl : Floats) where
  spent-IsValid :
      (k : KeyedLimiter fl) (at : ℕ) (l : Limiter fl)
      → IsValid fl k
      → IsValid fl (record k { heap = set k.heap at l })
  spent-IsValid k at l valid = record {
    once = valid.once;
    within =
        λ x a e. let h = valid.within x a e in let size = length-set k.heap at l in omega arith;
    own = valid.own;
  }

  at_place-set :
      (heap : List (Limiter fl)) (at : ℕ) (l : Limiter fl) (o : Option ℕ)
      → o ≢ some at
      → at_place fl (set heap at l) o ≡ at_place fl heap o
  at_place-set heap at l none ne = refl
  at_place-set heap at l (some a) ne = get_elem?-set_ne heap l (λ e. ne (ap some (sym e)))

  spent_other :
      (k : KeyedLimiter fl) (at : ℕ) (l : Limiter fl) (key other : Text)
      → IsValid fl k
      → address fl key k.limiters ≡ some at
      → key ≢ other
      → limiter_of fl other (record k { heap = set k.heap at l }) ≡ limiter_of fl other k
  unfolding limiter_of
  spent_other k at l key other valid e ne =
      at_place-set k.heap at l (address fl other k.limiters) (λ f. ne (valid.own key other at e f))

  -- What `bucket` gives: a valid limiter with the key in its place, and the others as before.
  record Bucketed (key : Text) (k : KeyedLimiter fl) (r : KeyedLimiter fl × ℕ) : Type 0 where
    valid : IsValid fl r.0
    place : address fl key r.0.limiters ≡ some r.1
    others : (other : Text) → key ≢ other → limiter_of fl other r.0 ≡ limiter_of fl other k

  differs : (key other : Text) → key ≢ other → text_eq key other ≡ false
  differs key other ne = elim (Bool-cases (text_eq key other)) [
    | inl same ↦ absurd (ne (eq_of_text_eq key other same))
    | inr e ↦ e
  ]

  at_place-append :
      (heap : List (Limiter fl)) (l : Limiter fl) (o : Option ℕ)
      → ((a : ℕ) → o ≡ some a → a < length heap)
      → at_place fl (heap ++ l ∷ []) o ≡ at_place fl heap o
  at_place-append heap l none h = refl
  at_place-append heap l (some a) h = get_elem?-append fl heap (l ∷ []) a (h a refl)

  address_found :
      (key : Text) (k : KeyedLimiter fl) (b : Bucket)
      → find fl key k.limiters ≡ some b
      → address fl key k.limiters ≡ some b.lim
  unfolding address
  address_found key k b e = ap (place fl) e

  first_there :
      (key : Text) (b : Bucket) (k : KeyedLimiter fl)
      → (if text_eq key key then some b.lim else address fl key k.limiters) ≡ some b.lim
  first_there key b k = rw (text_eq_refl key) refl

  not_first :
      (key other : Text) (b : Bucket) (k : KeyedLimiter fl)
      → key ≢ other
      → (if text_eq key other then some b.lim else address fl other k.limiters)
        ≡ address fl other k.limiters
  not_first key other b k ne = rw (differs key other ne) refl

  bucket-Bucketed :
      (key : Text) (now : ℕ) (k : KeyedLimiter fl)
      → IsValid fl k
      → Bucketed key k (bucket fl key now k)
  unfolding limiter_of
  bucket-Bucketed key now k valid = elim (Option-cases (find fl key k.limiters)) [
    | inr (b, e) ↦ rw (bucket-some fl key now k b e) (record {
      valid = touched-IsValid fl key now k valid;
      place = address-touch fl key key now k.limiters ∙ address_found key k b e;
      others = λ other ne. ap (at_place fl k.heap) (address-touch fl key other now k.limiters);
    })
    | inl e ↦
        let l = new_limiter fl k.every k.burst now in
        let b : Bucket = record { lim = length k.heap; last_access = now } in
        rw (bucket-none fl key now k e) (record {
          valid = new_key-IsValid fl key b l k valid e refl;
          place = address_cons fl key key b k.limiters ∙ first_there key b k;
          others = λ other ne.
              ap (at_place fl (k.heap ++ l ∷ []))
                (address_cons fl key other b k.limiters ∙ not_first key other b k ne)
              ∙ at_place-append k.heap l (address fl other k.limiters) (valid.within other);
        })
  ]

  -- On a valid limiter, WaitKey for one key leaves the limiter valid, and every other key its
  -- limiter with its tokens, or none, whatever the turns of the wait meet.
  pub wait_key-IsValid :
      (key : Text) (now : ℕ) (dead : Bool) (ms : List Moment) (k : KeyedLimiter fl)
      → IsValid fl k
      → IsValid fl (wait_key fl key now dead ms k).0
        × ((other : Text)
            → key ≢ other
            → limiter_of fl other (wait_key fl key now dead ms k).0 ≡ limiter_of fl other k)
  unfolding wait_key
  wait_key-IsValid key now dead ms k valid =
      let r = bucket fl key now k in
      let b = bucket-Bucketed key now k valid in
      let l = (wait fl dead ms (get_or r.0.heap r.1 (new_limiter fl k.every k.burst now))).0 in
      (
        spent-IsValid r.0 r.1 l b.valid,
        λ other ne. spent_other r.0 r.1 l key other b.valid b.place ne ∙ b.others other ne,
      )
