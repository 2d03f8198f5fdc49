-- ===== src/RateLimit/Keys.antt =====
-- The keys of a KeyedLimiter (ratelimit.go): each has a limiter of its own.
use go_monobank_sdk.Base.{
  ℕ, zero, suc, ◌<◌, Bool, true, false, ◌&&◌, Option, none, some, List, [], ◌∷◌, ◌++◌, ◌≡◌, ◌⊎◌,
  refl, ap, sym, ◌∙◌, arith, inl, inr, Bool-cases, if◌then◌else◌, length, length-append, get_elem?,
}
use go_monobank_sdk.Base.Int.{ℤ}
use go_monobank_sdk.Base.Decimal.{Text, text_eq, eq_of_text_eq}
use go_monobank_sdk.RateLimit.{
  Floats, Bucket, Limiter, KeyedLimiter, new_limiter, find, touch, bucket, is_idle, keep_used,
  evict_idle,
}

module _ (fl : Floats) where
  abbrev pub Buckets : Type 0
  Buckets = List (Text × Bucket)

  abbrev pub place : Option Bucket → Option ℕ
  place none = none
  place (some b) = some b.lim

  -- Where the limiter of a key stands.
  unfoldable pub address : Text → Buckets → Option ℕ
  unfolding find
  address key m = place (find fl key m)

  abbrev is_none : Option Bucket → Bool
  is_none none = true
  is_none (some b) = false

  -- No key stands twice.
  unfoldable pub unique : Buckets → Bool
  unfolding find
  unique [] = true
  unique ((k, b) ∷ rest) = is_none (find fl k rest) && unique rest

  -- Each key once, and a limiter in the heap for each that is no other's.
  pub record IsValid (k : KeyedLimiter fl) : Type 0 where
    pub once : unique k.limiters ≡ true
    pub within : (key : Text) (a : ℕ) → address key k.limiters ≡ some a → a < length k.heap
    pub own :
        (key other : Text) (a : ℕ)
        → address key k.limiters ≡ some a
        → address other k.limiters ≡ some a
        → key ≡ other

  abbrev pub at_place : List (Limiter fl) → Option ℕ → Option (Limiter fl)
  at_place heap none = none
  at_place heap (some a) = get_elem? heap a

  -- The limiter of a key, with its tokens.
  unfoldable pub limiter_of : Text → KeyedLimiter fl → Option (Limiter fl)
  unfolding address
  limiter_of key k = at_place k.heap (address key k.limiters)

  pub address-touch :
      (key other : Text) (now : ℕ) (m : Buckets)
      → address other (touch fl key now m) ≡ address other m
  unfolding address find touch
  address-touch key other now [] = refl
  address-touch key other now ((k, b) ∷ rest) = ground (arith, address-touch key other now rest)

  is_none_place : (o : Option Bucket) → (is_none o ≡ true) ⊎ ((a : ℕ) × (place o ≡ some a))
  is_none_place none = inl refl
  is_none_place (some b) = inr (b.lim, refl)

  unique-touch :
      (key : Text) (now : ℕ) (m : Buckets) → unique m ≡ true → unique (touch fl key now m) ≡ true
  unfolding unique touch address find
  unique-touch key now [] u = refl
  unique-touch key now ((k, b) ∷ rest) u =
      let same : place (find fl k (touch fl key now rest)) ≡ place (find fl k rest) =
        address-touch key k now rest in
      let later = unique-touch key now rest in ground arith

  find-keep_used :
      (key : Text) (ttl : ℤ) (now : ℕ) (m : Buckets)
      → unique m ≡ true
      → find fl key (keep_used fl ttl now m) ≡ elim (find fl key m) [
        | none ↦ none
        | some b ↦ if is_idle fl ttl now b then none else some b
      ]
  unfolding find keep_used unique
  find-keep_used key ttl now [] u = refl
  find-keep_used key ttl now ((k, b) ∷ rest) u =
      let later = find-keep_used key ttl now rest (ground arith) in
      elim (Bool-cases (text_eq k key)) [
        | inl here ↦
            let same = eq_of_text_eq k key here in
            let gone : find fl k rest ≡ none = ground arith in
            let gone' : find fl key rest ≡ none =
              ap (λ (x : Text). find fl x rest) (sym same) ∙ gone in
            ground arith
        | inr other ↦ ground arith
      ]

  at_place_kept :
      (heap : List (Limiter fl)) (ttl : ℤ) (now : ℕ) (o : Option Bucket)
      → at_place heap
          (place (elim o [ none ↦ none | some b ↦ if is_idle fl ttl now b then none else some b ]))
        ≡ elim o [
          | none ↦ none
          | some b ↦ if is_idle fl ttl now b then none else get_elem? heap b.lim
        ]
  at_place_kept heap ttl now none = refl
  at_place_kept heap ttl now (some b) = ground arith

  -- Of the buckets, the sweeper drops just those that were last used longer ago than the idle time: a
  -- key without a bucket gets none, and a bucket that stays keeps its limiter and so its tokens.
  pub limiter_of-evict_idle :
      (k : KeyedLimiter fl) (key : Text) (now : ℕ)
      → IsValid k
      → limiter_of key (evict_idle fl now k) ≡ elim (find fl key k.limiters) [
        | none ↦ none
        | some b ↦ if is_idle fl k.idle_ttl now b then none else get_elem? k.heap b.lim
      ]
  unfolding limiter_of address evict_idle
  limiter_of-evict_idle k key now valid =
      ap (λ (o : Option Bucket). at_place k.heap (place o))
        (find-keep_used key k.idle_ttl now k.limiters valid.once)
      ∙ at_place_kept k.heap k.idle_ttl now (find fl key k.limiters)

  unique-keep_used :
      (ttl : ℤ) (now : ℕ) (m : Buckets) → unique m ≡ true → unique (keep_used fl ttl now m) ≡ true
  unfolding unique keep_used
  unique-keep_used ttl now [] u = refl
  unique-keep_used ttl now ((k, b) ∷ rest) u =
      let later = unique-keep_used ttl now rest (ground arith) in
      let still = find-keep_used k ttl now rest (ground arith) in ground arith

  pub get_elem?-append :
      (xs ys : List (Limiter fl)) (i : ℕ) → i < length xs → get_elem? (xs ++ ys) i ≡ get_elem? xs i
  get_elem?-append [] ys i h = absurd (omega arith)
  get_elem?-append (x ∷ xs) ys zero h = refl
  get_elem?-append (x ∷ xs) ys (suc i) h = get_elem?-append xs ys i (omega arith)

  -- `bucket`, where the key has one.
  pub bucket-some :
      (key : Text) (now : ℕ) (k : KeyedLimiter fl) (b : Bucket)
      → find fl key k.limiters ≡ some b
      → bucket fl key now k ≡ (record k { limiters = touch fl key now k.limiters }, b.lim)
  unfolding bucket
  bucket-some key now k b e = rw (e, bucket) refl

  pub bucket-none :
      (key : Text) (now : ℕ) (k : KeyedLimiter fl)
      → find fl key k.limiters ≡ none
      → bucket fl key now k ≡ (
        record k {
          limiters = (key, record { lim = length k.heap; last_access = now }) ∷ k.limiters;
          heap = k.heap ++ new_limiter fl k.every k.burst now ∷ [];
        },
        length k.heap,
      )
  unfolding bucket
  bucket-none key now k e = rw (e, bucket) refl

  pub address_cons :
      (key other : Text) (b : Bucket) (m : Buckets)
      → address other ((key, b) ∷ m) ≡ (if text_eq key other then some b.lim else address other m)
  unfolding address find
  address_cons key other b m = ground arith

  pub touched-IsValid :
      (key : Text) (now : ℕ) (k : KeyedLimiter fl)
      → IsValid k
      → IsValid (record k { limiters = touch fl key now k.limiters })
  touched-IsValid key now k valid = record {
    once = unique-touch key now k.limiters valid.once;
    within = λ x a e. valid.within x a (sym (address-touch key x now k.limiters) ∙ e);
    own = λ x y a e f.
        valid.own x y a (sym (address-touch key x now k.limiters) ∙ e)
          (sym (address-touch key y now k.limiters) ∙ f);
  }

  -- A key of the longer map is the new one, in the new place, or one from before.
  added :
      (key other : Text) (b : Bucket) (m : Buckets) (a : ℕ)
      → address other ((key, b) ∷ m) ≡ some a
      → ((key ≡ other) × (a ≡ b.lim)) ⊎ (address other m ≡ some a)
  added key other b m a e =
      let e' = sym (address_cons key other b m) ∙ e in
      elim (Bool-cases (text_eq key other)) [
        | inl same ↦ inl (eq_of_text_eq key other same, ground arith)
        | inr differs ↦ inr (ground arith)
      ]

  pub new_key-IsValid :
      (key : Text) (b : Bucket) (l : Limiter fl) (k : KeyedLimiter fl)
      → IsValid k
      → find fl key k.limiters ≡ none
      → b.lim ≡ length k.heap
      → IsValid (record k { limiters = (key, b) ∷ k.limiters; heap = k.heap ++ l ∷ [] })
  unfolding unique
  new_key-IsValid key b l k valid absent end =
      let longer : length (k.heap ++ l ∷ []) ≡ suc (length k.heap) =
        length-append k.heap (l ∷ []) ∙ omega arith in
      let old = valid.once in
      record {
        once = ground arith;
        within = λ x a e. elim (added key x b k.limiters a e) [
          | inl (same, new) ↦ omega arith
          | inr before ↦ let h = valid.within x a before in omega arith
        ];
        own = λ x y a e f. elim (added key x b k.limiters a e) [
          | inl (same, new) ↦ elim (added key y b k.limiters a f) [
            | inl (same', new') ↦ sym same ∙ same'
            | inr before' ↦ let h = valid.within y a before' in absurd (omega arith)
          ]
          | inr before ↦ elim (added key y b k.limiters a f) [
            | inl (same', new') ↦ let h = valid.within x a before in absurd (omega arith)
            | inr before' ↦ valid.own x y a before before'
          ]
        ];
      }
