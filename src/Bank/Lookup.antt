-- ===== src/Bank/Lookup.antt =====
-- The lookups by id (bank/data.go) and the pointers they return.
use mathlib.Core.Path.{subst}
use go_monobank_sdk.Base.{
  ℕ, zero, suc, ◌+◌, ◌≤◌, ◌<◌, Bool, true, false, none, some, List, [], ◌∷◌, ◌≡◌, ◌≢◌, ◌⊎◌, inl,
  inr, refl, arith, ◌==◌, Bool-cases, get_elem?, length,
}
use go_monobank_sdk.Base.Decimal.{Text, text_eq, text_eq_refl, eq_of_text_eq}
use go_monobank_sdk.Bank.Accounts.{Account, Slice, find_from, has_account_id, by_id}

cell_at : {A : Type 0} (xs : List A) (i : ℕ) → i < length xs → (a : A) × (get_elem? xs i ≡ some a)
cell_at [] i h = absurd (omega arith)
cell_at (x ∷ xs) zero h = (x, refl)
cell_at (x ∷ xs) (suc i) h = cell_at xs i (omega arith)

module _ {A : Type 0} (test : A → Bool) (cells : List A) where
  -- No cell from `low` on and before `high` passes the test.
  Fails : ℕ → ℕ → Type 0
  Fails low high =
      (q : ℕ) (b : A) → low ≤ q → q < high → get_elem? cells q ≡ some b → test b ≡ false

  -- The address is one of the `n` from `at` on, its cell passes the test and none before it does.
  FirstAt : ℕ → ℕ → ℕ → Type 0
  FirstAt at n p =
      (at ≤ p)
      × (p < at + n)
      × ((a : A) × (get_elem? cells p ≡ some a) × (test a ≡ true))
      × Fails at p

  none_from :
      (at high : ℕ) (x : A)
      → get_elem? cells at ≡ some x
      → test x ≡ false
      → Fails (at + 1) high
      → Fails at high
  unfolding Fails
  none_from at high x got fails rest q b low lt here = elim (Bool-cases (q == at)) [
    | inl same ↦
        let is : q ≡ at = ground arith in
        let found : get_elem? cells at ≡ some b =
          subst (λ (k : ℕ). get_elem? cells k ≡ some b) is here in
        ground (arith, found, got, fails)
    | inr other ↦ rest q b (ground arith) lt here
  ]

  find_from-FirstAt :
      (at n : ℕ)
      → at + n ≤ length cells
      → ((p : ℕ) × (find_from test cells at n ≡ some p) × FirstAt at n p)
        ⊎ ((find_from test cells at n ≡ none) × Fails at (at + n))
  unfolding find_from FirstAt Fails
  find_from-FirstAt at zero h = inr (refl, λ q b low lt here. absurd (omega arith))
  find_from-FirstAt at (suc n) h =
      let (x, got) = cell_at cells at (omega arith) in
      elim (Bool-cases (test x)) [
        | inl good ↦ inl (
          at,
          rw (find_from, got, good) refl,
          (omega arith, omega arith, (x, got, good), λ q b low lt here. absurd (omega arith)),
        )
        | inr bad ↦ elim (find_from-FirstAt (at + 1) n (omega arith)) [
          | inl (p, e, (low, high, there, before)) ↦ inl (
            p,
            rw (got, bad, find_from) e,
            (omega (arith, low), omega (arith, high), there, none_from at p x got bad before),
          )
          | inr (e, none_there) ↦ inr (
            rw (got, bad, find_from) e,
            λ q b low lt here.
                none_from at (at + suc n) x got bad
                  (λ q' b' low' lt' here'. none_there q' b' low' (omega arith) here') q b low lt
                  here,
          )
        ]
      ]

different : (id : Text) (b : Account) → has_account_id id b ≡ false → b.account_id ≢ id
different id b fails same =
    let yes : text_eq b.account_id id ≡ true =
      subst (λ (k : Text). text_eq b.account_id k ≡ true) same (text_eq_refl b.account_id) in
    absurd (ground arith)

-- Accounts.ByID on a slice inside a store leaves the store as it is. Where it returns a pointer, that
-- is the address of a cell of the slice itself, so that what is written there stands in the slice;
-- that account has the id, and none before it in the slice has. Where it returns none, no account of
-- the slice has the id.
pub by_id_lem :
    (id : Text) (cells : List Account) (s : Slice)
    → s.base + s.size ≤ length cells
    → ((p : ℕ) × (by_id id cells s ≡ (cells, some p))
        × (s.base ≤ p)
        × (p < s.base + s.size)
        × ((a : Account) × (get_elem? cells p ≡ some a) × (a.account_id ≡ id))
        × ((q : ℕ) (b : Account)
            → s.base ≤ q
            → q < p
            → get_elem? cells q ≡ some b
            → b.account_id ≢ id))
      ⊎ ((by_id id cells s ≡ (cells, none))
          × ((q : ℕ) (b : Account)
              → s.base ≤ q
              → q < s.base + s.size
              → get_elem? cells q ≡ some b
              → b.account_id ≢ id))
unfolding by_id FirstAt Fails
by_id_lem id cells s inside =
    elim (find_from-FirstAt (has_account_id id) cells s.base s.size inside) [
      | inl (p, e, (low, high, (a, at, good), before)) ↦ inl (
        p,
        rw (e) refl,
        low,
        high,
        (a, at, eq_of_text_eq a.account_id id good),
        λ q b q_low lt here same. different id b (before q b q_low lt here) same,
      )
      | inr (e, none_there) ↦
          inr
            (rw (e) refl, λ q b low lt here same. different id b (none_there q b low lt here) same)
    ]
