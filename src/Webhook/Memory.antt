-- ===== src/Webhook/Memory.antt =====
-- The MemoryDeduper as a Deduper of the handler (webhook/dedup.go).
use go_monobank_sdk.Base.{
  ℕ, zero, suc, ◌<◌, ◌≡◌, ◌∙◌, inl, inr, true, List, ◌∷◌, arith, Bool-cases, take,
}
use go_monobank_sdk.Base.Decimal.{Text, text_eq_refl}
use go_monobank_sdk.Dedup.{has, add, is_empty}
use go_monobank_sdk.Dedup.Keys.{member, touch}
use go_monobank_sdk.Dedup.Refines.{has-view, add-view}
use go_monobank_sdk.Dedup.Valid.{IsValid, view}
use go_monobank_sdk.Webhook.{Deduper}

-- The id in front of a list that is cut to a positive length.
member-take-touch :
    (k : Text) (n : ℕ) (ks : List Text) → 0 < n → member k (take n (touch k ks)) ≡ true
unfolding member
member-take-touch k zero ks h = elim h [ ]
member-take-touch k (suc n) ks h = ground (arith, text_eq_refl k)

member-touch : (k : Text) (ks : List Text) → member k (touch k ks) ≡ true
unfolding member
member-touch k ks = ground (arith, text_eq_refl k)

pub memory_has-add :
    (c : ℕ) (id : Text) (s : go_monobank_sdk.Dedup.Deduper)
    → IsValid s
    → (has (c ∷ id) (add (c ∷ id) s)).1 ≡ true
unfolding is_empty
memory_has-add c id s good =
    let (keys, still, _) = add-view (c ∷ id) s good in
    let (answer, _, _, _) = has-view (c ∷ id) (add (c ∷ id) s) still in
    answer ∙ rw keys (member-take-touch (c ∷ id) s.capacity (view s) good.positive)

pub memory_has-has :
    (id : Text) (s : go_monobank_sdk.Dedup.Deduper)
    → IsValid s
    → (has id (has id s).0).1 ≡ (has id s).1
memory_has-has id s good =
    let (answer, keys, still, _) = has-view id s good in
    let (answer', _, _, _) = has-view id (has id s).0 still in
    answer' ∙ elim (Bool-cases (member id (view s))) [
      | inl present ↦ ground (arith, member-touch id (view s))
      | inr absent ↦ ground arith
    ]

-- A MemoryDeduper keeps what the handler relies on.
abbrev pub memory_deduper : Deduper
memory_deduper = record {
  State = go_monobank_sdk.Dedup.Deduper;
  Good = IsValid;
  has = has;
  add = add;
  has-Good = λ id s good. (has-view id s good).2;
  add-Good = λ id s good. (add-view id s good).1;
  has-add = memory_has-add;
  has-has = memory_has-has;
}
