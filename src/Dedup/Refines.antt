-- ===== src/Dedup/Refines.antt =====
-- NewMemoryDeduper, Has and Add against the list of ids.
use go_monobank_sdk.Base.{
  ◌≡◌, refl, sym, ap, ◌∙◌, [], ◌∷◌, arith, if◌then◌else◌, take, inl, inr, Bool-cases, Option-cases,
}
use go_monobank_sdk.Base.Int.{ℤ}
use go_monobank_sdk.Base.Decimal.{Text}
use go_monobank_sdk.Dedup.{Deduper, lookup, is_empty, new_memory_deduper, has, evict, add}
use go_monobank_sdk.Dedup.Keys.{member, touch, distinct}
use go_monobank_sdk.Dedup.Elements.{
  values, ref_of, refs_distinct, refs_below, length-values, ref_of-member, ref_of-not_member,
}
use go_monobank_sdk.Dedup.Valid.{
  view, IsValid, capacity_or_default-pos, moved-IsValid, is_empty-member,
}
use go_monobank_sdk.Dedup.Room.{
  evict-Roomy, push_front-IsValid, view-push_front, push_front_capacity, take-touch_new,
  take-touch_known,
}

-- A new deduper is valid and empty, whatever capacity is asked for.
pub new_memory_deduper-IsValid :
    (c : ℤ) → IsValid (new_memory_deduper c) × (view (new_memory_deduper c) ≡ [])
unfolding new_memory_deduper values distinct member refs_distinct refs_below lookup ref_of
new_memory_deduper-IsValid c = (
  record {
    positive = capacity_or_default-pos c;
    bounded = omega arith;
    ids = refl;
    no_empty = refl;
    refs = refl;
    below = refl;
    agrees = λ k. refl;
  },
  refl,
)

-- On a valid state, Has answers whether the id is held, counts as a use of an id that is, changes
-- nothing otherwise, and keeps the state valid and its capacity.
pub has-view :
    (id : Text) (d : Deduper)
    → IsValid d
    → ((has id d).1 ≡ member id (view d))
      × (view (has id d).0 ≡ (if member id (view d) then touch id (view d) else view d))
      × IsValid (has id d).0
      × ((has id d).0.capacity ≡ d.capacity)
unfolding has
has-view id d v = elim (Bool-cases (is_empty id)) [
  | inl e ↦
      let absent = is_empty-member id (view d) v.no_empty e in rw (e, absent) (refl, refl, v, refl)
  | inr e ↦ rw e (elim (Option-cases (ref_of id d.order)) [
    | inl unknown ↦
        let absent = ref_of-not_member id d.order unknown in
        rw (v.agrees id, unknown, absent, has) (refl, refl, v, refl)
    | inr (r, known) ↦
        let present = ref_of-member id d.order r known in
        let (valid, keys) = moved-IsValid d id r v known in
        rw (v.agrees id, known, present, has) (refl, keys, valid, refl)
  ])
]

-- On a valid state, an empty id changes nothing in Add; any other becomes the id used last, and of
-- the ids the capacity's worth used last stays. The state stays valid and keeps its capacity.
pub add-view :
    (id : Text) (d : Deduper)
    → IsValid d
    → (view (add id d) ≡ (if is_empty id then view d else take d.capacity (touch id (view d))))
      × IsValid (add id d)
      × ((add id d).capacity ≡ d.capacity)
unfolding add
add-view id d v = elim (Bool-cases (is_empty id)) [
  | inl e ↦ rw e (refl, v, refl)
  | inr e ↦ rw e (elim (Option-cases (ref_of id d.order)) [
    | inl unknown ↦
        let r = evict-Roomy d v in
        rw (v.agrees id, unknown, add)
          (
            view-push_front id (evict d)
                ∙ ap (◌∷◌ id) r.keys
                ∙ sym (
                    take-touch_new id d.capacity (view d) v.positive
                      (ref_of-not_member id d.order unknown)),
            push_front-IsValid id (evict d) r.valid r.room (r.absent id unknown) e,
            push_front_capacity id (evict d) ∙ r.same,
          )
    | inr (r, known) ↦
        let (valid, keys) = moved-IsValid d id r v known in
        rw (v.agrees id, known, add)
          (
            keys
                ∙ sym (
                    take-touch_known id d.capacity (view d)
                      (omega (arith, length-values d.order, v.bounded))
                      (ref_of-member id d.order r known)),
            valid,
            refl,
          )
  ])
]
