-- ===== src/Dedup/Room.antt =====
-- The eviction makes room, and a push on a state with room.
use go_monobank_sdk.Base.{
  ℕ, zero, suc, ◌+◌, ◌-◌, ◌≤◌, ◌<◌, ◌≡◌, refl, sym, ap, ◌∙◌, true, false, Option, none, some, List,
  [], ◌∷◌, arith, ==_iff, ◌==◌, if◌then◌else◌, length, take, inl, inr, Bool-cases,
}
use go_monobank_sdk.Base.Decimal.{Text, text_eq}
use go_monobank_sdk.Dedup.{
  Element, Deduper, lookup, delete, remove_ref, back, is_empty, evict, push_front,
}
use go_monobank_sdk.Dedup.Keys.{
  member, touch, distinct, distinct-take, length-remove, remove_absent, member-take,
  take_of_length-le,
}
use go_monobank_sdk.Dedup.Elements.{
  values, ref_of, refs_distinct, refs_below, length-values, ref_of-not_member, has_ref-below,
  refs_distinct-remove_ref, refs_below-remove_ref,
}
use go_monobank_sdk.Dedup.Eviction.{
  back-some, values-remove_back, length-remove_back, ref_of-remove_back, lookup-delete,
}
use go_monobank_sdk.Dedup.Valid.{view, IsValid}

refs_below_mono :
    (n : ℕ) (es : List Element) → refs_below n es ≡ true → refs_below (n + 1) es ≡ true
unfolding refs_below
refs_below_mono n [] h = refl
refs_below_mono n (e ∷ es) h = ground (arith, refs_below_mono n es)

back-some_of_pos : (es : List Element) → 0 < length es → (f : Element) × (back es ≡ some f)
back-some_of_pos [] h = absurd (omega arith)
back-some_of_pos (e ∷ es) h = back-some e es

-- The eviction leaves room for one more id, and drops at most the id used longest ago.
pub record Roomy (d f : Deduper) : Type 0 where
  pub valid : IsValid f
  pub room : length f.order < f.capacity
  pub keys : view f ≡ take (d.capacity - 1) (view d)
  pub same : f.capacity ≡ d.capacity
  pub absent : (k : Text) → ref_of k d.order ≡ none → ref_of k f.order ≡ none

evict_full :
    (d : Deduper) (f : Element)
    → IsValid d
    → length d.order ≡ d.capacity
    → back d.order ≡ some f
    → Roomy d (record d { order = remove_ref f.ref d.order; index = delete f.value d.index })
evict_full d f v full h =
    let keys : values (remove_ref f.ref d.order) ≡ take (d.capacity - 1) (view d) =
      values-remove_back d.order f v.refs h ∙ ap (λ (n : ℕ). take (n - 1) (view d)) full in
    let shorter = length-remove_back d.order f h in
    record {
      valid = record {
        positive = v.positive;
        bounded = omega arith;
        ids = rw keys (distinct-take (d.capacity - 1) (view d) v.ids);
        no_empty = rw keys (member-take [] (d.capacity - 1) (view d) v.no_empty);
        refs = refs_distinct-remove_ref f.ref d.order v.refs;
        below = refs_below-remove_ref d.fresh f.ref d.order v.below;
        agrees = λ k.
            lookup-delete f.value k d.index
            ∙ ap (λ (o : Option ℕ). if text_eq f.value k then none else o) (v.agrees k)
            ∙ sym (ref_of-remove_back k d.order f v.refs v.ids h);
      };
      room = omega arith;
      keys = keys;
      same = refl;
      absent = λ k e. ref_of-remove_back k d.order f v.refs v.ids h ∙ ground arith;
    }

pub evict-Roomy : (d : Deduper) → IsValid d → Roomy d (evict d)
unfolding evict
evict-Roomy d v = elim (Bool-cases (length d.order == d.capacity)) [
  | inl full ↦
      let e = (==_iff (length d.order) d.capacity).0 full in
      let (f, h) = back-some_of_pos d.order (rw e (v.positive)) in
      rw (full, h, evict) (evict_full d f v e h)
  | inr less ↦ rw less (record {
    valid = v;
    room = ground (arith, v.bounded);
    keys = sym (
        take_of_length-le (d.capacity - 1) (view d)
          (ground (arith, length-values d.order, v.bounded)));
    same = refl;
    absent = λ k e. e;
  })
]

-- A push of a new id on a state with room.
pub push_front-IsValid :
    (id : Text) (f : Deduper)
    → IsValid f
    → length f.order < f.capacity
    → ref_of id f.order ≡ none
    → is_empty id ≡ false
    → IsValid (push_front id f)
unfolding push_front values distinct member refs_distinct refs_below lookup ref_of
push_front-IsValid id f v room absent named = record {
  positive = v.positive;
  bounded = room;
  ids = ground (arith, v.ids, ref_of-not_member id f.order absent);
  no_empty = ground (arith, v.no_empty);
  refs = ground (arith, v.refs, has_ref-below f.fresh f.fresh f.order v.below);
  below = ground (arith, refs_below_mono f.fresh f.order v.below);
  agrees = λ k. ap (λ (o : Option ℕ). if text_eq id k then some f.fresh else o) (v.agrees k);
}

pub view-push_front : (id : Text) (f : Deduper) → view (push_front id f) ≡ id ∷ view f
unfolding push_front values
view-push_front id f = refl

pub push_front_capacity : (id : Text) (f : Deduper) → (push_front id f).capacity ≡ f.capacity
unfolding push_front
push_front_capacity id f = refl

pub take-touch_new :
    (id : Text) (n : ℕ) (ks : List Text)
    → 0 < n
    → member id ks ≡ false
    → take n (touch id ks) ≡ id ∷ take (n - 1) ks
take-touch_new id zero ks h m = absurd (omega arith)
take-touch_new id (suc n) ks h m = ground (arith, remove_absent id ks)

pub take-touch_known :
    (id : Text) (n : ℕ) (ks : List Text)
    → length ks ≤ n
    → member id ks ≡ true
    → take n (touch id ks) ≡ touch id ks
take-touch_known id n ks h m =
    take_of_length-le n (touch id ks) (omega (arith, length-remove id ks m))
