-- ===== src/Dedup/Valid.antt =====
-- The list of ids that a deduper stands for, and the invariant that ties the index to the elements.
use go_monobank_sdk.Base.{
  ℕ, ◌≤◌, ◌<◌, ◌≡◌, sym, ap, ◌∙◌, true, false, some, List, [], ◌∷◌, arith, length,
}
use go_monobank_sdk.Base.Int.{ℤ}
use go_monobank_sdk.Base.Decimal.{Text, eq_of_text_eq}
use go_monobank_sdk.Dedup.{Deduper, lookup, move_to_front, capacity_or_default, is_empty}
use go_monobank_sdk.Dedup.Keys.{
  member, touch, distinct, distinct-touch, length-remove, member-remove,
}
use go_monobank_sdk.Dedup.Elements.{
  values, ref_of, refs_distinct, refs_below, length-values, ref_of-member, Moved,
  move_to_front-Moved, ref_of-move_to_front,
}

-- The ids that a deduper holds, the one used last in front.
abbrev pub view : Deduper → List Text
view d = values d.order

pub record IsValid (d : Deduper) : Type 0 where
  pub positive : 0 < d.capacity
  pub bounded : length d.order ≤ d.capacity
  pub ids : distinct (view d) ≡ true
  pub no_empty : member [] (view d) ≡ false
  pub refs : refs_distinct d.order ≡ true
  pub below : refs_below d.fresh d.order ≡ true
  pub agrees : (k : Text) → lookup k d.index ≡ ref_of k d.order

pub capacity_or_default-pos : (c : ℤ) → 0 < capacity_or_default c
capacity_or_default-pos c = ground arith

-- A state with the element of a known id moved to the front.
pub moved-IsValid :
    (d : Deduper) (k : Text) (r : ℕ)
    → IsValid d
    → ref_of k d.order ≡ some r
    → IsValid (record d { order = move_to_front r d.order })
      × (view (record d { order = move_to_front r d.order }) ≡ touch k (view d))
unfolding member
moved-IsValid d k r v h =
    let m : Moved k d.fresh d.order (move_to_front r d.order) =
      move_to_front-Moved k d.fresh r d.order v.refs v.below h in
    let known : member k (view d) ≡ true = ref_of-member k d.order r h in
    (
      record {
        positive = v.positive;
        bounded = omega (
          arith,
          length-values (move_to_front r d.order),
          length-values d.order,
          ap length m.keys,
          length-remove k (view d) known,
          v.bounded,
        );
        ids = rw (m.keys) (distinct-touch k (view d) v.ids);
        no_empty =
            rw (m.keys)
              (ground (arith, member-remove k [] (view d), eq_of_text_eq k [], v.no_empty));
        refs = m.refs;
        below = m.below;
        agrees = λ j. v.agrees j ∙ sym (ref_of-move_to_front j k r d.order v.refs h);
      },
      m.keys,
    )

pub is_empty-member :
    (k : Text) (ks : List Text) → member [] ks ≡ false → is_empty k ≡ true → member k ks ≡ false
is_empty-member [] ks h e = h
is_empty-member (c ∷ k) ks h e = cc
