-- ===== src/Dedup/Eviction.antt =====
-- Dropping the element at the back of the list, which holds the id used longest ago.
use go_monobank_sdk.Base.{
  ℕ, ◌+◌, ◌-◌, ◌≡◌, refl, true, none, some, List, [], ◌∷◌, arith, if◌then◌else◌, length, take,
}
use go_monobank_sdk.Base.Decimal.{Text, text_eq, text_eq_refl, eq_of_text_eq}
use go_monobank_sdk.Dedup.{Element, lookup, delete, remove_ref, back}
use go_monobank_sdk.Dedup.Keys.{member, distinct}
use go_monobank_sdk.Dedup.Elements.{values, ref_of, has_ref, refs_distinct}

-- A list with an element has a last one.
pub back-some : (e : Element) (es : List Element) → (f : Element) × (back (e ∷ es) ≡ some f)
unfolding back
back-some e [] = (e, refl)
back-some e (f ∷ es) = back-some f es

has_ref-back : (es : List Element) (f : Element) → back es ≡ some f → has_ref f.ref es ≡ true
unfolding back has_ref
has_ref-back [] f h = cc
has_ref-back (e ∷ []) f h = ground arith
has_ref-back (e ∷ e' ∷ es) f h = ground (arith, has_ref-back (e' ∷ es) f h)

member-back :
    (es : List Element) (f : Element) → back es ≡ some f → member f.value (values es) ≡ true
unfolding back member values
member-back [] f h = cc
member-back (e ∷ []) f h = ground (arith, text_eq_refl e.value)
member-back (e ∷ e' ∷ es) f h = ground (arith, member-back (e' ∷ es) f h)

pub values-remove_back :
    (es : List Element) (f : Element)
    → refs_distinct es ≡ true
    → back es ≡ some f
    → values (remove_ref f.ref es) ≡ take (length es - 1) (values es)
unfolding back refs_distinct remove_ref values
values-remove_back [] f d h = cc
values-remove_back (e ∷ []) f d h = ground arith
values-remove_back (e ∷ e' ∷ es) f d h =
    ground (arith, has_ref-back (e' ∷ es) f h, values-remove_back (e' ∷ es) f)

pub length-remove_back :
    (es : List Element) (f : Element)
    → back es ≡ some f
    → length (remove_ref f.ref es) + 1 ≡ length es
unfolding back remove_ref
length-remove_back [] f h = cc
length-remove_back (e ∷ []) f h = ground arith
length-remove_back (e ∷ e' ∷ es) f h = ground (arith, length-remove_back (e' ∷ es) f h)

pub ref_of-remove_back :
    (k : Text) (es : List Element) (f : Element)
    → refs_distinct es ≡ true
    → distinct (values es) ≡ true
    → back es ≡ some f
    → ref_of k (remove_ref f.ref es) ≡ (if text_eq f.value k then none else ref_of k es)
unfolding back refs_distinct distinct remove_ref values ref_of
ref_of-remove_back k [] f d v h = cc
ref_of-remove_back k (e ∷ []) f d v h = ground arith
ref_of-remove_back k (e ∷ e' ∷ es) f d v h = ground (
  arith,
  has_ref-back (e' ∷ es) f h,
  member-back (e' ∷ es) f h,
  eq_of_text_eq f.value k,
  eq_of_text_eq e.value k,
  text_eq_refl k,
  ref_of-remove_back k (e' ∷ es) f,
)

pub lookup-delete :
    (k j : Text) (m : List (Text × ℕ))
    → lookup j (delete k m) ≡ (if text_eq k j then none else lookup j m)
unfolding lookup delete
lookup-delete k j [] = ground arith
lookup-delete k j ((i, r) ∷ m) = ground (
  arith,
  eq_of_text_eq i k,
  eq_of_text_eq i j,
  eq_of_text_eq k j,
  text_eq_refl j,
  lookup-delete k j m,
)
