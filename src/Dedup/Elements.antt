-- ===== src/Dedup/Elements.antt =====
-- The list of elements against the list of ids that they hold, and the index against both.
use go_monobank_sdk.Base.{
  ℕ, suc, ◌≤◌, ◌<◌, ◌≡◌, refl, ap, Bool, true, false, not, ◌&&◌, ◌||◌, Option, none, some, List, [],
  ◌∷◌, arith, ==_iff, ◌==◌, ltb, if◌then◌else◌, length,
}
use go_monobank_sdk.Base.Decimal.{Text, text_eq, eq_of_text_eq}
use go_monobank_sdk.Dedup.{Element, find_ref, remove_ref, move_to_front}
use go_monobank_sdk.Dedup.Keys.{member, remove, touch}

unfoldable pub values : List Element → List Text
values [] = []
values (e ∷ es) = e.value ∷ values es

-- The identity of the element that holds an id.
unfoldable pub ref_of : Text → List Element → Option ℕ
ref_of k [] = none
ref_of k (e ∷ es) = if text_eq e.value k then some e.ref else ref_of k es

unfoldable pub has_ref : ℕ → List Element → Bool
has_ref r [] = false
has_ref r (e ∷ es) = e.ref == r || has_ref r es

-- No two elements share an identity, and the next one is above all.
unfoldable pub refs_distinct : List Element → Bool
unfolding has_ref
refs_distinct [] = true
refs_distinct (e ∷ es) = not (has_ref e.ref es) && refs_distinct es

unfoldable pub refs_below : ℕ → List Element → Bool
refs_below n [] = true
refs_below n (e ∷ es) = ltb e.ref n && refs_below n es

pub length-values : (es : List Element) → length (values es) ≡ length es
unfolding values
length-values [] = refl
length-values (e ∷ es) = ap suc (length-values es)

pub ref_of-member :
    (k : Text) (es : List Element) (r : ℕ) → ref_of k es ≡ some r → member k (values es) ≡ true
unfolding ref_of values member
ref_of-member k [] r h = cc
ref_of-member k (e ∷ es) r h = ground (arith, ref_of-member k es r)

pub ref_of-not_member :
    (k : Text) (es : List Element) → ref_of k es ≡ none → member k (values es) ≡ false
unfolding ref_of values member
ref_of-not_member k [] h = refl
ref_of-not_member k (e ∷ es) h = ground (arith, ref_of-not_member k es)

pub has_ref_of : (k : Text) (es : List Element) (r : ℕ) → ref_of k es ≡ some r → has_ref r es ≡ true
unfolding ref_of has_ref
has_ref_of k [] r h = cc
has_ref_of k (e ∷ es) r h = ground (arith, has_ref_of k es r)

pub has_ref-below :
    (n r : ℕ) (es : List Element) → refs_below n es ≡ true → n ≤ r → has_ref r es ≡ false
unfolding refs_below has_ref
has_ref-below n r [] h b = refl
has_ref-below n r (e ∷ es) h b = ground (arith, has_ref-below n r es)

-- The element that the index names holds the id.
find_ref_of :
    (k : Text) (es : List Element) (r : ℕ)
    → refs_distinct es ≡ true
    → ref_of k es ≡ some r
    → find_ref r es ≡ some (record { ref = r; value = k })
unfolding ref_of refs_distinct find_ref
find_ref_of k [] r d h = cc
find_ref_of k (e ∷ es) r d h =
    ground (arith, has_ref_of k es r, eq_of_text_eq e.value k, find_ref_of k es r)

values-remove_ref :
    (k : Text) (es : List Element) (r : ℕ)
    → refs_distinct es ≡ true
    → ref_of k es ≡ some r
    → values (remove_ref r es) ≡ remove k (values es)
unfolding ref_of refs_distinct remove_ref values remove
values-remove_ref k [] r d h = cc
values-remove_ref k (e ∷ es) r d h = ground (arith, has_ref_of k es r, values-remove_ref k es r)

ref_of-remove_ref :
    (j k : Text) (es : List Element) (r : ℕ)
    → refs_distinct es ≡ true
    → ref_of k es ≡ some r
    → text_eq k j ≡ false
    → ref_of j (remove_ref r es) ≡ ref_of j es
unfolding ref_of refs_distinct remove_ref
ref_of-remove_ref j k [] r d h n = cc
ref_of-remove_ref j k (e ∷ es) r d h n =
    ground (arith, has_ref_of k es r, eq_of_text_eq e.value k, ref_of-remove_ref j k es r)

has_ref-remove_ref :
    (q r : ℕ) (es : List Element) → has_ref q es ≡ false → has_ref q (remove_ref r es) ≡ false
unfolding has_ref remove_ref
has_ref-remove_ref q r [] h = refl
has_ref-remove_ref q r (e ∷ es) h = ground (arith, has_ref-remove_ref q r es)

has_ref-remove_ref_self :
    (r : ℕ) (es : List Element) → refs_distinct es ≡ true → has_ref r (remove_ref r es) ≡ false
unfolding refs_distinct remove_ref
has_ref-remove_ref_self r [] d = refl
has_ref-remove_ref_self r (e ∷ es) d = ground (arith, ==_iff e.ref r, has_ref-remove_ref_self r es)

pub refs_distinct-remove_ref :
    (r : ℕ) (es : List Element) → refs_distinct es ≡ true → refs_distinct (remove_ref r es) ≡ true
unfolding refs_distinct remove_ref
refs_distinct-remove_ref r [] d = refl
refs_distinct-remove_ref r (e ∷ es) d =
    ground (arith, refs_distinct-remove_ref r es, has_ref-remove_ref e.ref r es)

pub refs_below-remove_ref :
    (n r : ℕ) (es : List Element) → refs_below n es ≡ true → refs_below n (remove_ref r es) ≡ true
unfolding refs_below remove_ref
refs_below-remove_ref n r [] d = refl
refs_below-remove_ref n r (e ∷ es) d = ground (arith, refs_below-remove_ref n r es)

refs_below_has :
    (n r : ℕ) (es : List Element) → refs_below n es ≡ true → has_ref r es ≡ true → r < n
unfolding refs_below has_ref
refs_below_has n r [] d h = absurd (ground arith)
refs_below_has n r (e ∷ es) d h = ground (arith, refs_below_has n r es)

-- What holds of the list after `MoveToFront` of the element of a known id.
pub record Moved (k : Text) (n : ℕ) (es fs : List Element) : Type 0 where
  pub keys : values fs ≡ touch k (values es)
  pub refs : refs_distinct fs ≡ true
  pub below : refs_below n fs ≡ true

pub move_to_front-Moved :
    (k : Text) (n r : ℕ) (es : List Element)
    → refs_distinct es ≡ true
    → refs_below n es ≡ true
    → ref_of k es ≡ some r
    → Moved k n es (move_to_front r es)
unfolding move_to_front values refs_distinct refs_below
move_to_front-Moved k n r es d b h =
    rw (find_ref_of k es r d h, move_to_front)
      (record {
        keys = ap (◌∷◌ k) (values-remove_ref k es r d h);
        refs = ground (arith, has_ref-remove_ref_self r es, refs_distinct-remove_ref r es);
        below =
            ground (arith, refs_below-remove_ref n r es, refs_below_has n r es, has_ref_of k es r);
      })

pub ref_of-move_to_front :
    (j k : Text) (r : ℕ) (es : List Element)
    → refs_distinct es ≡ true
    → ref_of k es ≡ some r
    → ref_of j (move_to_front r es) ≡ ref_of j es
unfolding move_to_front ref_of
ref_of-move_to_front j k r es d h =
    rw (find_ref_of k es r d h, move_to_front)
      (ground (arith, ref_of-remove_ref j k es r, eq_of_text_eq k j))
