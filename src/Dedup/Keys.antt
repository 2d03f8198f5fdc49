-- ===== src/Dedup/Keys.antt =====
-- The abstract view of a deduper: its ids, the one used last in front. Move to front, and the
-- first few of them.
use go_monobank_sdk.Base.{
  ℕ, zero, suc, ◌+◌, ◌≤◌, ◌≡◌, refl, ap, Bool, true, false, not, ◌&&◌, ◌||◌, List, [], ◌∷◌, arith,
  if◌then◌else◌, length, take,
}
use go_monobank_sdk.Base.Decimal.{Text, text_eq, eq_of_text_eq}

unfoldable pub member : Text → List Text → Bool
member k [] = false
member k (j ∷ ks) = text_eq j k || member k ks

unfoldable pub remove : Text → List Text → List Text
remove k [] = []
remove k (j ∷ ks) = if text_eq j k then ks else j ∷ remove k ks

-- The ids after a use of `k`.
abbrev pub touch : Text → List Text → List Text
touch k ks = k ∷ remove k ks

unfoldable pub distinct : List Text → Bool
unfolding member
distinct [] = true
distinct (k ∷ ks) = not (member k ks) && distinct ks

pub member-remove :
    (k j : Text) (ks : List Text) → member j ks ≡ false → member j (remove k ks) ≡ false
unfolding member remove
member-remove k j [] h = refl
member-remove k j (i ∷ ks) h = ground (arith, member-remove k j ks)

pub member-remove_self :
    (k : Text) (ks : List Text) → distinct ks ≡ true → member k (remove k ks) ≡ false
unfolding distinct remove
member-remove_self k [] h = refl
member-remove_self k (j ∷ ks) h = ground (arith, member-remove_self k ks, eq_of_text_eq j k)

distinct-remove : (k : Text) (ks : List Text) → distinct ks ≡ true → distinct (remove k ks) ≡ true
unfolding distinct remove
distinct-remove k [] h = refl
distinct-remove k (j ∷ ks) h = ground (arith, distinct-remove k ks, member-remove k j ks)

pub distinct-touch : (k : Text) (ks : List Text) → distinct ks ≡ true → distinct (touch k ks) ≡ true
unfolding distinct
distinct-touch k ks h = ground (arith, distinct-remove k ks, member-remove_self k ks)

pub remove_absent : (k : Text) (ks : List Text) → member k ks ≡ false → remove k ks ≡ ks
unfolding member remove
remove_absent k [] h = refl
remove_absent k (j ∷ ks) h = ground (arith, remove_absent k ks)

pub member-take :
    (k : Text) (n : ℕ) (ks : List Text) → member k ks ≡ false → member k (take n ks) ≡ false
unfolding member
member-take k zero ks h = refl
member-take k (suc n) [] h = refl
member-take k (suc n) (j ∷ ks) h = ground (arith, member-take k n ks)

pub distinct-take : (n : ℕ) (ks : List Text) → distinct ks ≡ true → distinct (take n ks) ≡ true
unfolding distinct
distinct-take zero ks h = refl
distinct-take (suc n) [] h = refl
distinct-take (suc n) (j ∷ ks) h = ground (arith, distinct-take n ks, member-take j n ks)

pub length-remove :
    (k : Text) (ks : List Text) → member k ks ≡ true → length (remove k ks) + 1 ≡ length ks
unfolding member remove
length-remove k [] h = absurd (ground arith)
length-remove k (j ∷ ks) h = ground (arith, length-remove k ks)

pub take_of_length-le : (n : ℕ) (ks : List Text) → length ks ≤ n → take n ks ≡ ks
take_of_length-le zero [] h = refl
take_of_length-le zero (k ∷ ks) h = absurd (omega arith)
take_of_length-le (suc n) [] h = refl
take_of_length-le (suc n) (k ∷ ks) h = ap (◌∷◌ k) (take_of_length-le n ks (omega arith))
