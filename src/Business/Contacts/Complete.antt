-- ===== src/Business/Contacts/Complete.antt =====
-- That ContactsAll yields every contact (business/iter.go).
use go_monobank_sdk.Base.{
  ℕ, zero, suc, ◌+◌, ◌-◌, ◌≤◌, ◌<◌, Bool, true, false, Option, some, List, [], ◌∷◌, ◌++◌, ◌≡◌, refl,
  ap, sym, ◌∙◌, arith, ltb, length, take, drop, Bool-cases, inl, inr, length-take, length-drop,
}
use Prim.Native.Nat.{min}
use go_monobank_sdk.Base.Int.{ℤ}
use go_monobank_sdk.Business.{Contact, ContactsPage, finished}
use go_monobank_sdk.Business.Contacts.{yield_page, pages, contacts_all, is_empty}

-- A server whose page at an offset is at most `cap offset` contacts from there, and that says whether
-- more follow.
abbrev pub serve : List Contact → (ℕ → ℕ) → ℕ → Option ContactsPage
serve all cap offset = some (record {
  has_more = ltb (offset + cap offset) (length all);
  contacts = take (cap offset) (drop offset all);
})

-- The consumer that appends every contact and never stops, under a context that is not cancelled.
abbrev pub collect : Contact → List Contact → List Contact × Bool
collect c cs = (cs ++ c ∷ [], true)

abbrev pub never : List Contact → Bool
never cs = false

pub snoc-append {ℓ} :
    {A : Type ℓ} (acc : List A) (c : A) (cs : List A) → (acc ++ c ∷ []) ++ cs ≡ acc ++ c ∷ cs
snoc-append [] c cs = refl
snoc-append (a ∷ acc) c cs = rw (snoc-append acc c cs) refl

pub append-nil {ℓ} : {A : Type ℓ} (acc : List A) → acc ++ [] ≡ acc
append-nil [] = refl
append-nil (a ∷ acc) = rw (append-nil acc) refl

yield_page-collect : (cs acc : List Contact) → yield_page collect never cs acc ≡ (acc ++ cs, true)
unfolding yield_page
yield_page-collect [] acc = rw (append-nil acc) refl
yield_page-collect (c ∷ cs) acc =
    yield_page-collect cs (acc ++ c ∷ [])
    ∙ ap (λ (x : List Contact). (x, true)) (snoc-append acc c cs)

take_nil {ℓ} : {A : Type ℓ} (n : ℕ) → take {A = A} n [] ≡ []
take_nil zero = refl
take_nil (suc n) = refl

take-add {ℓ} :
    {A : Type ℓ} (m n : ℕ) (xs : List A) → take m xs ++ take n (drop m xs) ≡ take (m + n) xs
take-add zero n xs = let e : 0 + n ≡ n = omega arith in rw e refl
take-add (suc m) n [] = take_nil n ∙ sym (take_nil (suc m + n))
take-add (suc m) n (x ∷ xs) =
    let e : suc m + n ≡ suc (m + n) = omega arith in rw (e, take-add m n xs) refl

take_long {ℓ} : {A : Type ℓ} (n : ℕ) (xs : List A) → length xs ≤ n → take n xs ≡ xs
take_long zero [] h = refl
take_long zero (x ∷ xs) h = absurd (omega arith)
take_long (suc n) [] h = refl
take_long (suc n) (x ∷ xs) h = rw (take_long n xs (omega arith)) refl

not_empty : (cs : List Contact) → 1 ≤ length cs → is_empty cs ≡ false
not_empty cs h = ground arith

pages-serve :
    (all : List Contact) (cap : ℕ → ℕ) (f offset : ℕ)
    → ((n : ℕ) → 1 ≤ cap n)
    → offset ≤ length all
    → length all < offset + f
    → pages collect never (serve all cap) f offset (take offset all) ≡ finished all
unfolding pages
pages-serve all cap zero offset h within enough = absurd (omega arith)
pages-serve all cap (suc f) offset h within enough =
    let page = take (cap offset) (drop offset all) in
    let some_cap = h offset in
    let size : length page ≡ min (cap offset) (length all - offset) =
      length-take (cap offset) (drop offset all) ∙ ap (min (cap offset)) (length-drop offset all) in
    let read : yield_page collect never page (take offset all)
        ≡ (take (offset + cap offset) all, true) =
      yield_page-collect page (take offset all)
      ∙ ap (λ (x : List Contact). (x, true)) (take-add offset (cap offset) all) in
    let state = ap (λ (x : List Contact × Bool). x.0) read in
    let going = ap (λ (x : List Contact × Bool). x.1) read in
    elim (Bool-cases (ltb (offset + cap offset) (length all))) [
      | inl more ↦
          let whole : length page ≡ cap offset = ground arith in
          let filled = not_empty page (omega arith) in
          rw (going, more, filled, whole, state, pages)
            (pages-serve all cap f (offset + cap offset) h (ground arith) (omega arith))
      | inr last ↦
          rw (going, last, state, pages)
            (ap finished (take_long (offset + cap offset) all (ground arith)))
    ]

-- ContactsAll, under a context that is not cancelled and with a consumer that never stops, yields
-- every contact once and in the server's order, and then ends: over a server that serves the
-- contacts by offset, in pages of any sizes but 0, and says truly whether more follow. Fuel one
-- above the number of contacts is enough.
pub contacts_all_complete :
    (all : List Contact) (cap : ℤ → ℕ → ℕ) (page_size : ℤ) (fuel : ℕ)
    → ((n : ℕ) → 1 ≤ cap page_size n)
    → length all < fuel
    → contacts_all collect never (λ size. serve all (cap size)) fuel page_size [] ≡ finished all
unfolding contacts_all
contacts_all_complete all cap page_size fuel h enough =
    pages-serve all (cap page_size) fuel 0 h (omega arith) (omega arith)
