-- ===== src/Acquiring/Subscriptions/Pages.antt =====
-- That the iterators over pages yield every entry (acquiring/subscription.go).
use go_monobank_sdk.Base.{
  ℕ, zero, suc, ◌+◌, ◌-◌, ◌≤◌, Bool, true, false, Option, some, List, [], ◌∷◌, ◌++◌, ◌≡◌, refl, ap,
  sym, ◌∙◌, arith, leb, length, not, ◌&&◌, length-drop, drop,
}
use go_monobank_sdk.Base.Int.{pos}
use go_monobank_sdk.Business.Contacts.Complete.{append-nil, snoc-append}
use go_monobank_sdk.Acquiring.Subscriptions.{
  Page, finished, is_empty, yield_page, pages, subscription_list_all, SubscriptionListItem,
  SubscriptionPayment, subscription_payments_all, first_page,
}

module _ {A : Type 0} where
  abbrev pub collect : A → List A → List A × Bool
  collect a as_ = (as_ ++ a ∷ [], true)

  abbrev pub never : List A → Bool
  never as_ = false

  -- The entries of some pages.
  unfoldable pub concat : List (List A) → List A
  concat [] = []
  concat (p ∷ ps) = p ++ concat ps

  abbrev pub none_empty : List (List A) → Bool
  none_empty [] = true
  none_empty (p ∷ ps) = not (is_empty p) && none_empty ps

  abbrev pub head_or : List (List A) → List A
  head_or [] = []
  head_or (p ∷ ps) = p

  -- A server with these pages, numbered from 1; past the last one it has an empty page.
  abbrev pub serve : List (List A) → ℕ → Option (Page A)
  serve all page =
      some (record { entries = head_or (drop (page - 1) all); total_pages = pos (length all) })

  yield_page-collect : (p acc : List A) → yield_page collect never p acc ≡ (acc ++ p, true)
  unfolding yield_page
  yield_page-collect [] acc = rw (append-nil acc) refl
  yield_page-collect (a ∷ p) acc =
      yield_page-collect p (acc ++ a ∷ []) ∙ ap (λ (x : List A). (x, true)) (snoc-append acc a p)

  append_assoc : (xs ys zs : List A) → (xs ++ ys) ++ zs ≡ xs ++ (ys ++ zs)
  append_assoc [] ys zs = refl
  append_assoc (x ∷ xs) ys zs = rw (append_assoc xs ys zs) refl

  drop_nil : (k : ℕ) → drop {A = List A} k [] ≡ []
  drop_nil zero = refl
  drop_nil (suc k) = refl

  drop_next :
      (k : ℕ) (all : List (List A)) (p : List A) (rest : List (List A))
      → drop k all ≡ p ∷ rest
      → drop (suc k) all ≡ rest
  drop_next k [] p rest e = absurd (ground (arith, drop_nil k))
  drop_next zero (x ∷ all) p rest e = ground arith
  drop_next (suc k) (x ∷ all) p rest e = drop_next k all p rest e

  -- What one page of the server adds.
  record Turned (all : List (List A)) (k : ℕ) (p : List A) (acc : List A) : Type 0 where
    going : (yield_page collect never (head_or (drop (k + 1 - 1) all)) acc).1 ≡ true
    state : (yield_page collect never (head_or (drop (k + 1 - 1) all)) acc).0 ≡ acc ++ p
    filled : is_empty (head_or (drop (k + 1 - 1) all)) ≡ false

  turned :
      (all : List (List A)) (k : ℕ) (p : List A) (rest : List (List A)) (acc : List A)
      → drop k all ≡ p ∷ rest
      → is_empty p ≡ false
      → Turned all k p acc
  turned all k p rest acc e full =
      let at : k + 1 - 1 ≡ k = omega arith in
      let entries : head_or (drop (k + 1 - 1) all) ≡ p = rw (at, e) refl in
      let read : yield_page collect never (head_or (drop (k + 1 - 1) all)) acc ≡ (acc ++ p, true) =
        ap (λ (x : List A). yield_page collect never x acc) entries ∙ yield_page-collect p acc in
      record {
        going = ap (λ (x : List A × Bool). x.1) read;
        state = ap (λ (x : List A × Bool). x.0) read;
        filled = ap (λ (x : List A). is_empty x) entries ∙ full;
      }

  pages-serve :
      (all : List (List A)) (f k : ℕ) (p : List A) (rest : List (List A)) (acc : List A)
      → drop k all ≡ p ∷ rest
      → none_empty (p ∷ rest) ≡ true
      → length (p ∷ rest) ≤ f
      → pages collect never (serve all) f (k + 1) acc ≡ finished (acc ++ concat (p ∷ rest))
  unfolding pages concat
  pages-serve all zero k p rest acc e full enough = absurd (omega arith)
  pages-serve all (suc f) k p [] acc e full enough =
      let t = turned all k p [] acc e (ground arith) in
      let size = sym (length-drop k all) ∙ ap (λ (x : List (List A)). length x) e in
      let last : leb (length all) (k + 1) ≡ true = ground arith in
      rw (t.going, t.filled, last, t.state, pages)
        (ap (λ (x : List A). finished (acc ++ x)) (sym (append-nil p)))
  pages-serve all (suc f) k p (q ∷ rest) acc e full enough =
      let t = turned all k p (q ∷ rest) acc e (ground arith) in
      let size = sym (length-drop k all) ∙ ap (λ (x : List (List A)). length x) e in
      let more : leb (length all) (k + 1) ≡ false = ground arith in
      let next : suc k ≡ k + 1 = omega arith in
      rw (t.going, t.filled, more, t.state, pages)
        (pages-serve all f (k + 1) q rest (acc ++ p)
            (ap (λ (n : ℕ). drop n all) (sym next) ∙ drop_next k all p (q ∷ rest) e) (ground arith)
            (omega arith)
          ∙ ap finished (append_assoc acc p (concat (q ∷ rest))))

-- SubscriptionListAll and SubscriptionPaymentsAll, under a context that is not cancelled and with a
-- consumer that never stops, over a server that serves a list in numbered pages, none of them empty:
-- from a page that is there they yield the entries of that page and of every later one, once and in
-- the server's order, and end. Fuel for the pages that are left is enough.
pub subscription_list_all_complete :
    (items : List (List SubscriptionListItem)) (payments : List (List SubscriptionPayment))
    (fuel k : ℕ) (p : List SubscriptionListItem) (ps : List (List SubscriptionListItem))
    (q : List SubscriptionPayment) (qs : List (List SubscriptionPayment))
    → drop k items ≡ p ∷ ps
    → drop k payments ≡ q ∷ qs
    → none_empty (p ∷ ps) ≡ true
    → none_empty (q ∷ qs) ≡ true
    → length (p ∷ ps) ≤ fuel
    → length (q ∷ qs) ≤ fuel
    → (subscription_list_all never collect (serve items) fuel (pos (k + 1)) []
        ≡ finished (concat (p ∷ ps)))
      × (subscription_payments_all never collect (serve payments) fuel (pos (k + 1)) []
          ≡ finished (concat (q ∷ qs)))
unfolding subscription_list_all subscription_payments_all
subscription_list_all_complete items payments fuel k p ps q qs e e' full full' enough enough' =
    let from : first_page (pos (k + 1)) ≡ k + 1 = ground arith in
    rw from (
      pages-serve items fuel k p ps [] e full enough,
      pages-serve payments fuel k q qs [] e' full' enough',
    )
