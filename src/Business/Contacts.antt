-- ===== src/Business/Contacts.antt =====
-- ContactsAll and SearchContactsAll (business/iter.go): pages by offset, over what Contacts or
-- SearchContacts answers. The loop takes fuel.
pub mod Complete
use go_monobank_sdk.Base.{
  ℕ, zero, suc, ◌+◌, Bool, true, false, not, ◌||◌, Option, none, some, List, [], ◌∷◌, if◌then◌else◌,
  length,
}
use go_monobank_sdk.Base.Int.{ℤ}
use go_monobank_sdk.Base.Decimal.{Text}
use go_monobank_sdk.Business.{Contact, ContactsPage, Ended, finished, stopped, failed, out_of_fuel}

abbrev pub is_empty : List Contact → Bool
is_empty [] = true
is_empty (c ∷ cs) = false

module _ {S : Type 0} (yield : Contact → S → S × Bool) (cancelled : S → Bool) where
  -- The state after a page, and whether to go on.
  unfoldable pub yield_page : List Contact → S → S × Bool
  yield_page [] s = (s, true)
  yield_page (c ∷ cs) s =
      let (s', going) = yield c s in elim going [ true ↦ yield_page cs s' | false ↦ (s', false) ]

  -- The loop of both iterators, over the method that fetches the page at an offset.
  unfoldable pub pages : (ℕ → Option ContactsPage) → ℕ → ℕ → S → Ended S
  unfolding yield_page
  pages fetch zero offset s = out_of_fuel
  pages fetch (suc f) offset s = elim (cancelled s) [
    | true ↦ failed s
    | false ↦ elim (fetch offset) [
      | none ↦ failed s
      | some page ↦
          let (s', going) = yield_page page.contacts s in
          elim going [
            | false ↦ stopped s'
            | true ↦ elim (not page.has_more || is_empty page.contacts) [
              | true ↦ finished s'
              | false ↦ pages fetch f (offset + length page.contacts) s'
            ]
          ]
    ]
  ]

  unfoldable pub contacts_all : (ℤ → ℕ → Option ContactsPage) → ℕ → ℤ → S → Ended S
  unfolding pages
  contacts_all contacts fuel page_size s = pages (contacts page_size) fuel 0 s

  unfoldable pub search_contacts_all :
      (Text → ℤ → ℕ → Option ContactsPage) → ℕ → Text → ℤ → S → Ended S
  unfolding pages
  search_contacts_all search fuel query page_size s = pages (search query page_size) fuel 0 s
