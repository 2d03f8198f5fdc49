-- ===== src/Dedup.antt =====
-- MemoryDeduper (webhook/dedup.go, and the same code in acquiring/dedup.go): a set of ids of fixed
-- capacity that forgets the id used longest ago. The container/list is a list of elements, front
-- first, and an element's identity is a number; the index maps an id to its element. The mutex
-- makes each method one step, so a method is a function on the state.
pub mod Keys
pub mod Elements
pub mod Eviction
pub mod Valid
pub mod Room
pub mod Refines
use go_monobank_sdk.Base.{
  ℕ, zero, suc, ◌+◌, Bool, true, false, Option, none, some, List, [], ◌∷◌, ltb, ◌==◌, if◌then◌else◌,
  length,
}
use go_monobank_sdk.Base.Int.{ℤ, pos, negsuc}
use go_monobank_sdk.Base.Decimal.{Text, text_eq}

pub record Element : Type 0 where
  pub ref : ℕ
  pub value : Text

pub record Deduper : Type 0 where
  pub capacity : ℕ
  pub order : List Element
  pub index : List (Text × ℕ)
  -- The next identity that `PushFront` gives out.
  pub fresh : ℕ

-- The map: `d.index[k]`, `d.index[k] = r` for a key that is not there, and `delete`.
unfoldable pub lookup : Text → List (Text × ℕ) → Option ℕ
lookup k [] = none
lookup k ((j, r) ∷ m) = if text_eq j k then some r else lookup k m

unfoldable pub delete : Text → List (Text × ℕ) → List (Text × ℕ)
delete k [] = []
delete k ((j, r) ∷ m) = if text_eq j k then delete k m else (j, r) ∷ delete k m

-- The list: the element with an identity, `Remove`, `MoveToFront` and `Back`.
unfoldable pub find_ref : ℕ → List Element → Option Element
find_ref r [] = none
find_ref r (e ∷ es) = if e.ref == r then some e else find_ref r es

unfoldable pub remove_ref : ℕ → List Element → List Element
remove_ref r [] = []
remove_ref r (e ∷ es) = if e.ref == r then es else e ∷ remove_ref r es

unfoldable pub move_to_front : ℕ → List Element → List Element
move_to_front r es = elim (find_ref r es) [ none ↦ es | some e ↦ e ∷ remove_ref r es ]

unfoldable pub back : List Element → Option Element
back [] = none
back (e ∷ []) = some e
back (e ∷ f ∷ es) = back (f ∷ es)

-- A capacity of 0 or less falls back to 1024.
abbrev pub capacity_or_default : ℤ → ℕ
capacity_or_default (pos zero) = 1024
capacity_or_default (pos (suc n)) = suc n
capacity_or_default (negsuc n) = 1024

unfoldable pub new_memory_deduper : ℤ → Deduper
new_memory_deduper capacity = record {
  capacity = capacity_or_default capacity;
  order = [];
  index = [];
  fresh = 0;
}

abbrev pub is_empty : Text → Bool
is_empty [] = true
is_empty (c ∷ s) = false

unfoldable pub has : Text → Deduper → Deduper × Bool
has id d = if is_empty id then (d, false) else elim (lookup id d.index) [
  | none ↦ (d, false)
  | some r ↦ (record d { order = move_to_front r d.order }, true)
]

-- The eviction that makes room when the list has `capacity` elements.
unfoldable pub evict : Deduper → Deduper
evict d =
    if length d.order == d.capacity
    then elim (back d.order) [
      | none ↦ d
      | some oldest ↦ record d {
        order = remove_ref oldest.ref d.order;
        index = delete oldest.value d.index;
      }
    ]
    else d

unfoldable pub push_front : Text → Deduper → Deduper
push_front id d = record d {
  order = record { ref = d.fresh; value = id } ∷ d.order;
  index = (id, d.fresh) ∷ d.index;
  fresh = d.fresh + 1;
}

unfoldable pub add : Text → Deduper → Deduper
add id d = if is_empty id then d else elim (lookup id d.index) [
  | none ↦ push_front id (evict d)
  | some r ↦ record d { order = move_to_front r d.order }
]

unfoldable pub len : Deduper → ℕ
len d = length d.order
