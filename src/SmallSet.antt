-- ===== src/SmallSet.antt =====
-- The set for a small number of items of dballe/core/smallset.h: a vector of which the last
-- `dirty` items were added after the last sort. A search is by the value that `get_value` reads of
-- an item. `find` sorts the vector, so it returns the set beside the place that it found.
pub mod Search
pub mod Unique
pub mod Everywhere
pub mod Keys
use dballe.Prelude.{
  ℕ, zero, suc, ◌+◌, ◌-◌, ◌<◌, Bool, true, false, ◌&&◌, arith, ltb, ◌==◌, if◌then◌else◌, List, [],
  ◌∷◌, ◌++◌, Option, some, none, get_elem?, length, take, drop,
}
use dballe.Prelude.Order.{Ord}
use dballe.SortedVector.{reverse_onto, insert_back}
use dballe.SortedVector.Search.{partition_loop, answer}

pub record SmallSet {ℓ} (Item : Type ℓ) : Type ℓ where
  pub items : List Item
  pub dirty : ℕ

abbrev pub small_set {ℓ} : {Item : Type ℓ} → List Item → ℕ → SmallSet Item
small_set items dirty = record { items = items; dirty = dirty }

-- SmallSet::clear, and the set as it is made
abbrev pub empty {ℓ} : {Item : Type ℓ} → SmallSet Item
empty = small_set [] 0

module _ {ℓ} {Item : Type ℓ} where
  -- SmallSet::add
  unfoldable pub add : Item → SmallSet Item → SmallSet Item
  add item s = record s { items = s.items ++ item ∷ []; dirty = s.dirty + 1 }

  -- `if (i != this->end()) return;` and the addition after it
  abbrev pub keep_or_add : Item → Option ℕ → SmallSet Item → SmallSet Item
  unfolding add
  keep_or_add item (some i) s = s
  keep_or_add item none s = add item s

  -- operator== of std::vector
  abbrev pub same_items : (Item → Item → Bool) → List Item → List Item → Bool
  same_items same [] [] = true
  same_items same (x ∷ xs) (y ∷ ys) = same x y && same_items same xs ys
  same_items same _ _ = false

module _ {ℓ κ} {Item : Type ℓ} {Value : Type κ} ⦃o : Ord Value⦄ (get_value : Item → Value) where
  -- The outer loop of rearrange_dirty: `sorted` is the part before `i`, reversed.
  unfoldable pub rearrange : List Item → List Item → List Item
  unfolding insert_back
  rearrange sorted [] = sorted
  rearrange sorted (x ∷ xs) = rearrange (insert_back get_value x sorted) xs

  -- SmallSet::rearrange_dirty
  unfoldable pub rearrange_dirty : SmallSet Item → SmallSet Item
  unfolding rearrange
  rearrange_dirty s =
      let clean = length s.items - s.dirty in
      small_set
        (reverse_onto (rearrange (reverse_onto (take clean s.items) []) (drop clean s.items)) []) 0

  -- SmallSet::binary_search; the fuel is one more than the number of rounds that are needed
  unfoldable pub binary_search : Value → List Item → Option (Option ℕ)
  unfolding partition_loop
  binary_search value items =
      elim (partition_loop get_value (suc (length items)) value items 0 (length items)) [
        | none ↦ none
        | some n ↦ answer get_value value items n
      ]

  -- The linear search of `find`, from place `i`
  unfoldable pub linear_search : ℕ → Value → List Item → Option ℕ
  linear_search i value [] = none
  linear_search i value (x ∷ xs) =
      if o.eqb (get_value x) value then some i else linear_search (suc i) value xs

  -- `sort` is std::sort by the values.
  module _ (sort : List Item → List Item) where
    -- What `find` does about dirty items before a binary search
    unfoldable pub prepare : SmallSet Item → SmallSet Item
    unfolding rearrange_dirty
    prepare s =
        if ltb 16 s.dirty
        then small_set (sort s.items) 0
        else if s.dirty == 0
        then s
        else rearrange_dirty s

    -- SmallSet::find
    unfoldable pub find : Value → SmallSet Item → Option (Option ℕ × SmallSet Item)
    unfolding prepare binary_search linear_search
    find value s =
        if length s.items == 0
        then some (none, s)
        else if ltb (length s.items) 6
        then some (linear_search 0 value s.items, s)
        else elim (binary_search value (prepare s).items) [
          | none ↦ none
          | some pos ↦ some (pos, prepare s)
        ]

    -- SmallUniqueValueSet::add, of items that are their values
    unfoldable pub add_unique : Value → Item → SmallSet Item → Option (SmallSet Item)
    unfolding find add
    add_unique value item s = elim (find value s) [
      | none ↦ none
      | some (pos, s') ↦ some (keep_or_add item pos s')
    ]

    -- SmallUniqueValueSet::has
    unfoldable pub has : Value → SmallSet Item → Option (Bool × SmallSet Item)
    unfolding find
    has value s = elim (find value s) [
      | none ↦ none
      | some (some i, s') ↦ some (true, s')
      | some (none, s') ↦ some (false, s')
    ]

  -- `if (dirty) rearrange_dirty()`, before the comparison operators and before iterating over a
  -- SortedSmallUniqueValueSet
  unfoldable pub arranged : SmallSet Item → SmallSet Item
  unfolding rearrange_dirty
  arranged s = if s.dirty == 0 then s else rearrange_dirty s

  module _ (same : Item → Item → Bool) where
    -- SmallSet::operator==
    unfoldable pub eq : SmallSet Item → SmallSet Item → Bool
    eq a b = same_items same (arranged a).items (arranged b).items

    -- SmallSet::operator!=
    unfoldable pub ne : SmallSet Item → SmallSet Item → Bool
    ne a b = same_items same (arranged a).items (arranged b).items
