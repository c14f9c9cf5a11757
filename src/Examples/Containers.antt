-- ===== src/Examples/Containers.antt =====
-- The theorems on sets and on collections of variables at concrete inputs.
use dballe.Prelude.{
  ℕ, ◌-◌, ◌%◌, ◌≤◌, ◌≡◌, refl, arith, List, [], ◌∷◌, Option, some, none, length, ◌==◌,
  if◌then◌else◌, map,
}
use dballe.Prelude.Order.{nat_ord}
use dballe.SortedVector.Map.{count_key}
use dballe.SmallSet.{SmallSet, small_set, rearrange_dirty, add_unique}
use dballe.SmallSet.Search.{
  IsTidy, IsSort, Found, find_lem, Ascending-rearrange_dirty, SameItems-rearrange_dirty,
}
use dballe.SmallSet.Unique.{Added, add_unique_lem}
use dballe.Values.{set_value, unset, merge}
use dballe.Values.Laws.{IsSorted, get, Becomes, set_value_lem, unset_lem}
use dballe.Values.Merge.{merged, merge_lem}

-- Items that are their values
abbrev itself : ℕ → ℕ
itself n = n

-- Insertion sort, for std::sort
abbrev sort : List ℕ → List ℕ
sort xs = (rearrange_dirty itself (small_set xs (length xs))).items

all_dirty : (xs : List ℕ) → IsTidy itself (small_set xs (length xs))
all_dirty xs = record {
  within = omega arith;
  sorted = let e : length xs - length xs ≡ 0 = omega arith in rw e tt;
}

sort-IsSort : IsSort itself sort
sort-IsSort = record {
  ascending = λ xs. Ascending-rearrange_dirty itself (small_set xs (length xs)) (all_dirty xs);
  same = λ xs. SameItems-rearrange_dirty itself (small_set xs (length xs));
}

-- Seven items, of which the last two were added after the last sort
abbrev seven : SmallSet ℕ
seven = small_set (1 ∷ 3 ∷ 5 ∷ 7 ∷ 9 ∷ 4 ∷ 2 ∷ []) 2

seven-IsTidy : IsTidy itself seven
seven-IsTidy = record {
  within = omega arith;
  sorted = (
    (refl, (refl, (refl, (refl, tt)))),
    ((refl, (refl, (refl, tt))), ((refl, (refl, tt)), ((refl, tt), (tt, tt)))),
  );
}

find_lem_example : Found itself sort sort-IsSort 4 seven
find_lem_example = find_lem itself sort sort-IsSort 4 seven seven-IsTidy

seven_unique : (k : ℕ) → count_key itself k seven.items ≤ 1
seven_unique k = ground arith

add_unique_lem_example : Added itself sort sort-IsSort 6 seven (add_unique itself sort 6 6 seven)
add_unique_lem_example = add_unique_lem itself sort sort-IsSort 6 seven seven-IsTidy seven_unique

-- A variable is a number whose last three digits are its code.
abbrev varcode : ℕ → ℕ
varcode v = v % 1000

abbrev two_values : List (Option ℕ)
two_values = some 5004 ∷ some 3012 ∷ []

two_values-IsSorted : IsSorted varcode two_values
two_values-IsSorted = record { ascending = ((refl, tt), (tt, tt)); unique = λ k. ground arith }

set_value_lem_example :
    Becomes varcode
      (λ c. if 7 == c then some (some 9007) else get varcode c two_values)
      (set_value varcode (some 9007) two_values)
set_value_lem_example = set_value_lem varcode (some 9007) two_values two_values-IsSorted

unset_lem_example :
    Becomes varcode
      (λ c. if 4 == c then none else get varcode c two_values)
      (unset varcode 4 two_values)
unset_lem_example = unset_lem varcode 4 two_values two_values-IsSorted

merge_lem_example :
    Becomes varcode
      (merged varcode (9007 ∷ 1004 ∷ []) (λ k. get varcode k two_values))
      (merge varcode (map some (9007 ∷ 1004 ∷ [])) two_values)
merge_lem_example = merge_lem varcode (9007 ∷ 1004 ∷ []) two_values two_values-IsSorted
