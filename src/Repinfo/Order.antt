-- ===== src/Repinfo/Order.antt =====
-- The cache of report information is in the order of the ids, and finds its entries by id.
use dballe.Prelude.{
  ℕ, suc, ◌<◌, ◌≤◌, ◌≡◌, refl, true, false, arith, ltb, List, [], ◌∷◌, ◌++◌, Option, some,
  get_elem?, Result, ok, err, consistency, Bool-cases, inl, inr, ◌⊎◌,
}
use dballe.Prelude.Order.{nat_ord}
use dballe.SortedVector.{All, NoneBelow, Ascending}
use dballe.SortedVector.Search.{Finds}
use dballe.SmallSet.{binary_search}
use dballe.SmallSet.Search.{binary_search-Finds}
use dballe.SmallSet.Everywhere.{All-append}
use dballe.Repinfo.{Cache, Repinfo, cache_append, back_not_below, cache_find_by_id}

-- Ids rise.
abbrev pub Increasing : List Cache → Type 0
Increasing [] = Unit {0}
Increasing (c ∷ cs) = All (λ d. c.id < d.id) cs × Increasing cs

pub data Appends (c : Cache) (r : Repinfo) : Result Repinfo → Type 0 where
  refused :
      {d : Cache} (i : ℕ)
      → get_elem? r.cache i ≡ some d
      → c.id ≤ d.id
      → Appends c r (err consistency)
  appended :
      {after : Repinfo}
      → after.cache ≡ r.cache ++ c ∷ []
      → after.memo_idx ≡ []
      → Increasing after.cache
      → Appends c r (ok after)

-- What the test of `cache_append` finds: an entry that is not below, or that all are.
back_cases :
    (id : ℕ) (cs : List Cache)
    → Increasing cs
    → ((back_not_below id cs ≡ true)
        × ((i : ℕ) × (d : Cache) × (get_elem? cs i ≡ some d) × (id ≤ d.id)))
      ⊎ ((back_not_below id cs ≡ false) × All (λ d. d.id < id) cs)
back_cases id [] h = inr (refl, tt)
back_cases id (c ∷ []) h = elim (Bool-cases (ltb c.id id)) [
  | inl e ↦ inr (rw e refl, (ground (arith, e), tt))
  | inr e ↦ inl (rw e refl, (0, c, refl, ground (arith, e)))
]
back_cases id (c ∷ d ∷ cs) h = elim (back_cases id (d ∷ cs) h.1) [
  | inl (e, (i, x, g, le)) ↦ inl (e, (suc i, x, g, le))
  | inr (e, a) ↦ inr (e, (let less = h.0.0 in let below = a.0 in omega arith, a))
]

Increasing-append :
    (cs : List Cache) (c : Cache)
    → Increasing cs
    → All (λ d. d.id < c.id) cs
    → Increasing (cs ++ c ∷ [])
Increasing-append [] c h a = (tt, tt)
Increasing-append (x ∷ xs) c h a =
    (All-append (λ d. x.id < d.id) xs c h.0 a.0, Increasing-append xs c h.1 a.1)

-- Appending an entry to a cache in which ids rise is refused when an entry has no lower id; otherwise
-- ids rise in the cache that it leaves, and the index is empty.
pub cache_append_lem :
    (c : Cache) (r : Repinfo) → Increasing r.cache → Appends c r (cache_append c r)
unfolding cache_append
cache_append_lem c r h = elim (back_cases c.id r.cache h) [
  | inl (e, (i, d, g, le)) ↦ rw e (refused i g le)
  | inr (e, a) ↦ rw e (appended refl refl (Increasing-append r.cache c h a))
]

Increasing-Ascending : (cs : List Cache) → Increasing cs → Ascending (λ c. c.id) cs
Increasing-Ascending [] h = tt
Increasing-Ascending (c ∷ cs) h = (none_below cs h.0, Increasing-Ascending cs h.1)
  where
    none_below : (ds : List Cache) → All (λ d. c.id < d.id) ds → NoneBelow (λ d. d.id) c.id ds
    none_below [] a = tt
    none_below (d ∷ ds) a = (let less = a.0 in ground arith, none_below ds a.1)

-- In a cache in which ids rise, the search by id returns the place of an entry with the id, or that
-- there is none.
pub cache_find_by_id_lem :
    (id : ℕ) (cache : List Cache)
    → Increasing cache
    → (r : Option ℕ) × (cache_find_by_id id cache ≡ some r) × Finds (λ c. c.id) id cache r
unfolding cache_find_by_id binary_search
cache_find_by_id_lem id cache h =
    binary_search-Finds (λ c. c.id) id cache (Increasing-Ascending cache h)
