-- ===== src/Repinfo.antt =====
-- Report information: the cache of dballe/db/v7/repinfo.cc, ordered by id, and the index of it by
-- report name. `std_sort` is std::sort by the names. A search that reads outside its vector returns
-- none, and one that finds nothing `some none`.
pub mod Order
pub mod Names
pub mod Conflicts
use dballe.Prelude.{
  is_empty, ℕ, suc, ◌≡◌, Bool, true, false, not, ◌&&◌, ◌||◌, ltb, ◌==◌, if◌then◌else◌, List, [],
  ◌∷◌, ◌++◌, map, Option, some, none, get_elem?, length, take, Result, ok, err, consistency,
  throw_if, ◌>>◌,
}
use dballe.Prelude.Int.{ℤ, pos, negsuc, ltb_ℤ, eqb_ℤ}
use dballe.Prelude.Words.{is_missing_int, to_u32, wrap32}
use dballe.Prelude.Order.{Ord, nat_ord, tie_ord, tie_eq}
use dballe.SortedVector.Search.{partition_loop, answer}
use dballe.Matcher.{to_lower}
use dballe.Query.{Query}

-- repinfo::Cache
pub record Cache : Type 0 where
  pub id : ℕ
  pub memo : List ℕ
  pub desc : List ℕ
  pub prio : ℤ
  pub descriptor : List ℕ
  pub tablea : ℕ
  pub new_memo : List ℕ
  pub new_desc : List ℕ
  pub new_prio : ℤ
  pub new_descriptor : List ℕ
  pub new_tablea : ℕ

-- Cache::Cache
abbrev pub entry : ℕ → List ℕ → List ℕ → ℤ → List ℕ → ℕ → Cache
entry id memo desc prio descriptor tablea = record {
  id = id;
  memo = memo;
  desc = desc;
  prio = prio;
  descriptor = descriptor;
  tablea = tablea;
  new_memo = [];
  new_desc = [];
  new_prio = pos 0;
  new_descriptor = [];
  new_tablea = 0;
}

-- The conversion of `unsigned` to `int`
abbrev pub to_int : ℕ → ℤ
to_int n = wrap32 (pos n)

-- Cache::make_new
unfoldable pub make_new : Cache → Cache
make_new c = record c {
  new_memo = c.memo;
  new_desc = c.desc;
  new_prio = c.prio;
  new_descriptor = c.descriptor;
  new_tablea = c.tablea;
}

-- repinfo::Memoidx
pub record Memoidx : Type 0 where
  pub memo : List ℕ
  pub id : ℤ

pub record Repinfo : Type 0 where
  pub cache : List Cache
  pub memo_idx : List Memoidx

pub text_injective : (a b : List ℕ) → a ≡ b → a ≡ b
text_injective a b h = h

-- The order of std::string
instance abbrev pub text_ord : Ord (List ℕ)
text_ord = tie_ord (λ s. s) text_injective

-- Repinfo::cache_find_by_id
unfoldable pub cache_find_by_id : ℕ → List Cache → Option (Option ℕ)
unfolding partition_loop
cache_find_by_id id cache =
    elim (partition_loop (λ c. c.id) (suc (length cache)) id cache 0 (length cache)) [
      | none ↦ none
      | some n ↦ answer (λ c. c.id) id cache n
    ]

-- Repinfo::cache_find_by_memo: the bounds are those of the cache, the items those of the index.
unfoldable pub cache_find_by_memo : List ℕ → Repinfo → Option (Option ℕ)
unfolding partition_loop
cache_find_by_memo memo r =
    elim (partition_loop (λ m. m.memo) (suc (length r.cache)) memo r.memo_idx 0 (length r.cache)) [
      | none ↦ none
      | some n ↦ answer (λ m. m.memo) memo r.memo_idx n
    ]

-- `pos == -1 ? ... : items[pos]`
abbrev pub item_at : {A : Type 0} → List A → Option (Option ℕ) → Option (Option A)
item_at xs none = none
item_at xs (some none) = some none
item_at xs (some (some i)) = elim (get_elem? xs i) [ none ↦ none | some x ↦ some (some x) ]

-- Repinfo::get_by_id
unfoldable pub get_by_id : ℕ → Repinfo → Option (Option Cache)
unfolding cache_find_by_id
get_by_id id r = item_at r.cache (cache_find_by_id id r.cache)

-- Repinfo::get_by_memo
unfoldable pub get_by_memo : List ℕ → Repinfo → Option (Option Cache)
unfolding get_by_id cache_find_by_memo
get_by_memo memo r = elim (item_at r.memo_idx (cache_find_by_memo memo r)) [
  | none ↦ none
  | some none ↦ some none
  | some (some m) ↦ get_by_id (to_u32 m.id) r
]

-- `!cache.empty() && cache.back().id >= id`
abbrev pub back_not_below : ℕ → List Cache → Bool
back_not_below id [] = false
back_not_below id (c ∷ []) = not (ltb c.id id)
back_not_below id (c ∷ d ∷ cs) = back_not_below id (d ∷ cs)

-- Repinfo::cache_append, of an entry made of its arguments
unfoldable pub cache_append : Cache → Repinfo → Result Repinfo
cache_append c r =
    if back_not_below c.id r.cache
    then err consistency
    else ok (record { cache = r.cache ++ c ∷ []; memo_idx = [] })

abbrev pub index_of : Cache → Memoidx
index_of c = record { memo = c.memo; id = to_int c.id }

-- Repinfo::rebuild_memo_idx
unfoldable pub rebuild_memo_idx : (List Memoidx → List Memoidx) → Repinfo → Repinfo
rebuild_memo_idx std_sort r = record r { memo_idx = std_sort (map index_of r.cache) }

-- The first 19 characters of a name, in lower case
abbrev pub lc_memo : List ℕ → List ℕ
lc_memo memo = map to_lower (take 19 memo)

-- Repinfo::get_id, -1 if there is no such name, with the index that it leaves
unfoldable pub get_id : (List Memoidx → List Memoidx) → List ℕ → Repinfo → Option ℤ × Repinfo
unfolding rebuild_memo_idx cache_find_by_memo
get_id std_sort memo r =
    let built = if is_empty r.memo_idx then rebuild_memo_idx std_sort r else r in
    (
      (elim (item_at built.memo_idx (cache_find_by_memo (lc_memo memo) built)) [
        | none ↦ none
        | some none ↦ some (negsuc 0)
        | some (some m) ↦ some m.id
      ]),
      built,
    )

-- Repinfo::ids_by_prio
unfoldable pub ids_by_prio : Query → List Cache → List ℕ
ids_by_prio q [] = []
ids_by_prio q (c ∷ cs) =
    let rest = ids_by_prio q cs in
    if not (is_missing_int q.priomin) && ltb_ℤ c.prio q.priomin
    then rest
    else if not (is_missing_int q.priomax) && ltb_ℤ q.priomax c.prio
    then rest
    else c.id ∷ rest

-- `cache[i].memo.empty() || cache[i].new_memo.empty()`
abbrev pub is_skipped : Cache → Bool
is_skipped c = is_empty c.memo || is_empty c.new_memo

-- Whether a later entry that is not skipped has a new priority
abbrev pub takes_prio : ℤ → List Cache → Bool
takes_prio prio [] = false
takes_prio prio (c ∷ cs) = (not (is_skipped c) && eqb_ℤ c.new_prio prio) || takes_prio prio cs

abbrev pub new_takes_prio : ℤ → List Cache → Bool
new_takes_prio prio [] = false
new_takes_prio prio (c ∷ cs) = eqb_ℤ c.new_prio prio || new_takes_prio prio cs

-- The conflicts that read_repinfo_file looks for: the loop over the cache
unfoldable pub verify_cache : List Cache → List Cache → Result (Unit {0})
verify_cache [] newitems = ok tt
verify_cache (c ∷ cs) newitems =
    let rest = verify_cache cs newitems in
    if is_skipped c then rest else do
      throw_if (not (tie_eq c.memo c.new_memo)) consistency
      throw_if (takes_prio c.new_prio cs) consistency
      throw_if (new_takes_prio c.new_prio newitems) consistency
      rest

-- The loop over the new items
unfoldable pub verify_new : List Cache → Result (Unit {0})
verify_new [] = ok tt
verify_new (n ∷ ns) = do throw_if (new_takes_prio n.new_prio ns) consistency; verify_new ns

-- The end of Repinfo::read_repinfo_file
unfoldable pub verify_conflicts : List Cache → List Cache → Result (Unit {0})
unfolding verify_cache verify_new
verify_conflicts cache newitems = do verify_cache cache newitems; verify_new newitems
