-- ===== src/LevTrCache.antt =====
-- The cache of levels and time ranges with their database ids: dballe/db/v7/cache.cc. Entries do not
-- change once they are in the cache, so an index that holds pointers to them holds the entries here.
-- The maps are lists, in the order of insertion.
pub mod Index
pub mod Inserting
use dballe.Prelude.{
  ℕ, Bool, true, false, not, ◌&&◌, if◌then◌else◌, List, [], ◌∷◌, ◌++◌, Option, some, none, Result,
  ok, err, runtime,
}
use dballe.Prelude.Int.{ℤ, eqb_ℤ}
use dballe.Prelude.Words.{missing_int, is_missing_int}
use dballe.Level as Levels
use dballe.Level.{Level}
use dballe.Trange as Tranges
use dballe.Trange.{Trange}

pub record LevTrEntry : Type 0 where
  pub id : ℤ
  pub level : Level
  pub trange : Trange

abbrev pub lev_tr_entry : ℤ → Level → Trange → LevTrEntry
lev_tr_entry id level trange = record { id = id; level = level; trange = trange }

-- LevTrEntry::operator==
unfoldable pub eq : LevTrEntry → LevTrEntry → Bool
eq a b =
    if not (is_missing_int a.id) && not (is_missing_int b.id)
    then eqb_ℤ a.id b.id
    else if Levels.ne a.level b.level
    then false
    else Tranges.eq a.trange b.trange

-- LevTrEntry::operator!=
unfoldable pub ne : LevTrEntry → LevTrEntry → Bool
ne a b =
    if not (is_missing_int a.id) && not (is_missing_int b.id)
    then not (eqb_ℤ a.id b.id)
    else if Levels.eq a.level b.level
    then false
    else Tranges.ne a.trange b.trange

-- LevTrReverseIndex
abbrev pub ReverseIndex : Type 0
ReverseIndex = List (Level × List LevTrEntry)

pub record LevTrCache : Type 0 where
  pub by_id : List LevTrEntry
  pub reverse : ReverseIndex

-- LevTrCache::clear, and the cache as it is made
abbrev pub empty : LevTrCache
empty = record { by_id = []; reverse = [] }

-- `find(level)` of the index; an entry that is not there has no vector
abbrev pub bucket : Level → ReverseIndex → List LevTrEntry
bucket level [] = []
bucket level ((l, es) ∷ rest) = if Levels.eq l level then es else bucket level rest

-- The loop of LevTrReverseIndex::find_id
unfoldable pub scan : LevTrEntry → List LevTrEntry → ℤ
scan lt [] = missing_int
scan lt (e ∷ es) =
    if Levels.eq e.level lt.level && Tranges.eq e.trange lt.trange then e.id else scan lt es

-- LevTrReverseIndex::find_id
unfoldable pub reverse_find_id : LevTrEntry → ReverseIndex → ℤ
unfolding scan
reverse_find_id lt r = scan lt (bucket lt.level r)

-- LevTrReverseIndex::add
unfoldable pub reverse_add : LevTrEntry → ReverseIndex → ReverseIndex
reverse_add lt [] = (lt.level, lt ∷ []) ∷ []
reverse_add lt ((l, es) ∷ rest) =
    if Levels.eq l lt.level then (l, es ++ lt ∷ []) ∷ rest else (l, es) ∷ reverse_add lt rest

-- LevTrCache::find_entry
unfoldable pub find_in : ℤ → List LevTrEntry → Option LevTrEntry
find_in id [] = none
find_in id (e ∷ es) = if eqb_ℤ e.id id then some e else find_in id es

unfoldable pub find_entry : ℤ → LevTrCache → Option LevTrEntry
unfolding find_in
find_entry id c = find_in id c.by_id

abbrev pub add_or_keep :
    LevTrEntry → Option LevTrEntry → LevTrCache → Result (LevTrEntry × LevTrCache)
unfolding ne reverse_add
add_or_keep e (some old) c = if ne old e then err runtime else ok (old, c)
add_or_keep e none c =
    ok (e, record { by_id = c.by_id ++ e ∷ []; reverse = reverse_add e c.reverse })

-- LevTrCache::insert(std::unique_ptr<LevTrEntry>)
unfoldable pub insert : LevTrEntry → LevTrCache → Result (LevTrEntry × LevTrCache)
unfolding find_entry
insert e c = if is_missing_int e.id then err runtime else add_or_keep e (find_entry e.id c) c

-- LevTrCache::insert(const LevTrEntry&, int)
unfoldable pub insert_with_id : LevTrEntry → ℤ → LevTrCache → Result (LevTrEntry × LevTrCache)
unfolding insert
insert_with_id e id c = insert (record e { id = id }) c

-- LevTrCache::find_id
unfoldable pub find_id : LevTrEntry → LevTrCache → ℤ
unfolding reverse_find_id
find_id e c = if not (is_missing_int e.id) then e.id else reverse_find_id e c.reverse
