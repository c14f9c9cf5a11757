-- ===== src/RepinfoUpdate.antt =====
-- The update of report information: read_repinfo_file and update of dballe/db/v7/repinfo.cc. The rows
-- of the file are what csv_read_next reads of it, `strtol` is that of the C library, and `table` the
-- virtual functions that the SQL engines implement.
pub mod Refreshed
pub mod Rows
use dballe.Prelude.{
  is_empty, ℕ, ◌+◌, Bool, true, false, not, ◌&&◌, ltb, if◌then◌else◌, List, [], ◌∷◌, ◌++◌, map,
  Option, some, none, Error, Result, ok, err, consistency, runtime, parse, throw_if, ◌>>=◌, ◌>>◌,
}
use dballe.Prelude.Int.{ℤ}
use dballe.Prelude.Words.{to_u32, wrap32}
use dballe.Pending.{change_at}
use dballe.Matcher.{to_lower}
use dballe.Repinfo.{Cache, Repinfo, entry, make_new, cache_find_by_id, verify_conflicts}

-- `id = strtol(...)`, of a `long` that is put in an `int`
abbrev pub to_int : ℤ → ℤ
to_int z = wrap32 z

-- The new fields of an entry that is in the file
abbrev pub with_new : List ℕ → List ℕ → ℤ → List ℕ → ℤ → Cache → Cache
with_new memo desc prio descriptor tablea c = record c {
  new_memo = memo;
  new_desc = desc;
  new_prio = to_int prio;
  new_descriptor = descriptor;
  new_tablea = to_u32 tablea;
}

abbrev pub place_row :
    ℕ
    → List ℕ
    → List ℕ
    → ℤ
    → List ℕ
    → ℤ
    → Option (Option ℕ)
    → List Cache × List Cache
    → Result (List Cache × List Cache)
unfolding make_new
place_row id memo desc prio descriptor tablea none (cache, new) = err runtime
place_row id memo desc prio descriptor tablea (some none) (cache, new) =
    ok (cache, new ++ make_new (entry id memo desc (to_int prio) descriptor (to_u32 tablea)) ∷ [])
place_row id memo desc prio descriptor tablea (some (some i)) (cache, new) =
    ok (change_at (with_new memo desc prio descriptor tablea) i cache, new)

module _ (strtol : List ℕ → ℤ) where
  -- The body of the loop over the rows: the cache and the new items before and after it
  unfoldable pub merge_row :
      List (List ℕ) → List Cache × List Cache → Result (List Cache × List Cache)
  unfolding cache_find_by_id make_new
  merge_row (id ∷ memo ∷ desc ∷ prio ∷ descriptor ∷ tablea ∷ []) (cache, new) =
      let number = to_u32 (strtol id) in
      place_row number (map to_lower memo) desc (strtol prio) descriptor (strtol tablea)
        (cache_find_by_id number cache) (cache, new)
  merge_row _ _ = err parse

  unfoldable pub merge_rows :
      List (List (List ℕ)) → List Cache × List Cache → Result (List Cache × List Cache)
  unfolding merge_row
  merge_rows [] s = ok s
  merge_rows (row ∷ rows) s = merge_row row s >>= merge_rows rows

  -- Repinfo::read_repinfo_file
  unfoldable pub read_repinfo_file :
      List (List (List ℕ)) → List Cache → Result (List Cache × List Cache)
  unfolding merge_rows verify_conflicts
  read_repinfo_file rows cache = do s ← merge_rows rows (cache, []); verify_conflicts s.0 s.1; ok s

-- The virtual functions of Repinfo
pub record RepinfoTable (Db : Type 0) : Type 0 where
  pub id_use_count : ℕ → List ℕ → Db → ℕ
  pub delete_entry : ℕ → Db → Db
  pub update_entry : Cache → Db → Db
  pub insert_entry : Cache → Db → Db
  pub read_cache : Db → Result Repinfo

-- `!entry.memo.empty() && entry.new_memo.empty()`
abbrev pub is_deleted : Cache → Bool
is_deleted c = not (is_empty c.memo) && is_empty c.new_memo

abbrev pub is_updated : Cache → Bool
is_updated c = not (is_empty c.memo) && not (is_empty c.new_memo)

module _ {Db : Type 0} (table : RepinfoTable Db) where
  -- The loop that looks for entries to delete that are in use
  unfoldable pub verify_unused : List Cache → Db → Result (Unit {0})
  verify_unused [] db = ok tt
  verify_unused (c ∷ cs) db = do
    throw_if (is_deleted c && ltb 0 (table.id_use_count c.id c.memo db)) consistency
    verify_unused cs db

  -- The loop that changes the entries, with the numbers of deleted and updated ones
  unfoldable pub change_entries : List Cache → Db → ℕ → ℕ → Db × ℕ × ℕ
  change_entries [] db deleted updated = (db, deleted, updated)
  change_entries (c ∷ cs) db deleted updated = elim (is_deleted c) [
    | true ↦ change_entries cs (table.delete_entry c.id db) (deleted + 1) updated
    | false ↦ elim (is_updated c) [
      | true ↦ change_entries cs (table.update_entry c db) deleted (updated + 1)
      | false ↦ change_entries cs db deleted updated
    ]
  ]

  -- The loop that inserts the new items, with their number
  unfoldable pub insert_entries : List Cache → Db → ℕ → Db × ℕ
  insert_entries [] db added = (db, added)
  insert_entries (c ∷ cs) db added = insert_entries cs (table.insert_entry c db) (added + 1)

  -- Repinfo::update
  unfoldable pub update :
      (List ℕ → ℤ) → List (List (List ℕ)) → List Cache → Db → Result (ℕ × ℕ × ℕ × Repinfo × Db)
  unfolding read_repinfo_file verify_unused change_entries insert_entries
  update strtol rows cache db = do
    s ← read_repinfo_file strtol rows cache
    verify_unused s.0 db
    let (db1, deleted, updated) = change_entries s.0 db 0 0
    let (db2, added) = insert_entries s.1 db1 0
    r ← table.read_cache db2
    ok (added, deleted, updated, r, db2)
