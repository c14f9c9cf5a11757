-- ===== src/LevTrCache/Inserting.antt =====
-- Inserting entries in the cache.
use dballe.Prelude.{◌≡◌, true, if◌then◌else◌, some, none, Result, ok, err, runtime}
use dballe.Prelude.Int.{ℤ, eqb_ℤ}
use dballe.Prelude.Words.{is_missing_int}
use dballe.LevTrCache.{LevTrEntry, LevTrCache, find_entry}
use dballe.LevTrCache.Index.{IsIndexed}

-- The outcomes of inserting `e` in `c`
pub data Inserts (e : LevTrEntry) (c : LevTrCache) : Result (LevTrEntry × LevTrCache) → Type 0 where
  no_id : is_missing_int e.id ≡ true → Inserts e c (err runtime)
  kept : {old : LevTrEntry} → find_entry e.id c ≡ some old → Inserts e c (ok (old, c))
  stored :
      {after : LevTrCache}
      → find_entry e.id c ≡ none
      → IsIndexed after
      → ((id : ℤ) → find_entry id after ≡ (if eqb_ℤ e.id id then some e else find_entry id c))
      → Inserts e c (ok (e, after))
