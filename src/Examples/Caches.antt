-- ===== src/Examples/Caches.antt =====
-- The theorems on the cache of levels and time ranges at concrete inputs.
use dballe.Prelude.{[], ◌∷◌}
use dballe.Prelude.Int.{pos}
use dballe.Prelude.Words.{missing_int}
use dballe.Level.{Level, level}
use dballe.Trange.{instant}
use dballe.LevTrCache.{LevTrEntry, LevTrCache, lev_tr_entry, empty, find_id, reverse_add}
use dballe.LevTrCache.Index.{IsIndexed, FoundId, empty-IsIndexed, stored-IsIndexed, find_id_lem}

-- Two metres above the ground, and the surface
abbrev two_metres : Level
two_metres = level (pos 103) (pos 2000) missing_int missing_int

abbrev surface : Level
surface = level (pos 1) missing_int missing_int missing_int

abbrev first : LevTrEntry
first = lev_tr_entry (pos 4) two_metres instant

-- The cache that holds the first entry
abbrev one : LevTrCache
one = record { by_id = first ∷ []; reverse = reverse_add first [] }

one-IsIndexed : IsIndexed one
one-IsIndexed = stored-IsIndexed first empty empty-IsIndexed

abbrev asked : LevTrEntry
asked = lev_tr_entry missing_int two_metres instant

find_id_lem_example : FoundId asked one.by_id (find_id asked one)
find_id_lem_example = find_id_lem asked one one-IsIndexed
