-- ===== src/RepinfoUpdate/Rows.antt =====
-- Reading the rows of a file of reports, against what they make of each entry of the cache.
use dballe.Prelude.{
  ℕ, ◌≡◌, refl, ◌∙◌, ap, if◌then◌else◌, List, [], ◌∷◌, ◌++◌, map, Option, some, none, Result, ok,
  err, parse, ◌>>=◌, Bool-cases, inl, inr,
}
use mathlib.Core.List.{append_assoc}
use dballe.Prelude.Int.{ℤ}
use dballe.Prelude.Order.{nat_ord}
use dballe.Prelude.Words.{to_u32}
use dballe.SortedVector.Search.{Finds, at, absent}
use dballe.Matcher.{to_lower}
use dballe.Repinfo.{Cache, make_new}
use dballe.Repinfo.Order.{Increasing, cache_find_by_id_lem}
use dballe.RepinfoUpdate.{to_int, with_new, place_row, merge_row, merge_rows}
use dballe.RepinfoUpdate.Refreshed.{
  Row, refreshed, refreshed_by, has_id, new_item, new_items, new_items-refreshed,
  Increasing-refreshed, refreshed-absent, refreshed-at,
}

abbrev pub cons_row : Option Row → Option (List Row) → Option (List Row)
cons_row (some r) (some rs) = some (r ∷ rs)
cons_row _ _ = none

-- What reading the rows leaves of a cache and the new items before them
abbrev pub outcome : Option (List Row) → List Cache × List Cache → Result (List Cache × List Cache)
outcome none s = err parse
outcome (some rs) s = ok (map (refreshed_by rs) s.0, s.1 ++ new_items s.0 rs)

-- The cache and the new items after one row
abbrev after_row : Row → List Cache × List Cache → List Cache × List Cache
after_row r s = (map (refreshed r) s.0, if has_id r.id s.0 then s.1 else s.1 ++ new_item r ∷ [])

row_outcome : Option Row → List Cache × List Cache → Result (List Cache × List Cache)
row_outcome none s = err parse
row_outcome (some r) s = ok (after_row r s)

map-refreshed :
    (r : Row) (rs : List Row) (cs : List Cache)
    → map (refreshed_by rs) (map (refreshed r) cs) ≡ map (refreshed_by (r ∷ rs)) cs
map-refreshed r rs [] = refl
map-refreshed r rs (c ∷ cs) =
    ap (λ ys. refreshed_by rs (refreshed r c) ∷ ys) (map-refreshed r rs cs)

outcome-after_row :
    (r : Row) (rs : Option (List Row)) (s : List Cache × List Cache)
    → outcome rs (after_row r s) ≡ outcome (cons_row (some r) rs) s
outcome-after_row r none s = refl
outcome-after_row r (some rs) s = elim (Bool-cases (has_id r.id s.0)) [
  | inl e ↦ rw (e, map-refreshed r rs s.0, new_items-refreshed r s.0 rs) refl
  | inr e ↦
      rw
        (
          e,
          map-refreshed r rs s.0,
          new_items-refreshed r s.0 rs,
          append_assoc s.1 (new_item r ∷ []) (new_items s.0 rs),
        )
        refl
]

-- A row of the file with six columns is read to `r`.
module _ (strtol : List ℕ → ℤ) where
  abbrev pub row_of : List ℕ → List ℕ → List ℕ → List ℕ → List ℕ → List ℕ → Row
  row_of id memo desc prio descriptor tablea = record {
    id = to_u32 (strtol id);
    memo = map to_lower memo;
    desc = desc;
    prio = to_int (strtol prio);
    descriptor = descriptor;
    tablea = to_u32 (strtol tablea);
  }

  -- The rows of a file, or none if one does not have six columns
  abbrev pub read_row : List (List ℕ) → Option Row
  read_row (id ∷ memo ∷ desc ∷ prio ∷ descriptor ∷ tablea ∷ []) =
      some (row_of id memo desc prio descriptor tablea)
  read_row _ = none

  abbrev pub read_rows : List (List (List ℕ)) → Option (List Row)
  read_rows [] = some []
  read_rows (row ∷ rows) = cons_row (read_row row) (read_rows rows)

  place_row_lem :
      (id memo desc prio descriptor tablea : List ℕ) (f : Option ℕ) (s : List Cache × List Cache)
      → Increasing s.0
      → Finds (λ c. c.id) (to_u32 (strtol id)) s.0 f
      → place_row
          (to_u32 (strtol id))
          (map to_lower memo)
          desc
          (strtol prio)
          descriptor
          (strtol tablea)
          (some f)
          s
        ≡ ok (after_row (row_of id memo desc prio descriptor tablea) s)
  unfolding place_row make_new
  place_row_lem id memo desc prio descriptor tablea _ (cache, new) h (at i x g same) =
      let r = row_of id memo desc prio descriptor tablea in
      let (changed, there) =
        refreshed-at r cache i x
          (with_new (map to_lower memo) desc (strtol prio) descriptor (strtol tablea)) h g same
          (λ c e. rw e refl) in
      rw (changed, there) refl
  place_row_lem id memo desc prio descriptor tablea _ (cache, new) h (absent none_there) =
      let (kept, not_there) =
        refreshed-absent (row_of id memo desc prio descriptor tablea) cache none_there in
      rw (kept, not_there) refl

  merge_row_lem :
      (row : List (List ℕ)) (s : List Cache × List Cache)
      → Increasing s.0
      → merge_row strtol row s ≡ row_outcome (read_row row) s
  unfolding merge_row row_outcome
  merge_row_lem [] s h = refl
  merge_row_lem (a ∷ []) s h = refl
  merge_row_lem (a ∷ b ∷ []) s h = refl
  merge_row_lem (a ∷ b ∷ c ∷ []) s h = refl
  merge_row_lem (a ∷ b ∷ c ∷ d ∷ []) s h = refl
  merge_row_lem (a ∷ b ∷ c ∷ d ∷ e ∷ []) s h = refl
  merge_row_lem (a ∷ b ∷ c ∷ d ∷ e ∷ f ∷ g ∷ r) s h = refl
  merge_row_lem (id ∷ memo ∷ desc ∷ prio ∷ descriptor ∷ tablea ∷ []) s h =
      let (r, e, finds) = cache_find_by_id_lem (to_u32 (strtol id)) s.0 h in
      rw e (place_row_lem id memo desc prio descriptor tablea r s h finds)

  merge_rows-onto :
      (rows : List (List (List ℕ))) (s : List Cache × List Cache)
      → Increasing s.0
      → merge_rows strtol rows s ≡ outcome (read_rows rows) s
  unfolding merge_rows
  merge_rows-onto [] (cache, new) h = rw (map_same cache, append_nil new) refl
    where
      map_same : (cs : List Cache) → map (refreshed_by []) cs ≡ cs
      map_same [] = refl
      map_same (c ∷ cs) = ap (λ ys. c ∷ ys) (map_same cs)

      append_nil : (cs : List Cache) → cs ++ [] ≡ cs
      append_nil [] = refl
      append_nil (c ∷ cs) = ap (λ ys. c ∷ ys) (append_nil cs)
  merge_rows-onto (row ∷ rows) s h = rw (merge_row_lem row s h) (
      by_row (read_row row)
        (λ r. merge_rows-onto rows (after_row r s) (Increasing-refreshed r s.0 h)))
    where
      by_row :
          (r : Option Row)
          → ((r : Row)
              → merge_rows strtol rows (after_row r s) ≡ outcome (read_rows rows) (after_row r s))
          → (row_outcome r s >>= merge_rows strtol rows) ≡ outcome (cons_row r (read_rows rows)) s
      by_row none rest = unfold row_outcome in refl
      by_row (some r) rest = unfold row_outcome in rest r ∙ outcome-after_row r (read_rows rows) s

  -- If ids rise in the cache, reading the rows of a file throws error_parse if a row does not have six
  -- columns. Otherwise it gives each entry the new name, in lower case, description, priority,
  -- descriptor and table of the last row with its id, and leaves its other fields and the entries with
  -- no row as they are; and it makes a new item of each row whose id the cache does not have, in order.
  pub merge_rows_lem :
      (rows : List (List (List ℕ))) (cache : List Cache)
      → Increasing cache
      → merge_rows strtol rows (cache, []) ≡ outcome (read_rows rows) (cache, [])
  merge_rows_lem rows cache h = merge_rows-onto rows (cache, []) h
