-- ===== src/Examples/Reports.antt =====
-- The theorems on report information at concrete inputs.
use dballe.Prelude.{◌-◌, ℕ, ◌-◌, ◌≡◌, arith, ◌&&◌, List, [], ◌∷◌, ◌++◌, some, length}
use dballe.Prelude.Int.{ℤ, pos}
use dballe.SmallSet.{small_set, rearrange_dirty}
use dballe.SmallSet.Search.{IsTidy, IsSort, Ascending-rearrange_dirty, SameItems-rearrange_dirty}
use dballe.Repinfo.{
  Cache, Repinfo, Memoidx, entry, text_ord, cache_append, get_id, lc_memo, verify_conflicts,
}
use dballe.Repinfo.Conflicts.{
  returns, keeps_names, no_repeats, kept_prios, new_prios, verify_conflicts_lem,
}
use dballe.Repinfo.Order.{Increasing, Appends, cache_append_lem}
use dballe.RepinfoUpdate.{merge_rows}
use dballe.RepinfoUpdate.Rows.{outcome, read_rows, merge_rows_lem}
use dballe.Repinfo.Names.{Named, get_id_lem}

abbrev synop : List ℕ
synop = 115 ∷ 121 ∷ 110 ∷ 111 ∷ 112 ∷ []

abbrev temp : List ℕ
temp = 116 ∷ 101 ∷ 109 ∷ 112 ∷ []

abbrev synop_entry : Cache
synop_entry = entry 1 synop synop (pos 101) [] 0

abbrev temp_entry : Cache
temp_entry = entry 3 temp temp (pos 100) [] 2

abbrev two : List Cache
two = synop_entry ∷ temp_entry ∷ []

two-Increasing : Increasing two
two-Increasing = ((omega arith, tt), (tt, tt))

abbrev two_reports : Repinfo
two_reports = record { cache = two; memo_idx = [] }

cache_append_lem_example :
    Appends
      (entry 3 temp temp (pos 7) [] 0)
      two_reports
      (cache_append (entry 3 temp temp (pos 7) [] 0) two_reports)
cache_append_lem_example =
    cache_append_lem (entry 3 temp temp (pos 7) [] 0) two_reports two-Increasing

-- Insertion sort by the names, for std::sort
abbrev by_memo : List Memoidx → List Memoidx
by_memo xs = (rearrange_dirty (λ m. m.memo) (small_set xs (length xs))).items

all_dirty : (xs : List Memoidx) → IsTidy (λ m. m.memo) (small_set xs (length xs))
all_dirty xs = record {
  within = omega arith;
  sorted = let e : length xs - length xs ≡ 0 = omega arith in rw e tt;
}

by_memo-IsSort : IsSort (λ m. m.memo) by_memo
by_memo-IsSort = record {
  ascending =
      λ xs. Ascending-rearrange_dirty (λ m. m.memo) (small_set xs (length xs)) (all_dirty xs);
  same = λ xs. SameItems-rearrange_dirty (λ m. m.memo) (small_set xs (length xs));
}

-- "TEMP" is found as "temp".
get_id_lem_example :
    (r : ℤ) × ((get_id by_memo (84 ∷ 69 ∷ 77 ∷ 80 ∷ []) two_reports).0 ≡ some r)
    × Named (lc_memo (84 ∷ 69 ∷ 77 ∷ 80 ∷ [])) two r
get_id_lem_example = get_id_lem by_memo by_memo-IsSort (84 ∷ 69 ∷ 77 ∷ 80 ∷ []) two

-- A new report that takes the priority of one that is kept
abbrev kept_temp : List Cache
kept_temp = record temp_entry { new_memo = temp; new_prio = pos 100 } ∷ []

abbrev new_report : List Cache
new_report = record synop_entry { new_memo = synop; new_prio = pos 100 } ∷ []

verify_conflicts_lem_example :
    returns (verify_conflicts kept_temp new_report)
    ≡ (keeps_names kept_temp && no_repeats (kept_prios kept_temp ++ new_prios new_report))
verify_conflicts_lem_example = verify_conflicts_lem kept_temp new_report

-- A file that has "SYNOP" with id 1 and a new report with id 2; each number is read as its digit.
abbrev digit : List ℕ → ℤ
digit [] = pos 0
digit (c ∷ s) = pos (c - 48)

abbrev file_rows : List (List (List ℕ))
file_rows =
    ((49 ∷ []) ∷ (83 ∷ 89 ∷ 78 ∷ 79 ∷ 80 ∷ []) ∷ [] ∷ (53 ∷ []) ∷ [] ∷ (48 ∷ []) ∷ [])
    ∷ ((50 ∷ []) ∷ (88 ∷ []) ∷ [] ∷ (54 ∷ []) ∷ [] ∷ (48 ∷ []) ∷ [])
    ∷ []

merge_rows_lem_example :
    merge_rows digit file_rows (two, []) ≡ outcome (read_rows digit file_rows) (two, [])
merge_rows_lem_example = merge_rows_lem digit file_rows two two-Increasing
