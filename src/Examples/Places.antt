-- ===== src/Examples/Places.antt =====
-- The theorems on coordinates, longitudes, levels and time ranges at concrete inputs.
use dballe.Prelude.{ℕ, ◌*◌, ◌≡◌, ◌≢◌, arith, true, false, leb, err, consistency}
use dballe.Prelude.Int.{pos, negsuc, ◌≤ℤ◌, ◌<ℤ◌, ◌+ℤ◌, ltb_ℤ, sub_ℕ}
use dballe.Prelude.Words.{missing_int}
use dballe.Coords.{normalon}
use dballe.Coords.Laws.{IsTurned, normalon-IsTurned, normalon_below}
use dballe.LonRange.{lon_range, set, contains, contains_range}
use dballe.LonRange.Arc.{east_of, contains-arc, set_open}
use dballe.LonRange.Subset.{contains_range_gap}
use dballe.Level as Levels
use dballe.Level.{level}
use dballe.Level.Order.{HasNaturals, compare_overflow}

normalon-IsTurned_example : IsTurned (pos 19000000)
normalon-IsTurned_example = normalon-IsTurned (pos 19000000) (omega arith) (omega arith)

normalon_below_example :
    (turns : ℕ) × (negsuc 53999999 <ℤ normalon (negsuc 18999999))
    × (normalon (negsuc 18999999) ≤ℤ negsuc 17999999)
    × (normalon (negsuc 18999999) ≡ negsuc 18999999 +ℤ pos (turns * 36000000))
normalon_below_example =
    normalon_below (negsuc 18999999) (record { above = omega arith; below = omega arith })
      (omega arith)

latitude_given : pos 4500000 ≢ missing_int
latitude_given h = ground arith

contains-arc_example :
    contains (lon_range (sub_ℕ 35000000 18000000) (sub_ℕ 1000000 18000000)) (sub_ℕ 0 18000000)
    ≡ leb (east_of 35000000 0) (east_of 35000000 1000000)
contains-arc_example = contains-arc 35000000 1000000 0 (omega arith) (omega arith) (omega arith)

given : pos 1000000 ≢ missing_int
given h = ground arith

set_open_example :
    (set missing_int (pos 1000000) ≡ err consistency)
    × (set (pos 1000000) missing_int ≡ err consistency)
set_open_example = set_open (pos 1000000) given

contains_range_gap_example :
    (contains_range (lon_range (pos 17000000) (negsuc 16999999)) (lon_range (pos 0) (pos 1000000))
      ≡ true)
    × (contains (lon_range (pos 0) (pos 1000000)) (pos 0) ≡ true)
    × (contains (lon_range (pos 17000000) (negsuc 16999999)) (pos 0) ≡ false)
contains_range_gap_example =
    contains_range_gap (pos 17000000) (negsuc 16999999) (pos 0) (pos 1000000) (omega arith)
      (omega arith) (omega arith) (omega arith)

surface_HasNaturals : HasNaturals (level (pos 1) missing_int missing_int missing_int)
surface_HasNaturals = record {
  ltype1 = (omega arith, omega arith);
  l1 = (omega arith, omega arith);
  ltype2 = (omega arith, omega arith);
  l2 = (omega arith, omega arith);
}

height_HasNaturals : HasNaturals (level (pos 103) (pos 2000) missing_int missing_int)
height_HasNaturals = record {
  ltype1 = (omega arith, omega arith);
  l1 = (omega arith, omega arith);
  ltype2 = (omega arith, omega arith);
  l2 = (omega arith, omega arith);
}

compare_overflow_example :
    (ltb_ℤ
        (Levels.compare
          (level (pos 1) missing_int missing_int missing_int)
          (level (pos 1) (negsuc 9) missing_int missing_int))
        (pos 0)
      ≡ true)
    × (Levels.lt
          (level (pos 1) missing_int missing_int missing_int)
          (level (pos 1) (negsuc 9) missing_int missing_int)
        ≡ false)
compare_overflow_example =
    compare_overflow (pos 1) missing_int missing_int missing_int missing_int 9 (omega arith)
