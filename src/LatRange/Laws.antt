-- ===== src/LatRange/Laws.antt =====
-- What the tests of LatRange say of the latitudes in a range.
use dballe.Prelude.{◌≡◌, true, ◌||◌, ◌&&◌, arith}
use dballe.Prelude.Int.{ℤ, ◌≤ℤ◌, leb_ℤ, eqb_ℤ}
use dballe.Prelude.Words.{missing_int}
use dballe.LatRange.{LatRange, lowest, highest, set, is_missing, contains, contains_range}

-- A range contains another that is not empty just when it contains both of its ends, and then it
-- contains each latitude of the other.
pub contains_range-eq :
    (r o : LatRange) (lat : ℤ)
    → o.imin ≤ℤ o.imax
    → (contains_range r o ≡ (contains r o.imin && contains r o.imax))
      × ((contains_range r o && contains o lat)
          ≡ (contains_range r o && (contains o lat && contains r lat)))
unfolding contains_range contains
contains_range-eq r o lat h = (ground arith, ground arith)

-- A range with no bounds given is the missing range, and it contains each latitude from -90 to 90
-- degrees; a missing bound is open to its pole, and two given bounds are kept.
pub set-contains :
    (min max lat : ℤ)
    → lowest ≤ℤ lat
    → lat ≤ℤ highest
    → (is_missing (set missing_int missing_int) ≡ true)
      × (contains (set missing_int missing_int) lat ≡ true)
      × (contains (set min missing_int) lat ≡ (leb_ℤ min lat || eqb_ℤ min missing_int))
      × (contains (set missing_int max) lat ≡ leb_ℤ lat max)
unfolding set is_missing contains
set-contains min max lat h k = (ground arith, ground arith, ground arith, ground arith)
