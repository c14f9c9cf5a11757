-- ===== src/LonRange/Subset.antt =====
-- LonRange::contains(const LonRange&) against the longitudes that the ranges contain.
use dballe.Prelude.{◌≡◌, true, false, ◌&&◌, arith}
use dballe.Prelude.Int.{ℤ, ◌≤ℤ◌, ◌<ℤ◌, leb_ℤ}
use dballe.Prelude.Words.{missing_int}
use dballe.LonRange.{LonRange, lon_range, contains, contains_range, is_missing}

module _ (r : LonRange) (h : r.imin <ℤ r.imax) (n : r.imax <ℤ missing_int) where
  nested_ends :
      (o : LonRange)
      → contains_range r o ≡ true
      → (o.imin <ℤ o.imax) × (r.imin ≤ℤ o.imin) × (o.imax ≤ℤ r.imax)
  unfolding contains_range is_missing
  nested_ends o k = ground arith

  between : (lon : ℤ) → contains r lon ≡ (leb_ℤ r.imin lon && leb_ℤ lon r.imax)
  unfolding contains
  between lon = ground arith

-- For an outer range that does not pass 180 degrees, contains is sound: a range that is said to be
-- contained has no longitude outside of it.
pub contains_range-eastward :
    (r o : LonRange) (lon : ℤ)
    → r.imin <ℤ r.imax
    → r.imax <ℤ missing_int
    → contains_range r o ≡ true
    → contains o lon ≡ true
    → contains r lon ≡ true
contains_range-eastward r o lon h n k l =
    let ends : (o.imin <ℤ o.imax) × (r.imin ≤ℤ o.imin) × (o.imax ≤ℤ r.imax) =
      nested_ends r h n o k in
    ground (arith, between r h n lon, between o ends.0 (omega arith) lon)

-- In a range from `from` east past 180 degrees to `to`, any range from `a` to `b` in the gap
-- between `to` and `from` is said to be contained, though it contains `a` and the outer range does
-- not.
pub contains_range_gap :
    (from to a b : ℤ)
    → to <ℤ a
    → a <ℤ b
    → b <ℤ from
    → from <ℤ missing_int
    → (contains_range (lon_range from to) (lon_range a b) ≡ true)
      × (contains (lon_range a b) a ≡ true)
      × (contains (lon_range from to) a ≡ false)
unfolding contains_range contains is_missing
contains_range_gap from to a b h k l m = (ground arith, ground arith, ground arith)
