-- ===== src/LonRange.antt =====
-- Longitude ranges in units of 1e-5 degrees: struct LonRange of dballe/types.cc. A range goes east
-- from imin to imax, so it passes 180 degrees if imax is less than imin. Degrees given as `double`
-- are the integers that ll_to_int makes of them.
pub mod Arc
pub mod Subset
use dballe.Prelude.{
  Bool, true, false, not, ◌&&◌, ◌||◌, if◌then◌else◌, Result, ok, consistency, ◌>>=◌, ◌>>◌, throw_if,
}
use dballe.Prelude.Int.{ℤ, pos, negsuc, eqb_ℤ, leb_ℤ, ltb_ℤ}
use dballe.Prelude.Words.{missing_int, is_missing_int}
use dballe.Coords.{normalon}

pub record LonRange : Type 0 where
  pub imin : ℤ
  pub imax : ℤ

abbrev pub lon_range : ℤ → ℤ → LonRange
lon_range lo hi = record { imin = lo; imax = hi }

-- `if (min != max && imin == imax) imin = imax = MISSING_INT;`
abbrev pub whole_circle : ℤ → ℤ → LonRange → LonRange
whole_circle min max r =
    if not (eqb_ℤ min max) && eqb_ℤ r.imin r.imax then lon_range missing_int missing_int else r

abbrev normalon_or_missing : ℤ → ℤ
normalon_or_missing z = if is_missing_int z then missing_int else normalon z

-- LonRange::set(int, int), the constructor that calls it, and set(double, double) after ll_to_int
unfoldable pub set : ℤ → ℤ → Result LonRange
set min max = do
  throw_if
      ((not (is_missing_int min) || not (is_missing_int max))
        && (is_missing_int min || is_missing_int max))
      consistency
  ok (whole_circle min max (lon_range (normalon_or_missing min) (normalon_or_missing max)))

-- LonRange::set(const LonRange&)
unfoldable pub set_range : LonRange → Result LonRange
set_range lr = set lr.imin lr.imax

-- LonRange::LonRange(double, double). `differ` is the test `min != max` on the degrees.
unfoldable pub of_degrees : Bool → ℤ → ℤ → LonRange
of_degrees differ min max =
    let r = lon_range (normalon min) (normalon max) in
    if differ && eqb_ℤ r.imin r.imax then lon_range missing_int missing_int else r

unfoldable pub is_missing : LonRange → Bool
is_missing r = is_missing_int r.imin || is_missing_int r.imax

unfoldable pub eq : LonRange → LonRange → Bool
eq a b = if is_missing a && is_missing b then true else eqb_ℤ a.imin b.imin && eqb_ℤ a.imax b.imax

unfoldable pub ne : LonRange → LonRange → Bool
ne a b =
    if is_missing a && is_missing b
    then false
    else not (eqb_ℤ a.imin b.imin) || not (eqb_ℤ a.imax b.imax)

-- LonRange::contains(int), and contains(double) after ll_to_int
unfoldable pub contains : LonRange → ℤ → Bool
contains r lon =
    if eqb_ℤ r.imin r.imax
    then (if is_missing_int r.imin then true else eqb_ℤ lon r.imin)
    else if ltb_ℤ r.imin r.imax
    then leb_ℤ r.imin lon && leb_ℤ lon r.imax
    else (leb_ℤ r.imin lon && leb_ℤ lon (pos 18000000))
      || (leb_ℤ (negsuc 17999999) lon && leb_ℤ lon r.imax)

-- LonRange::contains(const LonRange&)
unfoldable pub contains_range : LonRange → LonRange → Bool
contains_range r o =
    if is_missing r
    then true
    else if is_missing o
    then false
    else if ltb_ℤ r.imin r.imax
    then if ltb_ℤ o.imin o.imax then leb_ℤ r.imin o.imin && leb_ℤ o.imax r.imax else false
    else if ltb_ℤ o.imin o.imax
    then leb_ℤ o.imax r.imin || leb_ℤ r.imax o.imin
    else leb_ℤ o.imin r.imin || leb_ℤ r.imax o.imax
