-- ===== src/LatRange.antt =====
-- Latitude ranges in units of 1e-5 degrees: struct LatRange of dballe/types.cc. Degrees given as
-- `double` are the integers that ll_to_int makes of them.
pub mod Laws
use dballe.Prelude.{Bool, not, ◌&&◌, ◌||◌, if◌then◌else◌}
use dballe.Prelude.Int.{ℤ, pos, negsuc, eqb_ℤ, leb_ℤ}
use dballe.Prelude.Words.{is_missing_int}

pub record LatRange : Type 0 where
  pub imin : ℤ
  pub imax : ℤ

-- LatRange::IMIN and LatRange::IMAX
abbrev pub lowest : ℤ
lowest = negsuc 8999999

abbrev pub highest : ℤ
highest = pos 9000000

-- LatRange::set(int, int) and the constructor with the same lines
unfoldable pub set : ℤ → ℤ → LatRange
set min max = record {
  imin = if is_missing_int min then lowest else min;
  imax = if is_missing_int max then highest else max;
}

-- LatRange::set(double, double) and the constructor from degrees
unfoldable pub set_degrees : ℤ → ℤ → LatRange
set_degrees min max = record { imin = min; imax = max }

unfoldable pub eq : LatRange → LatRange → Bool
eq a b = eqb_ℤ a.imin b.imin && eqb_ℤ a.imax b.imax

unfoldable pub ne : LatRange → LatRange → Bool
ne a b = not (eqb_ℤ a.imin b.imin) || not (eqb_ℤ a.imax b.imax)

unfoldable pub is_missing : LatRange → Bool
is_missing r = eqb_ℤ r.imin lowest && eqb_ℤ r.imax highest

-- LatRange::contains(int), and contains(double) after ll_to_int
unfoldable pub contains : LatRange → ℤ → Bool
contains r lat = leb_ℤ r.imin lat && leb_ℤ lat r.imax

-- LatRange::contains(const LatRange&)
unfoldable pub contains_range : LatRange → LatRange → Bool
contains_range r o = leb_ℤ r.imin o.imin && leb_ℤ o.imax r.imax
