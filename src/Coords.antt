-- ===== src/Coords.antt =====
-- Coordinates in units of 1e-5 degrees: struct Coords and the coordinate utilities of
-- dballe/types.cc. Where the code takes degrees as `double`, the argument here is the integer that
-- ll_to_int (lround of the degrees times 100000) makes of it.
pub mod Laws
pub mod Difference
use dballe.Prelude.{ℕ, ◌+◌, ◌%◌, Bool, true, false, not, ◌&&◌, ◌||◌, if◌then◌else◌, List, [], ◌∷◌}
use dballe.Prelude.Int.{ℤ, pos, negsuc, sub_ℕ, ◌+ℤ◌, ◌-ℤ◌, eqb_ℤ}
use dballe.Prelude.Words.{missing_int, is_missing_int, wrap32, sub32}
use dballe.Prelude.Order.{int_ord, tie_eq, tie_lt}

pub record Coords : Type 0 where
  pub lat : ℤ
  pub lon : ℤ

abbrev pub coords : ℤ → ℤ → Coords
coords lat lon = record { lat = lat; lon = lon }

abbrev pub missing : Coords
missing = coords missing_int missing_int

-- `z % k` on `int`: the remainder has the sign of `z`
abbrev pub rem : ℤ → ℕ → ℤ
rem (pos n) k = pos (n % k)
rem (negsuc n) k = sub_ℕ 0 ((n + 1) % k)

unfoldable pub normalon : ℤ → ℤ
unfolding ◌+ℤ◌ ◌-ℤ◌
normalon lon = rem (wrap32 (lon +ℤ pos 18000000)) 36000000 -ℤ pos 18000000

unfoldable pub is_missing : Coords → Bool
is_missing c = is_missing_int c.lat && is_missing_int c.lon

-- Coords::set(int, int) and the constructor that calls it
unfoldable pub set : ℤ → ℤ → Coords
set lat lon =
    if is_missing_int lat || is_missing_int lon then missing else coords lat (normalon lon)

-- Coords::set(double, double) and the constructor from degrees
unfoldable pub set_degrees : ℤ → ℤ → Coords
set_degrees lat lon = coords lat (normalon lon)

-- Coords::set_lat(int)
unfoldable pub set_lat : Coords → ℤ → Coords
set_lat c lat = if is_missing_int lat then missing else record c { lat = lat }

-- Coords::set_lon(int)
unfoldable pub set_lon : Coords → ℤ → Coords
set_lon c lon = if is_missing_int lon then missing else record c { lon = normalon lon }

-- Coords::set_lat(double) and Coords::set_lon(double)
unfoldable pub set_lat_degrees : Coords → ℤ → Coords
set_lat_degrees c lat = record c { lat = lat }

unfoldable pub set_lon_degrees : Coords → ℤ → Coords
set_lon_degrees c lon = record c { lon = normalon lon }

-- `if (int res = a - b) return res;` on `int`
abbrev pub first_difference32 : ℤ → ℤ → ℤ → ℤ
first_difference32 a b rest = if eqb_ℤ (sub32 a b) (pos 0) then rest else sub32 a b

unfoldable pub compare : Coords → Coords → ℤ
compare a b = first_difference32 a.lat b.lat (sub32 a.lon b.lon)

abbrev pub fields : Coords → List ℤ
fields c = c.lat ∷ c.lon ∷ []

unfoldable pub eq : Coords → Coords → Bool
eq a b = tie_eq (fields a) (fields b)

unfoldable pub ne : Coords → Coords → Bool
ne a b = not (tie_eq (fields a) (fields b))

unfoldable pub lt : Coords → Coords → Bool
lt a b = tie_lt (fields a) (fields b)

unfoldable pub gt : Coords → Coords → Bool
gt a b = tie_lt (fields b) (fields a)

unfoldable pub le : Coords → Coords → Bool
le a b = not (tie_lt (fields b) (fields a))

unfoldable pub ge : Coords → Coords → Bool
ge a b = not (tie_lt (fields a) (fields b))
