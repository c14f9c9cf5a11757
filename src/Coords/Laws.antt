-- ===== src/Coords/Laws.antt =====
-- Which longitudes `normalon` brings into range, and the comparison operators of Coords.
use dballe.Prelude.{ℕ, ◌+◌, ◌-◌, ◌<◌, ◌/◌, ◌%◌, ◌*◌, ◌≡◌, ◌≢◌, refl, sym, false, arith}
use dballe.Prelude.Int.{ℤ, pos, negsuc, ◌≤ℤ◌, ◌<ℤ◌, pos_part, neg_part, sub_ℕ, ◌+ℤ◌, ◌-ℤ◌}
use mathlib.Core.Path.{subst}
use dballe.Prelude.Words.{missing_int, is_missing_int, IsInt}
use dballe.Prelude.Order.{int_ord, Comparison, IsTotalOrder, tie-IsTotalOrder}
use dballe.Coords.{Coords, fields, normalon, is_missing, set, eq, ne, lt, gt, le, ge}

-- From -180 up to, and without, 180 degrees
pub record IsNormal (lon : ℤ) : Type 0 where
  pub from : negsuc 17999999 ≤ℤ lon
  pub to : lon <ℤ pos 18000000

-- A longitude counted from -180 degrees
normalon-eq : (x : ℕ) → x < 2147483648 → normalon (sub_ℕ x 18000000) ≡ sub_ℕ (x % 36000000) 18000000
unfolding normalon ◌+ℤ◌ ◌-ℤ◌
normalon-eq x h = ground arith

from_west :
    (lon : ℤ)
    → negsuc 17999999 ≤ℤ lon
    → lon ≡ sub_ℕ (pos_part lon + 18000000 - neg_part lon) 18000000
from_west lon h = ground arith

sub_ℕ-IsNormal : (x : ℕ) → x < 36000000 → IsNormal (sub_ℕ x 18000000)
sub_ℕ-IsNormal x h = record { from = ground arith; to = ground arith }

whole_turns :
    (x : ℕ) → sub_ℕ x 18000000 ≡ sub_ℕ (x % 36000000) 18000000 +ℤ pos (x / 36000000 * 36000000)
unfolding ◌+ℤ◌
whole_turns x = ground arith

-- `normalon lon` is in range, and `lon` is whole turns from it.
abbrev pub IsTurned : ℤ → Type 0
IsTurned lon =
    (turns : ℕ) × IsNormal (normalon lon) × (lon ≡ normalon lon +ℤ pos (turns * 36000000))

sub_ℕ-IsTurned : (x : ℕ) → x < 2147483648 → IsTurned (sub_ℕ x 18000000)
sub_ℕ-IsTurned x h = (
  x / 36000000,
  rw (normalon-eq x h) (sub_ℕ-IsNormal (x % 36000000) (omega arith)),
  rw (normalon-eq x h) (whole_turns x),
)

-- A longitude from -180 degrees on, below the overflow of `int`, becomes one from -180 up to 180
-- degrees that lies a whole number of turns before it.
pub normalon-IsTurned : (lon : ℤ) → negsuc 17999999 ≤ℤ lon → lon ≤ℤ pos 2129483647 → IsTurned lon
normalon-IsTurned lon h k =
    subst IsTurned (sym (from_west lon h))
      (sub_ℕ-IsTurned (pos_part lon + 18000000 - neg_part lon) (omega arith))

-- A longitude below -180 degrees that fits an `int` becomes one above -540 and at most -180 degrees,
-- so one out of range unless it is -180 degrees, and lies whole turns before that one.
pub normalon_below :
    (lon : ℤ)
    → IsInt lon
    → lon <ℤ negsuc 17999999
    → (turns : ℕ) × (negsuc 53999999 <ℤ normalon lon)
      × (normalon lon ≤ℤ negsuc 17999999)
      × (normalon lon ≡ lon +ℤ pos (turns * 36000000))
unfolding normalon ◌+ℤ◌ ◌-ℤ◌
normalon_below lon i h =
    ((neg_part lon - 18000000) / 36000000, ground arith, ground arith, ground arith)

-- Setting a latitude that is not the missing value and a longitude from -180 degrees on, below the
-- overflow of `int`, leaves coordinates that are not missing, with that latitude and a longitude
-- from -180 up to 180 degrees.
pub set_whole :
    (lat lon : ℤ)
    → negsuc 17999999 ≤ℤ lon
    → lon ≤ℤ pos 2129483647
    → lat ≢ missing_int
    → (is_missing (set lat lon) ≡ false) × ((set lat lon).lat ≡ lat) × IsNormal (set lat lon).lon
unfolding set is_missing
set_whole lat lon h k m =
    let a : is_missing_int lat ≡ false = ground arith in
    let b : is_missing_int lon ≡ false = ground arith in
    rw (a, b) (rw (a) refl, refl, (normalon-IsTurned lon h k).1)

fields-injective : (a b : Coords) → fields a ≡ fields b → a ≡ b
fields-injective a b h = ground arith

abbrev pub operators : Comparison Coords
operators = record { eq = eq; ne = ne; lt = lt; gt = gt; le = le; ge = ge }

-- The six operators of coordinates agree with one another, and with a strict total order.
pub coords_operators-IsTotalOrder : IsTotalOrder operators
unfolding eq ne lt gt le ge
coords_operators-IsTotalOrder = tie-IsTotalOrder fields fields-injective
