-- ===== src/Time/Laws.antt =====
-- Which arguments the constructor of Time accepts, and the comparison operators.
use dballe.Prelude.{
  ℕ, ◌≡◌, ◌↔◌, true, not, ◌&&◌, leb, ◌==◌, if◌then◌else◌, arith, ok, err, consistency,
}
use dballe.Prelude.Int.{pos, ltb_ℤ, eqb_ℤ, ◌-ℤ◌}
use dballe.Time.{Time, time, validate, make, compare, eq, ne, lt, gt}

-- The last second of a minute: 60 in the last minute of the day.
abbrev pub last_second : ℕ → ℕ → ℕ
last_second ho mi = if ho == 23 && mi == 59 then 60 else 59

-- The tests of `validate` on arguments that are not negative.
pub validate-eq :
    (ho mi se : ℕ)
    → validate (pos ho) (pos mi) (pos se)
      ≡ (if leb ho 23 && (leb mi 59 && leb se (last_second ho mi)) then ok tt else err consistency)
unfolding validate
validate-eq ho mi se = ground arith

-- Given arguments that are not negative, the constructor returns the time with those fields when
-- they name a second of the day, the leap second at its end included; else it throws.
pub make-last_second :
    (ho mi se : ℕ)
    → make (pos ho) (pos mi) (pos se) ≡ (
        if leb ho 23 && (leb mi 59 && leb se (last_second ho mi))
        then ok (time ho mi se)
        else err consistency)
unfolding make
make-last_second ho mi se = ground (arith, validate-eq ho mi se)

-- `compare` is negative, zero or positive just when `<`, `==` or `>` holds, `==` is equality of
-- all the fields, and `!=` its negation.
pub time_compare-sign :
    (a b : Time)
    → (lt a b ≡ ltb_ℤ (compare a b) (pos 0))
      × (eq a b ≡ eqb_ℤ (compare a b) (pos 0))
      × (gt a b ≡ ltb_ℤ (pos 0) (compare a b))
      × (ne a b ≡ not (eq a b))
      × ((eq a b ≡ true) ↔ (a ≡ b))
unfolding compare eq ne lt gt ◌-ℤ◌
time_compare-sign a b = (ground arith, ground arith, ground arith, ground arith, ground arith)
