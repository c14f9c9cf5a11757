-- ===== src/Date/Order.antt =====
-- The comparison operators of Date and Date::compare.
use dballe.Prelude.{◌≡◌, ◌↔◌, true, not, arith}
use dballe.Prelude.Int.{pos, ltb_ℤ, eqb_ℤ, ◌-ℤ◌}
use dballe.Date.{Date, compare, eq, ne, lt, gt}

-- `compare` is negative, zero or positive just when `<`, `==` or `>` holds, `==` is equality of
-- all the fields, and `!=` its negation.
pub date_compare-sign :
    (a b : Date)
    → (lt a b ≡ ltb_ℤ (compare a b) (pos 0))
      × (eq a b ≡ eqb_ℤ (compare a b) (pos 0))
      × (gt a b ≡ ltb_ℤ (pos 0) (compare a b))
      × (ne a b ≡ not (eq a b))
      × ((eq a b ≡ true) ↔ (a ≡ b))
unfolding compare eq ne lt gt ◌-ℤ◌
date_compare-sign a b = (ground arith, ground arith, ground arith, ground arith, ground arith)
