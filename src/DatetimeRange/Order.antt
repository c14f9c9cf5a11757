-- ===== src/DatetimeRange/Order.antt =====
-- The comparison operators of DatetimeRange.
use dballe.Prelude.{◌≡◌}
use dballe.Prelude.Order.{Comparison, IsTotalOrder, tie-IsTotalOrder}
use dballe.Datetime.Order.{datetime_ord}
use dballe.DatetimeRange.{DatetimeRange, bounds, eq, ne, range_lt, range_gt, range_le, range_ge}

bounds-injective : (a b : DatetimeRange) → bounds a ≡ bounds b → a ≡ b
bounds-injective a b h = cc h

abbrev pub operators : Comparison DatetimeRange
operators = record { eq = eq; ne = ne; lt = range_lt; gt = range_gt; le = range_le; ge = range_ge }

-- The six operators of ranges agree with one another, and with a strict total order.
pub range_operators-IsTotalOrder : IsTotalOrder operators
unfolding eq ne range_lt range_gt range_le range_ge
range_operators-IsTotalOrder = tie-IsTotalOrder bounds bounds-injective
