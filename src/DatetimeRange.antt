-- ===== src/DatetimeRange.antt =====
-- Ranges of datetimes, open where a bound is missing: struct DatetimeRange of dballe/types.h and
-- dballe/types.cc.
pub mod Order
pub mod Laws
use dballe.Prelude.{
  Bool, true, false, not, ◌&&◌, ◌||◌, if◌then◌else◌, List, [], ◌∷◌, Result, ok, ◌>>=◌,
}
use dballe.Prelude.Order.{tie_eq, tie_lt}
use dballe.Datetime
use dballe.Datetime.{Datetime, Parts, is_missing, lower_bound, upper_bound, lt, gt, le, ge}
use dballe.Datetime.Order.{datetime_ord}

pub record DatetimeRange : Type 0 where
  pub min : Datetime
  pub max : Datetime

abbrev pub range : Datetime → Datetime → DatetimeRange
range lo hi = record { min = lo; max = hi }

-- DatetimeRange::set(int, ..., int) and the constructor that calls it: `p` are the arguments for
-- the minimum, `q` those for the maximum
unfoldable pub set : Parts → Parts → Result DatetimeRange
set p q = do lo ← lower_bound p; hi ← upper_bound q; ok (range lo hi)

unfoldable pub range_is_missing : DatetimeRange → Bool
range_is_missing r = is_missing r.min && is_missing r.max

abbrev pub bounds : DatetimeRange → List Datetime
bounds r = r.min ∷ r.max ∷ []

unfoldable pub eq : DatetimeRange → DatetimeRange → Bool
eq a b = tie_eq (bounds a) (bounds b)

unfoldable pub ne : DatetimeRange → DatetimeRange → Bool
ne a b = not (tie_eq (bounds a) (bounds b))

unfoldable pub range_lt : DatetimeRange → DatetimeRange → Bool
range_lt a b = tie_lt (bounds a) (bounds b)

unfoldable pub range_gt : DatetimeRange → DatetimeRange → Bool
range_gt a b = tie_lt (bounds b) (bounds a)

unfoldable pub range_le : DatetimeRange → DatetimeRange → Bool
range_le a b = not (tie_lt (bounds b) (bounds a))

unfoldable pub range_ge : DatetimeRange → DatetimeRange → Bool
range_ge a b = not (tie_lt (bounds a) (bounds b))

-- DatetimeRange::merge, as the range that it leaves
unfoldable pub merge : DatetimeRange → DatetimeRange → DatetimeRange
merge r o =
    range (if not (is_missing r.min) && (is_missing o.min || lt o.min r.min) then o.min else r.min)
      (if not (is_missing r.max) && (is_missing o.max || gt o.max r.max) then o.max else r.max)

-- DatetimeRange::contains(const Datetime&)
unfoldable pub contains : DatetimeRange → Datetime → Bool
contains r dt =
    if is_missing r.min
    then (if is_missing r.max then true else le dt r.max)
    else if is_missing r.max
    then ge dt r.min
    else le r.min dt && le dt r.max

-- DatetimeRange::contains(const DatetimeRange&)
unfoldable pub contains_range : DatetimeRange → DatetimeRange → Bool
contains_range r o =
    if not (is_missing r.min) && (is_missing o.min || lt o.min r.min)
    then false
    else if not (is_missing r.max) && (is_missing o.max || gt o.max r.max)
    then false
    else true

unfoldable pub is_disjoint : DatetimeRange → DatetimeRange → Bool
is_disjoint r o =
    if not (is_missing r.max) && (not (is_missing o.min) && lt r.max o.min)
    then true
    else if not (is_missing o.max) && (not (is_missing r.min) && lt o.max r.min)
    then true
    else false
