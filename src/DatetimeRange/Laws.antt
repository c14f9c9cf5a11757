-- ===== src/DatetimeRange/Laws.antt =====
-- What merge, contains and is_disjoint say of the datetimes in a range.
use dballe.Prelude.{◌≡◌, refl, true, false, not, ◌&&◌, ◌||◌, arith, if◌then◌else◌}
use dballe.Datetime.{Datetime, is_missing, lt, gt, le, ge}
use dballe.Prelude.Order.{lt_irrefl}
use dballe.Datetime.Order.{datetime_ord, le_trans, lt-asym}
use dballe.DatetimeRange.{DatetimeRange, merge, contains, contains_range, is_disjoint}

le-not_lt : (a b : Datetime) → le a b ≡ not (lt b a)
unfolding le lt
le-not_lt a b = refl

ge-not_lt : (a b : Datetime) → ge a b ≡ not (lt a b)
unfolding ge lt
ge-not_lt a b = refl

gt-lt : (a b : Datetime) → gt a b ≡ lt b a
unfolding gt lt
gt-lt a b = refl

not_lt_trans : (a b c : Datetime) → lt b a ≡ false → lt c b ≡ false → lt c a ≡ false
not_lt_trans a b c h k = ground (arith, le-not_lt a b, le-not_lt b c, le-not_lt a c, le_trans a b c)

-- A missing bound is open, and the bounds belong to the range.
pub contains-eq :
    (r : DatetimeRange) (dt : Datetime)
    → contains r dt
      ≡ ((is_missing r.min || not (lt dt r.min)) && (is_missing r.max || not (lt r.max dt)))
unfolding contains
contains-eq r dt = ground (arith, le-not_lt dt r.max, le-not_lt r.min dt, ge-not_lt dt r.min)

-- A range that contains another contains all the datetimes in it.
pub contains_range_sound :
    (r o : DatetimeRange) (dt : Datetime)
    → contains_range r o ≡ true
    → contains o dt ≡ true
    → contains r dt ≡ true
unfolding contains_range
contains_range_sound r o dt h k = ground (
  arith,
  contains-eq r dt,
  contains-eq o dt,
  gt-lt o.max r.max,
  not_lt_trans r.min o.min dt,
  not_lt_trans dt o.max r.max,
)

-- After a merge the range contains both ranges.
pub merge-covers :
    (r o : DatetimeRange)
    → (contains_range (merge r o) r ≡ true) × (contains_range (merge r o) o ≡ true)
unfolding contains_range merge
merge-covers r o = (
  ground (
    arith,
    gt-lt o.max r.max,
    gt-lt r.max o.max,
    gt-lt r.max r.max,
    lt-asym o.min r.min,
    lt-asym r.max o.max,
    lt_irrefl r.min,
    lt_irrefl r.max,
  ),
  ground (
    arith,
    gt-lt o.max r.max,
    gt-lt r.max o.max,
    gt-lt o.max o.max,
    lt-asym o.min r.min,
    lt-asym r.max o.max,
    lt_irrefl o.min,
    lt_irrefl o.max,
  ),
)

-- A range that contains two ranges contains what their merge leaves: merge makes the smallest
-- range around the two.
pub merge_least :
    (c r o : DatetimeRange)
    → contains_range c r ≡ true
    → contains_range c o ≡ true
    → contains_range c (merge r o) ≡ true
unfolding contains_range merge
merge_least c r o h k = ground arith

-- Two ranges that are disjoint have no datetime in common.
pub is_disjoint_sound :
    (r o : DatetimeRange) (dt : Datetime)
    → is_disjoint r o ≡ true
    → contains r dt ≡ true
    → contains o dt ≡ false
unfolding is_disjoint
is_disjoint_sound r o dt h k = ground (
  arith,
  contains-eq r dt,
  contains-eq o dt,
  not_lt_trans o.min dt r.max,
  not_lt_trans r.min dt o.max,
)

-- A range whose bounds, where it has both, are in order.
abbrev pub IsProper : DatetimeRange → Type 0
IsProper r = (is_missing r.min || (is_missing r.max || not (lt r.max r.min))) ≡ true

-- The later of two lower bounds, or the earlier of two upper bounds
common : DatetimeRange → DatetimeRange → Datetime
common r o =
    if is_missing r.min && is_missing o.min
    then (if is_missing r.max
        then o.max
        else if is_missing o.max
        then r.max
        else if lt r.max o.max
        then r.max
        else o.max)
    else if is_missing r.min
    then o.min
    else if is_missing o.min
    then r.min
    else if lt r.min o.min
    then o.min
    else r.min

-- Two ranges with their bounds in order, where given, that are not disjoint have a datetime in
-- common.
pub is_disjoint_complete :
    (r o : DatetimeRange)
    → IsProper r
    → IsProper o
    → is_disjoint r o ≡ false
    → (dt : Datetime) × (contains r dt ≡ true) × (contains o dt ≡ true)
unfolding is_disjoint common
is_disjoint_complete r o vr vo h = (
  common r o,
  ground (
    arith,
    contains-eq r (common r o),
    lt_irrefl r.min,
    lt_irrefl r.max,
    lt_irrefl o.min,
    lt_irrefl o.max,
    lt-asym r.min o.min,
    lt-asym r.max o.max,
  ),
  ground (
    arith,
    contains-eq o (common r o),
    lt_irrefl r.min,
    lt_irrefl r.max,
    lt_irrefl o.min,
    lt_irrefl o.max,
    lt-asym r.min o.min,
    lt-asym r.max o.max,
  ),
)
