-- ===== src/Datetime.antt =====
-- Datetimes: struct Datetime of dballe/types.h and dballe/types.cc. `parts` are the six `int`
-- arguments that its constructor and the functions for bounds take.
pub mod Order
pub mod Partial
pub mod Bounds
pub mod Normalise
use dballe.Prelude.{
  ℕ, ◌+◌, Bool, true, false, not, ◌&&◌, ◌||◌, ◌==◌, if◌then◌else◌, List, [], ◌∷◌, Result, ok,
  consistency, ◌>>=◌, ◌>>◌, throw_if,
}
use dballe.Prelude.Int.{ℤ, pos, ltb_ℤ, eqb_ℤ, ◌-ℤ◌, ◌+ℤ◌}
use dballe.Prelude.Words.{missing_int, is_missing_int, to_u16, to_u8}
use dballe.Prelude.Order.{nat_ord, tie_eq, tie_lt}
use dballe.Date
use dballe.Date.{Date, date, days_in_month, first_difference, calendar_to_julian}
use dballe.Time
use dballe.Time.{Time, time}

pub record Datetime : Type 0 where
  pub year : ℕ
  pub month : ℕ
  pub day : ℕ
  pub hour : ℕ
  pub minute : ℕ
  pub second : ℕ

abbrev pub datetime : ℕ → ℕ → ℕ → ℕ → ℕ → ℕ → Datetime
datetime ye mo da ho mi se = record {
  year = ye;
  month = mo;
  day = da;
  hour = ho;
  minute = mi;
  second = se;
}

-- Arguments int ye, int mo, int da, int ho, int mi, int se
pub record Parts : Type 0 where
  pub ye : ℤ
  pub mo : ℤ
  pub da : ℤ
  pub ho : ℤ
  pub mi : ℤ
  pub se : ℤ

abbrev pub parts : ℤ → ℤ → ℤ → ℤ → ℤ → ℤ → Parts
parts ye mo da ho mi se = record { ye = ye; mo = mo; da = da; ho = ho; mi = mi; se = se }

-- Datetime::Datetime()
abbrev pub missing : Datetime
missing = datetime 0xffff 0xff 0xff 0xff 0xff 0xff

-- Datetime::Datetime(const Date&, const Time&)
abbrev pub of_date_time : Date → Time → Datetime
of_date_time d t = datetime d.year d.month d.day t.hour t.minute t.second

unfoldable pub validate : Parts → Result (Unit {0})
validate p = do Date.validate p.ye p.mo p.da; Time.validate p.ho p.mi p.se

-- Datetime::Datetime(int, int, int, int, int, int)
unfoldable pub make : Parts → Result Datetime
make p = if is_missing_int p.ye then ok missing else do
  validate p
  ok (datetime (to_u16 p.ye) (to_u8 p.mo) (to_u8 p.da) (to_u8 p.ho) (to_u8 p.mi) (to_u8 p.se))

-- `if (da > n)` of normalise_h24, and what it does then
abbrev carry_day : Parts → ℕ → Parts
carry_day p n =
    if ltb_ℤ (pos n) p.da
    then if ltb_ℤ (pos 12) (p.mo +ℤ pos 1)
      then record p { ye = p.ye +ℤ pos 1; mo = pos 1; da = pos 1 }
      else record p { mo = p.mo +ℤ pos 1; da = pos 1 }
    else p

-- Datetime::normalise_h24
unfoldable pub normalise_h24 : Parts → Result Parts
normalise_h24 p =
    if not (eqb_ℤ p.ho (pos 24)) || (not (eqb_ℤ p.mi (pos 0)) || not (eqb_ℤ p.se (pos 0)))
    then ok p
    else do
      n ← days_in_month p.ye p.mo
      ok (carry_day (record p { ho = pos 0; da = p.da +ℤ pos 1 }) n)

-- Datetime::from_julian
unfoldable pub from_julian : ℕ → ℤ → ℤ → ℤ → Result Datetime
from_julian jday ho mi se = do t ← Time.make ho mi se; ok (of_date_time (Date.from_julian jday) t)

abbrev pub given_u8 : ℕ → Bool
given_u8 x = not (x == 0xff)

abbrev pub given : ℤ → Bool
given x = not (is_missing_int x)

-- What check_partial_consistency tests, of which parts are there.
abbrev pub check_given : Bool → Bool → Bool → Bool → Bool → Bool → Result (Unit {0})
check_given ye mo da ho mi se = do
  throw_if (not ye && (mo || (da || (ho || (mi || se))))) consistency
  throw_if (not mo && da) consistency
  throw_if (not ho && (mi || se)) consistency
  throw_if (not mi && se) consistency

-- check_partial_consistency(const Datetime&)
unfoldable pub check_fields : Datetime → Result (Unit {0})
check_fields dt =
    check_given (not (dt.year == 0xffff)) (given_u8 dt.month) (given_u8 dt.day) (given_u8 dt.hour)
      (given_u8 dt.minute) (given_u8 dt.second)

-- check_partial_consistency(int, int, int, int, int, int)
unfoldable pub check_parts : Parts → Result (Unit {0})
check_parts p =
    check_given (given p.ye) (given p.mo) (given p.da) (given p.ho) (given p.mi) (given p.se)

-- `if (x == MISSING_INT) x = v;`
abbrev pub or_else : ℤ → ℤ → ℤ
or_else x v = if is_missing_int x then v else x

-- Datetime::lower_bound
unfoldable pub lower_bound : Parts → Result Datetime
lower_bound p = do
  check_parts p
  if is_missing_int p.ye
      then ok missing
      else make (
          parts p.ye (or_else p.mo (pos 1)) (or_else p.da (pos 1)) (or_else p.ho (pos 0))
            (or_else p.mi (pos 0)) (or_else p.se (pos 0)))

-- `da`, or the length of the month where it is missing
abbrev last_day : ℤ → ℤ → ℤ → Result ℤ
last_day ye mo da = if is_missing_int da then (do n ← days_in_month ye mo; ok (pos n)) else ok da

-- Datetime::upper_bound
unfoldable pub upper_bound : Parts → Result Datetime
upper_bound p = do
  check_parts p
  if is_missing_int p.ye then ok missing else do
    let mo = or_else p.mo (pos 12)
    da ← last_day p.ye mo p.da
    make (parts p.ye mo da (or_else p.ho (pos 23)) (or_else p.mi (pos 59)) (or_else p.se (pos 59)))

abbrev pub or_else_u8 : ℕ → ℕ → ℕ
or_else_u8 x v = if x == 0xff then v else x

-- Datetime::set_lower_bound, as the datetime that it leaves
unfoldable pub set_lower_bound : Datetime → Result Datetime
set_lower_bound dt = do
  check_fields dt
  if dt.year == 0xffff
      then ok (datetime dt.year 0xff 0xff 0xff 0xff 0xff)
      else ok (
          datetime dt.year (or_else_u8 dt.month 1) (or_else_u8 dt.day 1) (or_else_u8 dt.hour 0)
            (or_else_u8 dt.minute 0) (or_else_u8 dt.second 0))

abbrev last_day_u8 : ℕ → ℕ → ℕ → Result ℕ
last_day_u8 ye mo da = if da == 0xff then days_in_month (pos ye) (pos mo) else ok da

-- Datetime::set_upper_bound
unfoldable pub set_upper_bound : Datetime → Result Datetime
set_upper_bound dt = do
  check_fields dt
  if dt.year == 0xffff then ok (datetime dt.year 0xff 0xff 0xff 0xff 0xff) else do
    let mo = or_else_u8 dt.month 12
    da ← last_day_u8 dt.year mo dt.day
    ok (
        datetime dt.year mo da (or_else_u8 dt.hour 23) (or_else_u8 dt.minute 59)
          (or_else_u8 dt.second 59))

unfoldable pub is_missing : Datetime → Bool
is_missing dt = dt.year == 0xffff

-- Datetime::date
unfoldable pub get_date : Datetime → Result Date
get_date dt =
    if is_missing dt then ok Date.missing else Date.make (pos dt.year) (pos dt.month) (pos dt.day)

-- Datetime::time
unfoldable pub get_time : Datetime → Result Time
get_time dt =
    if is_missing dt
    then ok Time.missing
    else Time.make (pos dt.hour) (pos dt.minute) (pos dt.second)

unfoldable pub to_julian : Datetime → ℕ
to_julian dt = calendar_to_julian dt.year dt.month dt.day

unfoldable pub compare : Datetime → Datetime → ℤ
compare a b = first_difference a.year b.year (
    first_difference a.month b.month (
      first_difference a.day b.day (
        first_difference a.hour b.hour
          (first_difference a.minute b.minute (pos a.second -ℤ pos b.second)))))

-- The fields that the operators compare by std::tie
abbrev pub fields : Datetime → List ℕ
fields a = a.year ∷ a.month ∷ a.day ∷ a.hour ∷ a.minute ∷ a.second ∷ []

unfoldable pub eq : Datetime → Datetime → Bool
eq a b = tie_eq (fields a) (fields b)

unfoldable pub ne : Datetime → Datetime → Bool
ne a b = not (tie_eq (fields a) (fields b))

unfoldable pub lt : Datetime → Datetime → Bool
lt a b = tie_lt (fields a) (fields b)

unfoldable pub gt : Datetime → Datetime → Bool
gt a b = tie_lt (fields b) (fields a)

unfoldable pub le : Datetime → Datetime → Bool
le a b = not (tie_lt (fields b) (fields a))

unfoldable pub ge : Datetime → Datetime → Bool
ge a b = not (tie_lt (fields a) (fields b))
