-- ===== src/Date.antt =====
-- Calendar dates: struct Date of dballe/types.h and dballe/types.cc. Arguments of type `int` are
-- integers; the fields are an `unsigned short` and two `unsigned char`, so natural numbers.
pub mod Validity
pub mod Order
pub mod Cycles
pub mod Julian
use dballe.Prelude.{
  ℕ, ◌+◌, ◌-◌, ◌*◌, ◌/◌, ◌%◌, Bool, true, false, not, ◌&&◌, ◌||◌, ltb, ◌==◌, if◌then◌else◌, Result,
  ok, err, consistency, ◌>>=◌, ◌>>◌, throw_if,
}
use dballe.Prelude.Int.{ℤ, pos, pos_part, neg_part, ltb_ℤ, eqb_ℤ, ◌-ℤ◌}
use dballe.Prelude.Words.{is_missing_int, to_u16, to_u8}

pub record Date : Type 0 where
  pub year : ℕ
  pub month : ℕ
  pub day : ℕ

abbrev pub date : ℕ → ℕ → ℕ → Date
date ye mo da = record { year = ye; month = mo; day = da }

-- Date::Date()
abbrev pub missing : Date
missing = date 0xffff 0xff 0xff

-- The remainder in C++ has the sign of the dividend; it is 0 for the multiples.
abbrev divides : ℕ → ℤ → Bool
divides k z = (pos_part z + neg_part z) % k == 0

abbrev pub is_leap : ℤ → Bool
is_leap year = divides 400 year || (divides 4 year && not (divides 100 year))

-- Date::days_in_month
unfoldable pub days_in_month : ℤ → ℤ → Result ℕ
days_in_month year month =
    if eqb_ℤ month (pos 1)
    then ok 31
    else if eqb_ℤ month (pos 2)
    then (if is_leap year then ok 29 else ok 28)
    else if eqb_ℤ month (pos 3)
    then ok 31
    else if eqb_ℤ month (pos 4)
    then ok 30
    else if eqb_ℤ month (pos 5)
    then ok 31
    else if eqb_ℤ month (pos 6)
    then ok 30
    else if eqb_ℤ month (pos 7)
    then ok 31
    else if eqb_ℤ month (pos 8)
    then ok 31
    else if eqb_ℤ month (pos 9)
    then ok 30
    else if eqb_ℤ month (pos 10)
    then ok 31
    else if eqb_ℤ month (pos 11)
    then ok 30
    else if eqb_ℤ month (pos 12)
    then ok 31
    else err consistency

-- Date::validate. The call of days_in_month comes after the test of the month, so it returns.
unfoldable pub validate : ℤ → ℤ → ℤ → Result (Unit {0})
validate ye mo da = do
  throw_if (is_missing_int mo || (ltb_ℤ mo (pos 1) || ltb_ℤ (pos 12) mo)) consistency
  n ← days_in_month ye mo
  throw_if (is_missing_int da || (ltb_ℤ da (pos 1) || ltb_ℤ (pos n) da)) consistency

-- Date::Date(int, int, int)
unfoldable pub make : ℤ → ℤ → ℤ → Result Date
make ye mo da =
    if is_missing_int ye
    then ok missing
    else do validate ye mo da; ok (date (to_u16 ye) (to_u8 mo) (to_u8 da))

abbrev pub is_missing : Date → Bool
is_missing d = d.year == 0xffff

-- `if (int res = a - b) return res;`
abbrev pub first_difference : ℕ → ℕ → ℤ → ℤ
first_difference a b rest = if a == b then rest else pos a -ℤ pos b

unfoldable pub compare : Date → Date → ℤ
compare a b =
    first_difference a.year b.year (first_difference a.month b.month (pos a.day -ℤ pos b.day))

unfoldable pub eq : Date → Date → Bool
eq a b = a.year == b.year && (a.month == b.month && a.day == b.day)

unfoldable pub ne : Date → Date → Bool
ne a b = not (a.year == b.year) || (not (a.month == b.month) || not (a.day == b.day))

unfoldable pub lt : Date → Date → Bool
lt a b =
    if ltb a.year b.year
    then true
    else if ltb b.year a.year
    then false
    else if ltb a.month b.month
    then true
    else if ltb b.month a.month
    then false
    else ltb a.day b.day

unfoldable pub gt : Date → Date → Bool
gt a b =
    if ltb a.year b.year
    then false
    else if ltb b.year a.year
    then true
    else if ltb a.month b.month
    then false
    else if ltb b.month a.month
    then true
    else ltb b.day a.day

-- Date::calendar_to_julian on fields, which are not negative. Nothing stops at 0: `years` is at
-- least 4799 and `century` at most `years / 4`.
unfoldable pub calendar_to_julian : ℕ → ℕ → ℕ → ℕ
calendar_to_julian year month day =
    let months = if ltb 2 month then month + 1 else month + 13 in
    let years = if ltb 2 month then year + 4800 else year + 4799 in
    let century = years / 100 in
    years * 365 - 32167 + (years / 4 - century + century / 4) + (7834 * months / 256 + day)

-- `a - b` on a 32-bit `unsigned`
abbrev pub sub_u32 : ℕ → ℕ → ℕ
sub_u32 a b = (a + 4294967296 - b) % 4294967296

-- The last lines of Date::julian_to_calendar, from the day of the year counted from March.
abbrev pub finish_calendar : ℕ → ℕ → Date
finish_calendar y julian =
    let quad = julian * 2141 / 65536 in
    date ((y + 65536 - 4800) % 65536) ((quad + 10) % 12 + 1)
      (sub_u32 julian (7834 * quad / 256) % 256)

-- Date::julian_to_calendar on a day number that is not negative. An `int` that is not negative
-- leaves no sum or product above 2 ^ 32, and `quad * 146097` and `quad * 1461` are at most `julian`.
unfoldable pub julian_to_calendar : ℕ → Date
julian_to_calendar jday =
    let julian = jday + 32044 in
    let quad = julian / 146097 in
    let extra = (julian - quad * 146097) * 4 + 3 in
    let julian = julian + (60 + quad * 3 + extra / 146097) in
    let quad = julian / 1461 in
    let julian = julian - quad * 1461 in
    let y = julian * 4 / 1461 in
    let julian = (if not (y == 0) then (julian + 305) % 365 else (julian + 306) % 366) + 123 in
    finish_calendar (y + quad * 4) julian

unfoldable pub to_julian : Date → ℕ
to_julian d = calendar_to_julian d.year d.month d.day

unfoldable pub from_julian : ℕ → Date
from_julian jday = julian_to_calendar jday
