-- ===== src/Examples/Ranges.antt =====
-- The theorems on ranges of datetimes at concrete inputs.
use dballe.Prelude.{◌≡◌, refl, true}
use dballe.Datetime.{Datetime, datetime, is_missing, lt, gt, le}
use dballe.DatetimeRange.{DatetimeRange, range, contains, contains_range}
use dballe.DatetimeRange.Laws.{contains_range_sound, IsProper}

abbrev spring : DatetimeRange
spring = range (datetime 2020 3 1 0 0 0) (datetime 2020 5 31 23 59 59)

abbrev april : DatetimeRange
april = range (datetime 2020 4 1 0 0 0) (datetime 2020 4 30 23 59 59)

abbrev july : DatetimeRange
july = range (datetime 2020 7 1 0 0 0) (datetime 2020 7 31 23 59 59)

abbrev year_2020 : DatetimeRange
year_2020 = range (datetime 2020 1 1 0 0 0) (datetime 2020 12 31 23 59 59)

abbrev easter : Datetime
easter = datetime 2020 4 12 12 0 0

spring-IsProper : IsProper spring
unfolding is_missing lt
spring-IsProper = refl

april-IsProper : IsProper april
unfolding is_missing lt
april-IsProper = refl

contains_range_sound_example : contains spring easter ≡ true
unfolding contains_range contains is_missing lt gt le
contains_range_sound_example = contains_range_sound spring april easter refl refl
