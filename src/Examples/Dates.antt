-- ===== src/Examples/Dates.antt =====
-- The theorems on dates, times and datetimes at concrete inputs.
use dballe.Prelude.{◌≡◌, ◌≢◌, refl, arith, inl, inr, true, ok, ◌+◌}
use dballe.Prelude.Int.{pos}
use dballe.Prelude.Words.{missing_int}
use dballe.Date.{Date, date, to_julian, from_julian}
use dballe.Date.Validity.{IsValid}
use dballe.Date.Julian.{from_julian-to_julian}
use dballe.Datetime.{
  Datetime, datetime, Parts, parts, make, check_parts, lower_bound, upper_bound, normalise_h24, lt,
  le,
}
use dballe.Datetime.Bounds.{IsCandidate, lower_bound_first, upper_bound_last, leap_second_above}
use dballe.Datetime.Normalise.{normalise_h24_midnight}

abbrev leap_day : Date
leap_day = date 2020 2 29

leap_day-IsValid : IsValid leap_day
leap_day-IsValid = record {
  year_in = omega arith;
  month_in = (omega arith, omega arith);
  day_in = (omega arith, omega arith);
}

from_julian-to_julian_example : from_julian (to_julian leap_day) ≡ leap_day
from_julian-to_julian_example = from_julian-to_julian leap_day leap_day-IsValid

abbrev noon : Datetime
noon = datetime 2020 2 29 12 0 0

-- February 2020, with no day
abbrev february : Parts
february = parts (pos 2020) (pos 2) missing_int missing_int missing_int missing_int

noon-IsCandidate : IsCandidate february noon
noon-IsCandidate = record {
  plain = record {
    year_in = omega arith;
    month_in = (omega arith, omega arith);
    day_in = (omega arith, omega arith);
    hour_in = omega arith;
    minute_in = omega arith;
    second_in = omega arith;
  };
  matches = record {
    ye = inr refl;
    mo = inr refl;
    da = inl refl;
    ho = inl refl;
    mi = inl refl;
    se = inl refl;
  };
}

check_february : check_parts february ≡ ok tt
unfolding check_parts
check_february = refl

year_given : pos 2020 ≢ missing_int
year_given h = ground arith

lower_bound_first_example :
    (lo : Datetime) × (lower_bound february ≡ ok lo) × IsCandidate february lo × (le lo noon ≡ true)
lower_bound_first_example =
    lower_bound_first february noon noon-IsCandidate check_february year_given

upper_bound_last_example :
    (hi : Datetime) × (upper_bound february ≡ ok hi) × IsCandidate february hi × (le noon hi ≡ true)
upper_bound_last_example = upper_bound_last february noon noon-IsCandidate check_february year_given

leap_second_above_example :
    (make (parts (pos 2020) (pos 2) (pos 29) (pos 23) (pos 59) (pos 60))
      ≡ ok (datetime 2020 2 29 23 59 60))
    × (upper_bound (parts (pos 2020) (pos 2) (pos 29) missing_int missing_int missing_int)
        ≡ ok (datetime 2020 2 29 23 59 59))
    × (lt (datetime 2020 2 29 23 59 59) (datetime 2020 2 29 23 59 60) ≡ true)
leap_second_above_example = leap_second_above 2020 2 29 leap_day-IsValid

normalise_h24_midnight_example :
    (e : Date) × (normalise_h24 (parts (pos 2020) (pos 2) (pos 29) (pos 24) (pos 0) (pos 0))
      ≡ ok (parts (pos e.year) (pos e.month) (pos e.day) (pos 0) (pos 0) (pos 0)))
    × IsValid e
    × (to_julian e ≡ to_julian leap_day + 1)
normalise_h24_midnight_example = normalise_h24_midnight leap_day leap_day-IsValid (omega arith)

missing_hour : missing_int ≢ pos 24
missing_hour h = ground arith
