-- ===== src/Examples/Queries.antt =====
-- The theorems on queries at concrete inputs.
use dballe.Prelude.{◌≡◌, refl, arith, true, [], ◌∷◌, none}
use dballe.Prelude.Int.{pos}
use dballe.Prelude.Words.{missing_int}
use dballe.Datetime.{datetime}
use dballe.Datetime as Datetimes
use dballe.DatetimeRange.{range}
use dballe.DatetimeRange as DatetimeRanges
use dballe.LatRange as LatRanges
use dballe.LonRange.{lon_range}
use dballe.LonRange as LonRanges
use dballe.Level.{level}
use dballe.Level as Levels
use dballe.Trange.{trange}
use dballe.Trange as Tranges
use dballe.Query.{Query, is_subquery, is_subset}
use dballe.Query.Subset.{all_in, is_subset-all_in}
use dballe.Query.Narrowing.{is_subquery_sound}
use dballe.Query.Selection.{Datum, selects}

-- All the data of April 2020 of the stations of a WMO block
abbrev april_data : Query
april_data = record {
  want_missing = 0;
  ana_id = missing_int;
  priomin = missing_int;
  priomax = missing_int;
  report = [];
  mobile = missing_int;
  ident = none;
  latrange = record { imin = LatRanges.lowest; imax = LatRanges.highest };
  lonrange = lon_range missing_int missing_int;
  dtrange = range (datetime 2020 4 1 0 0 0) (datetime 2020 4 30 23 59 59);
  level = Levels.missing;
  trange = Tranges.missing;
  varcodes = [];
  query = [];
  ana_filter = [];
  data_filter = [];
  attr_filter = [];
  limit = missing_int;
  block = pos 16;
  station = missing_int;
}

-- Those of a report and a station, at a level, on one day
abbrev day_data : Query
day_data = record april_data {
  report = 115 ∷ [];
  level = level (pos 103) (pos 2000) missing_int missing_int;
  dtrange = range (datetime 2020 4 12 0 0 0) (datetime 2020 4 12 23 59 59);
  station = pos 144;
}

abbrev temperature : Datum
temperature = record {
  ana_id = pos 1;
  prio = pos 100;
  report = 115 ∷ [];
  mobile = pos 0;
  ident = none;
  block = pos 16;
  station = pos 144;
  passes_ana = λ f. true;
  passes_data = λ f. true;
  passes_attr = λ f. true;
  lat = pos 4500000;
  datetime = datetime 2020 4 12 12 0 0;
  level = level (pos 103) (pos 2000) missing_int missing_int;
  trange = trange (pos 254) (pos 0) (pos 0);
}

is_subquery_sound_example : selects april_data temperature ≡ true
unfolding is_subquery Datetimes.is_missing Datetimes.lt Datetimes.gt Datetimes.le Datetimes.ge
    DatetimeRanges.contains DatetimeRanges.contains_range LatRanges.contains
    LatRanges.contains_range LonRanges.contains_range LonRanges.is_missing
is_subquery_sound_example = is_subquery_sound day_data april_data temperature refl refl

-- {3, 9} in {1, 3, 4, 9}
is_subset-all_in_example :
    is_subset (3 ∷ 9 ∷ []) (1 ∷ 3 ∷ 4 ∷ 9 ∷ []) ≡ all_in (3 ∷ 9 ∷ []) (1 ∷ 3 ∷ 4 ∷ 9 ∷ [])
is_subset-all_in_example =
    is_subset-all_in (3 ∷ 9 ∷ []) (1 ∷ 3 ∷ 4 ∷ 9 ∷ []) (omega arith) (omega arith)
