-- ===== src/Matcher/Conjunction.antt =====
-- What a query's matcher answers, and the tests on ranges that the matched objects use.
use dballe.Prelude.{
  is_empty, ◌≡◌, refl, ◌∙◌, ap, Bool, true, false, not, ◌&&◌, ◌||◌, arith, if◌then◌else◌, List, [],
  ◌∷◌, map, ok, Bool-cases, inl, inr,
}
use dballe.Prelude.Int.{ℤ, pos, negsuc, ◌≤ℤ◌, ◌<ℤ◌, eqb_ℤ}
use dballe.Prelude.Words.{missing_int, is_missing_int}
use dballe.DatetimeRange.{range_is_missing}
use dballe.LatRange as LatRanges
use dballe.LonRange as LonRanges
use dballe.LonRange.{lon_range}
use dballe.Query.{Query}
use dballe.Query.Subset.{admits}
use dballe.Matcher.{
  Match, yes, no, na, Matched, int_in_range, lon_in_range, Matcher, match_one, match_loop,
  match_all, create, ana_id, wmo, date, coord, rete, to_lower, only_yes,
}

abbrev is_yes : Match → Bool
is_yes yes = true
is_yes _ = false

abbrev of_bool : Bool → Match
of_bool b = if b then yes else no

-- The object answers yes on each field of the query that Matcher::create looks at.
-- A station number without a block is not looked at.
abbrev pub satisfies : Query → Matched → Bool
satisfies q v =
    (is_missing_int q.ana_id || is_yes (v.match_station_id q.ana_id))
    && ((is_missing_int q.block
          || is_yes (
              v.match_station_wmo q.block
                (if not (is_missing_int q.station) then q.station else negsuc 0)))
        && ((range_is_missing q.dtrange || is_yes (v.match_datetime q.dtrange))
            && (((LatRanges.is_missing q.latrange && LonRanges.is_missing q.lonrange)
                  || is_yes (v.match_coords q.latrange q.lonrange))
                && (is_empty q.report || is_yes (v.match_rep_memo (map to_lower q.report))))))

-- Whether each matcher of a list matches
abbrev all_yes : List Matcher → Matched → Bool
all_yes [] v = true
all_yes (m ∷ ms) v = is_yes (match_one m v) && all_yes ms v

only_yes-of_bool : (r : Match) → only_yes r ≡ of_bool (is_yes (only_yes r))
only_yes-of_bool yes = refl
only_yes-of_bool no = refl
only_yes-of_bool na = refl

match_one-of_bool : (m : Matcher) (v : Matched) → match_one m v ≡ of_bool (is_yes (match_one m v))
unfolding match_one
match_one-of_bool (ana_id id) v = only_yes-of_bool (v.match_station_id id)
match_one-of_bool (wmo block station) v = only_yes-of_bool (v.match_station_wmo block station)
match_one-of_bool (date range) v = only_yes-of_bool (v.match_datetime range)
match_one-of_bool (coord latrange lonrange) v = only_yes-of_bool (v.match_coords latrange lonrange)
match_one-of_bool (rete memo) v = only_yes-of_bool (v.match_rep_memo memo)

match_loop-no : (ms : List Matcher) (v : Matched) → match_loop no ms v ≡ no
unfolding match_loop
match_loop-no [] v = refl
match_loop-no (m ∷ ms) v = refl

match_loop-yes : (ms : List Matcher) (v : Matched) → match_loop yes ms v ≡ of_bool (all_yes ms v)
unfolding match_loop
match_loop-yes [] v = refl
match_loop-yes (m ∷ ms) v = elim (Bool-cases (is_yes (match_one m v))) [
  | inl e ↦
      let e' : match_one m v ≡ yes = match_one-of_bool m v ∙ ap of_bool e in
      rw (match_loop, e') (match_loop-yes ms v)
  | inr e ↦
      let e' : match_one m v ≡ no = match_one-of_bool m v ∙ ap of_bool e in
      rw (match_loop, e') (match_loop-no ms v)
]

match_all-all_yes : (ms : List Matcher) (v : Matched) → match_all ms v ≡ of_bool (all_yes ms v)
unfolding match_all match_loop
match_all-all_yes [] v = refl
match_all-all_yes (m ∷ ms) v = elim (Bool-cases (is_yes (match_one m v))) [
  | inl e ↦
      let e' : match_one m v ≡ yes = match_one-of_bool m v ∙ ap of_bool e in
      rw (match_loop, e') (match_loop-yes ms v)
  | inr e ↦
      let e' : match_one m v ≡ no = match_one-of_bool m v ∙ ap of_bool e in
      rw (match_loop, e') (match_loop-no ms v)
]

is_yes-only_yes : (r : Match) → is_yes (only_yes r) ≡ is_yes r
is_yes-only_yes yes = refl
is_yes-only_yes no = refl
is_yes-only_yes na = refl

-- The matcher of a query answers yes to an object that answers yes on the station's id, on the WMO
-- numbers if the query has a block, on the datetimes, the coordinates and the report, each where the
-- query has them, and no to any other: never that it is not applicable. No other field of a query is
-- looked at.
pub match_all-create :
    (q : Query) (v : Matched) → match_all (create q) v ≡ (if satisfies q v then yes else no)
unfolding create match_one
match_all-create q v =
    match_all-all_yes (create q) v
    ∙ ap of_bool (
        ground (
          arith,
          is_yes-only_yes (v.match_station_id q.ana_id),
          is_yes-only_yes (
              v.match_station_wmo q.block
                (if not (is_missing_int q.station) then q.station else negsuc 0)),
          is_yes-only_yes (v.match_datetime q.dtrange),
          is_yes-only_yes (v.match_coords q.latrange q.lonrange),
          is_yes-only_yes (v.match_rep_memo (map to_lower q.report)),
        ))

-- An integer is in a range just when the range admits it, a missing bound being open.
pub int_in_range-admits :
    (val min max : ℤ) → int_in_range val min max ≡ (if admits min max val then yes else no)
unfolding int_in_range
int_in_range-admits val min max = ground arith

-- Of a longitude from -180 to 180 degrees, and two bounds that are below the missing value: if the bounds differ, lon_in_range accepts it just when LonRange::contains of them
-- does; if they are equal, lon_in_range accepts it whatever it is. LonRange::contains of the lower
-- bound twice accepts that bound only.
pub lon_in_range-contains :
    (val min max : ℤ)
    → min <ℤ missing_int
    → max <ℤ missing_int
    → negsuc 17999999 ≤ℤ val
    → val ≤ℤ pos 18000000
    → (lon_in_range val min max
        ≡ ok (if eqb_ℤ min max || LonRanges.contains (lon_range min max) val then yes else no))
      × (LonRanges.contains (lon_range min min) val ≡ eqb_ℤ val min)
unfolding lon_in_range LonRanges.contains
lon_in_range-contains val min max h k l m = (ground arith, ground arith)
