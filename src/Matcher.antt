-- ===== src/Matcher.antt =====
-- Matchers: dballe/core/matcher.cc. `Matched` is the interface of the objects that are matched: a
-- function for each method that the matchers call. Matcher::create makes a conjunction of simple
-- matchers.
pub mod Conjunction
pub mod Reading
use dballe.Prelude.{
  is_empty, ℕ, ◌+◌, Bool, true, false, not, ◌&&◌, ◌||◌, leb, if◌then◌else◌, List, [], ◌∷◌, ◌++◌,
  map, Option, some, none, Result, ok, err, consistency,
}
use dballe.Prelude.Int.{ℤ, pos, negsuc, ltb_ℤ, leb_ℤ, eqb_ℤ}
use dballe.Prelude.Words.{missing_int, is_missing_int}
use dballe.DatetimeRange.{DatetimeRange, range_is_missing}
use dballe.LatRange.{LatRange}
use dballe.LatRange as LatRanges
use dballe.LonRange.{LonRange}
use dballe.LonRange as LonRanges
use dballe.Query.{Query}

-- matcher::Result
pub data Match : Type 0 where
  yes no na : Match

-- Matched
pub record Matched : Type 0 where
  pub match_station_id : ℤ → Match
  pub match_station_wmo : ℤ → ℤ → Match
  pub match_datetime : DatetimeRange → Match
  pub match_coords : LatRange → LonRange → Match
  pub match_rep_memo : List ℕ → Match

-- Matched::int_in_range
unfoldable pub int_in_range : ℤ → ℤ → ℤ → Match
int_in_range val min max =
    if not (is_missing_int min) && ltb_ℤ val min
    then no
    else if not (is_missing_int max) && ltb_ℤ max val
    then no
    else yes

-- Matched::lon_in_range
unfoldable pub lon_in_range : ℤ → ℤ → ℤ → Result Match
lon_in_range val min max =
    if is_missing_int min && is_missing_int max
    then ok yes
    else if is_missing_int min || is_missing_int max
    then err consistency
    else if ltb_ℤ min max
    then ok (if leb_ℤ min val && leb_ℤ val max then yes else no)
    else ok (
        if (leb_ℤ min val && leb_ℤ val (pos 18000000))
          || (leb_ℤ (negsuc 17999999) val && leb_ℤ val max)
        then yes
        else no)

-- AnaIDMatcher, WMOMatcher, DateMatcher, CoordMatcher and ReteMatcher
pub data Matcher : Type 0 where
  ana_id : ℤ → Matcher
  wmo : ℤ → ℤ → Matcher
  date : DatetimeRange → Matcher
  coord : LatRange → LonRange → Matcher
  rete : List ℕ → Matcher

-- `m == MATCH_YES ? MATCH_YES : MATCH_NO`
abbrev pub only_yes : Match → Match
only_yes yes = yes
only_yes _ = no

-- `match` of each of the five
unfoldable pub match_one : Matcher → Matched → Match
match_one (ana_id id) v = only_yes (v.match_station_id id)
match_one (wmo block station) v = only_yes (v.match_station_wmo block station)
match_one (date range) v = only_yes (v.match_datetime range)
match_one (coord latrange lonrange) v = only_yes (v.match_coords latrange lonrange)
match_one (rete memo) v = only_yes (v.match_rep_memo memo)

-- The loop of And::match
unfoldable pub match_loop : Match → List Matcher → Matched → Match
unfolding match_one
match_loop res [] v = res
match_loop no (m ∷ exprs) v = no
match_loop res (m ∷ exprs) v = elim (match_one m v) [
  | yes ↦ match_loop yes exprs v
  | no ↦ match_loop no exprs v
  | na ↦ match_loop res exprs v
]

-- And::match
unfoldable pub match_all : List Matcher → Matched → Match
unfolding match_loop
match_all [] v = yes
match_all (m ∷ exprs) v = match_loop na (m ∷ exprs) v

-- `to_query` of each of the five
unfoldable pub to_query_one : Matcher → Query → Query
to_query_one (ana_id id) q = record q { ana_id = id }
to_query_one (wmo block station) q = record q {
  block = block;
  station = if not (eqb_ℤ station (negsuc 0)) then station else missing_int;
}
to_query_one (date range) q = record q { dtrange = range }
to_query_one (coord latrange lonrange) q = record q { latrange = latrange; lonrange = lonrange }
to_query_one (rete memo) q = record q { report = memo }

-- And::to_query
unfoldable pub to_query : List Matcher → Query → Query
unfolding to_query_one
to_query [] q = q
to_query (m ∷ exprs) q = to_query exprs (to_query_one m q)

-- ::tolower, in the C locale
abbrev pub to_lower : ℕ → ℕ
to_lower c = if leb 65 c && leb c 90 then c + 32 else c

-- `if (given) exprs.push_back(m);`, in front of what is pushed later
abbrev pub push_if : Bool → Matcher → List Matcher → List Matcher
push_if given m exprs = if given then m ∷ exprs else exprs

-- Matcher::create
unfoldable pub create : Query → List Matcher
create q = push_if (not (is_missing_int q.ana_id)) (ana_id q.ana_id) (
    push_if (not (is_missing_int q.block))
      (wmo q.block (if not (is_missing_int q.station) then q.station else negsuc 0))
      (push_if (not (range_is_missing q.dtrange)) (date q.dtrange) (
        push_if (not (LatRanges.is_missing q.latrange) || not (LonRanges.is_missing q.lonrange))
          (coord q.latrange q.lonrange)
          (push_if (not (is_empty q.report)) (rete (map to_lower q.report)) []))))
