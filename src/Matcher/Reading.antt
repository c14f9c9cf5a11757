-- ===== src/Matcher/Reading.antt =====
-- A matcher written to a query and made again.
use dballe.Prelude.{
  is_empty, ℕ, ◌≡◌, refl, ◌∙◌, ap, Bool, true, false, not, ◌||◌, arith, if◌then◌else◌, List, [],
  ◌∷◌, map, Bool-cases, inl, inr,
}
use dballe.Prelude.Int.{ℤ, negsuc, eqb_ℤ}
use dballe.Prelude.Words.{missing_int, is_missing_int}
use dballe.Datetime as Datetimes
use dballe.DatetimeRange.{DatetimeRange, range_is_missing}
use dballe.LatRange.{LatRange}
use dballe.LonRange.{LonRange}
use dballe.LatRange as LatRanges
use dballe.LonRange as LonRanges
use dballe.Query.{Query, no_query}
use dballe.Matcher.{
  Matcher, to_query_one, to_query, create, ana_id, wmo, date, coord, rete, to_lower, push_if,
}

to_lower-to_lower : (c : ℕ) → to_lower (to_lower c) ≡ to_lower c
to_lower-to_lower c = ground arith

map-to_lower : (s : List ℕ) → map to_lower (map to_lower s) ≡ map to_lower s
map-to_lower [] = refl
map-to_lower (c ∷ s) = rw (to_lower-to_lower c, map-to_lower s) refl

abbrev station_given : ℤ → ℤ
station_given s = if not (is_missing_int s) then s else negsuc 0

abbrev station_read : ℤ → ℤ
station_read s = if not (eqb_ℤ s (negsuc 0)) then s else missing_int

abbrev coords_given : Query → Bool
coords_given q = not (LatRanges.is_missing q.latrange) || not (LonRanges.is_missing q.lonrange)

to_query-ana_id :
    (given : Bool) (ms : List Matcher) (q : Query) (z : ℤ)
    → to_query (push_if given (ana_id z) ms) q
      ≡ to_query ms (record q { ana_id = if given then z else q.ana_id })
unfolding to_query to_query_one
to_query-ana_id true ms q z = refl
to_query-ana_id false ms q z = refl

to_query-wmo :
    (given : Bool) (ms : List Matcher) (q : Query) (z s : ℤ)
    → to_query (push_if given (wmo z s) ms) q
      ≡ to_query ms (record q {
        block = if given then z else q.block;
        station = if given then station_read s else q.station;
      })
unfolding to_query to_query_one
to_query-wmo true ms q z s = refl
to_query-wmo false ms q z s = refl

to_query-date :
    (given : Bool) (ms : List Matcher) (q : Query) (r : DatetimeRange)
    → to_query (push_if given (date r) ms) q
      ≡ to_query ms (record q { dtrange = if given then r else q.dtrange })
unfolding to_query to_query_one
to_query-date true ms q r = refl
to_query-date false ms q r = refl

to_query-coord :
    (given : Bool) (ms : List Matcher) (q : Query) (r : LatRange) (s : LonRange)
    → to_query (push_if given (coord r s) ms) q
      ≡ to_query ms (record q {
        latrange = if given then r else q.latrange;
        lonrange = if given then s else q.lonrange;
      })
unfolding to_query to_query_one
to_query-coord true ms q r s = refl
to_query-coord false ms q r s = refl

to_query-rete :
    (given : Bool) (ms : List Matcher) (q : Query) (r : List ℕ)
    → to_query (push_if given (rete r) ms) q
      ≡ to_query ms (record q { report = if given then r else q.report })
unfolding to_query to_query_one
to_query-rete true ms q r = refl
to_query-rete false ms q r = refl

-- What is left of a query in its matcher
abbrev kept : Query → Query
kept q = record no_query {
  ana_id = if not (is_missing_int q.ana_id) then q.ana_id else no_query.ana_id;
  block = if not (is_missing_int q.block) then q.block else no_query.block;
  station =
      if not (is_missing_int q.block)
      then station_read (station_given q.station)
      else no_query.station;
  dtrange = if not (range_is_missing q.dtrange) then q.dtrange else no_query.dtrange;
  latrange = if coords_given q then q.latrange else no_query.latrange;
  lonrange = if coords_given q then q.lonrange else no_query.lonrange;
  report = if not (is_empty q.report) then map to_lower q.report else no_query.report;
}

to_query-create : (q : Query) → to_query (create q) no_query ≡ kept q
unfolding create to_query
to_query-create q =
    to_query-ana_id (not (is_missing_int q.ana_id)) _ no_query q.ana_id
    ∙ to_query-wmo (not (is_missing_int q.block)) _ _ q.block (station_given q.station)
    ∙ to_query-date (not (range_is_missing q.dtrange)) _ _ q.dtrange
    ∙ to_query-coord (coords_given q) _ _ q.latrange q.lonrange
    ∙ to_query-rete (not (is_empty q.report)) [] _ (map to_lower q.report)

station_given-station_read :
    (s : ℤ) → station_given (station_read (station_given s)) ≡ station_given s
station_given-station_read s = ground arith

module _ (ms : List Matcher) where
  ana_id-again :
      (z : ℤ)
      → let y = if not (is_missing_int z) then z else missing_int in
        push_if (not (is_missing_int y)) (ana_id y) ms
        ≡ push_if (not (is_missing_int z)) (ana_id z) ms
  ana_id-again z = elim (Bool-cases (is_missing_int z)) [
    | inl h ↦ rw h refl
    | inr h ↦ rw (h, h) refl
  ]

  date-again :
      (r : DatetimeRange)
      → let y = if not (range_is_missing r) then r else no_query.dtrange in
        push_if (not (range_is_missing y)) (date y) ms
        ≡ push_if (not (range_is_missing r)) (date r) ms
  unfolding range_is_missing Datetimes.is_missing
  date-again r = elim (Bool-cases (range_is_missing r)) [
    | inl h ↦ rw h refl
    | inr h ↦ rw (h, h) refl
  ]

  rete-again :
      (r : List ℕ)
      → let y = if not (is_empty r) then map to_lower r else [] in
        push_if (not (is_empty y)) (rete (map to_lower y)) ms
        ≡ push_if (not (is_empty r)) (rete (map to_lower r)) ms
  rete-again [] = refl
  rete-again (c ∷ r) = rw (map-to_lower (c ∷ r)) refl

  coord-again :
      (q : Query)
      → push_if (coords_given (kept q)) (coord (kept q).latrange (kept q).lonrange) ms
        ≡ push_if (coords_given q) (coord q.latrange q.lonrange) ms
  unfolding LatRanges.is_missing LonRanges.is_missing
  coord-again q = elim (Bool-cases (coords_given q)) [ inl h ↦ rw (h, h) refl | inr h ↦ rw h refl ]

  wmo-again :
      (z s : ℤ)
      → let given = not (is_missing_int z) in
        let y = if given then z else missing_int in
        let t = if given then station_read (station_given s) else missing_int in
        push_if (not (is_missing_int y)) (wmo y (station_given t)) ms
        ≡ push_if given (wmo z (station_given s)) ms
  wmo-again z s = elim (Bool-cases (is_missing_int z)) [
    | inl h ↦ rw h refl
    | inr h ↦ rw (h, h) (ap (λ t. wmo z t ∷ ms) (station_given-station_read s))
  ]

create-kept : (q : Query) → create (kept q) ≡ create q
unfolding create
create-kept q =
    ana_id-again _ q.ana_id
    ∙ ap (push_if (not (is_missing_int q.ana_id)) (ana_id q.ana_id)) (
        wmo-again _ q.block q.station
        ∙ ap (push_if (not (is_missing_int q.block)) (wmo q.block (station_given q.station))) (
            date-again _ q.dtrange
            ∙ ap (push_if (not (range_is_missing q.dtrange)) (date q.dtrange)) (
                coord-again _ q
                ∙ ap (push_if (coords_given q) (coord q.latrange q.lonrange))
                    (rete-again [] q.report))))

-- Writing the matcher of a query to an empty query, and making a matcher of that, gives the same
-- matcher.
pub create-to_query : (q : Query) → create (to_query (create q) no_query) ≡ create q
create-to_query q = ap create (to_query-create q) ∙ create-kept q
