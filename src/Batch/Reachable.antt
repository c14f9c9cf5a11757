-- ===== src/Batch/Reachable.antt =====
-- The batches that calls can lead to.
use dballe.Prelude.{ℕ, ◌≡◌, refl, ap, Bool, List, Option, some, get_elem?, Error, Result, ok, err}
use mathlib.Core.Path.{subst}
use dballe.Prelude.Int.{ℤ}
use dballe.Prelude.Order.{nat_ord}
use dballe.Coords.{Coords}
use dballe.Datetime.{Datetime}
use dballe.Datetime.Order.{datetime_ord}
use dballe.SortedVector.{All}
use dballe.SmallSet.Search.{IsSort}
use dballe.Pending.{Pending, UpdateMode, change_at}
use dballe.SmallSet.Keys.{SameKeys-IsKeyed, SameKeys-change_at}
use dballe.Pending as Pendings
use dballe.Pending.Known.{IsKept}
use dballe.Tables.{
  IdVarcode, DbStation, MeasuredDataId, Tables, station_rows, measured_rows, measured_datum,
  id_varcode_ord,
}
use dballe.BatchStation.{
  StationData, MeasuredData, Station, add_station_var, add_measured_var, get_station_data,
  get_measured_data,
}
use dballe.BatchStation.Adding.{
  KeepsIds, threw, kept, station_data_rows, measured_data_rows, add_station_var-KeepsIds,
  loaded-add_station_var, add_measured_var-KeepsIds,
}
use dballe.Batch.{
  Batch, new_batch, clear, set_write_attrs, get_station, get_station_of, write_pending,
}
use dballe.Batch.Calls.{
  write_pending-Keeps, get_station-Keeps, get_station_of-Keeps, clear-Keeps, set_write_attrs-Keeps,
}
use dballe.Batch.Rows.{
  QueriesAreUnique, get_station_data-StationIsKept, added_station_data,
  get_measured_data-StationIsKept, All-change_at, All-get_elem?,
}
use dballe.Batch.Loading.{Holds, Holds-bind}
use dballe.Batch.Invariant.{StationIsKept, BatchIsKept}

module _ {Var : Type 0} (code : Var → ℕ) (sort_codes : List IdVarcode → List IdVarcode)
    (sort_ids : List MeasuredDataId → List MeasuredDataId)
    (sort_times : List (MeasuredData Var) → List (MeasuredData Var)) {Db : Type 0}
    (tables : Tables Var Db) where
  -- A call on the batch, or on its last station, that returns
  pub data Step (b : Batch Var) (db : Db) : Batch Var → Db → Type 0 where
    cleared : Step b db (clear b) db
    attrs_set : (write : Bool) → Step b db (set_write_attrs write b) db
    found :
        {thrown : Option Error} {b' : Batch Var} {db' : Db} (station : DbStation) (can_add : Bool)
        → get_station code sort_codes sort_ids tables station can_add b db ≡ ok (thrown, b', db')
        → Step b db b' db'
    found_of :
        {thrown : Option Error} {b' : Batch Var} {db' : Db} (report : List ℕ) (coords : Coords)
        (ident : Option (List ℕ))
        → get_station_of code sort_codes sort_ids tables report coords ident b db
          ≡ ok (thrown, b', db')
        → Step b db b' db'
    wrote :
        {b' : Batch Var} {db' : Db}
        → write_pending code sort_codes sort_ids tables b db ≡ ok (b', db')
        → Step b db b' db'
    loaded :
        {s s' : Station Var} {n : ℕ}
        → b.last_station ≡ some s
        → get_station_data code sort_codes sort_ids tables s b.count_select_station_data db
          ≡ ok (s', n)
        → Step b db (record b { last_station = some s'; count_select_station_data = n }) db
    station_var_added :
        {s : Station Var} {sd : StationData Var} (var : Var) (mode : UpdateMode)
        → b.last_station ≡ some s
        → add_station_var code sort_codes var mode s.station_data ≡ ok sd
        → Step b db (record b { last_station = some (record s { station_data = sd }) }) db
    measured :
        {s s' : Station Var} {i n : ℕ} (datetime : Datetime)
        → b.last_station ≡ some s
        → get_measured_data code sort_codes sort_ids tables sort_times s b.count_select_data
            datetime db
          ≡ ok (i, s', n)
        → Step b db (record b { last_station = some s'; count_select_data = n }) db
    measured_var_added :
        {s : Station Var} {md md' : MeasuredData Var} (i : ℕ) (id_levtr : ℤ) (var : Var)
        (mode : UpdateMode)
        → b.last_station ≡ some s
        → get_elem? s.measured_data.items i ≡ some md
        → add_measured_var code sort_ids id_levtr var mode md ≡ ok md'
        → Step b db
            (record b {
              last_station = some (record s {
                measured_data = record s.measured_data {
                  items = change_at (λ x. md') i s.measured_data.items;
                };
              });
            })
            db

  pub data Reachable : Batch Var → Db → Type 0 where
    start : (db : Db) → Reachable new_batch db
    next : {b b' : Batch Var} {db db' : Db} → Reachable b db → Step b db b' db' → Reachable b' db'

  module _ (codes_sort : IsSort (λ x. x.varcode) sort_codes)
      (ids_sort : IsSort (λ x. x.id_varcode) sort_ids) (unique : QueriesAreUnique tables)
      (all_sort : (P : MeasuredData Var → Type 0) (xs : List (MeasuredData Var))
        → All P xs
        → All P (sort_times xs))
      (times_sort : IsSort (λ x. x.datetime) sort_times) where
    ok-Holds : {A : Type 0} (P : A → Type 0) {r : Result A} {a : A} → Holds P r → r ≡ ok a → P a
    ok-Holds P h e = subst (Holds P) e h

    KeepsIds-station :
        (p : Pending IdVarcode _) {r : _}
        → KeepsIds (station_rows code) p r
        → Holds (λ x. IsKept (station_rows code) x.ids) r
    KeepsIds-station p threw = tt
    KeepsIds-station p (kept k same) = k

    KeepsIds-measured :
        (p : Pending MeasuredDataId _) {r : _}
        → KeepsIds (measured_rows code) p r
        → Holds (λ x. IsKept (measured_rows code) x.ids) r
    KeepsIds-measured p threw = tt
    KeepsIds-measured p (kept k same) = k

    any_of : {A : Type 0} (r : Result A) → Holds (λ x. Unit {0}) r
    any_of (err e) = tt
    any_of (ok x) = tt

    datetime-add_measured_var :
        (id_levtr : ℤ) (var : Var) (mode : UpdateMode) (md : MeasuredData Var)
        → Holds
            (λ x. md.datetime ≡ x.datetime)
            (add_measured_var code sort_ids id_levtr var mode md)
    unfolding add_measured_var
    datetime-add_measured_var id_levtr var mode md =
        Holds-bind (λ x. Unit {0}) (λ x. md.datetime ≡ x.datetime)
          (Pendings.add (measured_rows code) sort_ids mode (measured_datum id_levtr var) md.rows) _
          (any_of
            (Pendings.add (measured_rows code) sort_ids mode (measured_datum id_levtr var) md.rows))
          (λ x u. refl)

    last :
        (b : Batch Var) {s : Station Var}
        → BatchIsKept code b.last_station
        → b.last_station ≡ some s
        → StationIsKept code s
    last b h e = subst (BatchIsKept code) e h

    Step-Keeps :
        (b b' : Batch Var) (db db' : Db)
        → BatchIsKept code b.last_station
        → Step b db b' db'
        → BatchIsKept code b'.last_station
    Step-Keeps b _ db _ h cleared =
        clear-Keeps code sort_codes sort_ids codes_sort ids_sort tables b
    Step-Keeps b _ db _ h (attrs_set write) =
        set_write_attrs-Keeps code sort_codes sort_ids codes_sort ids_sort tables write b h
    Step-Keeps b _ db _ h (found station can_add e) =
        ok-Holds (λ x. BatchIsKept code x.1.last_station)
          (get_station-Keeps code sort_codes sort_ids codes_sort ids_sort tables station can_add b
            db h)
          e
    Step-Keeps b _ db _ h (found_of report coords ident e) =
        ok-Holds (λ x. BatchIsKept code x.1.last_station)
          (get_station_of-Keeps code sort_codes sort_ids codes_sort ids_sort tables report coords
            ident b db h)
          e
    Step-Keeps b _ db _ h (wrote e) =
        ok-Holds (λ x. BatchIsKept code x.0.last_station)
          (write_pending-Keeps code sort_codes sort_ids codes_sort ids_sort tables b db h) e
    Step-Keeps b _ db _ h (loaded {s = s} l e) =
        ok-Holds (λ x. StationIsKept code x.0)
          (get_station_data-StationIsKept code sort_codes sort_ids sort_times tables unique s
            b.count_select_station_data db (last b h l))
          e
    Step-Keeps b _ db _ h (station_var_added {s = s} {sd = sd} var mode l e) =
        let k = last b h l in
        added_station_data code sort_codes sort_ids sort_times tables unique s sd k
          (ok-Holds (λ x. IsKept (station_rows code) x.ids)
            (KeepsIds-station s.station_data.rows (
              add_station_var-KeepsIds code sort_codes codes_sort var mode s.station_data
                k.station_ids))
            (ap station_data_rows e))
          (loaded-add_station_var code sort_codes var mode s.station_data sd e)
    Step-Keeps b _ db _ h (measured {s = s} datetime l e) =
        ok-Holds (λ x. StationIsKept code x.1)
          (get_measured_data-StationIsKept code sort_codes sort_ids sort_times tables unique
            all_sort times_sort s b.count_select_data datetime db (last b h l))
          e
    Step-Keeps b _ db _ h
          (measured_var_added {s = s} {md = md} {md' = md'} i id_levtr var mode l g e) =
        let k = last b h l in
        let m =
          All-get_elem? code sort_codes sort_ids sort_times tables unique all_sort times_sort i md
            s.measured_data.items k.measured_ids g in
        record {
          station_ids = k.station_ids;
          not_loaded = k.not_loaded;
          measured_ids =
              All-change_at code sort_codes sort_ids sort_times tables unique all_sort times_sort i
                md' s.measured_data.items k.measured_ids
                (ok-Holds (λ x. IsKept (measured_rows code) x.ids)
                  (KeepsIds-measured md.rows
                    (add_measured_var-KeepsIds code sort_ids ids_sort id_levtr var mode md m))
                  (ap measured_data_rows e));
          datetimes =
              SameKeys-IsKeyed (λ x. x.datetime) s.measured_data
                (change_at (λ x. md') i s.measured_data.items)
                (SameKeys-change_at (λ x. x.datetime) i md md' s.measured_data.items g
                  (ok-Holds (λ x. md.datetime ≡ x.datetime)
                    (datetime-add_measured_var id_levtr var mode md) e))
                k.datetimes;
        }

    -- If the sorts sort, and the queries of the tables return no row twice, then in each batch that
    -- calls can lead to, the sets of the last station are as `find` needs them: each row is known
    -- once, of the station and of each of its measured data, and none of the station before its rows
    -- are loaded; the set of measured data is tidy too, and has no datetime twice.
    pub Reachable-BatchIsKept :
        (b : Batch Var) (db : Db) → Reachable b db → BatchIsKept code b.last_station
    Reachable-BatchIsKept _ _ (start db) = tt
    Reachable-BatchIsKept _ _ (next {b = b} {b' = b'} {db = db} {db' = db'} r s) =
        Step-Keeps b b' db db' (Reachable-BatchIsKept b db r) s
