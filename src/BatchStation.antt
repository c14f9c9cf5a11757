-- ===== src/BatchStation.antt =====
-- The station that a batch keeps, with the rows that wait to be written: StationData, MeasuredData and
-- Station of dballe/db/v7/batch.cc. `tables` are the tables of the transaction, `code` is Var::code of
-- wreport, and the sorts are std::sort by the values of the sets.
pub mod Adding
pub mod Writing
pub mod Again
use dballe.Prelude.{
  ℕ, ◌+◌, ◌%◌, Bool, true, false, not, ◌&&◌, if◌then◌else◌, List, [], ◌∷◌, ◌++◌, Option, some, none,
  get_elem?, length, Result, ok, err, runtime, ◌>>=◌,
}
use dballe.Prelude.Int.{ℤ, eqb_ℤ}
use dballe.Prelude.Words.{missing_int, is_missing_int}
use dballe.Prelude.Order.{Ord, int_ord, nat_ord, tie_eq}
use dballe.Coords.{Coords}
use dballe.Coords as Coordss
use dballe.Datetime.{Datetime}
use dballe.Datetime as Datetimes
use dballe.Datetime.Order.{datetime_ord}
use dballe.SmallSet.{SmallSet, empty}
use dballe.SmallSet as SmallSets
use dballe.Pending as Pendings
use dballe.Pending.{Pending, UpdateMode, no_pending, search, change_at}
use dballe.Tables.{
  IdVarcode, DbStation, StationDatum, station_datum, MeasuredDatum, measured_datum, MeasuredDataId,
  Tables, station_rows, measured_rows, id_varcode_ord,
}

pub record StationData (Var : Type 0) : Type 0 where
  pub rows : Pending IdVarcode (StationDatum Var)
  pub loaded : Bool

pub record MeasuredData (Var : Type 0) : Type 0 where
  pub datetime : Datetime
  pub rows : Pending MeasuredDataId (MeasuredDatum Var)

-- batch::Station; `info` is its base DBStation
pub record Station (Var : Type 0) : Type 0 where
  pub info : DbStation
  pub is_new : Bool
  pub station_data : StationData Var
  pub measured_data : SmallSet (MeasuredData Var)

-- `++count` on `unsigned`
abbrev pub next : ℕ → ℕ
next n = (n + 1) % 4294967296

-- `last_station`, made for a report, coordinates and an identifier: its other fields are the
-- initial ones.
abbrev pub fresh : {Var : Type 0} → List ℕ → Coords → Option (List ℕ) → Station Var
fresh report coords ident = record {
  info = record { id = missing_int; report = report; coords = coords; ident = ident };
  is_new = true;
  station_data = record { rows = no_pending; loaded = false };
  measured_data = empty;
}

abbrev pub with_station_id : {Var : Type 0} → ℤ → Station Var → Station Var
with_station_id id s = record s { info = record s.info { id = id } }

unfoldable pub add_all : {Item : Type 0} → List Item → SmallSet Item → SmallSet Item
unfolding SmallSets.add
add_all [] s = s
add_all (x ∷ xs) s = add_all xs (SmallSets.add x s)

module _ {Var : Type 0} (code : Var → ℕ) where
  -- StationData::add
  unfoldable pub add_station_var :
      (List IdVarcode → List IdVarcode)
      → Var
      → UpdateMode
      → StationData Var
      → Result (StationData Var)
  unfolding Pendings.add
  add_station_var sort_codes var on_conflict sd = if not sd.loaded then err runtime else do
    rows ← Pendings.add (station_rows code) sort_codes on_conflict (station_datum var) sd.rows
    ok (record sd { rows = rows })

  -- MeasuredData::add
  unfoldable pub add_measured_var :
      (List MeasuredDataId → List MeasuredDataId)
      → ℤ
      → Var
      → UpdateMode
      → MeasuredData Var
      → Result (MeasuredData Var)
  unfolding Pendings.add
  add_measured_var sort_ids id_levtr var on_conflict md = do
    rows ←
        Pendings.add (measured_rows code) sort_ids on_conflict (measured_datum id_levtr var) md.rows
    ok (record md { rows = rows })

  module _ (sort_codes : List IdVarcode → List IdVarcode)
      (sort_ids : List MeasuredDataId → List MeasuredDataId) {Db : Type 0}
      (tables : Tables Var Db) where
    -- StationData::write_pending
    unfoldable pub write_station_data :
        ℤ → Bool → StationData Var → Db → Result (StationData Var × Db)
    unfolding Pendings.write_pending
    write_station_data station_id with_attrs sd db = do
      (rows, db') ←
          Pendings.write_pending (station_rows code) sort_codes
            (tables.insert_station_data station_id with_attrs)
            (tables.update_station_data with_attrs) sd.rows db
      ok (record sd { rows = rows }, db')

    -- MeasuredData::write_pending
    unfoldable pub write_measured_data :
        ℤ → Bool → MeasuredData Var → Db → Result (MeasuredData Var × Db)
    unfolding Pendings.write_pending
    write_measured_data station_id with_attrs md db = do
      (rows, db') ←
          Pendings.write_pending (measured_rows code) sort_ids
            (tables.insert_data station_id md.datetime with_attrs) (tables.update_data with_attrs)
            md.rows db
      ok (record md { rows = rows }, db')

    -- `for (auto md : measured_data) md->write_pending(...)`
    unfoldable pub write_all_measured :
        ℤ → Bool → List (MeasuredData Var) → Db → Result (List (MeasuredData Var) × Db)
    unfolding write_measured_data
    write_all_measured station_id with_attrs [] db = ok ([], db)
    write_all_measured station_id with_attrs (md ∷ mds) db = do
      (md', db1) ← write_measured_data station_id with_attrs md db
      (mds', db2) ← write_all_measured station_id with_attrs mds db1
      ok (md' ∷ mds', db2)

    -- `if (id == MISSING_INT) id = insert_new(...)`
    unfoldable pub obtain_id : Station Var → Db → Result (ℤ × Db)
    obtain_id s db =
        if is_missing_int s.info.id then tables.insert_new s.info db else ok (s.info.id, db)

    -- Station::write_pending
    unfoldable pub write_station : Bool → Station Var → Db → Result (Station Var × Db)
    unfolding write_station_data write_all_measured obtain_id
    write_station with_attrs s db = do
      (id, db1) ← obtain_id s db
      (sd, db2) ← write_station_data id with_attrs s.station_data db1
      (mds, db3) ← write_all_measured id with_attrs s.measured_data.items db2
      ok (
        record (with_station_id id s) {
          station_data = sd;
          measured_data = record s.measured_data { items = mds };
        },
        db3,
      )

    -- Station::get_station_data; the number is the batch's count_select_station_data
    unfoldable pub get_station_data : Station Var → ℕ → Db → Result (Station Var × ℕ)
    get_station_data s count db = if s.station_data.loaded then ok (s, count) else do
      ids ← tables.query_station_data s.info.id db
      ok (
        record s {
          station_data = record s.station_data {
            rows = record s.station_data.rows { ids = add_all ids s.station_data.rows.ids };
            loaded = true;
          };
        },
        next count,
      )

    -- The value that `measured_data_vector_get_value` reads
    module _ (sort_times : List (MeasuredData Var) → List (MeasuredData Var)) where
      abbrev pub place_measured :
          Station Var
          → ℕ
          → Datetime
          → Option ℕ × SmallSet (MeasuredData Var)
          → Db
          → Result (ℕ × Station Var × ℕ)
      unfolding SmallSets.add
      place_measured s count datetime (some i, mds) db =
          ok (i, record s { measured_data = mds }, count)
      place_measured s count datetime (none, mds) db =
          if s.is_new
          then ok (
            length mds.items,
            record s {
              measured_data = SmallSets.add (record { datetime = datetime; rows = no_pending }) mds;
            },
            count,
          )
          else do
            ids ← tables.query_data s.info.id datetime db
            ok (
              length mds.items,
              record s {
                measured_data =
                    SmallSets.add
                      (record {
                        datetime = datetime;
                        rows = record no_pending { ids = add_all ids empty };
                      })
                      mds;
              },
              next count,
            )

      -- Station::get_measured_data, which returns the place of the measured data; the number is the
      -- batch's count_select_data
      unfoldable pub get_measured_data :
          Station Var → ℕ → Datetime → Db → Result (ℕ × Station Var × ℕ)
      unfolding search
      get_measured_data s count datetime db =
          if Datetimes.is_missing datetime
          then err runtime
          else place_measured s count datetime
              (search (λ md. md.datetime) sort_times datetime s.measured_data) db
