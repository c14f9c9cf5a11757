-- ===== src/BatchStation/Writing.antt =====
-- Writing the rows of a station that wait.
use dballe.Prelude.{ℕ, ◌≡◌, refl, Bool, List, Result, ok, err, ◌>>=◌}
use dballe.Prelude.Int.{ℤ}
use dballe.Prelude.Order.{nat_ord}
use dballe.SmallSet.Search.{IsSort}
use dballe.Pending.{Pending, Rows}
use dballe.Pending as Pendings
use dballe.Pending.Known.{IsKept}
use dballe.Pending.Written.{Writes, write_pending_lem}
use dballe.Tables.{
  IdVarcode, StationDatum, MeasuredDatum, MeasuredDataId, Tables, station_rows, measured_rows,
  id_varcode_ord,
}
use dballe.BatchStation.{StationData, MeasuredData, write_station_data, write_measured_data}
use dballe.BatchStation.Adding.{station_rows-IsRows, measured_rows-IsRows}

-- The rows beside the database that a call leaves
abbrev pub station_data_left :
    {Var Db : Type 0}
    → Result (StationData Var × Db)
    → Result (Pending IdVarcode (StationDatum Var) × Db)
station_data_left (err e) = err e
station_data_left (ok (sd, db)) = ok (sd.rows, db)

abbrev pub measured_data_left :
    {Var Db : Type 0}
    → Result (MeasuredData Var × Db)
    → Result (Pending MeasuredDataId (MeasuredDatum Var) × Db)
measured_data_left (err e) = err e
measured_data_left (ok (md, db)) = ok (md.rows, db)

module _ {Var : Type 0} (code : Var → ℕ) (sort_codes : List IdVarcode → List IdVarcode)
    (sort_ids : List MeasuredDataId → List MeasuredDataId) {Db : Type 0} (tables : Tables Var Db)
    (station_id : ℤ) (with_attrs : Bool) where
  -- If the known rows are kept, writing station data either throws what a table throws, or inserts the
  -- rows to insert, updates the rows to update, leaves none waiting, and knows the ids of the rows
  -- that were inserted: the last id of each code.
  pub write_station_data_lem :
      IsSort (λ x. x.varcode) sort_codes
      → (sd : StationData Var) (db : Db) → IsKept (station_rows code) sd.rows.ids
      → Writes
          (station_rows code)
          (tables.insert_station_data station_id with_attrs)
          (tables.update_station_data with_attrs)
          sd.rows
          db
          (station_data_left
            (write_station_data code sort_codes sort_ids tables station_id with_attrs sd db))
  unfolding write_station_data
  write_station_data_lem is_sort sd db k =
      rw
        (left (
          Pendings.write_pending (station_rows code) sort_codes
            (tables.insert_station_data station_id with_attrs)
            (tables.update_station_data with_attrs) sd.rows db))
        (write_pending_lem (station_rows code) (station_rows-IsRows code) sort_codes is_sort
          (tables.insert_station_data station_id with_attrs) (tables.update_station_data with_attrs)
          sd.rows db k)
    where
      left :
          (r : Result (Pending IdVarcode (StationDatum Var) × Db))
          → station_data_left (r >>= λ x. ok (record sd { rows = x.0 }, x.1)) ≡ r
      left (err e) = refl
      left (ok (rows, db')) = refl

  -- If the known rows are kept, writing measured data does the same, by level, time range and code.
  pub write_measured_data_lem :
      IsSort (λ x. x.id_varcode) sort_ids
      → (md : MeasuredData Var) (db : Db) → IsKept (measured_rows code) md.rows.ids
      → Writes
          (measured_rows code)
          (tables.insert_data station_id md.datetime with_attrs)
          (tables.update_data with_attrs)
          md.rows
          db
          (measured_data_left
            (write_measured_data code sort_codes sort_ids tables station_id with_attrs md db))
  unfolding write_measured_data
  write_measured_data_lem is_sort md db k =
      rw
        (left (
          Pendings.write_pending (measured_rows code) sort_ids
            (tables.insert_data station_id md.datetime with_attrs) (tables.update_data with_attrs)
            md.rows db))
        (write_pending_lem (measured_rows code) (measured_rows-IsRows code) sort_ids is_sort
          (tables.insert_data station_id md.datetime with_attrs) (tables.update_data with_attrs)
          md.rows db k)
    where
      left :
          (r : Result (Pending MeasuredDataId (MeasuredDatum Var) × Db))
          → measured_data_left (r >>= λ x. ok (record md { rows = x.0 }, x.1)) ≡ r
      left (err e) = refl
      left (ok (rows, db')) = refl
