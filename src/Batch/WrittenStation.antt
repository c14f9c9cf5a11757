-- ===== src/Batch/WrittenStation.antt =====
-- Writing a station of a batch keeps what is true of it.
use dballe.Prelude.{ℕ, ◌≡◌, refl, sym, ◌∙◌, ap, Bool, false, List, [], ◌∷◌, Result, ok, err, ◌>>=◌}
use dballe.Prelude.Int.{ℤ}
use dballe.Prelude.Order.{Ord, nat_ord}
use dballe.Datetime.Order.{datetime_ord}
use dballe.SortedVector.{All}
use dballe.SmallSet.Search.{IsSort}
use dballe.SmallSet.Keys.{SameKeys, SameKeys-IsKeyed}
use dballe.Pending.{Pending, no_pending, UpdateMode, Rows, change_at}
use dballe.Pending as Pendings
use dballe.Pending.Known.{IsKept, id_of-none, id_of-absent}
use dballe.Pending.Written.{Writes, write_pending_lem, not_inserted, not_updated, written}
use dballe.Tables.{
  IdVarcode, StationDatum, MeasuredDatum, MeasuredDataId, Tables, station_rows, measured_rows,
  id_varcode_ord,
}
use dballe.BatchStation.{
  StationData, MeasuredData, Station, write_station_data, write_measured_data, write_all_measured,
  write_station, obtain_id,
}
use dballe.BatchStation.Adding.{station_rows-IsRows}
use dballe.BatchStation.Writing.{measured_data_left, write_measured_data_lem}
use dballe.Batch.Loading.{Holds, Holds-bind}
use dballe.Batch.Invariant.{MeasuredIsKept, IsUnused, StationIsKept}

module _ {Var : Type 0} (code : Var → ℕ) where
  module _ (sort_codes : List IdVarcode → List IdVarcode)
      (sort_ids : List MeasuredDataId → List MeasuredDataId)
      (codes_sort : IsSort (λ x. x.varcode) sort_codes)
      (ids_sort : IsSort (λ x. x.id_varcode) sort_ids) {Db : Type 0} (tables : Tables Var Db) where
    Writes-kept :
        {Item Value Datum : Type 0} ⦃o : Ord Value⦄ (rows : Rows Item Value Datum)
        (insert : List Datum → Db → Result (List Datum × Db)) (upd : List Datum → Db → Result Db)
        (p : Pending Item Datum) (db : Db) {r : Result (Pending Item Datum × Db)}
        → Writes rows insert upd p db r
        → Holds (λ x. IsKept rows x.0.ids) r
    Writes-kept rows insert upd p db (not_inserted e) = tt
    Writes-kept rows insert upd p db (not_updated ds db1 e f) = tt
    Writes-kept rows insert upd p db (written ds db1 e f ti tu n) = n.kept

    Writes-IsUnused :
        (insert : List (StationDatum Var) → Db → Result (List (StationDatum Var) × Db))
        (upd : List (StationDatum Var) → Db → Result Db) (p : Pending IdVarcode (StationDatum Var))
        (db : Db) {r : Result (Pending IdVarcode (StationDatum Var) × Db)}
        → IsUnused code p
        → Writes (station_rows code) insert upd p db r
        → Holds (λ x. IsUnused code x.0) r
    Writes-IsUnused insert upd p db u (not_inserted e) = tt
    Writes-IsUnused insert upd p db u (not_updated ds db1 e f) = tt
    Writes-IsUnused insert upd p db u (written {after = after} ds db1 e f ti tu n) =
        let no_rows : ds ≡ [] = ap rows_of (sym (rw u.no_insert at e)) in
        record {
          unknown = λ k. id_of-none (station_rows code) k after.ids.items (
              n.known_then k
              ∙ rw no_rows (id_of-absent (station_rows code) k p.ids.items (u.unknown k)));
          no_insert = ti;
        }
      where
        rows_of : Result (List (StationDatum Var) × Db) → List (StationDatum Var)
        rows_of (err e) = ds
        rows_of (ok x) = x.0

    module _ (station_id : ℤ) (with_attrs : Bool) where
      abbrev StationDataIsKept : StationData Var → Type 0
      StationDataIsKept sd =
          IsKept (station_rows code) sd.rows.ids × (sd.loaded ≡ false → IsUnused code sd.rows)

      -- The measured data that are left after those were written
      abbrev AllAreWritten : List (MeasuredData Var) → List (MeasuredData Var) → Type 0
      AllAreWritten mds after =
          All (MeasuredIsKept code) after × SameKeys (λ md. md.datetime) mds after

      datetime-write_measured_data :
          (md : MeasuredData Var) (db : Db)
          → Holds
              (λ x. md.datetime ≡ x.0.datetime)
              (write_measured_data code sort_codes sort_ids tables station_id with_attrs md db)
      unfolding write_measured_data
      datetime-write_measured_data md db = same (
          Pendings.write_pending (measured_rows code) sort_ids
            (tables.insert_data station_id md.datetime with_attrs) (tables.update_data with_attrs)
            md.rows db)
        where
          same :
              (r : Result (Pending MeasuredDataId (MeasuredDatum Var) × Db))
              → Holds
                  (λ (x : MeasuredData Var × Db). md.datetime ≡ x.0.datetime)
                  (r >>= λ x. ok (record md { rows = x.0 }, x.1))
          same (err e) = tt
          same (ok x) = refl

      write_measured_data-IsKept :
          (md : MeasuredData Var) (db : Db)
          → MeasuredIsKept code md
          → Holds
              (λ x. MeasuredIsKept code x.0 × (md.datetime ≡ x.0.datetime))
              (write_measured_data code sort_codes sort_ids tables station_id with_attrs md db)
      write_measured_data-IsKept md db h =
          whole (write_measured_data code sort_codes sort_ids tables station_id with_attrs md db)
            (Writes-kept (measured_rows code) (tables.insert_data station_id md.datetime with_attrs)
              (tables.update_data with_attrs) md.rows db
              (write_measured_data_lem code sort_codes sort_ids tables station_id with_attrs
                ids_sort md db h))
            (datetime-write_measured_data md db)
        where
          whole :
              (r : Result (MeasuredData Var × Db))
              → Holds (λ x. IsKept (measured_rows code) x.0.ids) (measured_data_left r)
              → Holds (λ x. md.datetime ≡ x.0.datetime) r
              → Holds (λ x. MeasuredIsKept code x.0 × (md.datetime ≡ x.0.datetime)) r
          whole (err e) k d = tt
          whole (ok x) k d = (k, d)

      write_all_measured-IsKept :
          (mds : List (MeasuredData Var)) (db : Db)
          → All (MeasuredIsKept code) mds
          → Holds
              (λ x. AllAreWritten mds x.0)
              (write_all_measured code sort_codes sort_ids tables station_id with_attrs mds db)
      unfolding write_all_measured
      write_all_measured-IsKept [] db h = (tt, tt)
      write_all_measured-IsKept (md ∷ mds) db h =
          Holds-bind (λ x. MeasuredIsKept code x.0 × (md.datetime ≡ x.0.datetime))
            (λ x. AllAreWritten (md ∷ mds) x.0)
            (write_measured_data code sort_codes sort_ids tables station_id with_attrs md db) _
            (write_measured_data-IsKept md db h.0)
            (λ x k.
              Holds-bind (λ y. AllAreWritten mds y.0) (λ y. AllAreWritten (md ∷ mds) y.0)
                (write_all_measured code sort_codes sort_ids tables station_id with_attrs mds x.1) _
                (write_all_measured-IsKept mds x.1 h.1) (λ y l. ((k.0, l.0), (k.1, l.1))))

      write_station_data-IsKept :
          (sd : StationData Var) (db : Db)
          → StationDataIsKept sd
          → Holds
              (λ x. StationDataIsKept x.0)
              (write_station_data code sort_codes sort_ids tables station_id with_attrs sd db)
      unfolding write_station_data
      write_station_data-IsKept sd db h =
          Holds-bind
            (λ x. IsKept (station_rows code) x.0.ids × (sd.loaded ≡ false → IsUnused code x.0))
            (λ x. StationDataIsKept x.0)
            (Pendings.write_pending (station_rows code) sort_codes
              (tables.insert_station_data station_id with_attrs)
              (tables.update_station_data with_attrs) sd.rows db)
            _
            (both
              (Pendings.write_pending (station_rows code) sort_codes
                (tables.insert_station_data station_id with_attrs)
                (tables.update_station_data with_attrs) sd.rows db)
              w)
            (λ x k. k)
        where
          w :
              Writes
                (station_rows code)
                (tables.insert_station_data station_id with_attrs)
                (tables.update_station_data with_attrs)
                sd.rows
                db
                (Pendings.write_pending
                  (station_rows code)
                  sort_codes
                  (tables.insert_station_data station_id with_attrs)
                  (tables.update_station_data with_attrs)
                  sd.rows
                  db)
          w =
              write_pending_lem (station_rows code) (station_rows-IsRows code) sort_codes codes_sort
                (tables.insert_station_data station_id with_attrs)
                (tables.update_station_data with_attrs) sd.rows db h.0

          both :
              (r : Result (Pending IdVarcode (StationDatum Var) × Db))
              → Writes
                  (station_rows code)
                  (tables.insert_station_data station_id with_attrs)
                  (tables.update_station_data with_attrs)
                  sd.rows
                  db
                  r
              → Holds
                  (λ x.
                    IsKept (station_rows code) x.0.ids × (sd.loaded ≡ false → IsUnused code x.0))
                  r
          both (err e) v = tt
          both (ok x) v = (
            Writes-kept (station_rows code) (tables.insert_station_data station_id with_attrs)
                (tables.update_station_data with_attrs) sd.rows db v,
            λ l.
                Writes-IsUnused (tables.insert_station_data station_id with_attrs)
                  (tables.update_station_data with_attrs) sd.rows db (h.1 l) v,
          )

    -- If the rows of a station are kept, they are after it was written.
    pub write_station-StationIsKept :
        (with_attrs : Bool) (s : Station Var) (db : Db)
        → StationIsKept code s
        → Holds
            (λ x. StationIsKept code x.0)
            (write_station code sort_codes sort_ids tables with_attrs s db)
    unfolding write_station
    write_station-StationIsKept with_attrs s db h =
        Holds-bind (λ x. Unit {0}) (λ x. StationIsKept code x.0)
          (obtain_id code sort_codes sort_ids tables s db) _
          (any (obtain_id code sort_codes sort_ids tables s db))
          (λ x u.
            Holds-bind (λ y. StationDataIsKept x.0 with_attrs y.0) (λ y. StationIsKept code y.0)
              (write_station_data code sort_codes sort_ids tables x.0 with_attrs s.station_data x.1)
              _
              (write_station_data-IsKept x.0 with_attrs s.station_data x.1
                (h.station_ids, h.not_loaded))
              (λ y k.
                Holds-bind (λ z. AllAreWritten x.0 with_attrs s.measured_data.items z.0)
                  (λ z. StationIsKept code z.0)
                  (write_all_measured code sort_codes sort_ids tables x.0 with_attrs
                    s.measured_data.items y.1)
                  _
                  (write_all_measured-IsKept x.0 with_attrs s.measured_data.items y.1
                    h.measured_ids)
                  (λ z l. record {
                    station_ids = k.0;
                    not_loaded = k.1;
                    measured_ids = l.0;
                    datetimes =
                        SameKeys-IsKeyed (λ md. md.datetime) s.measured_data z.0 l.1 h.datetimes;
                  })))
      where
        any : (r : Result (ℤ × Db)) → Holds (λ x. Unit {0}) r
        any (err e) = tt
        any (ok x) = tt
