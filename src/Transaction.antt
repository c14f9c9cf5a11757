-- ===== src/Transaction.antt =====
-- Inserting data through the batch: insert_station_data and insert_data of
-- dballe/db/v7/transaction.cc. When a variable is refused, the search that found it may have sorted the
-- set of known rows; the set is left as it was here, with the same rows.
pub mod Adding
pub mod Reading
use dballe.Prelude.{
  ℕ, Bool, true, false, if◌then◌else◌, List, [], ◌∷◌, Option, some, none, get_elem?, Error, Result,
  ok, err, runtime, notfound, ◌>>=◌,
}
use dballe.Prelude.Int.{ℤ}
use dballe.Prelude.Words.{missing_int}
use dballe.Prelude.Order.{Ord, nat_ord}
use dballe.Datetime.{Datetime}
use dballe.Level as Levels
use dballe.Level.{Level}
use dballe.Trange as Tranges
use dballe.Trange.{Trange}
use dballe.SmallSet.{SmallSet}
use dballe.Pending.{Rows, Pending, UpdateMode, update, error, search, id_at, change_at}
use dballe.Tables.{
  IdVarcode, id_varcode, DbStation, MeasuredDataId, Tables, station_rows, measured_rows,
  id_varcode_ord,
}
use dballe.BatchStation.{
  StationData, MeasuredData, Station, add_station_var, add_measured_var, get_station_data,
  get_measured_data,
}
use dballe.Batch.{Batch, Left, get_station, write_pending}

-- `opts.can_replace ? batch::UPDATE : batch::ERROR`
abbrev pub conflict_mode : Bool → UpdateMode
conflict_mode can_replace = if can_replace then update else error

module _ {Var : Type 0} (code : Var → ℕ) where
  -- The loop over the values of insert_station_data: what it throws, and the station data that it leaves
  unfoldable pub add_station_vars :
      (List IdVarcode → List IdVarcode)
      → UpdateMode
      → List Var
      → StationData Var
      → Option Error × StationData Var
  unfolding add_station_var
  add_station_vars sort_codes mode [] sd = (none, sd)
  add_station_vars sort_codes mode (v ∷ vs) sd = elim (add_station_var code sort_codes v mode sd) [
    | err e ↦ (some e, sd)
    | ok sd' ↦ add_station_vars sort_codes mode vs sd'
  ]

  -- The loop over the values of insert_data
  unfoldable pub add_measured_vars :
      (List MeasuredDataId → List MeasuredDataId)
      → UpdateMode
      → ℤ
      → List Var
      → MeasuredData Var
      → Option Error × MeasuredData Var
  unfolding add_measured_var
  add_measured_vars sort_ids mode id_levtr [] md = (none, md)
  add_measured_vars sort_ids mode id_levtr (v ∷ vs) md =
      elim (add_measured_var code sort_ids id_levtr v mode md) [
        | err e ↦ (some e, md)
        | ok md' ↦ add_measured_vars sort_ids mode id_levtr vs md'
      ]

-- The loop that reads the ids of the values: none where a value has none
unfoldable pub read_ids :
    {Item Value Datum Var : Type 0}
    → ⦃o : Ord Value⦄ → Rows Item Value Datum
    → (List Item → List Item)
    → (Var → Value)
    → List Var
    → SmallSet Item
    → List (Option ℤ) × SmallSet Item
unfolding search
read_ids rows sort value [] s = ([], s)
read_ids rows sort value (v ∷ vs) s =
    let found = search rows.get_value sort (value v) s in
    let rest = read_ids rows sort value vs found.1 in
    (
      (elim found.0 [ none ↦ none | some i ↦ some (id_at rows sort found.1.items i) ]) ∷ rest.0,
      rest.1,
    )

-- What an insertion leaves: what it throws, the id of the station, the ids of the values, the batch
pub record Insertion (Var Db : Type 0) : Type 0 where
  pub thrown : Option Error
  pub station_id : ℤ
  pub data_ids : List (Option ℤ)
  pub batch : Batch Var
  pub db : Db

abbrev pub stopped : {Var Db : Type 0} → Error → Batch Var → Db → Insertion Var Db
stopped e b db = record {
  thrown = some e;
  station_id = missing_int;
  data_ids = [];
  batch = b;
  db = db;
}

abbrev pub with_last : {Var : Type 0} → Station Var → Batch Var → Batch Var
with_last s b = record b { last_station = some s }

module _ {Var : Type 0} (code : Var → ℕ) (sort_codes : List IdVarcode → List IdVarcode)
    (sort_ids : List MeasuredDataId → List MeasuredDataId) {Db : Type 0}
    (tables : Tables Var Db) where
  -- The end of insert_station_data: writing the batch and reading the ids
  abbrev pub finish_station_data : List Var → Batch Var → Db → Result (Insertion Var Db)
  unfolding read_ids write_pending
  finish_station_data values b db = do
    (b', db') ← write_pending code sort_codes sort_ids tables b db
    elim b'.last_station [
      | none ↦ err runtime
      | some s ↦
          let ids = read_ids (station_rows code) sort_codes code values s.station_data.rows.ids in
          ok (record {
            thrown = none;
            station_id = s.info.id;
            data_ids = ids.0;
            batch =
                with_last
                  (record s {
                    station_data = record s.station_data {
                      rows = record s.station_data.rows { ids = ids.1 };
                    };
                  })
                  b';
            db = db';
          })
    ]

  -- Transaction::insert_station_data from the station on
  abbrev pub fill_station_data :
      UpdateMode → List Var → Station Var → Batch Var → Db → Result (Insertion Var Db)
  unfolding add_station_vars get_station_data write_pending read_ids
  fill_station_data mode values s b db = do
    (s1, count) ← get_station_data code sort_codes sort_ids tables s b.count_select_station_data db
    let added = add_station_vars code sort_codes mode values s1.station_data
    let b1 =
        with_last (record s1 { station_data = added.1 })
          (record b { count_select_station_data = count })
    elim added.0 [ some e ↦ ok (stopped e b1 db) | none ↦ finish_station_data values b1 db ]

  -- Transaction::insert_station_data
  unfoldable pub insert_station_data :
      DbStation → List Var → Bool → Bool → Batch Var → Db → Result (Insertion Var Db)
  unfolding get_station add_station_vars get_station_data write_pending read_ids
  insert_station_data station values can_add_stations can_replace b db = do
    (thrown, b1, db1) ← get_station code sort_codes sort_ids tables station can_add_stations b db
    elim thrown [
      | some e ↦ ok (stopped e b1 db1)
      | none ↦ elim b1.last_station [
        | none ↦ err runtime
        | some s ↦ fill_station_data (conflict_mode can_replace) values s b1 db1
      ]
    ]

  -- `md`, at its place in the measured data of the last station
  abbrev with_measured : ℕ → MeasuredData Var → Station Var → Batch Var → Batch Var
  with_measured i md s b =
      with_last
        (record s {
          measured_data = record s.measured_data {
            items = change_at (λ x. md) i s.measured_data.items;
          };
        })
        b

  -- The end of insert_data: writing the batch and reading the ids
  abbrev pub finish_data : ℤ → ℕ → List Var → Batch Var → Db → Result (Insertion Var Db)
  unfolding read_ids write_pending
  finish_data id_levtr i values b db = do
    (b', db') ← write_pending code sort_codes sort_ids tables b db
    elim b'.last_station [
      | none ↦ err runtime
      | some s ↦ elim (get_elem? s.measured_data.items i) [
        | none ↦ err runtime
        | some md ↦
            let ids =
              read_ids (measured_rows code) sort_ids (λ v. id_varcode id_levtr (code v)) values
                md.rows.ids in
            ok (record {
              thrown = none;
              station_id = s.info.id;
              data_ids = ids.0;
              batch = with_measured i (record md { rows = record md.rows { ids = ids.1 } }) s b';
              db = db';
            })
      ]
    ]

  -- Transaction::insert_data from the level on
  abbrev pub fill_data :
      UpdateMode
      → Level
      → Trange
      → ℕ
      → List Var
      → Station Var
      → Batch Var
      → Db
      → Result (Insertion Var Db)
  unfolding add_measured_vars write_pending read_ids
  fill_data mode level trange i values s b db =
      if Levels.is_missing level
      then ok (stopped runtime b db)
      else if Tranges.is_missing trange
      then ok (stopped runtime b db)
      else do
        (id_levtr, db1) ← tables.obtain_levtr level trange db
        elim (get_elem? s.measured_data.items i) [
          | none ↦ err runtime
          | some md ↦
              let added = add_measured_vars code sort_ids mode id_levtr values md in
              let b1 = with_measured i added.1 s b in
              elim added.0 [
                | some e ↦ ok (stopped e b1 db1)
                | none ↦ finish_data id_levtr i values b1 db1
              ]
        ]

  module _ (sort_times : List (MeasuredData Var) → List (MeasuredData Var)) where
    abbrev pub find_data :
        UpdateMode
        → Level
        → Trange
        → Datetime
        → List Var
        → Station Var
        → Batch Var
        → Db
        → Result (Insertion Var Db)
    unfolding get_measured_data add_measured_vars write_pending read_ids
    find_data mode level trange datetime values s b db = do
      (i, s1, count) ←
          get_measured_data code sort_codes sort_ids tables sort_times s b.count_select_data
            datetime db
      fill_data mode level trange i values s1
          (with_last s1 (record b { count_select_data = count })) db

    -- Transaction::insert_data
    unfoldable pub insert_data :
        DbStation
        → Level
        → Trange
        → Datetime
        → List Var
        → Bool
        → Bool
        → Batch Var
        → Db
        → Result (Insertion Var Db)
    unfolding get_station get_measured_data add_measured_vars write_pending read_ids
    insert_data station level trange datetime [] can_add_stations can_replace b db =
        ok (stopped notfound b db)
    insert_data station level trange datetime (v ∷ vs) can_add_stations can_replace b db = do
      (thrown, b1, db1) ← get_station code sort_codes sort_ids tables station can_add_stations b db
      elim thrown [
        | some e ↦ ok (stopped e b1 db1)
        | none ↦ elim b1.last_station [
          | none ↦ err runtime
          | some s ↦ find_data (conflict_mode can_replace) level trange datetime (v ∷ vs) s b1 db1
        ]
      ]
