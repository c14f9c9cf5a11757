-- ===== src/Examples/Inserts.antt =====
-- Tables that know no station and number the rows that they insert, and the theorems on insertions at
-- concrete inputs. Variables are their codes.
use dballe.Prelude.{
  ℕ, ◌+◌, ◌-◌, ◌%◌, ◌≡◌, sym, ap, arith, true, false, List, [], ◌∷◌, length, Result, ok, err,
  runtime,
}
use dballe.Prelude.Int.{ℤ, pos}
use dballe.Prelude.Words.{is_missing_int, missing_int}
use dballe.Prelude.Order.{Ord, nat_ord}
use dballe.Datetime.Order.{datetime_ord}
use dballe.SmallSet.{small_set, rearrange_dirty}
use dballe.SmallSet.Search.{IsSort, Ascending-rearrange_dirty, SameItems-rearrange_dirty}
use dballe.Tables.{
  IdVarcode, StationDatum, station_datum, MeasuredDataId, Tables, station_rows, measured_rows,
  id_varcode_ord,
}
use dballe.Tables.Sqlite.{insert_loop, Inserted, Inserts, inserted, thrown, insert-Inserted}
use dballe.Tables.Sqlite as Sqlite
use dballe.Tables.Once.{only_lasts, lasts, run_all, insert-run_all}
use dballe.BatchStation.{MeasuredData}
use dballe.BatchStation.Adding.{station_rows-IsRows}

-- Insertion sort, for std::sort
abbrev pub sort_by :
    {Item Value : Type 0} → ⦃o : Ord Value⦄ → (Item → Value) → List Item → List Item
sort_by get_value xs = (rearrange_dirty get_value (small_set xs (length xs))).items

pub sort_by-IsSort :
    {Item Value : Type 0}
    → ⦃o : Ord Value⦄ → (get_value : Item → Value) → IsSort get_value (sort_by get_value)
sort_by-IsSort get_value = record {
  ascending = λ xs. Ascending-rearrange_dirty get_value (small_set xs (length xs)) (record {
    within = omega arith;
    sorted = let e : length xs - length xs ≡ 0 = omega arith in rw e tt;
  });
  same = λ xs. SameItems-rearrange_dirty get_value (small_set xs (length xs));
}

abbrev pub itself : ℕ → ℕ
itself n = n

abbrev pub by_code : List IdVarcode → List IdVarcode
by_code = sort_by (λ x. x.varcode)

abbrev pub by_id_varcode : List MeasuredDataId → List MeasuredDataId
by_id_varcode = sort_by (λ x. x.id_varcode)

abbrev pub by_datetime : List (MeasuredData ℕ) → List (MeasuredData ℕ)
by_datetime = sort_by (λ x. x.datetime)

-- The next number that a database gives
abbrev pub execute : {Datum : Type 0} → Datum → ℕ → Result (ℤ × ℕ)
execute d db = ok (pos (db % 1000), db + 1)

pub execute_set :
    {Datum : Type 0} (d : Datum) (db : ℕ) (z : ℤ) (db' : ℕ)
    → execute d db ≡ ok (z, db')
    → is_missing_int z ≡ false
execute_set d db z db' h = let e : pos (db % 1000) ≡ z = ap id_of_row h in rw (sym e) (ground arith)
  where
    id_of_row : Result (ℤ × ℕ) → ℤ
    id_of_row (err e) = z
    id_of_row (ok x) = x.0

abbrev pub tables : Tables ℕ ℕ
tables = record {
  lookup = λ id db. err runtime;
  maybe_get_id = λ s db. ok (missing_int, db);
  insert_new = λ s db. execute s db;
  query_station_data = λ id db. ok [];
  insert_station_data = λ id attrs vs db.
      Sqlite.insert (station_rows itself) execute (sort_by (station_rows itself).value) vs db;
  update_station_data = λ attrs vs db. ok db;
  query_data = λ id datetime db. ok [];
  insert_data = λ id datetime attrs vs db.
      Sqlite.insert (measured_rows itself) execute (sort_by (measured_rows itself).value) vs db;
  update_data = λ attrs vs db. ok db;
  obtain_levtr = λ l t db. execute l db;
}

-- Two rows of code 5, of which the second is inserted
abbrev pub twice : List (StationDatum ℕ)
twice = station_datum 5 ∷ station_datum 5 ∷ []

abbrev pub sort_rows : List (StationDatum ℕ) → List (StationDatum ℕ)
sort_rows = sort_by (station_rows itself).value

insert-Inserted_example :
    Inserted
      (station_rows itself)
      (station_rows-IsRows itself)
      execute
      twice
      (Sqlite.insert (station_rows itself) execute sort_rows twice 7)
insert-Inserted_example =
    insert-Inserted (station_rows itself) (station_rows-IsRows itself) execute execute_set sort_rows
      (sort_by-IsSort (station_rows itself).value) twice 7

insert-run_all_example :
    only_lasts
      (station_rows itself)
      (station_rows-IsRows itself)
      (Sqlite.insert (station_rows itself) execute sort_rows twice 7)
    ≡ run_all
        (station_rows itself)
        (station_rows-IsRows itself)
        execute
        (lasts (station_rows itself) (station_rows-IsRows itself) (sort_rows twice))
        7
insert-run_all_example =
    insert-run_all (station_rows itself) (station_rows-IsRows itself) execute sort_rows
      (sort_by-IsSort (station_rows itself).value) twice 7

pub Inserted-Inserts :
    (vs : List (StationDatum ℕ)) {r : Result (List (StationDatum ℕ) × ℕ)}
    → Inserted (station_rows itself) (station_rows-IsRows itself) execute vs r
    → (ds : List (StationDatum ℕ)) (db' : ℕ) → r ≡ ok (ds, db')
    → Inserts (station_rows itself) vs ds
Inserted-Inserts vs (thrown d db l g) ds db' e = cc
Inserted-Inserts vs (inserted ds' i) ds db' e = rw (sym (ap rows_left e)) i
  where
    rows_left : Result (List (StationDatum ℕ) × ℕ) → List (StationDatum ℕ)
    rows_left (err e) = ds'
    rows_left (ok x) = x.0

pub table-Inserts :
    (vs ds : List (StationDatum ℕ)) (db db' : ℕ)
    → tables.insert_station_data (pos 1) true vs db ≡ ok (ds, db')
    → Inserts (station_rows itself) vs ds
table-Inserts vs ds db db' e =
    Inserted-Inserts vs
      (insert-Inserted (station_rows itself) (station_rows-IsRows itself) execute execute_set
        sort_rows (sort_by-IsSort (station_rows itself).value) vs db)
      ds db' e
