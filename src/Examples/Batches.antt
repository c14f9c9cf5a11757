-- ===== src/Examples/Batches.antt =====
-- The theorems on batches at concrete inputs.
use dballe.Prelude.{
  map, ℕ, ◌≡◌, refl, arith, true, false, List, [], ◌∷◌, some, none, length, Option, ok, err,
  notfound, consistency,
}
use dballe.Prelude.Int.{ℤ, pos}
use dballe.Prelude.Words.{is_missing_int, missing_int}
use dballe.Prelude.Order.{nat_ord}
use dballe.Coords.{coords}
use dballe.Datetime as Datetimes
use dballe.Datetime.Order.{datetime_ord}
use dballe.SortedVector.{All}
use dballe.SmallSet.{small_set, rearrange_dirty}
use dballe.SmallSet.Everywhere.{All-rearrange_dirty}
use dballe.Pending.{UpdateMode, update, ignore, error, no_pending, Pending}
use dballe.Pending.Known.{IsKept, id_of}
use dballe.Pending.Written.{Writes}
use dballe.Tables.{
  id_varcode, DbStation, station_datum, measured_datum, station_rows, measured_rows, id_varcode_ord,
}
use dballe.Tables.Sqlite.{insert_loop, Inserted, Inserts, inserted, thrown, insert-Inserted}
use dballe.Tables.Sqlite as Sqlite
use dballe.BatchStation.{
  StationData, MeasuredData, Station, fresh, obtain_id, add_station_var, write_station_data,
}
use dballe.BatchStation.Adding.{waiting, station_data_rows, add_station_var_lem}
use dballe.BatchStation.Writing.{station_data_left, write_station_data_lem}
use dballe.BatchStation.Again.{written_again, add_station_var-write_station_data}
use dballe.Batch.{Batch, new_batch, get_station, write_pending}
use dballe.Batch.Refused.{get_station-get_station}
use dballe.Batch.Loading.{IsKept-empty}
use dballe.Batch.Invariant.{BatchIsKept}
use dballe.Batch.Rows.{QueriesAreUnique}
use dballe.Transaction.{add_station_vars, read_ids}
use dballe.Transaction.Reading.{read_ids_lem}
use dballe.Transaction.Adding.{AddsAll, add_station_vars_lem}
use dballe.Batch.Reachable.{start, next, found, Reachable-BatchIsKept}
use dballe.Examples.Inserts.{
  sort_by-IsSort, itself, by_code, by_id_varcode, by_datetime, tables, table-Inserts,
}

-- Station data of which code 3 is in the database with id 40, and code 5 waits to be inserted
abbrev known_3 : StationData ℕ
known_3 = record {
  rows = record {
    ids = small_set (id_varcode (pos 40) 3 ∷ []) 0;
    to_insert = station_datum 5 ∷ [];
    to_update = [];
  };
  loaded = true;
}

known_3-IsKept : IsKept (station_rows itself) known_3.rows.ids
known_3-IsKept = record {
  tidy = record { within = omega arith; sorted = (tt, tt) };
  unique = λ k. ground arith;
}

add_station_var_lem_example :
    waiting (station_data_rows (add_station_var itself by_code 3 error known_3)) ≡ err consistency
unfolding id_of
add_station_var_lem_example =
    add_station_var_lem itself by_code (sort_by-IsSort (λ x. x.varcode)) 3 error known_3
      known_3-IsKept

write_station_data_lem_example :
    Writes
      (station_rows itself)
      (tables.insert_station_data (pos 1) true)
      (tables.update_station_data true)
      known_3.rows
      7
      (station_data_left
        (write_station_data itself by_code by_id_varcode tables (pos 1) true known_3 7))
write_station_data_lem_example =
    write_station_data_lem itself by_code by_id_varcode tables (pos 1) true
      (sort_by-IsSort (λ x. x.varcode)) known_3 7 known_3-IsKept

-- The station data after the write: code 5 has id 7.
abbrev known_5 : StationData ℕ
known_5 = record {
  rows = record {
    ids = small_set (id_varcode (pos 40) 3 ∷ id_varcode (pos 7) 5 ∷ []) 1;
    to_insert = [];
    to_update = [];
  };
  loaded = true;
}

written_known_3 :
    write_station_data itself by_code by_id_varcode tables (pos 1) true known_3 7 ≡ ok (known_5, 8)
unfolding write_station_data dballe.Pending.write_pending dballe.Pending.note_ids
    dballe.Pending.search dballe.SmallSet.find dballe.SmallSet.linear_search dballe.SmallSet.add
    Sqlite.insert insert_loop dballe.SmallSet.rearrange_dirty dballe.SmallSet.rearrange
    dballe.SortedVector.insert_back
written_known_3 = refl

add_station_var-write_station_data_example :
    (z : ℤ) × (is_missing_int z ≡ false)
    × (waiting (station_data_rows (add_station_var itself by_code 5 error known_5))
        ≡ written_again error z 5)
add_station_var-write_station_data_example =
    add_station_var-write_station_data itself by_code by_id_varcode tables (pos 1) true
      (sort_by-IsSort (λ x. x.varcode)) table-Inserts known_3 7 known_5 8 known_3-IsKept refl
      written_known_3 error 5 (omega arith)

-- Measured data of the datetime that is missing, of which nothing is known
abbrev measured_5 : MeasuredData ℕ
measured_5 = record {
  datetime = Datetimes.missing;
  rows = record no_pending { to_insert = measured_datum (pos 2) 5 ∷ [] };
}

measured_5-IsKept : IsKept (measured_rows itself) measured_5.rows.ids
measured_5-IsKept = IsKept-empty (measured_rows itself)

-- A station that is not in the database
abbrev somewhere : DbStation
somewhere = record {
  id = missing_int;
  report = 97 ∷ [];
  coords = coords (pos 4500000) (pos 1100000);
  ident = none;
}

-- The batch that is left when it may not be added, and when it may
abbrev refused_batch : Batch ℕ
refused_batch = record new_batch {
  last_station = some (fresh somewhere.report somewhere.coords somewhere.ident);
  count_select_stations = 1;
}

abbrev added_batch : Batch ℕ
added_batch = record refused_batch {
  last_station = some (record (fresh somewhere.report somewhere.coords somewhere.ident) {
    station_data = record { rows = no_pending; loaded = true };
  });
}

refused_first :
    get_station itself by_code by_id_varcode tables somewhere false new_batch 7
    ≡ ok (some notfound, refused_batch, 7)
unfolding get_station dballe.Batch.new_station dballe.Batch.write_pending dballe.Batch.clear
    dballe.Batch.settle dballe.Batch.have_station dballe.Coords.is_missing dballe.Coords.eq
refused_first = refl

get_station-get_station_example :
    (get_station itself by_code by_id_varcode tables somewhere false refused_batch 7
      ≡ ok (none, refused_batch, 7))
    × ((s : Station ℕ) × (refused_batch.last_station ≡ some s)
        × (obtain_id itself by_code by_id_varcode tables s 7 ≡ tables.insert_new s.info 7))
get_station-get_station_example =
    get_station-get_station itself by_code by_id_varcode tables somewhere new_batch 7 refused_batch
      7 not_missing refused_first
  where
    not_missing : dballe.Coords.is_missing somewhere.coords ≡ false
    not_missing = unfold dballe.Coords.is_missing in refl

added_first :
    get_station itself by_code by_id_varcode tables somewhere true new_batch 7
    ≡ ok (none, added_batch, 7)
unfolding get_station dballe.Batch.new_station dballe.Batch.write_pending dballe.Batch.clear
    dballe.Batch.settle dballe.Batch.have_station dballe.Coords.is_missing dballe.Coords.eq
added_first = refl

tables-QueriesAreUnique : QueriesAreUnique tables
tables-QueriesAreUnique = record {
  codes = λ id db k. omega arith;
  ids = λ id datetime db k. omega arith;
}

All-by_datetime :
    (P : MeasuredData ℕ → Type 0) (xs : List (MeasuredData ℕ)) → All P xs → All P (by_datetime xs)
All-by_datetime P xs h = All-rearrange_dirty P (λ x. x.datetime) (small_set xs (length xs)) h

Reachable-BatchIsKept_example : BatchIsKept itself added_batch.last_station
Reachable-BatchIsKept_example =
    Reachable-BatchIsKept itself by_code by_id_varcode by_datetime tables
      (sort_by-IsSort (λ x. x.varcode)) (sort_by-IsSort (λ x. x.id_varcode)) tables-QueriesAreUnique
      All-by_datetime (sort_by-IsSort (λ x. x.datetime)) added_batch 7
      (next (start 7) (found somewhere true added_first))

-- Code 9 is new, and code 3 is refused, so that code 8 is not reached.
abbrev three_values : List ℕ
three_values = 9 ∷ 3 ∷ 8 ∷ []

abbrev known_code : ℕ → Option ℤ
known_code v = id_of (station_rows itself) v known_3.rows.ids.items

add_station_vars_lem_example :
    AddsAll known_code error three_values known_3
      (add_station_vars itself by_code error three_values known_3)
add_station_vars_lem_example =
    add_station_vars_lem itself by_code (sort_by-IsSort (λ x. x.varcode)) known_code error
      three_values known_3 refl known_3-IsKept (λ v. refl)

read_ids_lem_example :
    ((read_ids (station_rows itself) by_code itself three_values known_3.rows.ids).0
      ≡ map (λ v. id_of (station_rows itself) (itself v) known_3.rows.ids.items) three_values)
    × (IsKept
          (station_rows itself)
          (read_ids (station_rows itself) by_code itself three_values known_3.rows.ids).1
        × ((k : ℕ)
            → id_of
                (station_rows itself)
                k
                (read_ids
                  (station_rows itself)
                  by_code
                  itself
                  three_values
                  known_3.rows.ids).1.items
              ≡ id_of (station_rows itself) k known_3.rows.ids.items))
read_ids_lem_example =
    read_ids_lem (station_rows itself) by_code (sort_by-IsSort (λ x. x.varcode)) itself three_values
      known_3.rows.ids known_3-IsKept
