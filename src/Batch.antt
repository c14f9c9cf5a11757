-- ===== src/Batch.antt =====
-- Writes to the database in batches: Batch of dballe/db/v7/batch.h and batch.cc. A call either stops
-- with an exception of a table, after which the batch is not looked at, or it leaves a batch, also when
-- `get_station` itself throws.
pub mod Refused
pub mod Loading
pub mod Invariant
pub mod WrittenStation
pub mod Calls
pub mod Rows
pub mod Reachable
use dballe.Prelude.{
  ℕ, Bool, true, false, not, ◌&&◌, if◌then◌else◌, List, [], ◌∷◌, Option, some, none, map, Error,
  Result, ok, err, runtime, notfound, ◌>>=◌,
}
use dballe.Prelude.Int.{ℤ, eqb_ℤ}
use dballe.Prelude.Words.{is_missing_int}
use dballe.Prelude.Order.{nat_ord, tie_eq}
use dballe.Coords.{Coords}
use dballe.Coords as Coordss
use dballe.Tables.{IdVarcode, DbStation, MeasuredDataId, Tables}
use dballe.BatchStation.{Station, MeasuredData, next, fresh, with_station_id, write_station}

pub record Batch (Var : Type 0) : Type 0 where
  pub write_attrs : Bool
  pub last_station : Option (Station Var)
  pub count_select_stations : ℕ
  pub count_select_station_data : ℕ
  pub count_select_data : ℕ

-- The batch of a new transaction
abbrev pub new_batch : {Var : Type 0} → Batch Var
new_batch = record {
  write_attrs = true;
  last_station = none;
  count_select_stations = 0;
  count_select_station_data = 0;
  count_select_data = 0;
}

-- operator== of std::string and of Ident
abbrev pub same_text : List ℕ → List ℕ → Bool
same_text a b = tie_eq a b

abbrev pub same_ident : Option (List ℕ) → Option (List ℕ) → Bool
same_ident none none = true
same_ident (some a) (some b) = same_text a b
same_ident _ _ = false

abbrev pub is_station : List ℕ → Coords → Option (List ℕ) → DbStation → Bool
is_station report coords ident s =
    same_text s.report report && (Coordss.eq s.coords coords && same_ident s.ident ident)

-- What a call throws, if it does, and the batch and the database that it leaves
abbrev pub Left : Type 0 → Type 0 → Type 0
Left Var Db = Option Error × Batch Var × Db

module _ {Var : Type 0} where
  -- Batch::clear
  unfoldable pub clear : Batch Var → Batch Var
  clear b = record b { last_station = none }

  -- Batch::set_write_attrs
  unfoldable pub set_write_attrs : Bool → Batch Var → Batch Var
  unfolding clear
  set_write_attrs write b =
      if (if b.write_attrs then not write else write)
      then record (clear b) { write_attrs = write }
      else b

  -- Batch::have_station
  unfoldable pub have_station : List ℕ → Coords → Option (List ℕ) → Option (Station Var) → Bool
  have_station report coords ident none = false
  have_station report coords ident (some s) = is_station report coords ident s.info

  -- `last_station && last_station->id == id`
  abbrev pub have_id : ℤ → Option (Station Var) → Bool
  have_id id none = false
  have_id id (some s) = eqb_ℤ s.info.id id

  -- The last station of the batch that `new_station` leaves: its id is known and counted, and the
  -- end of both get_station functions looks at it.
  unfoldable pub settle : Bool → ℤ → Station Var → Batch Var → Option Error × Batch Var
  settle station_can_add id s b =
      let counted = record b { count_select_stations = next b.count_select_stations } in
      let found = with_station_id id s in
      if is_missing_int id
      then (if not station_can_add
          then (some notfound, record counted { last_station = some found })
          else (
            none,
            record counted {
              last_station = some (record found {
                is_new = true;
                station_data = record found.station_data { loaded = true };
              });
            },
          ))
      else (
        none,
        record counted {
          last_station = some (record found {
            is_new = false;
            station_data = record found.station_data { loaded = false };
          });
        },
      )

  module _ (code : Var → ℕ) (sort_codes : List IdVarcode → List IdVarcode)
      (sort_ids : List MeasuredDataId → List MeasuredDataId) {Db : Type 0}
      (tables : Tables Var Db) where
    abbrev pub write_last : Option (Station Var) → Batch Var → Db → Result (Batch Var × Db)
    unfolding write_station
    write_last none b db = ok (b, db)
    write_last (some s) b db = do
      (s', db') ← write_station code sort_codes sort_ids tables b.write_attrs s db
      ok (record b { last_station = some s' }, db')

    -- Batch::write_pending
    unfoldable pub write_pending : Batch Var → Db → Result (Batch Var × Db)
    unfolding write_station
    write_pending b db = write_last b.last_station b db

    -- Batch::new_station up to the new station, which is `fresh`: the last one is written.
    unfoldable pub new_station : Batch Var → Db → Result (Batch Var × Db)
    unfolding write_pending clear
    new_station b db = do (b', db') ← write_pending b db; ok (clear b', db')

    -- Batch::get_station(trc, station, station_can_add)
    unfoldable pub get_station : DbStation → Bool → Batch Var → Db → Result (Left Var Db)
    unfolding new_station settle have_station
    get_station station station_can_add b db =
        if Coordss.is_missing station.coords
        then (if is_missing_int station.id
            then ok (some runtime, b, db)
            else if have_id station.id b.last_station
            then ok (none, b, db)
            else do
              from_db ← tables.lookup station.id db
              (b1, db1) ← new_station b db
              let r =
                  settle station_can_add station.id
                    (fresh from_db.report from_db.coords from_db.ident) b1
              ok (r.0, r.1, db1))
        else if have_station station.report station.coords station.ident b.last_station
        then ok (none, b, db)
        else do
          (b1, db1) ← new_station b db
          let s = fresh station.report station.coords station.ident
          (id, db2) ← tables.maybe_get_id s.info db1
          let r = settle station_can_add id s b1
          ok (r.0, r.1, db2)

    -- Batch::get_station(trc, report, coords, ident)
    unfoldable pub get_station_of :
        List ℕ → Coords → Option (List ℕ) → Batch Var → Db → Result (Left Var Db)
    unfolding new_station settle have_station
    get_station_of report coords ident b db =
        if have_station report coords ident b.last_station then ok (none, b, db) else do
          (b1, db1) ← new_station b db
          let s = fresh report coords ident
          (id, db2) ← tables.maybe_get_id s.info db1
          let r = settle true id s b1
          ok (r.0, r.1, db2)
