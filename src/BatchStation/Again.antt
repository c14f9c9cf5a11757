-- ===== src/BatchStation/Again.antt =====
-- Adding a station variable again after it was written.
use dballe.Prelude.{
  ℕ, ◌≤◌, ◌≡◌, refl, sym, ◌∙◌, ap, Bool, true, false, ◌==◌, arith, List, [], ◌∷◌, some, Result, ok,
  err, consistency, ◌>>=◌,
}
use dballe.Prelude.Int.{ℤ}
use dballe.Prelude.Words.{is_missing_int}
use dballe.Prelude.Order.{nat_ord}
use dballe.SortedVector.{count_if}
use dballe.SmallSet.Search.{IsSort}
use dballe.Pending.{Pending, UpdateMode, update, ignore, error}
use dballe.Pending as Pendings
use dballe.Pending.Known.{id_of, IsKept}
use dballe.Pending.Added.{destination}
use dballe.Pending.Written.{Writes, not_inserted, not_updated, written, insert_any}
use dballe.Tables.{IdVarcode, StationDatum, station_datum, MeasuredDataId, Tables, station_rows}
use dballe.Tables.Sqlite.{Inserts}
use dballe.BatchStation.{StationData, add_station_var, write_station_data}
use dballe.BatchStation.Adding.{waiting, station_data_rows, add_station_var_lem}
use dballe.BatchStation.Writing.{station_data_left, write_station_data_lem}

-- Where a variable with a code that has been written goes
abbrev pub written_again :
    {Var : Type 0}
    → UpdateMode
    → ℤ
    → Var
    → Result (List (StationDatum Var) × List (StationDatum Var))
written_again update z var = ok ([], record { id = z; var = var } ∷ [])
written_again ignore z var = ok ([], [])
written_again error z var = err consistency

module _ {Var : Type 0} (code : Var → ℕ) (sort_codes : List IdVarcode → List IdVarcode)
    (sort_ids : List MeasuredDataId → List MeasuredDataId) {Db : Type 0} (tables : Tables Var Db)
    (station_id : ℤ) (with_attrs : Bool) where
  abbrev waits : ℕ → List (StationDatum Var) → ℕ
  waits k = count_if (λ d. code d.var == k)

  inserted_rows :
      (insert : List (StationDatum Var) → Db → Result (List (StationDatum Var) × Db))
      (upd : List (StationDatum Var) → Db → Result Db)
      → ((vs ds : List (StationDatum Var)) (db db' : Db)
          → insert vs db ≡ ok (ds, db')
          → Inserts (station_rows code) vs ds)
      → (k : ℕ) (vs ds : List (StationDatum Var)) (db db' : Db) → 1 ≤ waits k vs
      → insert_any (station_rows code) insert upd vs db ≡ ok (ds, db')
      → Inserts (station_rows code) vs ds
  inserted_rows insert upd h k [] ds db db' c e = absurd (omega (arith, c))
  inserted_rows insert upd h k (v ∷ vs) ds db db' c e = h (v ∷ vs) ds db db' e

  -- What is known of a code after its row was written
  record KnownNow (k : ℕ) (rows : Pending IdVarcode (StationDatum Var)) : Type 0 where
    id : ℤ
    is_set : is_missing_int id ≡ false
    known : id_of (station_rows code) k rows.ids.items ≡ some id
    no_insert : rows.to_insert ≡ []
    no_update : rows.to_update ≡ []
    kept : IsKept (station_rows code) rows.ids

  known_now :
      (insert : List (StationDatum Var) → Db → Result (List (StationDatum Var) × Db))
      (upd : List (StationDatum Var) → Db → Result Db)
      → ((vs ds : List (StationDatum Var)) (db db' : Db)
          → insert vs db ≡ ok (ds, db')
          → Inserts (station_rows code) vs ds)
      → (k : ℕ) (p : Pending IdVarcode (StationDatum Var)) (db : Db) {r : _}
      → 1 ≤ waits k p.to_insert
      → Writes (station_rows code) insert upd p db r
      → (rows : Pending IdVarcode (StationDatum Var)) (db' : Db) → r ≡ ok (rows, db')
      → KnownNow k rows
  known_now insert upd h k p db c (not_inserted e) rows db' g = cc
  known_now insert upd h k p db c (not_updated ds db1 e f) rows db' g = cc
  known_now insert upd h k p db c (written {after = after} ds db1 e f ti tu n) rows db' g =
      let same : after ≡ rows = ap (left after) g in
      let i = inserted_rows insert upd h k p.to_insert ds db db1 c e in
      let (z, named, set) = i.ids (λ k. id_of (station_rows code) k p.ids.items) k c in
      rw (sym same) (record {
        id = z;
        is_set = set;
        known = n.known_then k ∙ named;
        no_insert = ti;
        no_update = tu;
        kept = n.kept;
      })
    where
      left : {A : Type 0} → A → Result (A × Db) → A
      left d (err e) = d
      left d (ok (a, db)) = a

  again :
      (mode : UpdateMode) (var : Var) (rows : Pending IdVarcode (StationDatum Var)) (z : ℤ)
      → rows.to_insert ≡ []
      → rows.to_update ≡ []
      → destination (station_rows code) mode (some z) (station_datum var) rows
        ≡ written_again mode z var
  again update var rows z i u = rw (i, u) refl
  again ignore var rows z i u = rw (i, u) refl
  again error var rows z i u = refl

  loaded-write_station_data :
      (sd : StationData Var) (db : Db) (sd' : StationData Var) (db' : Db)
      → write_station_data code sort_codes sort_ids tables station_id with_attrs sd db
        ≡ ok (sd', db')
      → sd'.loaded ≡ sd.loaded
  unfolding write_station_data
  loaded-write_station_data sd db sd' db' e =
      go
        (Pendings.write_pending (station_rows code) sort_codes
          (tables.insert_station_data station_id with_attrs) (tables.update_station_data with_attrs)
          sd.rows db)
        e
    where
      put : Pending IdVarcode (StationDatum Var) × Db → Result (StationData Var × Db)
      put x = ok (record sd { rows = x.0 }, x.1)

      flag : Result (StationData Var × Db) → Bool
      flag (err e) = sd.loaded
      flag (ok (sd, db)) = sd.loaded

      go :
          (r : Result (Pending IdVarcode (StationDatum Var) × Db))
          → (r >>= put) ≡ ok (sd', db')
          → sd'.loaded ≡ sd.loaded
      go (err e) h = cc
      go (ok (rows, db)) h = sym (ap flag h)

  -- If inserting rows gives each code an id, then once the station data has been written, a code that
  -- waited to be inserted is known with an id: adding it again makes a row to update with that id,
  -- nothing, or an exception, but never a second row to insert.
  pub add_station_var-write_station_data :
      IsSort (λ x. x.varcode) sort_codes
      → ((vs ds : List (StationDatum Var)) (db db' : Db)
          → tables.insert_station_data station_id with_attrs vs db ≡ ok (ds, db')
          → Inserts (station_rows code) vs ds)
      → (sd : StationData Var) (db : Db) (sd' : StationData Var) (db' : Db)
      → IsKept (station_rows code) sd.rows.ids
      → sd.loaded ≡ true
      → write_station_data code sort_codes sort_ids tables station_id with_attrs sd db
        ≡ ok (sd', db')
      → (mode : UpdateMode) (var : Var)
      → 1 ≤ count_if (λ d. code d.var == code var) sd.rows.to_insert
      → (z : ℤ) × (is_missing_int z ≡ false)
        × (waiting (station_data_rows (add_station_var code sort_codes var mode sd'))
            ≡ written_again mode z var)
  add_station_var-write_station_data is_sort h sd db sd' db' k l e mode var c =
      let w =
        write_station_data_lem code sort_codes sort_ids tables station_id with_attrs is_sort sd db
          k in
      let n =
        known_now (tables.insert_station_data station_id with_attrs)
          (tables.update_station_data with_attrs) h (code var) sd.rows db c w sd'.rows db'
          (ap station_data_left e) in
      let l' = loaded-write_station_data sd db sd' db' e ∙ l in
      (
        n.id,
        n.is_set,
        add_station_var_lem code sort_codes is_sort var mode sd' n.kept
            ∙ rw (l', n.known) (again mode var sd'.rows n.id n.no_insert n.no_update),
      )
