-- ===== src/Batch/Calls.antt =====
-- The calls of Batch keep what is true of it.
use dballe.Prelude.{
  ℕ, refl, Bool, true, not, if◌then◌else◌, List, Option, some, none, Result, ok, err, Bool-cases,
  inl, inr,
}
use dballe.Prelude.Words.{is_missing_int}
use dballe.Prelude.Order.{nat_ord}
use dballe.Coords as Coordss
use dballe.Coords.{Coords}
use dballe.Datetime.Order.{datetime_ord}
use dballe.SmallSet.Search.{IsSort}
use dballe.Tables.{IdVarcode, DbStation, MeasuredDataId, Tables, id_varcode_ord}
use dballe.BatchStation.{Station, fresh, write_station}
use dballe.Batch.{
  Batch, clear, set_write_attrs, get_station, get_station_of, have_station, have_id, new_station,
  write_pending, write_last,
}
use dballe.Batch.Loading.{Holds, Holds-bind}
use dballe.Batch.Invariant.{StationIsKept, BatchIsKept, fresh-IsKept, settle-IsKept}
use dballe.Batch.WrittenStation.{write_station-StationIsKept}

module _ {Var : Type 0} (code : Var → ℕ) (sort_codes : List IdVarcode → List IdVarcode)
    (sort_ids : List MeasuredDataId → List MeasuredDataId)
    (codes_sort : IsSort (λ x. x.varcode) sort_codes)
    (ids_sort : IsSort (λ x. x.id_varcode) sort_ids) {Db : Type 0} (tables : Tables Var Db) where
  pub write_pending-Keeps :
      (b : Batch Var) (db : Db)
      → BatchIsKept code b.last_station
      → Holds
          (λ x. BatchIsKept code x.0.last_station)
          (write_pending code sort_codes sort_ids tables b db)
  unfolding write_pending
  write_pending-Keeps b db h = go b.last_station h
    where
      go :
          (l : Option (Station Var))
          → BatchIsKept code l
          → Holds
              (λ (x : Batch Var × Db). BatchIsKept code x.0.last_station)
              (write_last code sort_codes sort_ids tables l b db)
      go none k = h
      go (some s) k =
          Holds-bind (λ x. StationIsKept code x.0) (λ x. BatchIsKept code x.0.last_station)
            (write_station code sort_codes sort_ids tables b.write_attrs s db) _
            (write_station-StationIsKept code sort_codes sort_ids codes_sort ids_sort tables
              b.write_attrs s db k)
            (λ x m. m)

  any : {A : Type 0} (r : Result A) → Holds (λ x. Unit {0}) r
  any (err e) = tt
  any (ok x) = tt

  pub get_station-Keeps :
      (station : DbStation) (can_add : Bool) (b : Batch Var) (db : Db)
      → BatchIsKept code b.last_station
      → Holds
          (λ x. BatchIsKept code x.1.last_station)
          (get_station code sort_codes sort_ids tables station can_add b db)
  unfolding get_station
  get_station-Keeps station can_add b db h = elim (Bool-cases (Coordss.is_missing station.coords)) [
    | inl c ↦ elim (Bool-cases (is_missing_int station.id)) [
      | inl m ↦ rw (c, m) h
      | inr m ↦ elim (Bool-cases (have_id station.id b.last_station)) [
        | inl e ↦ rw (c, m, e) h
        | inr e ↦
            rw (c, m, e)
              (Holds-bind (λ x. Unit {0}) (λ x. BatchIsKept code x.1.last_station)
                (tables.lookup station.id db) _ (any (tables.lookup station.id db))
                (λ d w.
                  Holds-bind (λ x. Unit {0}) (λ x. BatchIsKept code x.1.last_station)
                    (new_station code sort_codes sort_ids tables b db) _
                    (any (new_station code sort_codes sort_ids tables b db))
                    (λ x u. fresh-IsKept code _ refl refl)))
      ]
    ]
    | inr c ↦
        elim (Bool-cases
          (have_station station.report station.coords station.ident b.last_station)) [
            | inl e ↦ rw (c, e) h
            | inr e ↦
                rw (c, e)
                  (Holds-bind (λ x. Unit {0}) (λ x. BatchIsKept code x.1.last_station)
                    (new_station code sort_codes sort_ids tables b db) _
                    (any (new_station code sort_codes sort_ids tables b db))
                    (λ x u.
                      Holds-bind (λ y. Unit {0}) (λ y. BatchIsKept code y.1.last_station)
                        (tables.maybe_get_id
                          (fresh {Var = Var} station.report station.coords station.ident).info x.1)
                        _
                        (any (
                          tables.maybe_get_id
                            (fresh {Var = Var} station.report station.coords station.ident).info
                            x.1))
                        (λ y v.
                          settle-IsKept code can_add y.0 station.report station.coords station.ident
                            x.0)))
          ]
  ]

  pub get_station_of-Keeps :
      (report : List ℕ) (coords : Coords) (ident : Option (List ℕ)) (b : Batch Var) (db : Db)
      → BatchIsKept code b.last_station
      → Holds
          (λ x. BatchIsKept code x.1.last_station)
          (get_station_of code sort_codes sort_ids tables report coords ident b db)
  unfolding get_station_of
  get_station_of-Keeps report coords ident b db h =
      elim (Bool-cases (have_station report coords ident b.last_station)) [
        | inl e ↦ rw e h
        | inr e ↦ rw e (
            Holds-bind (λ x. Unit {0}) (λ x. BatchIsKept code x.1.last_station)
              (new_station code sort_codes sort_ids tables b db) _
              (any (new_station code sort_codes sort_ids tables b db))
              (λ x u.
                Holds-bind (λ y. Unit {0}) (λ y. BatchIsKept code y.1.last_station)
                  (tables.maybe_get_id (fresh {Var = Var} report coords ident).info x.1) _
                  (any (tables.maybe_get_id (fresh {Var = Var} report coords ident).info x.1))
                  (λ y v. settle-IsKept code true y.0 report coords ident x.0)))
      ]

  pub clear-Keeps : (b : Batch Var) → BatchIsKept code (clear b).last_station
  unfolding clear
  clear-Keeps b = tt

  pub set_write_attrs-Keeps :
      (write : Bool) (b : Batch Var)
      → BatchIsKept code b.last_station
      → BatchIsKept code (set_write_attrs write b).last_station
  unfolding set_write_attrs
  set_write_attrs-Keeps write b h = elim (Bool-cases (if b.write_attrs then not write else write)) [
    | inl e ↦ rw e (clear-Keeps b)
    | inr e ↦ rw e h
  ]
