-- ===== src/Batch/Refused.antt =====
-- A station that `get_station` refuses because it may not be added.
use dballe.Prelude.{
  ℕ, ◌≡◌, refl, sym, ap, true, false, List, Option, some, none, Error, Result, ok, err, notfound,
  ◌>>=◌, Bool-cases, inl, inr,
}
use dballe.Prelude.Int.{ℤ}
use dballe.Prelude.Words.{is_missing_int}
use dballe.Coords.{is_missing, eq, fields}
use dballe.Prelude.Order.{tie_eq_refl, int_ord, nat_ord}
use dballe.Tables.{IdVarcode, DbStation, MeasuredDataId, Tables}
use dballe.BatchStation.{Station, fresh, with_station_id, obtain_id}
use dballe.Batch.{
  Batch, Left, settle, get_station, have_station, new_station, same_ident, is_station,
}

same_ident_refl : (i : Option (List ℕ)) → same_ident i i ≡ true
same_ident_refl none = refl
same_ident_refl (some s) = tie_eq_refl s

is_station_refl : (s : DbStation) → is_station s.report s.coords s.ident s ≡ true
unfolding eq
is_station_refl s =
    rw (tie_eq_refl s.report, tie_eq_refl (fields s.coords), same_ident_refl s.ident) refl

module _ {Var : Type 0} where
  -- The batch keeps `station` as one without an id.
  record KeepsUnknown (station : DbStation) (b : Batch Var) : Type 0 where
    last : Station Var
    is_last : b.last_station ≡ some last
    no_id : is_missing_int last.info.id ≡ true
    again : have_station station.report station.coords station.ident b.last_station ≡ true

  settle-refused :
      (station : DbStation) (id : ℤ) (b b' : Batch Var)
      → settle false id (fresh station.report station.coords station.ident) b ≡ (some notfound, b')
      → KeepsUnknown station b'
  unfolding settle have_station
  settle-refused station id b b' h = elim (Bool-cases (is_missing_int id)) [
    | inl m ↦
        let e : _ ≡ b' = ap (λ r. r.1) (rw m at h) in
        rw (sym e) (record {
          last = with_station_id id (fresh station.report station.coords station.ident);
          is_last = refl;
          no_id = m;
          again = is_station_refl station;
        })
    | inr m ↦ let none_thrown : none ≡ some notfound = ap (λ r. r.0) (rw m at h) in cc
  ]

module _ {Var : Type 0} (code : Var → ℕ) (sort_codes : List IdVarcode → List IdVarcode)
    (sort_ids : List MeasuredDataId → List MeasuredDataId) {Db : Type 0}
    (tables : Tables Var Db) where
  refused_keeps :
      (station : DbStation) (b : Batch Var) (db : Db) (b' : Batch Var) (db' : Db)
      → is_missing station.coords ≡ false
      → get_station code sort_codes sort_ids tables station false b db ≡ ok (some notfound, b', db')
      → KeepsUnknown station b'
  unfolding get_station
  refused_keeps station b db b' db' c h =
      elim (Bool-cases (have_station station.report station.coords station.ident b.last_station)) [
        | inl m ↦
            let none_thrown : none ≡ some notfound =
              ap (thrown_by (some notfound)) (rw (c, m) at h) in
            cc
        | inr m ↦ written (new_station code sort_codes sort_ids tables b db) (rw (c, m) at h)
      ]
    where
      thrown_by : Option Error → Result (Left Var Db) → Option Error
      thrown_by d (err e) = d
      thrown_by d (ok r) = r.0

      batch_left : Result (Left Var Db) → Batch Var
      batch_left (err e) = b'
      batch_left (ok r) = r.1

      s : Station Var
      s = fresh station.report station.coords station.ident

      finish : Batch Var → ℤ × Db → Result (Left Var Db)
      finish b1 x = let r = settle false x.0 s b1 in ok (r.0, r.1, x.1)

      found :
          (b1 : Batch Var) (r : Result (ℤ × Db))
          → (r >>= finish b1) ≡ ok (some notfound, b', db')
          → KeepsUnknown station b'
      found b1 (err e) g = cc
      found b1 (ok (id, db2)) g =
          settle-refused station id b1 b'
            (pair (settle false id s b1) (ap (thrown_by none) g) (ap batch_left g))
        where
          pair :
              (r : Option Error × Batch Var)
              → r.0 ≡ some notfound
              → r.1 ≡ b'
              → r ≡ (some notfound, b')
          pair (e, b2) p q = rw (p, q) refl

      written :
          (r : Result (Batch Var × Db))
          → (r >>= λ x. tables.maybe_get_id s.info x.1 >>= finish x.0) ≡ ok (some notfound, b', db')
          → KeepsUnknown station b'
      written (err e) g = cc
      written (ok (b1, db1)) g = found b1 (tables.maybe_get_id s.info db1) g

  -- If `get_station` is called for a station with coordinates that may not be added, and throws that it
  -- is not in the database, then the same call on the batch that it leaves does not throw, and writing
  -- that batch begins with inserting the station.
  pub get_station-get_station :
      (station : DbStation) (b : Batch Var) (db : Db) (b' : Batch Var) (db' : Db)
      → is_missing station.coords ≡ false
      → get_station code sort_codes sort_ids tables station false b db ≡ ok (some notfound, b', db')
      → (get_station code sort_codes sort_ids tables station false b' db' ≡ ok (none, b', db'))
        × ((s : Station Var) × (b'.last_station ≡ some s)
            × (obtain_id code sort_codes sort_ids tables s db' ≡ tables.insert_new s.info db'))
  unfolding get_station obtain_id
  get_station-get_station station b db b' db' c h =
      let k = refused_keeps station b db b' db' c h in
      (rw (c, k.again) refl, (k.last, k.is_last, rw k.no_id refl))
