-- ===== src/BatchStation/Adding.antt =====
-- Adding variables to the rows of a station.
use dballe.Prelude.{
  ℕ, ◌≡◌, refl, sym, ap, Bool, true, false, if◌then◌else◌, List, Error, Result, ok, err, runtime,
  ◌>>=◌, Bool-cases, inl, inr,
}
use dballe.Prelude.Int.{ℤ}
use dballe.Prelude.Order.{Ord, nat_ord}
use dballe.SmallSet.Search.{IsSort}
use dballe.Pending.{Pending, UpdateMode, Rows}
use dballe.Pending as Pendings
use dballe.Pending.Known.{IsRows, id_of, IsKept}
use dballe.Pending.Added.{destination, Adds, thrown, placed, add_lem}
use dballe.Tables.{
  IdVarcode, id_varcode, StationDatum, station_datum, MeasuredDatum, measured_datum, MeasuredDataId,
  station_rows, measured_rows, id_varcode_ord,
}
use dballe.BatchStation.{StationData, MeasuredData, add_station_var, add_measured_var}

pub station_rows-IsRows : {Var : Type 0} (code : Var → ℕ) → IsRows (station_rows code)
station_rows-IsRows code = record {
  value_item = λ z k. refl;
  id_item = λ z k. refl;
  value_set_id = λ z x. refl;
  id_set_id = λ z x. refl;
  value_with_id = λ z d. refl;
  id_with_id = λ z d. refl;
}

pub measured_rows-IsRows : {Var : Type 0} (code : Var → ℕ) → IsRows (measured_rows code)
measured_rows-IsRows code = record {
  value_item = λ z k. refl;
  id_item = λ z k. refl;
  value_set_id = λ z x. refl;
  id_set_id = λ z x. refl;
  value_with_id = λ z d. refl;
  id_with_id = λ z d. refl;
}

-- The rows that wait after a call
abbrev pub waiting :
    {Item Datum : Type 0} → Result (Pending Item Datum) → Result (List Datum × List Datum)
waiting (err e) = err e
waiting (ok p) = ok (p.to_insert, p.to_update)

abbrev pub station_data_rows :
    {Var : Type 0} → Result (StationData Var) → Result (Pending IdVarcode (StationDatum Var))
station_data_rows (err e) = err e
station_data_rows (ok sd) = ok sd.rows

abbrev pub measured_data_rows :
    {Var : Type 0} → Result (MeasuredData Var) → Result (Pending MeasuredDataId (MeasuredDatum Var))
measured_data_rows (err e) = err e
measured_data_rows (ok md) = ok md.rows

module _ {Item Value Datum : Type 0} ⦃o : Ord Value⦄ (rows : Rows Item Value Datum) where
  Adds-waiting :
      {p : Pending Item Datum} {d : Result (List Datum × List Datum)}
      {r : Result (Pending Item Datum)}
      → Adds rows p d r
      → waiting r ≡ d
  Adds-waiting thrown = refl
  Adds-waiting (placed after i u k same) = rw (i, u) refl

  -- How a call leaves the known ids: kept as the program keeps them, and the same.
  pub data KeepsIds (p : Pending Item Datum) : Result (Pending Item Datum) → Type 0 where
    threw : {e : Error} → KeepsIds p (err e)
    kept :
        {after : Pending Item Datum}
        → IsKept rows after.ids
        → ((k : Value) → id_of rows k after.ids.items ≡ id_of rows k p.ids.items)
        → KeepsIds p (ok after)

  Adds-KeepsIds :
      {p : Pending Item Datum} {d : Result (List Datum × List Datum)}
      {r : Result (Pending Item Datum)}
      → Adds rows p d r
      → KeepsIds p r
  Adds-KeepsIds thrown = threw
  Adds-KeepsIds (placed after i u k same) = kept k same

module _ {Var : Type 0} (code : Var → ℕ) where
  module _ (sort_codes : List IdVarcode → List IdVarcode) where
    loaded-rows :
        (var : Var) (mode : UpdateMode) (sd : StationData Var)
        → sd.loaded ≡ true
        → station_data_rows (add_station_var code sort_codes var mode sd)
          ≡ Pendings.add (station_rows code) sort_codes mode (station_datum var) sd.rows
    unfolding add_station_var
    loaded-rows var mode sd h =
        rw h (go (Pendings.add (station_rows code) sort_codes mode (station_datum var) sd.rows))
      where
        go :
            (r : Result (Pending IdVarcode (StationDatum Var)))
            → station_data_rows (r >>= λ rows. ok (record { rows = rows; loaded = true })) ≡ r
        go (err e) = refl
        go (ok rows) = refl

    not_loaded :
        (var : Var) (mode : UpdateMode) (sd : StationData Var)
        → sd.loaded ≡ false
        → add_station_var code sort_codes var mode sd ≡ err runtime
    unfolding add_station_var
    not_loaded var mode sd h = rw h refl

    -- If the known rows are kept, adding a station variable throws when they have not been loaded, and
    -- otherwise the id that is known of its code and the mode decide: an unknown code makes a row to
    -- insert, a known one a row to update with its id, no row at all, or an exception.
    pub add_station_var_lem :
        IsSort (λ x. x.varcode) sort_codes
        → (var : Var) (mode : UpdateMode) (sd : StationData Var)
        → IsKept (station_rows code) sd.rows.ids
        → waiting (station_data_rows (add_station_var code sort_codes var mode sd)) ≡ (
            if sd.loaded
            then destination
                (station_rows code)
                mode
                (id_of (station_rows code) (code var) sd.rows.ids.items)
                (station_datum var)
                sd.rows
            else err runtime)
    add_station_var_lem is_sort var mode sd k = elim (Bool-cases sd.loaded) [
      | inl h ↦
          rw (loaded-rows var mode sd h, h)
            (Adds-waiting (station_rows code)
              (add_lem (station_rows code) sort_codes is_sort mode (station_datum var) sd.rows k))
      | inr h ↦ rw (not_loaded var mode sd h, h) refl
    ]

    -- If the known rows are kept, adding a station variable keeps them, with the same ids.
    pub add_station_var-KeepsIds :
        IsSort (λ x. x.varcode) sort_codes
        → (var : Var) (mode : UpdateMode) (sd : StationData Var)
        → IsKept (station_rows code) sd.rows.ids
        → KeepsIds
            (station_rows code)
            sd.rows
            (station_data_rows (add_station_var code sort_codes var mode sd))
    add_station_var-KeepsIds is_sort var mode sd k = elim (Bool-cases sd.loaded) [
      | inl h ↦ rw (loaded-rows var mode sd h) (
          Adds-KeepsIds (station_rows code)
            (add_lem (station_rows code) sort_codes is_sort mode (station_datum var) sd.rows k))
      | inr h ↦ rw (not_loaded var mode sd h) threw
    ]

    -- A call that returns leaves station data that is loaded.
    pub loaded-add_station_var :
        (var : Var) (mode : UpdateMode) (sd sd' : StationData Var)
        → add_station_var code sort_codes var mode sd ≡ ok sd'
        → sd'.loaded ≡ true
    unfolding add_station_var
    loaded-add_station_var var mode sd sd' e = elim (Bool-cases sd.loaded) [
      | inr l ↦ cc (rw l at e)
      | inl l ↦
          go (Pendings.add (station_rows code) sort_codes mode (station_datum var) sd.rows)
            (rw l at e)
    ]
      where
        flag : Result (StationData Var) → Bool
        flag (err e) = true
        flag (ok x) = x.loaded

        go :
            (r : Result _)
            → (r >>= λ rows. ok (record { rows = rows; loaded = true })) ≡ ok sd'
            → sd'.loaded ≡ true
        go (err e) h = cc
        go (ok rows) h = sym (ap flag h)

  module _ (sort_ids : List MeasuredDataId → List MeasuredDataId) where
    measured-rows :
        (id_levtr : ℤ) (var : Var) (mode : UpdateMode) (md : MeasuredData Var)
        → measured_data_rows (add_measured_var code sort_ids id_levtr var mode md)
          ≡ Pendings.add (measured_rows code) sort_ids mode (measured_datum id_levtr var) md.rows
    unfolding add_measured_var
    measured-rows id_levtr var mode md =
        go (Pendings.add (measured_rows code) sort_ids mode (measured_datum id_levtr var) md.rows)
      where
        go :
            (r : Result (Pending MeasuredDataId (MeasuredDatum Var)))
            → measured_data_rows (r >>= λ rows. ok (record md { rows = rows })) ≡ r
        go (err e) = refl
        go (ok rows) = refl

    -- If the known rows are kept, adding a measured variable is decided by the mode and the id that is
    -- known of its level, time range and code: as for station variables.
    pub add_measured_var_lem :
        IsSort (λ x. x.id_varcode) sort_ids
        → (id_levtr : ℤ) (var : Var) (mode : UpdateMode) (md : MeasuredData Var)
        → IsKept (measured_rows code) md.rows.ids
        → waiting (measured_data_rows (add_measured_var code sort_ids id_levtr var mode md))
          ≡ destination
              (measured_rows code)
              mode
              (id_of (measured_rows code) (id_varcode id_levtr (code var)) md.rows.ids.items)
              (measured_datum id_levtr var)
              md.rows
    add_measured_var_lem is_sort id_levtr var mode md k = rw (measured-rows id_levtr var mode md) (
        Adds-waiting (measured_rows code) (
          add_lem (measured_rows code) sort_ids is_sort mode (measured_datum id_levtr var) md.rows
            k))

    -- If the known rows are kept, adding a measured variable keeps them, with the same ids.
    pub add_measured_var-KeepsIds :
        IsSort (λ x. x.id_varcode) sort_ids
        → (id_levtr : ℤ) (var : Var) (mode : UpdateMode) (md : MeasuredData Var)
        → IsKept (measured_rows code) md.rows.ids
        → KeepsIds
            (measured_rows code)
            md.rows
            (measured_data_rows (add_measured_var code sort_ids id_levtr var mode md))
    add_measured_var-KeepsIds is_sort id_levtr var mode md k =
        rw (measured-rows id_levtr var mode md) (
          Adds-KeepsIds (measured_rows code) (
            add_lem (measured_rows code) sort_ids is_sort mode (measured_datum id_levtr var) md.rows
              k))
