-- ===== src/Tables.antt =====
-- What the batch of dballe/db/v7/batch.h exchanges with the tables of the database: the rows, and
-- the interface of dballe/db/v7/station.h, data.h and levtr.h that the SQL engines implement. A table
-- function returns an exception, or what it returns with the database that it leaves.
pub mod Sqlite
pub mod Once
use dballe.Prelude.{ℕ, Bool, List, [], ◌∷◌, Option, ◌≡◌, Result, arith}
use dballe.Prelude.Int.{ℤ, pos}
use dballe.Prelude.Words.{missing_int}
use dballe.Prelude.Order.{Ord, int_ord, tie_ord}
use dballe.Coords.{Coords}
use dballe.Datetime.{Datetime}
use dballe.Level.{Level}
use dballe.Trange.{Trange}
use dballe.Pending.{Rows}

pub record IdVarcode : Type 0 where
  pub id : ℤ
  pub varcode : ℕ

abbrev pub id_varcode : ℤ → ℕ → IdVarcode
id_varcode id varcode = record { id = id; varcode = varcode }

-- std::tie(id, varcode)
abbrev pub fields : IdVarcode → List ℤ
fields x = x.id ∷ pos x.varcode ∷ []

pub fields-injective : (a b : IdVarcode) → fields a ≡ fields b → a ≡ b
fields-injective a b h = ground arith

instance abbrev pub id_varcode_ord : Ord IdVarcode
id_varcode_ord = tie_ord fields fields-injective

-- DBStation and the fields of its base Station
pub record DbStation : Type 0 where
  pub id : ℤ
  pub report : List ℕ
  pub coords : Coords
  pub ident : Option (List ℕ)

pub record StationDatum (Var : Type 0) : Type 0 where
  pub id : ℤ
  pub var : Var

-- StationDatum::StationDatum(const wreport::Var*)
abbrev pub station_datum : {Var : Type 0} → Var → StationDatum Var
station_datum var = record { id = missing_int; var = var }

pub record MeasuredDatum (Var : Type 0) : Type 0 where
  pub id : ℤ
  pub id_levtr : ℤ
  pub var : Var

-- MeasuredDatum::MeasuredDatum(int, const wreport::Var*)
abbrev pub measured_datum : {Var : Type 0} → ℤ → Var → MeasuredDatum Var
measured_datum id_levtr var = record { id = missing_int; id_levtr = id_levtr; var = var }

pub record MeasuredDataId : Type 0 where
  pub id_varcode : IdVarcode
  pub id : ℤ

abbrev pub measured_data_id : IdVarcode → ℤ → MeasuredDataId
measured_data_id v id = record { id_varcode = v; id = id }

module _ {Var : Type 0} (code : Var → ℕ) where
  -- The rows of StationData
  abbrev pub station_rows : Rows IdVarcode ℕ (StationDatum Var)
  station_rows = record {
    get_value = λ x. x.varcode;
    item_id = λ x. x.id;
    item = λ z k. id_varcode z k;
    set_id = λ z x. record x { id = z };
    value = λ d. code d.var;
    datum_id = λ d. d.id;
    with_id = λ z d. record d { id = z };
  }

  -- The rows of MeasuredData
  abbrev pub measured_rows : Rows MeasuredDataId IdVarcode (MeasuredDatum Var)
  measured_rows = record {
    get_value = λ x. x.id_varcode;
    item_id = λ x. x.id;
    item = λ z k. measured_data_id k z;
    set_id = λ z x. record x { id = z };
    value = λ d. id_varcode d.id_levtr (code d.var);
    datum_id = λ d. d.id;
    with_id = λ z d. record d { id = z };
  }

-- The functions of v7::Station, v7::StationData, v7::Data and v7::LevTr that the batch and the
-- transaction call
pub record Tables (Var Db : Type 0) : Type 0 where
  pub lookup : ℤ → Db → Result DbStation
  pub maybe_get_id : DbStation → Db → Result (ℤ × Db)
  pub insert_new : DbStation → Db → Result (ℤ × Db)
  pub query_station_data : ℤ → Db → Result (List IdVarcode)
  pub insert_station_data :
      ℤ → Bool → List (StationDatum Var) → Db → Result (List (StationDatum Var) × Db)
  pub update_station_data : Bool → List (StationDatum Var) → Db → Result Db
  pub query_data : ℤ → Datetime → Db → Result (List MeasuredDataId)
  pub insert_data :
      ℤ → Datetime → Bool → List (MeasuredDatum Var) → Db → Result (List (MeasuredDatum Var) × Db)
  pub update_data : Bool → List (MeasuredDatum Var) → Db → Result Db
  pub obtain_levtr : Level → Trange → Db → Result (ℤ × Db)
