-- ===== src/Batch/Invariant.antt =====
-- What stays true of a batch whatever calls are made: the sets of known rows are as `find` needs
-- them, so that each call finds what is there.
use dballe.Prelude.{ℕ, ◌≡◌, refl, Bool, false, List, [], Option, some, none, Bool-cases, inl, inr}
use dballe.Prelude.Int.{ℤ}
use dballe.Prelude.Words.{is_missing_int}
use dballe.Prelude.Order.{nat_ord}
use dballe.Coords.{Coords}
use dballe.Datetime.Order.{datetime_ord}
use dballe.SortedVector.{All}
use dballe.SortedVector.Map.{count_key}
use dballe.SmallSet.{empty}
use dballe.SmallSet.Keys.{IsKeyed, IsKeyed-empty}
use dballe.Pending.{Pending, no_pending}
use dballe.Pending.Known.{IsKept}
use dballe.Tables.{IdVarcode, StationDatum, station_rows, measured_rows, id_varcode_ord}
use dballe.BatchStation.{MeasuredData, Station, fresh}
use dballe.Batch.{Batch, settle}
use dballe.Batch.Loading.{IsKept-empty}

module _ {Var : Type 0} (code : Var → ℕ) where
  abbrev pub MeasuredIsKept : MeasuredData Var → Type 0
  MeasuredIsKept md = IsKept (measured_rows code) md.rows.ids

  -- No row is known and none waits to be inserted.
  pub record IsUnused (rows : Pending IdVarcode (StationDatum Var)) : Type 0 where
    pub unknown : (k : ℕ) → count_key (λ x. x.varcode) k rows.ids.items ≡ 0
    pub no_insert : rows.to_insert ≡ []

  -- The rows of a station are as the program keeps them, and unused before they are loaded. The set of
  -- measured data is as `find` needs it, with no datetime twice.
  pub record StationIsKept (s : Station Var) : Type 0 where
    pub station_ids : IsKept (station_rows code) s.station_data.rows.ids
    pub not_loaded : s.station_data.loaded ≡ false → IsUnused s.station_data.rows
    pub measured_ids : All MeasuredIsKept s.measured_data.items
    pub datetimes : IsKeyed (λ md. md.datetime) s.measured_data

  abbrev pub BatchIsKept : Option (Station Var) → Type 0
  BatchIsKept none = Unit
  BatchIsKept (some s) = StationIsKept s

  pub fresh-IsKept :
      (s : Station Var)
      → s.station_data.rows ≡ no_pending
      → s.measured_data ≡ empty
      → StationIsKept s
  fresh-IsKept s e m = record {
    station_ids = rw e (IsKept-empty (station_rows code));
    not_loaded = λ h. rw e (record { unknown = λ k. refl; no_insert = refl });
    measured_ids = rw m tt;
    datetimes = rw m (IsKeyed-empty (λ md. md.datetime));
  }

  pub settle-IsKept :
      (can_add : Bool) (id : ℤ) (report : List ℕ) (coords : Coords) (ident : Option (List ℕ))
      (b : Batch Var)
      → BatchIsKept (settle can_add id (fresh report coords ident) b).1.last_station
  unfolding settle
  settle-IsKept can_add id report coords ident b = elim (Bool-cases (is_missing_int id)) [
    | inr m ↦ rw m (fresh-IsKept _ refl refl)
    | inl m ↦ elim (Bool-cases can_add) [
      | inl a ↦ rw (m, a) (fresh-IsKept _ refl refl)
      | inr a ↦ rw (m, a) (fresh-IsKept _ refl refl)
    ]
  ]
