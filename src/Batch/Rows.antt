-- ===== src/Batch/Rows.antt =====
-- Reading the rows of the last station keeps what is true of a batch.
use dballe.Prelude.{
  ℕ, zero, suc, ◌≤◌, ◌≡◌, refl, true, List, [], ◌∷◌, Option, some, none, get_elem?, Bool-cases, inl,
  inr,
}
use mathlib.Core.Path.{subst}
use dballe.Prelude.Int.{ℤ}
use dballe.Prelude.Order.{nat_ord}
use dballe.Datetime as Datetimes
use dballe.Datetime.{Datetime}
use dballe.Datetime.Order.{datetime_ord}
use dballe.SortedVector.{All}
use dballe.SortedVector.Search.{Finds, at, absent}
use dballe.SortedVector.Map.{count_key}
use dballe.SmallSet.{SmallSet, empty}
use dballe.SmallSet as SmallSets
use dballe.SmallSet.Everywhere.{All-find, All-append, set_after}
use dballe.SmallSet.Search.{IsSort, find_lem}
use dballe.SmallSet.Keys.{IsKeyed, IsKeyed-add, SameItems-IsKeyed}
use dballe.Pending.{change_at, search}
use dballe.Pending.Known.{IsKept}
use dballe.Tables.{IdVarcode, MeasuredDataId, Tables, station_rows, measured_rows, id_varcode_ord}
use dballe.BatchStation.{
  StationData, MeasuredData, Station, get_station_data, get_measured_data, place_measured,
}
use dballe.Batch.Loading.{Holds, Holds-bind, IsKept-empty, IsKept-add_all}
use dballe.Batch.Invariant.{StationIsKept, MeasuredIsKept}

-- What queries of the tables promise: no row comes twice.
pub record QueriesAreUnique {Var Db : Type 0} (tables : Tables Var Db) : Type 0 where
  pub codes :
      (id : ℤ) (db : Db)
      → Holds
          (λ xs. (k : ℕ) → count_key (λ x. x.varcode) k xs ≤ 1)
          (tables.query_station_data id db)
  pub ids :
      (id : ℤ) (datetime : Datetime) (db : Db)
      → Holds
          (λ xs. (k : IdVarcode) → count_key (λ x. x.id_varcode) k xs ≤ 1)
          (tables.query_data id datetime db)

module _ {Var : Type 0} (code : Var → ℕ) (sort_codes : List IdVarcode → List IdVarcode)
    (sort_ids : List MeasuredDataId → List MeasuredDataId)
    (sort_times : List (MeasuredData Var) → List (MeasuredData Var)) {Db : Type 0}
    (tables : Tables Var Db) (unique : QueriesAreUnique tables) where
  pub get_station_data-StationIsKept :
      (s : Station Var) (n : ℕ) (db : Db)
      → StationIsKept code s
      → Holds
          (λ x. StationIsKept code x.0)
          (get_station_data code sort_codes sort_ids tables s n db)
  unfolding get_station_data
  get_station_data-StationIsKept s n db h = elim (Bool-cases s.station_data.loaded) [
    | inl e ↦ rw e (record {
      station_ids = h.station_ids;
      not_loaded = λ l. cc;
      measured_ids = h.measured_ids;
      datetimes = h.datetimes;
    })
    | inr e ↦ rw e (
        Holds-bind (λ xs. (k : ℕ) → count_key (λ x. x.varcode) k xs ≤ 1)
          (λ x. StationIsKept code x.0) (tables.query_station_data s.info.id db) _
          (unique.codes s.info.id db)
          (λ xs u. record {
            station_ids =
                IsKept-add_all (station_rows code) xs s.station_data.rows.ids u h.station_ids.tidy
                  (h.not_loaded e).unknown;
            not_loaded = λ l. cc;
            measured_ids = h.measured_ids;
            datetimes = h.datetimes;
          }))
  ]

  pub added_station_data :
      (s : Station Var) (sd : StationData Var)
      → StationIsKept code s
      → IsKept (station_rows code) sd.rows.ids
      → sd.loaded ≡ true
      → StationIsKept code (record s { station_data = sd })
  added_station_data s sd h k l = record {
    station_ids = k;
    not_loaded = λ e. cc;
    measured_ids = h.measured_ids;
    datetimes = h.datetimes;
  }

  module _
      (all_sort : (P : MeasuredData Var → Type 0) (xs : List (MeasuredData Var))
        → All P xs
        → All P (sort_times xs))
      (times_sort : IsSort (λ md. md.datetime) sort_times) where
    All-search :
        (datetime : Datetime) (mds : SmallSet (MeasuredData Var))
        → All (MeasuredIsKept code) mds.items
        → All (MeasuredIsKept code) (search (λ md. md.datetime) sort_times datetime mds).1.items
    unfolding search
    All-search datetime mds h = go (SmallSets.find (λ md. md.datetime) sort_times datetime mds) (
        All-find (MeasuredIsKept code) (λ md. md.datetime) sort_times
          (all_sort (MeasuredIsKept code)) datetime mds h)
      where
        go :
            (r : Option (Option ℕ × SmallSet (MeasuredData Var)))
            → All
                (MeasuredIsKept code)
                (set_after
                  (MeasuredIsKept code)
                  (λ md. md.datetime)
                  sort_times
                  (all_sort (MeasuredIsKept code))
                  mds
                  r).items
            → All
                (MeasuredIsKept code)
                (elim r as (λ _. Option ℕ × SmallSet (MeasuredData Var)) [
                  | none ↦ (none, mds)
                  | some x ↦ x
                ]).1.items
        go none k = k
        go (some x) k = k

    -- What a search of the measured data leaves
    record IsSearched (datetime : Datetime) (f : Option ℕ × SmallSet (MeasuredData Var))
        : Type 0 where
      pub finds : Finds (λ md. md.datetime) datetime f.1.items f.0
      pub keyed : IsKeyed (λ md. md.datetime) f.1

    search-IsSearched :
        (datetime : Datetime) (mds : SmallSet (MeasuredData Var))
        → IsKeyed (λ md. md.datetime) mds
        → IsSearched datetime (search (λ md. md.datetime) sort_times datetime mds)
    unfolding search
    search-IsSearched datetime mds h =
        let f = find_lem (λ md. md.datetime) sort_times times_sort datetime mds h.tidy in
        rw (f.returns, search)
          (record {
            finds = f.finds;
            keyed = SameItems-IsKeyed (λ md. md.datetime) mds f.after f.same f.tidy h;
          })

    absent-count :
        (datetime : Datetime) (mds : List (MeasuredData Var)) {r : Option ℕ}
        → Finds (λ md. md.datetime) datetime mds r
        → r ≡ none
        → count_key (λ md. md.datetime) datetime mds ≡ 0
    absent-count datetime mds (at i x g same) e = cc
    absent-count datetime mds (absent none_there) e = none_there

    place_measured-Keeps :
        (s : Station Var) (n : ℕ) (datetime : Datetime) (f : Option ℕ × SmallSet (MeasuredData Var))
        (db : Db)
        → StationIsKept code s
        → All (MeasuredIsKept code) f.1.items
        → IsSearched datetime f
        → Holds
            (λ x. StationIsKept code x.1)
            (place_measured code sort_codes sort_ids tables sort_times s n datetime f db)
    unfolding SmallSets.add
    place_measured-Keeps s n datetime (some i, mds) db h k t = record {
      station_ids = h.station_ids;
      not_loaded = h.not_loaded;
      measured_ids = k;
      datetimes = t.keyed;
    }
    place_measured-Keeps s n datetime (none, mds) db h k t = elim (Bool-cases s.is_new) [
      | inl e ↦ rw e (record {
        station_ids = h.station_ids;
        not_loaded = h.not_loaded;
        measured_ids =
            All-append (MeasuredIsKept code) mds.items _ k (IsKept-empty (measured_rows code));
        datetimes =
            IsKeyed-add (λ md. md.datetime) _ mds (absent-count datetime mds.items t.finds refl)
              t.keyed;
      })
      | inr e ↦ rw e (
          Holds-bind (λ xs. (k : IdVarcode) → count_key (λ x. x.id_varcode) k xs ≤ 1)
            (λ x. StationIsKept code x.1) (tables.query_data s.info.id datetime db) _
            (unique.ids s.info.id datetime db)
            (λ xs u. record {
              station_ids = h.station_ids;
              not_loaded = h.not_loaded;
              datetimes =
                  IsKeyed-add (λ md. md.datetime) _ mds
                    (absent-count datetime mds.items t.finds refl) t.keyed;
              measured_ids = All-append (MeasuredIsKept code) mds.items _ k (
                  IsKept-add_all (measured_rows code) xs empty u
                    (IsKept-empty (measured_rows code)).tidy (λ k. refl));
            }))
    ]

    pub get_measured_data-StationIsKept :
        (s : Station Var) (n : ℕ) (datetime : Datetime) (db : Db)
        → StationIsKept code s
        → Holds
            (λ x. StationIsKept code x.1)
            (get_measured_data code sort_codes sort_ids tables sort_times s n datetime db)
    unfolding get_measured_data
    get_measured_data-StationIsKept s n datetime db h =
        elim (Bool-cases (Datetimes.is_missing datetime)) [
          | inl e ↦ rw e tt
          | inr e ↦ rw e (
              place_measured-Keeps s n datetime
                (search (λ md. md.datetime) sort_times datetime s.measured_data) db h
                (All-search datetime s.measured_data h.measured_ids)
                (search-IsSearched datetime s.measured_data h.datetimes))
        ]

    pub All-change_at :
        (i : ℕ) (md : MeasuredData Var) (mds : List (MeasuredData Var))
        → All (MeasuredIsKept code) mds
        → MeasuredIsKept code md
        → All (MeasuredIsKept code) (change_at (λ x. md) i mds)
    All-change_at i md [] h k = tt
    All-change_at zero md (x ∷ xs) h k = (k, h.1)
    All-change_at (suc i) md (x ∷ xs) h k = (h.0, All-change_at i md xs h.1 k)

    pub All-get_elem? :
        (i : ℕ) (md : MeasuredData Var) (mds : List (MeasuredData Var))
        → All (MeasuredIsKept code) mds
        → get_elem? mds i ≡ some md
        → MeasuredIsKept code md
    All-get_elem? i md [] h e = cc
    All-get_elem? zero md (x ∷ xs) h e =
        subst (λ r. elim r as (λ _. Type 0) [ none ↦ Unit | some y ↦ MeasuredIsKept code y ]) e h.0
    All-get_elem? (suc i) md (x ∷ xs) h e = All-get_elem? i md xs h.1 e
