-- ===== src/Query/Selection.antt =====
-- What the filters of a query select.
use dballe.Prelude.{ℕ, Bool, true, false, ◌&&◌, ◌||◌, List, [], ◌∷◌, Option, some, none}
use dballe.Prelude.Int.{ℤ, eqb_ℤ}
use dballe.Prelude.Words.{is_missing_int}
use dballe.Prelude.Order.{nat_ord}
use dballe.Datetime.{Datetime}
use dballe.DatetimeRange as DatetimeRanges
use dballe.LatRange as LatRanges
use dballe.Level.{Level}
use dballe.Trange.{Trange}
use dballe.Query.{Query, same_string}
use dballe.Query.Subset.{admits}

-- A value as the filters of a query see it
pub record Datum : Type 0 where
  pub ana_id : ℤ
  pub prio : ℤ
  pub report : List ℕ
  pub mobile : ℤ
  pub ident : Option (List ℕ)
  -- The WMO block and station numbers of its station
  pub block : ℤ
  pub station : ℤ
  -- Whether its station, it and its attributes pass a filter that is given as a text
  pub passes_ana : List ℕ → Bool
  pub passes_data : List ℕ → Bool
  pub passes_attr : List ℕ → Bool
  pub lat : ℤ
  pub datetime : Datetime
  pub level : Level
  pub trange : Trange

-- A filter that is missing selects all.
abbrev pub int_selects : ℤ → ℤ → Bool
int_selects filter v = is_missing_int filter || eqb_ℤ filter v

abbrev pub string_selects : List ℕ → List ℕ → Bool
string_selects [] v = true
string_selects (c ∷ filter) v = same_string (c ∷ filter) v

abbrev pub ident_selects : Option (List ℕ) → Option (List ℕ) → Bool
ident_selects none v = true
ident_selects (some filter) none = false
ident_selects (some filter) (some v) = same_string filter v

abbrev pub filter_selects : (List ℕ → Bool) → List ℕ → Bool
filter_selects passes [] = true
filter_selects passes (c ∷ filter) = passes (c ∷ filter)

abbrev pub fields_select : Query → Datum → Bool
fields_select q d =
    int_selects q.level.ltype1 d.level.ltype1
    && (int_selects q.level.l1 d.level.l1
        && (int_selects q.level.ltype2 d.level.ltype2
            && (int_selects q.level.l2 d.level.l2
                && (int_selects q.trange.pind d.trange.pind
                    && (int_selects q.trange.p1 d.trange.p1
                        && int_selects q.trange.p2 d.trange.p2)))))

-- The filters that are tested after the modifiers are parsed
abbrev pub selects_after : Query → Datum → Bool
selects_after q d =
    filter_selects d.passes_ana q.ana_filter
    && (filter_selects d.passes_data q.data_filter
        && (filter_selects d.passes_attr q.attr_filter
            && (int_selects q.block d.block && int_selects q.station d.station)))

-- The filters of a query but those on longitudes and variable codes
abbrev pub selects : Query → Datum → Bool
selects q d =
    int_selects q.ana_id d.ana_id
    && (admits q.priomin q.priomax d.prio
        && (string_selects q.report d.report
            && (int_selects q.mobile d.mobile
                && (ident_selects q.ident d.ident
                    && (LatRanges.contains q.latrange d.lat
                        && (DatetimeRanges.contains q.dtrange d.datetime
                            && (fields_select q d && selects_after q d)))))))
