-- ===== src/Transaction/Adding.antt =====
-- What adding the values of an insertion leaves.
use dballe.Prelude.{
  ℕ, ◌≡◌, refl, sym, ◌∙◌, ap, Bool, true, false, if◌then◌else◌, List, [], ◌∷◌, ◌++◌, Option, some,
  none, Error, Result, ok, err, consistency,
}
use mathlib.Core.List.{append_assoc, append-nil}
use dballe.Prelude.Int.{ℤ}
use dballe.Prelude.Order.{nat_ord}
use dballe.SmallSet.Search.{IsSort}
use dballe.Pending.{UpdateMode, update, ignore, error}
use dballe.Pending.Known.{id_of, IsKept}
use dballe.Pending.Added.{destination}
use dballe.Tables.{IdVarcode, StationDatum, station_datum, station_rows}
use dballe.BatchStation.{StationData, add_station_var}
use dballe.BatchStation.Adding.{
  waiting, station_data_rows, KeepsIds, kept, add_station_var_lem, add_station_var-KeepsIds,
  loaded-add_station_var,
}
use dballe.Transaction.{add_station_vars}

module _ {Var : Type 0} (known : Var → Option ℤ) where
  -- Whether a variable is refused: the mode refuses known ones
  abbrev pub refuses : UpdateMode → List Var → Bool
  refuses mode [] = false
  refuses mode (v ∷ vs) = elim (known v) [
    | none ↦ refuses mode vs
    | some z ↦ elim mode [ update ↦ refuses mode vs | ignore ↦ refuses mode vs | error ↦ true ]
  ]

  -- The rows to insert that variables make, up to the first that is refused
  abbrev pub new_rows : UpdateMode → List Var → List (StationDatum Var)
  new_rows mode [] = []
  new_rows mode (v ∷ vs) = elim (known v) [
    | none ↦ station_datum v ∷ new_rows mode vs
    | some z ↦ elim mode [ update ↦ new_rows mode vs | ignore ↦ new_rows mode vs | error ↦ [] ]
  ]

  -- The rows to update that they make
  abbrev pub changed_rows : UpdateMode → List Var → List (StationDatum Var)
  changed_rows mode [] = []
  changed_rows mode (v ∷ vs) = elim (known v) [
    | none ↦ changed_rows mode vs
    | some z ↦ elim mode [
      | update ↦ record { id = z; var = v } ∷ changed_rows mode vs
      | ignore ↦ changed_rows mode vs
      | error ↦ []
    ]
  ]

  -- Adding variables to `sd` throws when one is refused, and leaves the rows of those before it.
  pub record AddsAll (mode : UpdateMode) (vs : List Var) (sd : StationData Var)
      (left : Option Error × StationData Var) : Type 0 where
    pub thrown : left.0 ≡ (if refuses mode vs then some consistency else none)
    pub to_insert : left.1.rows.to_insert ≡ sd.rows.to_insert ++ new_rows mode vs
    pub to_update : left.1.rows.to_update ≡ sd.rows.to_update ++ changed_rows mode vs

  AddsAll-nil : (mode : UpdateMode) (sd : StationData Var) → AddsAll mode [] sd (none, sd)
  AddsAll-nil mode sd = record {
    thrown = refl;
    to_insert = sym (append-nil sd.rows.to_insert);
    to_update = sym (append-nil sd.rows.to_update);
  }

  -- One variable more in front, by what is known of it
  module _ (v : Var) (vs : List Var) (sd sd' : StationData Var)
      (left : Option Error × StationData Var) where
    AddsAll-new :
        (mode : UpdateMode)
        → known v ≡ none
        → sd'.rows.to_insert ≡ sd.rows.to_insert ++ station_datum v ∷ []
        → sd'.rows.to_update ≡ sd.rows.to_update
        → AddsAll mode vs sd' left
        → AddsAll mode (v ∷ vs) sd left
    AddsAll-new mode k i u a = record {
      thrown = rw (k, refuses) a.thrown;
      to_insert =
          rw (k, new_rows)
            (a.to_insert
              ∙ rw i (append_assoc sd.rows.to_insert (station_datum v ∷ []) (new_rows mode vs)));
      to_update = rw (k, changed_rows) (a.to_update ∙ rw u refl);
    }

    AddsAll-changed :
        (z : ℤ)
        → known v ≡ some z
        → sd'.rows.to_insert ≡ sd.rows.to_insert
        → sd'.rows.to_update ≡ sd.rows.to_update ++ record { id = z; var = v } ∷ []
        → AddsAll update vs sd' left
        → AddsAll update (v ∷ vs) sd left
    AddsAll-changed z k i u a = record {
      thrown = rw (k, refuses) a.thrown;
      to_insert = rw (k, new_rows) (a.to_insert ∙ rw i refl);
      to_update =
          rw (k, changed_rows)
            (a.to_update
              ∙ rw u (
                  append_assoc sd.rows.to_update (record { id = z; var = v } ∷ [])
                    (changed_rows update vs)));
    }

    AddsAll-ignored :
        (z : ℤ)
        → known v ≡ some z
        → sd'.rows.to_insert ≡ sd.rows.to_insert
        → sd'.rows.to_update ≡ sd.rows.to_update
        → AddsAll ignore vs sd' left
        → AddsAll ignore (v ∷ vs) sd left
    AddsAll-ignored z k i u a = record {
      thrown = rw (k, refuses) a.thrown;
      to_insert = rw (k, new_rows) (a.to_insert ∙ rw i refl);
      to_update = rw (k, changed_rows) (a.to_update ∙ rw u refl);
    }

  AddsAll-refused :
      (v : Var) (vs : List Var) (sd : StationData Var) (z : ℤ)
      → known v ≡ some z
      → AddsAll error (v ∷ vs) sd (some consistency, sd)
  AddsAll-refused v vs sd z k = record {
    thrown = rw (k, refuses) refl;
    to_insert = rw (k, new_rows) (sym (append-nil sd.rows.to_insert));
    to_update = rw (k, changed_rows) (sym (append-nil sd.rows.to_update));
  }

module _ {Var : Type 0} (code : Var → ℕ) (sort_codes : List IdVarcode → List IdVarcode)
    (is_sort : IsSort (λ x. x.varcode) sort_codes) (known : Var → Option ℤ) where
  -- The two lists of rows that wait after a call
  abbrev inserts_after :
      List (StationDatum Var)
      → Result (List (StationDatum Var) × List (StationDatum Var))
      → List (StationDatum Var)
  inserts_after d (err e) = d
  inserts_after d (ok r) = r.0

  abbrev updates_after :
      List (StationDatum Var)
      → Result (List (StationDatum Var) × List (StationDatum Var))
      → List (StationDatum Var)
  updates_after d (err e) = d
  updates_after d (ok r) = r.1

  -- If the station data is loaded and its rows are kept, adding variables in a row stops with an
  -- exception at the first one that is known in the mode that refuses it; the variables before it
  -- stay among the rows that wait to be inserted.
  pub add_station_vars_lem :
      (mode : UpdateMode) (vs : List Var) (sd : StationData Var)
      → sd.loaded ≡ true
      → IsKept (station_rows code) sd.rows.ids
      → ((v : Var) → id_of (station_rows code) (code v) sd.rows.ids.items ≡ known v)
      → AddsAll known mode vs sd (add_station_vars code sort_codes mode vs sd)
  unfolding add_station_vars
  add_station_vars_lem mode [] sd l k ids = AddsAll-nil known mode sd
  add_station_vars_lem mode (v ∷ vs) sd l k ids =
      go mode (known v) refl (add_station_var code sort_codes v mode sd) refl
        (add_station_var_lem code sort_codes is_sort v mode sd k ∙ rw (l, ids v) refl)
        (add_station_var-KeepsIds code sort_codes is_sort v mode sd k)
        (λ sd' l' k' ids'. add_station_vars_lem mode vs sd' l' k' ids')
    where
      Rest : UpdateMode → StationData Var → Type 0
      Rest m sd' = AddsAll known m vs sd' (add_station_vars code sort_codes m vs sd')

      after :
          (m : UpdateMode) (sd' : StationData Var)
          → add_station_var code sort_codes v m sd ≡ ok sd'
          → KeepsIds (station_rows code) sd.rows (ok sd'.rows)
          → ((sd' : StationData Var)
              → sd'.loaded ≡ true
              → IsKept (station_rows code) sd'.rows.ids
              → ((v : Var) → id_of (station_rows code) (code v) sd'.rows.ids.items ≡ known v)
              → Rest m sd')
          → Rest m sd'
      after m sd' e (kept k' same) rest =
          rest sd' (loaded-add_station_var code sort_codes v m sd sd' e) k'
            (λ v. same (code v) ∙ ids v)

      go :
          (m : UpdateMode) (q : Option ℤ)
          → known v ≡ q
          → (r : Result (StationData Var)) → add_station_var code sort_codes v m sd ≡ r
          → waiting (station_data_rows r)
            ≡ destination (station_rows code) m q (station_datum v) sd.rows
          → KeepsIds (station_rows code) sd.rows (station_data_rows r)
          → ((sd' : StationData Var)
              → sd'.loaded ≡ true
              → IsKept (station_rows code) sd'.rows.ids
              → ((v : Var) → id_of (station_rows code) (code v) sd'.rows.ids.items ≡ known v)
              → Rest m sd')
          → AddsAll known m (v ∷ vs) sd (elim r as (λ _. Option Error × StationData Var) [
            | err e ↦ (some e, sd)
            | ok sd' ↦ add_station_vars code sort_codes m vs sd'
          ])
      go m none q (err x) e w keeps rest = cc
      go m none q (ok sd') e w keeps rest =
          AddsAll-new known v vs sd sd' _ m q (ap (inserts_after []) w) (ap (updates_after []) w)
            (after m sd' e keeps rest)
      go update (some z) q (err x) e w keeps rest = cc
      go update (some z) q (ok sd') e w keeps rest =
          AddsAll-changed known v vs sd sd' _ z q (ap (inserts_after []) w)
            (ap (updates_after []) w) (after update sd' e keeps rest)
      go ignore (some z) q (err x) e w keeps rest = cc
      go ignore (some z) q (ok sd') e w keeps rest =
          AddsAll-ignored known v vs sd sd' _ z q (ap (inserts_after []) w)
            (ap (updates_after []) w) (after ignore sd' e keeps rest)
      go error (some z) q (err x) e w keeps rest =
          let same : x ≡ consistency = ap error_of w in rw same (AddsAll-refused known v vs sd z q)
        where
          error_of : Result (List (StationDatum Var) × List (StationDatum Var)) → Error
          error_of (err y) = y
          error_of (ok y) = x
      go error (some z) q (ok sd') e w keeps rest = cc
