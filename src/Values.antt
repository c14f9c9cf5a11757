-- ===== src/Values.antt =====
-- Collections of variables by code: ValuesBase of dballe/values.cc and dballe/values.h, with the
-- Value of dballe/value.h. wreport::Var is a parameter with its `code`. A Value is `none` when it
-- holds no variable. A search that ran out of fuel, and a read of a variable that is not there, which
-- C++ leaves undefined, give `none`.
pub mod Laws
pub mod Merge
use dballe.Prelude.{
  is_empty, ℕ, zero, suc, Bool, true, false, not, ◌&&◌, arith, ltb, ◌==◌, if◌then◌else◌, List, [],
  ◌∷◌, Option, some, none, get_elem?, set, Result, ok, err, Error, notfound, map,
}
use dballe.Prelude.Int.{ℤ}
use dballe.Prelude.Order.{nat_ord}
use dballe.SortedVector.Map
use dballe.SortedVector.Map.{erase}

abbrev option_map {ℓ κ} : {A : Type ℓ} {B : Type κ} → (A → B) → Option A → Option B
option_map f none = none
option_map f (some a) = some (f a)

module _ {ℓ} {Var : Type ℓ} (varcode : Var → ℕ) where
  -- Value::code
  abbrev pub code : Option Var → ℕ
  code none = 0
  code (some v) = varcode v

  -- ValuesBase::find
  unfoldable pub find : ℕ → List (Option Var) → Option (Option ℕ)
  unfolding Map.find
  find c values =
      if is_empty values
      then some none
      else Map.find code (λ x. ltb c (code x)) (λ x. ltb (code x) c) values

  -- ValuesBase::insert_new
  unfoldable pub insert_new : Option Var → List (Option Var) → List (Option Var)
  unfolding Map.insert_new
  insert_new x values = Map.insert_new code x values

  -- ValuesBase::unset
  unfoldable pub unset : ℕ → List (Option Var) → Option (List (Option Var))
  unfolding find
  unset c values = elim (find c values) [
    | none ↦ none
    | some none ↦ some values
    | some (some i) ↦ some (erase values i)
  ]

  -- ValuesBase::set of a Value
  unfoldable pub set_value : Option Var → List (Option Var) → Option (List (Option Var))
  unfolding find insert_new
  set_value x values = elim (find (code x) values) [
    | none ↦ none
    | some none ↦ some (insert_new x values)
    | some (some i) ↦ some (set values i x)
  ]

  -- ValuesBase::set of a variable
  unfoldable pub set_var : Var → List (Option Var) → Option (List (Option Var))
  unfolding find insert_new
  set_var v values = elim (find (varcode v) values) [
    | none ↦ none
    | some none ↦ some (insert_new (some v) values)
    | some (some i) ↦ some (set values i (some v))
  ]

  -- ValuesBase::merge
  unfoldable pub merge : List (Option Var) → List (Option Var) → Option (List (Option Var))
  unfolding set_var
  merge [] values = some values
  merge (none ∷ vals) values = none
  merge (some v ∷ vals) values = elim (set_var v values) [
    | none ↦ none
    | some values' ↦ merge vals values'
  ]

  -- ValuesBase::value, with the item that it refers to
  unfoldable pub value : ℕ → List (Option Var) → Option (Result (Option Var))
  unfolding find
  value c values = elim (find c values) [
    | none ↦ none
    | some none ↦ some (err notfound)
    | some (some i) ↦ option_map ok (get_elem? values i)
  ]

  -- ValuesBase::var
  unfoldable pub var : ℕ → List (Option Var) → Option (Result Var)
  unfolding find
  var c values = elim (find c values) [
    | none ↦ none
    | some none ↦ some (err notfound)
    | some (some i) ↦ elim (get_elem? values i) [
      | none ↦ none
      | some none ↦ some (err notfound)
      | some (some v) ↦ some (ok v)
    ]
  ]

  -- ValuesBase::maybe_value
  unfoldable pub maybe_value : ℕ → List (Option Var) → Option (Option (Option Var))
  unfolding find
  maybe_value c values = elim (find c values) [
    | none ↦ none
    | some none ↦ some none
    | some (some i) ↦ option_map some (get_elem? values i)
  ]

  -- ValuesBase::maybe_var
  unfoldable pub maybe_var : ℕ → List (Option Var) → Option (Option Var)
  unfolding find
  maybe_var c values = elim (find c values) [
    | none ↦ none
    | some none ↦ some none
    | some (some i) ↦ get_elem? values i
  ]

  -- Values::operator= of DBValues, and the constructor from one: items without a variable are left
  -- out.
  unfoldable pub copy_values : List (Option Var) → List (Option Var)
  copy_values [] = []
  copy_values (none ∷ o) = copy_values o
  copy_values (some v ∷ o) = some v ∷ copy_values o

-- DBValues::vars_equal; `same` is operator== of wreport::Var
unfoldable pub vars_equal {ℓ} :
    {Var : Type ℓ} → (Var → Var → Bool) → List (Option Var) → List (Option Var) → Bool
vars_equal same [] [] = true
vars_equal same [] (y ∷ ys) = false
vars_equal same (x ∷ xs) [] = false
vars_equal same (none ∷ xs) (none ∷ ys) = vars_equal same xs ys
vars_equal same (none ∷ xs) (some w ∷ ys) = false
vars_equal same (some v ∷ xs) (none ∷ ys) = false
vars_equal same (some v ∷ xs) (some w ∷ ys) = if same v w then vars_equal same xs ys else false
