-- ===== src/Batch/Loading.antt =====
-- What the queries of a station's rows load into the sets of dballe/db/v7/batch.cc, and what holds of
-- a call that returns.
use dballe.Prelude.{◌+◌, ◌≤◌, ◌≡◌, arith, List, [], ◌∷◌, Result, ok, err, ◌>>=◌}
use dballe.Prelude.Order.{Ord, nat_ord}
use dballe.Datetime.Order.{datetime_ord}
use dballe.SortedVector.Map.{count_key}
use dballe.SmallSet.{SmallSet, empty}
use dballe.SmallSet as SmallSets
use dballe.SmallSet.Search.{IsTidy, count_if-append}
use dballe.SmallSet.Unique.{IsTidy-add}
use dballe.Pending.{Rows}
use dballe.Pending.Known.{IsKept}
use dballe.Tables.{id_varcode_ord}
use dballe.BatchStation.{add_all}

-- Rows that are added in a row to an empty set
module _ {Item Value Datum : Type 0} ⦃o : Ord Value⦄ (rows : Rows Item Value Datum) where
  IsTidy-add_all :
      (xs : List Item) (s : SmallSet Item)
      → IsTidy rows.get_value s
      → IsTidy rows.get_value (add_all xs s)
  unfolding add_all
  IsTidy-add_all [] s t = t
  IsTidy-add_all (x ∷ xs) s t =
      IsTidy-add_all xs (SmallSets.add x s) (IsTidy-add rows.get_value x s t)

  count-add_all :
      (k : Value) (xs : List Item) (s : SmallSet Item)
      → count_key rows.get_value k (add_all xs s).items
        ≡ count_key rows.get_value k s.items + count_key rows.get_value k xs
  unfolding add_all SmallSets.add
  count-add_all k [] s = omega arith
  count-add_all k (x ∷ xs) s = omega (
    arith,
    count-add_all k xs (SmallSets.add x s),
    count_if-append (λ y. o.eqb (rows.get_value y) k) s.items (x ∷ []),
  )

  pub IsKept-empty : IsKept rows empty
  IsKept-empty = record {
    tidy = record { within = omega arith; sorted = tt };
    unique = λ k. omega arith;
  }

  -- What a query returns without repetitions makes a kept set, if nothing was known before.
  pub IsKept-add_all :
      (xs : List Item) (s : SmallSet Item)
      → ((k : Value) → count_key rows.get_value k xs ≤ 1)
      → IsTidy rows.get_value s
      → ((k : Value) → count_key rows.get_value k s.items ≡ 0)
      → IsKept rows (add_all xs s)
  IsKept-add_all xs s u t none_there = record {
    tidy = IsTidy-add_all xs s t;
    unique = λ k. omega (arith, count-add_all k xs s, u k, none_there k);
  }

-- What holds of the result of a call, if it returns.
abbrev pub Holds : {A : Type 0} → (A → Type 0) → Result A → Type 0
Holds P (err e) = Unit
Holds P (ok a) = P a

pub Holds-bind :
    {A B : Type 0} (P : A → Type 0) (Q : B → Type 0) (r : Result A) (f : A → Result B)
    → Holds P r
    → ((a : A) → P a → Holds Q (f a))
    → Holds Q (r >>= f)
Holds-bind P Q (err e) f h k = tt
Holds-bind P Q (ok a) f h k = k a h
