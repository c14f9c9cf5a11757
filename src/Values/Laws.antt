-- ===== src/Values/Laws.antt =====
-- Values as a finite map from codes: `get` is the abstract view, and each operation of
-- dballe/values.cc acts on it as on a map and keeps the vector sorted with no code twice.
use dballe.Prelude.{
  ℕ, ◌≡◌, refl, sym, ◌∙◌, ap, ltb, ◌==◌, if◌then◌else◌, List, [], ◌∷◌, Option, some, none, set, ok,
  err, notfound, Bool-cases, inl, inr,
}
use dballe.Prelude.Order.{nat_ord}
use dballe.SortedVector.Map
use dballe.SortedVector.Map.{erase, lookup, count_key, IsMap, insert_new-IsMap, lookup-insert_new}
use dballe.SortedVector.Update.{
  find_lem, Locates, here, nowhere, set-IsMap, erase-IsMap, lookup-set, lookup-erase,
}
use dballe.Values.{
  code, find, insert_new, unset, set_value, set_var, value, var, maybe_value, maybe_var,
}

module _ {ℓ} {Var : Type ℓ} (varcode : Var → ℕ) where
  -- Sorted by code, with no code twice
  abbrev pub IsSorted : List (Option Var) → Type 0
  IsSorted = IsMap (code varcode)

  -- The abstract view: the item with a code
  abbrev pub get : ℕ → List (Option Var) → Option (Option Var)
  get = lookup (code varcode)

  -- The variable with a code
  abbrev pub get_var : ℕ → List (Option Var) → Option Var
  get_var c values = elim (get c values) [ none ↦ none | some x ↦ x ]

  pub find-Locates :
      (c : ℕ) (values : List (Option Var))
      → IsSorted values
      → (r : Option ℕ) × (find varcode c values ≡ some r) × Locates (code varcode) c values r
  unfolding find
  find-Locates c [] m = (none, refl, nowhere refl refl)
  find-Locates c (x ∷ xs) m =
      find_lem (code varcode) c (λ y. ltb c (code varcode y)) (λ y. ltb (code varcode y) c) (x ∷ xs)
        (λ i y e. refl) (λ i y e. refl) m

  -- What an operation leaves: a sorted vector whose view is `view`
  pub record Becomes (view : ℕ → Option (Option Var)) (result : Option (List (Option Var)))
      : Type ℓ where
    pub after : List (Option Var)
    pub returns : result ≡ some after
    pub sorted : IsSorted after
    pub views : (c : ℕ) → get c after ≡ view c

  -- On values sorted by code, with no code twice, `set` of a Value puts it under its code and
  -- changes nothing else, and leaves the values sorted so.
  pub set_value_lem :
      (x : Option Var) (values : List (Option Var))
      → IsSorted values
      → Becomes
          (λ c. if code varcode x == c then some x else get c values)
          (set_value varcode x values)
  unfolding set_value insert_new
  set_value_lem x values m =
      let (r, e, l) = find-Locates (code varcode x) values m in rw (e, set_value) (put r l)
    where
      put :
          (r : Option ℕ)
          → Locates (code varcode) (code varcode x) values r
          → Becomes
              (λ c. if code varcode x == c then some x else get c values)
              (elim (some r) [
                | none ↦ none
                | some none ↦ some (Map.insert_new (code varcode) x values)
                | some (some i) ↦ some (set values i x)
              ])
      put _ (nowhere h g) = record {
        after = Map.insert_new (code varcode) x values;
        returns = refl;
        sorted = insert_new-IsMap (code varcode) x values m h;
        views = λ c. lookup-insert_new (code varcode) c x values h;
      }
      put _ (here i y g same h) = record {
        after = set values i x;
        returns = refl;
        sorted = set-IsMap (code varcode) values i y x g same m;
        views = λ c. lookup-set (code varcode) c values i y x m.unique g same;
      }

  -- On sorted values `set` of a variable puts it under its code and changes nothing else, and
  -- leaves the values sorted.
  pub set_var_lem :
      (v : Var) (values : List (Option Var))
      → IsSorted values
      → Becomes
          (λ c. if varcode v == c then some (some v) else get c values)
          (set_var varcode v values)
  unfolding set_var set_value
  set_var_lem v values m = set_value_lem (some v) values m

  -- On values sorted by code, with no code twice, `unset` removes the item with a code and changes
  -- nothing else, and leaves the values sorted so.
  pub unset_lem :
      (k : ℕ) (values : List (Option Var))
      → IsSorted values
      → Becomes (λ c. if k == c then none else get c values) (unset varcode k values)
  unfolding unset
  unset_lem k values m = let (r, e, l) = find-Locates k values m in rw (e, unset) (remove r l)
    where
      remove :
          (r : Option ℕ)
          → Locates (code varcode) k values r
          → Becomes
              (λ c. if k == c then none else get c values)
              (elim (some r) [
                | none ↦ none
                | some none ↦ some values
                | some (some i) ↦ some (erase values i)
              ])
      remove _ (nowhere h g) = record {
        after = values;
        returns = refl;
        sorted = m;
        views = λ c. elim (Bool-cases (k == c)) [
          | inl e ↦ rw e (ap (λ z. get z values) (sym ((nat_ord.eqb_iff k c).0 e)) ∙ g)
          | inr e ↦ rw e refl
        ];
      }
      remove _ (here i y g same h) = record {
        after = erase values i;
        returns = refl;
        sorted = erase-IsMap (code varcode) values i m;
        views = λ c.
            lookup-erase (code varcode) c values i y m.unique g
            ∙ ap (λ z. if z == c then none else get c values) same;
      }

  -- On values sorted by code, with no code twice, `maybe_value` and `maybe_var` return the item and
  -- the variable with a code, or none when there is none, and `value` and `var` return the same or
  -- throw error_notfound.
  pub reads_lem :
      (c : ℕ) (values : List (Option Var))
      → IsSorted values
      → (maybe_value varcode c values ≡ some (get c values))
        × (maybe_var varcode c values ≡ some (get_var c values))
        × (value varcode c values
            ≡ some (elim (get c values) [ none ↦ err notfound | some x ↦ ok x ]))
        × (var varcode c values
            ≡ some (elim (get_var c values) [ none ↦ err notfound | some v ↦ ok v ]))
  unfolding maybe_value maybe_var value var
  reads_lem c values m = let (r, e, l) = find-Locates c values m in reads r e l
    where
      reads :
          (r : Option ℕ)
          → find varcode c values ≡ some r
          → Locates (code varcode) c values r
          → (maybe_value varcode c values ≡ some (get c values))
            × (maybe_var varcode c values ≡ some (get_var c values))
            × (value varcode c values
                ≡ some (elim (get c values) [ none ↦ err notfound | some x ↦ ok x ]))
            × (var varcode c values
                ≡ some (elim (get_var c values) [ none ↦ err notfound | some v ↦ ok v ]))
      reads _ e (nowhere h g) =
          rw (e, maybe_value, maybe_var, value, var) (rw (get_var, g) (refl, refl, refl, refl))
      reads _ e (here i none g same h) =
          rw (e, maybe_value, maybe_var, value, var) (rw (g, get_var, h) (refl, refl, refl, refl))
      reads _ e (here i (some v) g same h) =
          rw (e, maybe_value, maybe_var, value, var) (rw (g, get_var, h) (refl, refl, refl, refl))
