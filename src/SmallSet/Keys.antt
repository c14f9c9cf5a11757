-- ===== src/SmallSet/Keys.antt =====
-- SmallSets whose items each have another value, and items that are changed while their values stay.
use dballe.Prelude.{
  ℕ, zero, suc, ◌≤◌, ◌≡◌, refl, sym, ◌∙◌, ap, false, arith, List, [], ◌∷◌, Option, some, none,
  get_elem?, length, take, Bool-cases, inl, inr,
}
use mathlib.Core.Path.{subst}
use dballe.Prelude.Order.{Ord}
use dballe.SortedVector.{NoneBelow, Ascending, SameItems}
use dballe.SortedVector.Map.{count_key}
use dballe.SmallSet.{SmallSet, add, empty}
use dballe.SmallSet.Search.{IsTidy, count_if-append}
use dballe.SmallSet.Unique.{IsTidy-add}
use dballe.Pending.{change_at}

module _ {Item Value : Type 0} ⦃o : Ord Value⦄ (get_value : Item → Value) where
  -- The set is as `find` needs it, and no value is in it twice.
  pub record IsKeyed (s : SmallSet Item) : Type 0 where
    pub tidy : IsTidy get_value s
    pub unique : (k : Value) → count_key get_value k s.items ≤ 1

  pub IsKeyed-empty : IsKeyed empty
  IsKeyed-empty = record {
    tidy = record { within = omega arith; sorted = tt };
    unique = λ k. omega arith;
  }

  -- Two vectors of as many items, with the same values in the same places
  abbrev pub SameKeys : List Item → List Item → Type 0
  SameKeys [] [] = Unit
  SameKeys [] (y ∷ ys) = ⊥
  SameKeys (x ∷ xs) [] = ⊥
  SameKeys (x ∷ xs) (y ∷ ys) = (get_value x ≡ get_value y) × SameKeys xs ys

  pub SameKeys-refl : (xs : List Item) → SameKeys xs xs
  SameKeys-refl [] = tt
  SameKeys-refl (x ∷ xs) = (refl, SameKeys-refl xs)

  SameKeys-length : (xs ys : List Item) → SameKeys xs ys → length xs ≡ length ys
  SameKeys-length [] [] h = refl
  SameKeys-length [] (y ∷ ys) h = absurd h
  SameKeys-length (x ∷ xs) [] h = absurd h
  SameKeys-length (x ∷ xs) (y ∷ ys) h = ap suc (SameKeys-length xs ys h.1)

  SameKeys-take : (n : ℕ) (xs ys : List Item) → SameKeys xs ys → SameKeys (take n xs) (take n ys)
  SameKeys-take zero xs ys h = tt
  SameKeys-take (suc n) [] [] h = tt
  SameKeys-take (suc n) [] (y ∷ ys) h = absurd h
  SameKeys-take (suc n) (x ∷ xs) [] h = absurd h
  SameKeys-take (suc n) (x ∷ xs) (y ∷ ys) h = (h.0, SameKeys-take n xs ys h.1)

  SameKeys-NoneBelow :
      (k : Value) (xs ys : List Item)
      → SameKeys xs ys
      → NoneBelow get_value k xs
      → NoneBelow get_value k ys
  SameKeys-NoneBelow k [] [] h a = tt
  SameKeys-NoneBelow k [] (y ∷ ys) h a = absurd h
  SameKeys-NoneBelow k (x ∷ xs) [] h a = absurd h
  SameKeys-NoneBelow k (x ∷ xs) (y ∷ ys) h a =
      (subst (λ v. o.lt v k ≡ false) h.0 a.0, SameKeys-NoneBelow k xs ys h.1 a.1)

  SameKeys-Ascending :
      (xs ys : List Item) → SameKeys xs ys → Ascending get_value xs → Ascending get_value ys
  SameKeys-Ascending [] [] h a = tt
  SameKeys-Ascending [] (y ∷ ys) h a = absurd h
  SameKeys-Ascending (x ∷ xs) [] h a = absurd h
  SameKeys-Ascending (x ∷ xs) (y ∷ ys) h a = (
    subst (λ v. NoneBelow get_value v ys) h.0 (SameKeys-NoneBelow (get_value x) xs ys h.1 a.0),
    SameKeys-Ascending xs ys h.1 a.1,
  )

  SameKeys-count :
      (k : Value) (xs ys : List Item)
      → SameKeys xs ys
      → count_key get_value k ys ≡ count_key get_value k xs
  SameKeys-count k [] [] h = refl
  SameKeys-count k [] (y ∷ ys) h = absurd h
  SameKeys-count k (x ∷ xs) [] h = absurd h
  SameKeys-count k (x ∷ xs) (y ∷ ys) h = rw (sym h.0, SameKeys-count k xs ys h.1) refl

  -- A set whose items are changed, but not their values
  pub SameKeys-IsKeyed :
      (s : SmallSet Item) (ys : List Item)
      → SameKeys s.items ys
      → IsKeyed s
      → IsKeyed (record s { items = ys })
  SameKeys-IsKeyed s ys h k = record {
    tidy = record {
      within = omega (arith, k.tidy.within, SameKeys-length s.items ys h);
      sorted =
          rw (sym (SameKeys-length s.items ys h))
            (SameKeys-Ascending _ _ (SameKeys-take _ s.items ys h) k.tidy.sorted);
    };
    unique = λ v. omega (arith, SameKeys-count v s.items ys h, k.unique v);
  }

  -- The item at a place is replaced by one with its value.
  pub SameKeys-change_at :
      (i : ℕ) (x y : Item) (xs : List Item)
      → get_elem? xs i ≡ some x
      → get_value x ≡ get_value y
      → SameKeys xs (change_at (λ z. y) i xs)
  SameKeys-change_at i x y [] g e = tt
  SameKeys-change_at zero x y (z ∷ zs) g e = (ap (value_or z) g ∙ e, SameKeys-refl zs)
    where
      value_or : Item → Option Item → Value
      value_or d none = get_value d
      value_or d (some a) = get_value a
  SameKeys-change_at (suc i) x y (z ∷ zs) g e = (refl, SameKeys-change_at i x y zs g e)

  pub SameItems-IsKeyed :
      (s after : SmallSet Item)
      → SameItems after.items s.items
      → IsTidy get_value after
      → IsKeyed s
      → IsKeyed after
  SameItems-IsKeyed s after same t k = record {
    tidy = t;
    unique = λ v. omega (arith, same.counts (λ x. o.eqb (get_value x) v), k.unique v);
  }

  -- An item is added whose value the set does not have.
  pub IsKeyed-add :
      (x : Item) (s : SmallSet Item)
      → count_key get_value (get_value x) s.items ≡ 0
      → IsKeyed s
      → IsKeyed (add x s)
  unfolding add
  IsKeyed-add x s none_there k = record {
    tidy = IsTidy-add get_value x s k.tidy;
    unique = λ v. elim (Bool-cases (o.eqb (get_value x) v)) [
      | inr e ↦
          ground
            (arith, e, k.unique v, count_if-append (λ z. o.eqb (get_value z) v) s.items (x ∷ []))
      | inl e ↦
          let same : get_value x ≡ v = (o.eqb_iff (get_value x) v).0 e in
          ground (
            arith,
            e,
            ap (λ z. count_key get_value z s.items) (sym same) ∙ none_there,
            count_if-append (λ z. o.eqb (get_value z) v) s.items (x ∷ []),
          )
    ];
  }
