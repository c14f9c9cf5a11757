-- ===== src/SmallSet/Unique.antt =====
-- The sets without repetitions, SmallUniqueValueSet: adding a value that is there changes no item,
-- and adding one that is not there adds it.
use dballe.Prelude.{
  ℕ, zero, suc, ◌+◌, ◌-◌, ◌≤◌, ◌≡◌, refl, sym, ◌∙◌, ap, arith, if◌then◌else◌, List, [], ◌∷◌, ◌++◌,
  Option, some, length, take, length-append, Bool-cases, inl, inr,
}
use dballe.Prelude.Order.{Ord}
use dballe.SortedVector.{SameItems}
use dballe.SortedVector.Search.{Finds, at, absent}
use dballe.SortedVector.Map.{count_key, count_if-get_elem?}
use dballe.SmallSet.{SmallSet, add, keep_or_add, add_unique}
use dballe.SmallSet.Search.{IsTidy, IsSort, find_lem, count_if-append}

take-append_le {ℓ} :
    {A : Type ℓ} (n : ℕ) (xs ys : List A) → n ≤ length xs → take n (xs ++ ys) ≡ take n xs
take-append_le zero xs ys h = refl
take-append_le (suc n) [] ys h = absurd (omega (arith, h))
take-append_le (suc n) (x ∷ xs) ys h = ap (λ r. x ∷ r) (take-append_le n xs ys (omega (arith, h)))

module _ {ℓ κ} {Item : Type ℓ} {Value : Type κ} ⦃o : Ord Value⦄ (get_value : Item → Value) where
  -- Adding an item keeps a set tidy: the item is among the dirty ones.
  pub IsTidy-add : (x : Item) (s : SmallSet Item) → IsTidy get_value s → IsTidy get_value (add x s)
  unfolding add
  IsTidy-add x s t = record {
    within = omega (arith, length-append s.items (x ∷ []), t.within);
    sorted =
        let e : length (s.items ++ x ∷ []) - (s.dirty + 1) ≡ length s.items - s.dirty =
          omega (arith, length-append s.items (x ∷ [])) in
        rw (e, take-append_le (length s.items - s.dirty) s.items (x ∷ []) (omega arith)) t.sorted;
  }

  module _ (sort : List Item → List Item) (is_sort : IsSort get_value sort) where
    -- What adding a value to `s` leaves: each other value as often as before, and this one once.
    pub record Added (value : Value) (s : SmallSet Item) (result : Option (SmallSet Item))
        : Type (ℓ ⊔ κ) where
      pub after : SmallSet Item
      pub returns : result ≡ some after
      pub tidy : IsTidy get_value after
      pub counts :
          (k : Value)
          → count_key get_value k after.items
            ≡ (if o.eqb value k then 1 else count_key get_value k s.items)

    -- Adding an item to a tidy set with no value twice leaves its value there once, and each other
    -- value as often as before; the set stays tidy.
    pub add_unique_lem :
        (x : Item) (s : SmallSet Item)
        → IsTidy get_value s
        → ((k : Value) → count_key get_value k s.items ≤ 1)
        → Added (get_value x) s (add_unique get_value sort (get_value x) x s)
    unfolding add_unique add
    add_unique_lem x s t u =
        let f = find_lem get_value sort is_sort (get_value x) s t in
        rw (f.returns, add_unique) (added f.position f.after f.finds f.same f.tidy)
      where
        added :
            (r : Option ℕ) (s' : SmallSet Item)
            → Finds get_value (get_value x) s'.items r
            → SameItems s'.items s.items
            → IsTidy get_value s'
            → Added (get_value x) s (some (keep_or_add x r s'))
        added _ s' (at i y g same) c t' = record {
          after = s';
          returns = refl;
          tidy = t';
          counts = λ k. elim (Bool-cases (o.eqb (get_value x) k)) [
            | inr e ↦ rw e (c.counts (λ z. o.eqb (get_value z) k))
            | inl e ↦
                let h : get_value x ≡ k = (o.eqb_iff (get_value x) k).0 e in
                rw e (
                  omega (
                    arith,
                    c.counts (λ z. o.eqb (get_value z) k),
                    u k,
                    count_if-get_elem? (λ z. o.eqb (get_value z) k) s'.items i y g
                        (ap (o.eqb (get_value y)) (sym h) ∙ same),
                  ))
          ];
        }
        added _ s' (absent h) c t' = record {
          after = add x s';
          returns = refl;
          tidy = IsTidy-add x s' t';
          counts = λ k. elim (Bool-cases (o.eqb (get_value x) k)) [
            | inr e ↦ rw e (
                ground (
                  arith,
                  e,
                  c.counts (λ z. o.eqb (get_value z) k),
                  count_if-append (λ z. o.eqb (get_value z) k) s'.items (x ∷ []),
                ))
            | inl e ↦
                let g : get_value x ≡ k = (o.eqb_iff (get_value x) k).0 e in
                rw e (
                  ground (
                    arith,
                    e,
                    ap (λ z. count_key get_value z s'.items) (sym g) ∙ h,
                    count_if-append (λ z. o.eqb (get_value z) k) s'.items (x ∷ []),
                  ))
          ];
        }
