-- ===== src/Pending/Known.antt =====
-- The set of known rows as a map from values to ids: `id_of` is the abstract view, which sorting the
-- set does not change.
use dballe.Prelude.{
  ℕ, ◌≤◌, ◌≡◌, refl, sym, ◌∙◌, ap, Bool, true, ◌&&◌, arith, if◌then◌else◌, List, [], ◌∷◌, Option,
  some, none, get_elem?, Bool-cases, inl, inr,
}
use dballe.Prelude.Int.{ℤ, eqb_ℤ, eqb_ℤ_iff}
use dballe.Prelude.Order.{Ord}
use dballe.SortedVector.{count_if, SameItems}
use dballe.SortedVector.Search.{Finds}
use dballe.SortedVector.Map.{count_key, count_if-get_elem?}
use dballe.SmallSet.{SmallSet}
use dballe.SmallSet.Search.{IsTidy, IsSort, find_lem}
use dballe.Pending.{Rows, search}

-- What the functions of the rows promise one another.
pub record IsRows {Item Value Datum : Type 0} (rows : Rows Item Value Datum) : Type 0 where
  pub value_item : (z : ℤ) (k : Value) → rows.get_value (rows.item z k) ≡ k
  pub id_item : (z : ℤ) (k : Value) → rows.item_id (rows.item z k) ≡ z
  pub value_set_id : (z : ℤ) (x : Item) → rows.get_value (rows.set_id z x) ≡ rows.get_value x
  pub id_set_id : (z : ℤ) (x : Item) → rows.item_id (rows.set_id z x) ≡ z
  pub value_with_id : (z : ℤ) (d : Datum) → rows.value (rows.with_id z d) ≡ rows.value d
  pub id_with_id : (z : ℤ) (d : Datum) → rows.datum_id (rows.with_id z d) ≡ z

module _ {Item Value Datum : Type 0} ⦃o : Ord Value⦄ (rows : Rows Item Value Datum) where
  -- The id of the row with a value
  unfoldable pub id_of : Value → List Item → Option ℤ
  id_of k [] = none
  id_of k (x ∷ xs) = if o.eqb (rows.get_value x) k then some (rows.item_id x) else id_of k xs

  -- How the program keeps the set of known rows.
  pub record IsKept (s : SmallSet Item) : Type 0 where
    pub tidy : IsTidy rows.get_value s
    pub unique : (k : Value) → count_key rows.get_value k s.items ≤ 1

  abbrev is_row : Value → ℤ → Item → Bool
  is_row k z x = o.eqb (rows.get_value x) k && eqb_ℤ (rows.item_id x) z

  pub id_of-absent :
      (k : Value) (xs : List Item) → count_key rows.get_value k xs ≡ 0 → id_of k xs ≡ none
  unfolding id_of
  id_of-absent k [] h = refl
  id_of-absent k (x ∷ xs) h = elim (Bool-cases (o.eqb (rows.get_value x) k)) [
    | inl e ↦ absurd (ground (arith, e, h))
    | inr e ↦ rw e (id_of-absent k xs (omega (arith, h)))
  ]

  pub id_of-none :
      (k : Value) (xs : List Item) → id_of k xs ≡ none → count_key rows.get_value k xs ≡ 0
  unfolding id_of
  id_of-none k [] h = refl
  id_of-none k (x ∷ xs) h = elim (Bool-cases (o.eqb (rows.get_value x) k)) [
    | inl e ↦ cc (h, e)
    | inr e ↦ rw e (omega (arith, id_of-none k xs (rw e at h)))
  ]

  id_of-some :
      (k : Value) (z : ℤ) (xs : List Item) → id_of k xs ≡ some z → 1 ≤ count_if (is_row k z) xs
  unfolding id_of
  id_of-some k z [] h = cc
  id_of-some k z (x ∷ xs) h = elim (Bool-cases (o.eqb (rows.get_value x) k)) [
    | inl e ↦ rw e (ground (arith, eqb_ℤ_iff (rows.item_id x) z, rw e at h))
    | inr e ↦ rw e (omega (arith, id_of-some k z xs (rw e at h)))
  ]

  row_le :
      (k : Value) (z : ℤ) (xs : List Item)
      → count_if (is_row k z) xs ≤ count_key rows.get_value k xs
  row_le k z [] = omega arith
  row_le k z (x ∷ xs) = ground (arith, row_le k z xs)

  id_of-row :
      (k : Value) (z : ℤ) (xs : List Item)
      → count_key rows.get_value k xs ≤ 1
      → 1 ≤ count_if (is_row k z) xs
      → id_of k xs ≡ some z
  unfolding id_of
  id_of-row k z [] u h = absurd (omega (arith, h))
  id_of-row k z (x ∷ xs) u h = elim (Bool-cases (o.eqb (rows.get_value x) k)) [
    | inr e ↦ rw e (id_of-row k z xs (omega (arith, u)) (omega (arith, rw e at h)))
    | inl e ↦
        rw e (ap some ((eqb_ℤ_iff (rows.item_id x) z).0 (ground (arith, e, u, h, row_le k z xs))))
  ]

  -- Sets with the same items know the same ids.
  pub id_of-SameItems :
      (k : Value) (xs ys : List Item)
      → SameItems xs ys
      → count_key rows.get_value k ys ≤ 1
      → id_of k xs ≡ id_of k ys
  id_of-SameItems k xs ys c u = cases (id_of k xs) refl
    where
      cases : (r : Option ℤ) → id_of k xs ≡ r → id_of k xs ≡ id_of k ys
      cases none h =
          h
          ∙ sym (
              id_of-absent k ys
                (sym (c.counts (λ x. o.eqb (rows.get_value x) k)) ∙ id_of-none k xs h))
      cases (some z) h =
          h ∙ sym (id_of-row k z ys u (omega (arith, id_of-some k z xs h, c.counts (is_row k z))))

  pub id_of-at :
      (k : Value) (xs : List Item) (i : ℕ) (x : Item)
      → ((k : Value) → count_key rows.get_value k xs ≤ 1)
      → get_elem? xs i ≡ some x
      → o.eqb (rows.get_value x) k ≡ true
      → id_of k xs ≡ some (rows.item_id x)
  id_of-at k xs i x u e h = id_of-row k (rows.item_id x) xs (u k) (
      count_if-get_elem? (is_row k (rows.item_id x)) xs i x e
        (ground (arith, h, (eqb_ℤ_iff (rows.item_id x) (rows.item_id x)).1 refl)))

  -- What a search of a kept set leaves
  pub record Sought (k : Value) (s : SmallSet Item) (found : Option ℕ × SmallSet Item)
      : Type 0 where
    pub finds : Finds rows.get_value k found.1.items found.0
    pub kept : IsKept found.1
    pub same : (k : Value) → id_of k found.1.items ≡ id_of k s.items

  pub search_lem :
      (sort : List Item → List Item)
      → IsSort rows.get_value sort
      → (k : Value) (s : SmallSet Item) → IsKept s
      → Sought k s (search rows.get_value sort k s)
  unfolding search
  search_lem sort is_sort k s h =
      let f = find_lem rows.get_value sort is_sort k s h.tidy in
      rw (f.returns, search)
        (record {
          finds = f.finds;
          kept = record {
            tidy = f.tidy;
            unique = λ k. rw (f.same.counts (λ x. o.eqb (rows.get_value x) k)) (h.unique k);
          };
          same = λ k. id_of-SameItems k f.after.items s.items f.same (h.unique k);
        })
