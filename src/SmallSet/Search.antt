-- ===== src/SmallSet/Search.antt =====
-- Searching a SmallSet: `find` finds an item with the value just when there is one, and sorting the
-- vector on the way loses nothing.
use dballe.Prelude.{
  ℕ, suc, ◌+◌, ◌-◌, ◌≤◌, ◌≡◌, refl, ◌∙◌, ◌⊎◌, ap, Bool, true, arith, ltb, ◌==◌, List, [], ◌∷◌, ◌++◌,
  Option, some, none, get_elem?, length, take, drop, take-append-drop, Bool-cases, inl, inr,
}
use dballe.Prelude.Order.{Ord}
use dballe.SortedVector.{count_if, SameItems, reverse_onto, Ascending, Descending, insert_back}
use dballe.SortedVector.Insertion.{
  count_if-reverse_onto, count_if-insert_back, Descending-insert_back, Ascending-reverse_onto,
  Descending-reverse_onto, AllAfter-nil, AllBefore-nil,
}
use dballe.SortedVector.Search.{partition_loop_lem, lt_length, Finds, at, absent, answer-Finds}
use dballe.SmallSet.{
  SmallSet, small_set, rearrange, rearrange_dirty, binary_search, linear_search, prepare, find,
}

pub count_if-append {ℓ} :
    {A : Type ℓ} (p : A → Bool) (xs ys : List A)
    → count_if p (xs ++ ys) ≡ count_if p xs + count_if p ys
count_if-append p [] ys = omega arith
count_if-append p (x ∷ xs) ys = omega (arith, count_if-append p xs ys)

module _ {ℓ κ} {Item : Type ℓ} {Value : Type κ} ⦃o : Ord Value⦄ (get_value : Item → Value) where
  -- All but the dirty items are sorted.
  pub record IsTidy (s : SmallSet Item) : Type 0 where
    pub within : s.dirty ≤ length s.items
    pub sorted : Ascending get_value (take (length s.items - s.dirty) s.items)

  Descending-rearrange :
      (ps xs : List Item)
      → Descending get_value ps
      → Descending get_value (rearrange get_value ps xs)
  unfolding rearrange
  Descending-rearrange ps [] d = d
  Descending-rearrange ps (x ∷ xs) d =
      Descending-rearrange (insert_back get_value x ps) xs (Descending-insert_back get_value x ps d)

  count_if-rearrange :
      (p : Item → Bool) (ps xs : List Item)
      → count_if p (rearrange get_value ps xs) ≡ count_if p ps + count_if p xs
  unfolding rearrange
  count_if-rearrange p ps [] = omega arith
  count_if-rearrange p ps (x ∷ xs) = omega (
    arith,
    count_if-rearrange p (insert_back get_value x ps) xs,
    count_if-insert_back get_value p x ps,
  )

  -- Rearranging a tidy set sorts it and keeps its items.
  pub Ascending-rearrange_dirty :
      (s : SmallSet Item) → IsTidy s → Ascending get_value (rearrange_dirty get_value s).items
  unfolding rearrange_dirty
  Ascending-rearrange_dirty s t =
      let clean = length s.items - s.dirty in
      let head = reverse_onto (take clean s.items) [] in
      let all = rearrange get_value head (drop clean s.items) in
      Ascending-reverse_onto get_value all []
        (Descending-rearrange head (drop clean s.items) (
          Descending-reverse_onto get_value (take clean s.items) [] t.sorted tt
            (AllAfter-nil get_value (take clean s.items))))
        tt (AllBefore-nil get_value all)

  pub SameItems-rearrange_dirty :
      (s : SmallSet Item) → SameItems (rearrange_dirty get_value s).items s.items
  unfolding rearrange_dirty
  SameItems-rearrange_dirty s = record {
    counts = λ p.
        let clean : ℕ = length s.items - s.dirty in
        omega (
          arith,
          count_if-reverse_onto p
              (rearrange get_value (reverse_onto (take clean s.items) []) (drop clean s.items)) [],
          count_if-rearrange p (reverse_onto (take clean s.items) []) (drop clean s.items),
          count_if-reverse_onto p (take clean s.items) [],
          count_if-append p (take clean s.items) (drop clean s.items),
          ap (count_if p) (take-append-drop clean s.items),
        );
  }

  count_if-true : (xs : List Item) → count_if (λ _. true) xs ≡ length xs
  count_if-true [] = refl
  count_if-true (x ∷ xs) = omega (arith, count_if-true xs)

  take-length : (xs : List Item) → take (length xs) xs ≡ xs
  take-length [] = refl
  take-length (x ∷ xs) = ap (λ ys. x ∷ ys) (take-length xs)

  -- A sorted vector makes a tidy set with no dirty items.
  IsTidy-clean : (xs : List Item) → Ascending get_value xs → IsTidy (small_set xs 0)
  IsTidy-clean xs a = record {
    within = omega arith;
    sorted = let e : length xs - 0 ≡ length xs = omega arith in rw (e, take-length xs) a;
  }

  -- The linear search finds the first item with the value.
  linear_search-Finds :
      (value : Value) (xs : List Item) (i : ℕ)
      → ((r : ℕ) × (x : Item) × (linear_search get_value i value xs ≡ some (i + r))
          × (get_elem? xs r ≡ some x)
          × (o.eqb (get_value x) value ≡ true))
        ⊎ ((linear_search get_value i value xs ≡ none)
            × (count_if (λ x. o.eqb (get_value x) value) xs ≡ 0))
  unfolding linear_search
  linear_search-Finds value [] i = inr (refl, refl)
  linear_search-Finds value (x ∷ xs) i = elim (Bool-cases (o.eqb (get_value x) value)) [
    | inl h ↦ rw h (inl (0, x, ap some (omega arith), refl, h))
    | inr h ↦ rw h (elim (linear_search-Finds value xs (suc i)) [
      | inl (r, y, e, g, same) ↦ inl (suc r, y, e ∙ ap some (omega arith), g, same)
      | inr (e, g) ↦ inr (e, omega (arith, g))
    ])
  ]

  found_at : {a : Option ℕ} (r : ℕ) → a ≡ some (0 + r) → a ≡ some r
  found_at r e = e ∙ ap some (omega arith)

  linear_search-answer :
      (value : Value) (xs : List Item)
      → Finds get_value value xs (linear_search get_value 0 value xs)
  linear_search-answer value xs = elim (linear_search-Finds value xs 0) [
    | inl (r, x, e, g, same) ↦ rw (found_at r e) (at r x g same)
    | inr (e, none_there) ↦ rw e (absent none_there)
  ]

  empty-count : (p : Item → Bool) (xs : List Item) → length xs ≡ 0 → count_if p xs ≡ 0
  empty-count p [] h = refl
  empty-count p (x ∷ xs) h = absurd (omega (arith, h))

  -- What std::sort promises.
  pub record IsSort (sort : List Item → List Item) : Type ℓ where
    pub ascending : (xs : List Item) → Ascending get_value (sort xs)
    pub same : (xs : List Item) → SameItems (sort xs) xs

  pub binary_search-Finds :
      (value : Value) (xs : List Item)
      → Ascending get_value xs
      → (r : Option ℕ) × (binary_search get_value value xs ≡ some r) × Finds get_value value xs r
  unfolding binary_search
  binary_search-Finds value xs a =
      let (n, e, s) =
        partition_loop_lem get_value value xs a (suc (length xs)) 0 (length xs) (omega arith)
          (omega arith) (omega arith) (λ i x h. absurd (omega arith))
          (λ i x h g. absurd (omega (arith, lt_length xs i x g))) in
      let (r, f, g) = answer-Finds get_value value xs a n s in (r, rw (e, binary_search) f, g)

  module _ (sort : List Item → List Item) (is_sort : IsSort sort) where
    prepare_lem :
        (s : SmallSet Item)
        → IsTidy s
        → Ascending get_value (prepare get_value sort s).items
          × SameItems (prepare get_value sort s).items s.items
          × IsTidy (prepare get_value sort s)
    unfolding prepare
    prepare_lem s t = elim (Bool-cases (ltb 16 s.dirty)) [
      | inl h ↦ rw h (
        is_sort.ascending s.items,
        is_sort.same s.items,
        IsTidy-clean (sort s.items) (is_sort.ascending s.items),
      )
      | inr h ↦ elim (Bool-cases (s.dirty == 0)) [
        | inl z ↦
            let e : length s.items - s.dirty ≡ length s.items = ground arith in
            rw (h, z) (rw (e, take-length s.items) at t.sorted, record { counts = λ p. refl }, t)
        | inr z ↦
            rw (h, z)
              (
                Ascending-rearrange_dirty s t,
                SameItems-rearrange_dirty s,
                IsTidy-clean (rearrange_dirty get_value s).items (Ascending-rearrange_dirty s t),
              )
      ]
    ]

    -- What a search of the set `s` for a value leaves
    pub record Found (value : Value) (s : SmallSet Item) : Type (ℓ ⊔ κ) where
      pub position : Option ℕ
      pub after : SmallSet Item
      pub returns : find get_value sort value s ≡ some (position, after)
      pub finds : Finds get_value value after.items position
      pub same : SameItems after.items s.items
      pub tidy : IsTidy after

    -- On a tidy set, `find` returns with the place of an item that has the value, or with none when
    -- no item has it; the set keeps its items and stays tidy.
    pub find_lem : (value : Value) (s : SmallSet Item) → IsTidy s → Found value s
    unfolding find
    find_lem value s t = elim (Bool-cases (length s.items == 0)) [
      | inl h ↦ record {
        position = none;
        after = s;
        returns = rw h refl;
        finds = absent (empty-count (λ x. o.eqb (get_value x) value) s.items (ground (arith, h)));
        same = record { counts = λ p. refl };
        tidy = t;
      }
      | inr h ↦ elim (Bool-cases (ltb (length s.items) 6)) [
        | inl l ↦ record {
          position = linear_search get_value 0 value s.items;
          after = s;
          returns = rw (h, l) refl;
          finds = linear_search-answer value s.items;
          same = record { counts = λ p. refl };
          tidy = t;
        }
        | inr l ↦
            let (sorted, same, tidy) = prepare_lem s t in
            let (r, e, f) = binary_search-Finds value (prepare get_value sort s).items sorted in
            record {
              position = r;
              after = prepare get_value sort s;
              returns = rw (h, l) (rw (e, find) refl);
              finds = f;
              same = same;
              tidy = tidy;
            }
      ]
    ]
