-- ===== src/SmallSet/Everywhere.antt =====
-- What holds of every item of a SmallSet holds of every item after a search, which may sort them.
use dballe.Prelude.{
  ℕ, zero, suc, ◌-◌, ltb, ◌==◌, List, [], ◌∷◌, ◌++◌, Option, some, none, length, take, drop,
  Bool-cases, inl, inr,
}
use dballe.Prelude.Order.{Ord}
use dballe.SortedVector.{All, reverse_onto, insert_back}
use dballe.SmallSet.{SmallSet, rearrange, rearrange_dirty, prepare, find, binary_search}

module _ {Item : Type 0} (P : Item → Type 0) where
  pub All-append : (xs : List Item) (x : Item) → All P xs → P x → All P (xs ++ x ∷ [])
  All-append [] x h p = (p, tt)
  All-append (y ∷ ys) x h p = (h.0, All-append ys x h.1 p)

  All-take : (n : ℕ) (xs : List Item) → All P xs → All P (take n xs)
  All-take zero xs h = tt
  All-take (suc n) [] h = tt
  All-take (suc n) (x ∷ xs) h = (h.0, All-take n xs h.1)

  All-drop : (n : ℕ) (xs : List Item) → All P xs → All P (drop n xs)
  All-drop zero xs h = h
  All-drop (suc n) [] h = tt
  All-drop (suc n) (x ∷ xs) h = All-drop n xs h.1

  All-reverse_onto : (xs ys : List Item) → All P xs → All P ys → All P (reverse_onto xs ys)
  All-reverse_onto [] ys h k = k
  All-reverse_onto (x ∷ xs) ys h k = All-reverse_onto xs (x ∷ ys) h.1 (h.0, k)

  module _ {Value : Type 0} ⦃o : Ord Value⦄ (get_value : Item → Value) where
    All-insert_back :
        (x : Item) (ps : List Item) → P x → All P ps → All P (insert_back get_value x ps)
    unfolding insert_back
    All-insert_back x [] p h = (p, tt)
    All-insert_back x (y ∷ ys) p h = elim (Bool-cases (o.lt (get_value x) (get_value y))) [
      | inl l ↦ rw l (h.0, All-insert_back x ys p h.1)
      | inr l ↦ rw l (p, h)
    ]

    All-rearrange : (ps xs : List Item) → All P ps → All P xs → All P (rearrange get_value ps xs)
    unfolding rearrange
    All-rearrange ps [] h k = h
    All-rearrange ps (x ∷ xs) h k =
        All-rearrange (insert_back get_value x ps) xs (All-insert_back x ps k.0 h) k.1

    pub All-rearrange_dirty :
        (s : SmallSet Item) → All P s.items → All P (rearrange_dirty get_value s).items
    unfolding rearrange_dirty
    All-rearrange_dirty s h =
        let clean : ℕ = length s.items - s.dirty in
        All-reverse_onto
          (rearrange get_value (reverse_onto (take clean s.items) []) (drop clean s.items)) []
          (All-rearrange (reverse_onto (take clean s.items) []) (drop clean s.items)
            (All-reverse_onto (take clean s.items) [] (All-take clean s.items h) tt)
            (All-drop clean s.items h))
          tt

    module _ (sort : List Item → List Item)
        (all_sort : (xs : List Item) → All P xs → All P (sort xs)) where
      All-prepare : (s : SmallSet Item) → All P s.items → All P (prepare get_value sort s).items
      unfolding prepare
      All-prepare s h = elim (Bool-cases (ltb 16 s.dirty)) [
        | inl a ↦ rw a (all_sort s.items h)
        | inr a ↦ elim (Bool-cases (s.dirty == 0)) [
          | inl b ↦ rw (a, b) h
          | inr b ↦ rw (a, b) (All-rearrange_dirty s h)
        ]
      ]

      -- The set that a search leaves, if it returns
      abbrev pub set_after : SmallSet Item → Option (Option ℕ × SmallSet Item) → SmallSet Item
      set_after s none = s
      set_after s (some r) = r.1

      pub All-find :
          (value : Value) (s : SmallSet Item)
          → All P s.items
          → All P (set_after s (find get_value sort value s)).items
      unfolding find
      All-find value s h = elim (Bool-cases (length s.items == 0)) [
        | inl a ↦ rw a h
        | inr a ↦ elim (Bool-cases (ltb (length s.items) 6)) [
          | inl b ↦ rw (a, b) h
          | inr b ↦ rw (a, b) (go (binary_search get_value value (prepare get_value sort s).items))
        ]
      ]
        where
          go :
              (r : Option (Option ℕ))
              → All P
                  (set_after s (elim r [
                    | none ↦ none
                    | some pos ↦ some (pos, prepare get_value sort s)
                  ])).items
          go none = h
          go (some pos) = All-prepare s h
