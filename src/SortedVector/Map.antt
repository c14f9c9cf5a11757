-- ===== src/SortedVector/Map.antt =====
-- A vector sorted by a key as a finite map: `lookup` is the abstract view, and the operations that
-- Values and Contexts share are shown to act on it as on a map.
use dballe.Prelude.{
  ℕ, zero, suc, ◌≤◌, ◌≡◌, refl, sym, ◌∙◌, ◌⊎◌, ap, Bool, true, false, arith, if◌then◌else◌, List,
  [], ◌∷◌, Option, some, none, get_elem?, length, Bool-cases, inl, inr,
}
use dballe.Prelude.Order.{Ord}
use dballe.SortedVector.{count_if, reverse_onto, Ascending, insert_back}
use dballe.SortedVector.Insertion.{
  count_if-reverse_onto, count_if-insert_back, Descending-insert_back, Ascending-reverse_onto,
  Descending-reverse_onto, AllAfter-nil, AllBefore-nil,
}
use dballe.SortedVector.Exact.{exact_loop}

-- std::vector::erase of the item at a place
abbrev pub erase {ℓ} : {A : Type ℓ} → List A → ℕ → List A
erase [] i = []
erase (x ∷ xs) zero = xs
erase (x ∷ xs) (suc i) = x ∷ erase xs i

pub count_if-get_elem? {ℓ} :
    {A : Type ℓ} (p : A → Bool) (xs : List A) (i : ℕ) (x : A)
    → get_elem? xs i ≡ some x
    → p x ≡ true
    → 1 ≤ count_if p xs
count_if-get_elem? p [] i x e h = cc
count_if-get_elem? p (y ∷ ys) zero x e h = ground (arith, h)
count_if-get_elem? p (y ∷ ys) (suc i) x e h = omega (arith, count_if-get_elem? p ys i x e h)

module _ {ℓ κ} {A : Type ℓ} {K : Type κ} ⦃o : Ord K⦄ (key : A → K) where
  -- The item with a key
  abbrev pub lookup : K → List A → Option A
  lookup k [] = none
  lookup k (x ∷ xs) = if o.eqb (key x) k then some x else lookup k xs

  -- How many items have a key
  abbrev pub count_key : K → List A → ℕ
  count_key k = count_if (λ x. o.eqb (key x) k)

  pub record IsMap (xs : List A) : Type κ where
    pub ascending : Ascending key xs
    pub unique : (k : K) → count_key k xs ≤ 1

  -- The insertion sort of insert_new: the new item moves from the end towards the beginning.
  unfoldable pub insert_new : A → List A → List A
  unfolding insert_back
  insert_new x xs = reverse_onto (insert_back key x (reverse_onto xs [])) []

  -- The loop of `find`; the fuel is one more than the number of rounds that are needed
  unfoldable pub find : (A → Bool) → (A → Bool) → List A → Option (Option ℕ)
  unfolding exact_loop
  find left right xs = exact_loop left right (suc (length xs)) xs 0 (length xs)

  pub eqb_refl : (k : K) → o.eqb k k ≡ true
  eqb_refl k = (o.eqb_iff k k).1 refl

  pub head_differs :
      (y : A) (ys : List A) (i : ℕ) (x : A)
      → ((k : K) → count_key k (y ∷ ys) ≤ 1)
      → get_elem? ys i ≡ some x
      → o.eqb (key y) (key x) ≡ false
  head_differs y ys i x u e = elim (Bool-cases (o.eqb (key y) (key x))) [
    | inr h ↦ h
    | inl h ↦ absurd (
        ground (
          arith,
          h,
          u (key x),
          count_if-get_elem? (λ z. o.eqb (key z) (key x)) ys i x e (eqb_refl (key x)),
        ))
  ]

  pub unique_tail :
      (y : A) (ys : List A) → ((k : K) → count_key k (y ∷ ys) ≤ 1) → (k : K) → count_key k ys ≤ 1
  unique_tail y ys u k = omega (arith, u k)

  pub lookup-absent : (k : K) (xs : List A) → count_key k xs ≡ 0 → lookup k xs ≡ none
  lookup-absent k [] h = refl
  lookup-absent k (x ∷ xs) h = elim (Bool-cases (o.eqb (key x) k)) [
    | inl e ↦ absurd (ground (arith, e, h))
    | inr e ↦ rw e (lookup-absent k xs (omega (arith, h)))
  ]

  pub lookup-at :
      (k : K) (xs : List A) (i : ℕ) (x : A)
      → ((k : K) → count_key k xs ≤ 1)
      → get_elem? xs i ≡ some x
      → o.eqb (key x) k ≡ true
      → lookup k xs ≡ some x
  lookup-at k [] i x u e h = cc
  lookup-at k (y ∷ ys) zero x u e h = let f : o.eqb (key y) k ≡ true = cc in rw f e
  lookup-at k (y ∷ ys) (suc i) x u e h =
      let same : key x ≡ k = (o.eqb_iff (key x) k).0 h in
      let f : o.eqb (key y) k ≡ false = ap (o.eqb (key y)) (sym same) ∙ head_differs y ys i x u e in
      rw f (lookup-at k ys i x (unique_tail y ys u) e h)

  -- `lookup` in a list that is given reversed
  abbrev lookup_back : K → List A → Option A → Option A
  lookup_back k [] r = r
  lookup_back k (p ∷ ps) r = lookup_back k ps (if o.eqb (key p) k then some p else r)

  lookup-reverse_onto :
      (k : K) (ps ys : List A) → lookup k (reverse_onto ps ys) ≡ lookup_back k ps (lookup k ys)
  lookup-reverse_onto k [] ys = refl
  lookup-reverse_onto k (p ∷ ps) ys = lookup-reverse_onto k ps (p ∷ ys)

  other_side : (a b k : K) → a ≡ k → o.eqb a b ≡ false → o.eqb b k ≡ false
  other_side a b k e h = elim (Bool-cases (o.eqb b k)) [
    | inr g ↦ g
    | inl g ↦ cc (h, (o.eqb_iff a b).1 (e ∙ sym ((o.eqb_iff b k).0 g)))
  ]

  lookup_back-insert_back :
      (k : K) (x : A) (ps : List A) (r : Option A)
      → count_key (key x) ps ≡ 0
      → lookup_back k (insert_back key x ps) r
        ≡ lookup_back k ps (if o.eqb (key x) k then some x else r)
  unfolding insert_back
  lookup_back-insert_back k x [] r h = refl
  lookup_back-insert_back k x (p ∷ ps) r h = elim (Bool-cases (o.lt (key x) (key p))) [
    | inr l ↦ rw l refl
    | inl l ↦
        rw
          (
            l,
            lookup_back-insert_back k x ps (if o.eqb (key p) k then some p else r)
                (omega (arith, h)),
          )
          (ap (lookup_back k ps)
            (swap (Bool-cases (o.eqb (key p) (key x))) (Bool-cases (o.eqb (key p) k))))
  ]
    where
      swap :
          (o.eqb (key p) (key x) ≡ true) ⊎ (o.eqb (key p) (key x) ≡ false)
          → (o.eqb (key p) k ≡ true) ⊎ (o.eqb (key p) k ≡ false)
          → (if o.eqb (key x) k then some x else (if o.eqb (key p) k then some p else r))
            ≡ (if o.eqb (key p) k then some p else (if o.eqb (key x) k then some x else r))
      swap (inl e) c = absurd (ground (arith, e, h))
      swap (inr e) (inr c) = rw c refl
      swap (inr e) (inl c) =
          let same : key p ≡ k = (o.eqb_iff (key p) k).0 c in
          let f : o.eqb (key x) k ≡ false = other_side (key p) (key x) k same e in rw (c, f) refl

  abbrev lookup_or : K → List A → Option A → Option A
  lookup_or k [] r = r
  lookup_or k (x ∷ xs) r = if o.eqb (key x) k then some x else lookup_or k xs r

  lookup_back-reverse_onto :
      (k : K) (xs ps : List A) (r : Option A)
      → lookup_back k (reverse_onto xs ps) r ≡ lookup_back k ps (lookup_or k xs r)
  lookup_back-reverse_onto k [] ps r = refl
  lookup_back-reverse_onto k (x ∷ xs) ps r = lookup_back-reverse_onto k xs (x ∷ ps) r

  lookup_or-none : (k : K) (xs : List A) → lookup_or k xs none ≡ lookup k xs
  lookup_or-none k [] = refl
  lookup_or-none k (x ∷ xs) = rw (lookup_or-none k xs) refl

  lookup_or-absent :
      (k : K) (xs : List A) (r : Option A) → count_key k xs ≡ 0 → lookup_or k xs r ≡ r
  lookup_or-absent k [] r h = refl
  lookup_or-absent k (x ∷ xs) r h = elim (Bool-cases (o.eqb (key x) k)) [
    | inl e ↦ absurd (ground (arith, e, h))
    | inr e ↦ rw e (lookup_or-absent k xs r (omega (arith, h)))
  ]

  lookup_or-insert :
      (k : K) (x : A) (xs : List A)
      → count_key (key x) xs ≡ 0
      → lookup_or k xs (if o.eqb (key x) k then some x else none)
        ≡ (if o.eqb (key x) k then some x else lookup k xs)
  lookup_or-insert k x xs h = elim (Bool-cases (o.eqb (key x) k)) [
    | inr e ↦ rw e (lookup_or-none k xs)
    | inl e ↦
        let none_there : count_key k xs ≡ 0 =
          ap (λ c. count_key c xs) (sym ((o.eqb_iff (key x) k).0 e)) ∙ h in
        rw e (lookup_or-absent k xs (some x) none_there)
  ]

  -- A new item is found by its key, and the others as before.
  pub lookup-insert_new :
      (k : K) (x : A) (xs : List A)
      → count_key (key x) xs ≡ 0
      → lookup k (insert_new x xs) ≡ (if o.eqb (key x) k then some x else lookup k xs)
  unfolding insert_new
  lookup-insert_new k x xs h =
      let none_there : count_key (key x) (reverse_onto xs []) ≡ 0 =
        omega (arith, h, count_if-reverse_onto (λ y. o.eqb (key y) (key x)) xs []) in
      lookup-reverse_onto k (insert_back key x (reverse_onto xs [])) []
      ∙ lookup_back-insert_back k x (reverse_onto xs []) none none_there
      ∙ lookup_back-reverse_onto k xs [] (if o.eqb (key x) k then some x else none)
      ∙ lookup_or-insert k x xs h

  pub count_if-insert_new :
      (p : A → Bool) (x : A) (xs : List A) → count_if p (insert_new x xs) ≡ count_if p (x ∷ xs)
  unfolding insert_new
  count_if-insert_new p x xs = omega (
    arith,
    count_if-reverse_onto p (insert_back key x (reverse_onto xs [])) [],
    count_if-insert_back key p x (reverse_onto xs []),
    count_if-reverse_onto p xs [],
  )

  pub insert_new-IsMap :
      (x : A) (xs : List A) → IsMap xs → count_key (key x) xs ≡ 0 → IsMap (insert_new x xs)
  insert_new-IsMap x xs m h = record {
    ascending = unfold insert_new in sorted;
    unique = λ k. one k (Bool-cases (o.eqb (key x) k));
  }
    where
      sorted : Ascending key (reverse_onto (insert_back key x (reverse_onto xs [])) [])
      sorted =
          Ascending-reverse_onto key (insert_back key x (reverse_onto xs [])) []
            (Descending-insert_back key x (reverse_onto xs [])
              (Descending-reverse_onto key xs [] m.ascending tt (AllAfter-nil key xs)))
            tt (AllBefore-nil key (insert_back key x (reverse_onto xs [])))

      one :
          (k : K)
          → (o.eqb (key x) k ≡ true) ⊎ (o.eqb (key x) k ≡ false)
          → count_key k (insert_new x xs) ≤ 1
      one k (inl e) =
          let none_there : count_key k xs ≡ 0 =
            ap (λ c. count_key c xs) (sym ((o.eqb_iff (key x) k).0 e)) ∙ h in
          ground (arith, e, count_if-insert_new (λ y. o.eqb (key y) k) x xs, none_there)
      one k (inr e) = ground (arith, e, count_if-insert_new (λ y. o.eqb (key y) k) x xs, m.unique k)
