-- ===== src/SortedVector/Exact.antt =====
-- The binary search of Values::find and Contexts::find, which stops at an item with the key. `hi`
-- here is `high` + 1, since `high` may pass below the first item.
use dballe.Prelude.{
  ℕ, zero, suc, ◌+◌, ◌-◌, ◌/◌, ◌≤◌, ◌<◌, ◌≡◌, refl, sym, ◌∙◌, ◌⊎◌, Bool, true, false, arith, ltb,
  List, Option, some, none, get_elem?, length, Bool-cases, inl, inr,
}
use dballe.Prelude.Order.{Ord, not_lt_trans, not_eqb}
use dballe.SortedVector.{Ascending}
use dballe.SortedVector.Search.{
  get_elem?-total, count_if-zero, Ascending-get_elem?, Finds, at, absent,
}

module _ {ℓ} {A : Type ℓ} (left right : A → Bool) where
  -- `left` and `right` are the tests of the comparison with the middle item.
  unfoldable pub exact_loop : ℕ → List A → ℕ → ℕ → Option (Option ℕ)
  exact_loop zero xs lo hi = none
  exact_loop (suc fuel) xs lo hi = elim (ltb lo hi) [
    | false ↦ some none
    | true ↦ elim (get_elem? xs (lo + (hi - 1 - lo) / 2)) [
      | none ↦ none
      | some x ↦ elim (left x) [
        | true ↦ exact_loop fuel xs lo (lo + (hi - 1 - lo) / 2)
        | false ↦ elim (right x) [
          | true ↦ exact_loop fuel xs (lo + (hi - 1 - lo) / 2 + 1) hi
          | false ↦ some (some (lo + (hi - 1 - lo) / 2))
        ]
      ]
    ]
  ]

module _ {ℓ κ} {A : Type ℓ} {K : Type κ} ⦃o : Ord K⦄ (key : A → K) (k : K) (left right : A → Bool)
    (xs : List A) (left-eq : (i : ℕ) (x : A) → get_elem? xs i ≡ some x → left x ≡ o.lt k (key x))
    (right-eq : (i : ℕ) (x : A) → get_elem? xs i ≡ some x → right x ≡ o.lt (key x) k)
    (a : Ascending key xs) where
  lower :
      (i j : ℕ) (x y : A)
      → i ≤ j
      → get_elem? xs i ≡ some x
      → get_elem? xs j ≡ some y
      → right y ≡ true
      → right x ≡ true
  lower i j x y le p q h = elim (Bool-cases (right x)) [
    | inl e ↦ e
    | inr e ↦ cc (
      h,
      right-eq j y q,
      not_lt_trans k (key x) (key y) (sym (right-eq i x p) ∙ e)
          (Ascending-get_elem? key xs i j x y a le p q),
    )
  ]

  higher :
      (i j : ℕ) (x y : A)
      → i ≤ j
      → get_elem? xs i ≡ some x
      → get_elem? xs j ≡ some y
      → left x ≡ true
      → left y ≡ true
  higher i j x y le p q h = elim (Bool-cases (left y)) [
    | inl e ↦ e
    | inr e ↦ cc (
      h,
      left-eq i x p,
      not_lt_trans (key x) (key y) k (Ascending-get_elem? key xs i j x y a le p q)
          (sym (left-eq j y q) ∙ e),
    )
  ]

  differs :
      (i : ℕ) (x : A)
      → get_elem? xs i ≡ some x
      → (left x ≡ true) ⊎ (right x ≡ true)
      → o.eqb (key x) k ≡ false
  differs i x p (inl h) = not_eqb (key x) k (inr (sym (left-eq i x p) ∙ h))
  differs i x p (inr h) = not_eqb (key x) k (inl (sym (right-eq i x p) ∙ h))

  same :
      (i : ℕ) (x : A)
      → get_elem? xs i ≡ some x
      → left x ≡ false
      → right x ≡ false
      → o.eqb (key x) k ≡ true
  same i x p h g =
      (o.eqb_iff (key x) k).1
        (o.connected (key x) k (sym (right-eq i x p) ∙ g) (sym (left-eq i x p) ∙ h))

  -- The items before `lo` are to the left of the key, and those from `hi` on to the right.
  outside :
      (lo hi i : ℕ) (x : A)
      → hi ≤ lo
      → ((i : ℕ) (x : A) → i < lo → get_elem? xs i ≡ some x → right x ≡ true)
      → ((i : ℕ) (x : A) → hi ≤ i → get_elem? xs i ≡ some x → left x ≡ true)
      → get_elem? xs i ≡ some x
      → o.eqb (key x) k ≡ false
  outside lo hi i x le pre post e = elim (Bool-cases (ltb i lo)) [
    | inl h ↦ differs i x e (inr (pre i x (ground arith) e))
    | inr h ↦ differs i x e (inl (post i x (ground arith) e))
  ]

  pub exact_loop_lem :
      (fuel lo hi : ℕ)
      → hi - lo < fuel
      → hi ≤ length xs
      → ((i : ℕ) (x : A) → i < lo → get_elem? xs i ≡ some x → right x ≡ true)
      → ((i : ℕ) (x : A) → hi ≤ i → get_elem? xs i ≡ some x → left x ≡ true)
      → (r : Option ℕ) × (exact_loop left right fuel xs lo hi ≡ some r) × Finds key k xs r
  unfolding exact_loop
  exact_loop_lem zero lo hi f len pre post = absurd (omega arith)
  exact_loop_lem (suc fuel) lo hi f len pre post = elim (Bool-cases (ltb lo hi)) [
    | inr h ↦
        rw (h, exact_loop)
          (
            none,
            refl,
            absent (count_if-zero _ xs (λ i x e. outside lo hi i x (ground arith) pre post e)),
          )
    | inl h ↦
        let lt : lo < hi = ground arith in
        let (x, e) = get_elem?-total xs (lo + (hi - 1 - lo) / 2) (omega arith) in
        rw (h, exact_loop, e)
          (elim (Bool-cases (left x)) [
            | inl l ↦
                rw (l, exact_loop)
                  (exact_loop_lem fuel lo (lo + (hi - 1 - lo) / 2) (omega arith) (omega arith) pre
                    (λ i y g p. higher (lo + (hi - 1 - lo) / 2) i x y g e p l))
            | inr l ↦
                rw (l, exact_loop)
                  (elim (Bool-cases (right x)) [
                    | inl r ↦
                        rw (r, exact_loop)
                          (exact_loop_lem fuel (lo + (hi - 1 - lo) / 2 + 1) hi (omega arith) len
                            (λ i y g p. lower i (lo + (hi - 1 - lo) / 2) y x (omega arith) p e r)
                            post)
                    | inr r ↦
                        rw (r, exact_loop)
                          (
                            some (lo + (hi - 1 - lo) / 2),
                            refl,
                            at (lo + (hi - 1 - lo) / 2) x e (same (lo + (hi - 1 - lo) / 2) x e l r),
                          )
                  ])
          ])
  ]
