-- ===== src/SortedVector/Insertion.antt =====
-- The insertion sort step keeps the order and the items.
use dballe.Prelude.{◌+◌, ◌≡◌, refl, Bool, false, arith, List, [], ◌∷◌, Bool-cases, inl, inr}
use dballe.Prelude.Order.{Ord, not_lt_trans}
use dballe.SortedVector.{
  All, count_if, reverse_onto, NoneBelow, NoneAbove, Ascending, Descending, insert_back,
}

pub count_if-reverse_onto {ℓ} :
    {A : Type ℓ} (p : A → Bool) (xs ys : List A)
    → count_if p (reverse_onto xs ys) ≡ count_if p xs + count_if p ys
count_if-reverse_onto p [] ys = omega arith
count_if-reverse_onto p (x ∷ xs) ys = omega (arith, count_if-reverse_onto p xs (x ∷ ys))

module _ {ℓ κ} {A : Type ℓ} {K : Type κ} ⦃o : Ord K⦄ (key : A → K) where
  pub count_if-insert_back :
      (p : A → Bool) (x : A) (ps : List A) → count_if p (insert_back key x ps) ≡ count_if p (x ∷ ps)
  unfolding insert_back
  count_if-insert_back p x [] = refl
  count_if-insert_back p x (q ∷ qs) = elim (Bool-cases (o.lt (key x) (key q))) [
    | inl h ↦ rw h (omega (arith, count_if-insert_back p x qs))
    | inr h ↦ rw h refl
  ]

  NoneAbove-insert_back :
      (k : K) (x : A) (ps : List A)
      → o.lt k (key x) ≡ false
      → NoneAbove key k ps
      → NoneAbove key k (insert_back key x ps)
  unfolding insert_back
  NoneAbove-insert_back k x [] h n = (h, tt)
  NoneAbove-insert_back k x (q ∷ qs) h n = elim (Bool-cases (o.lt (key x) (key q))) [
    | inl e ↦ rw e (n.0, NoneAbove-insert_back k x qs h n.1)
    | inr e ↦ rw e (h, n)
  ]

  NoneAbove-trans :
      (j k : K) (ps : List A) → o.lt k j ≡ false → NoneAbove key j ps → NoneAbove key k ps
  NoneAbove-trans j k [] h n = tt
  NoneAbove-trans j k (q ∷ qs) h n = (not_lt_trans (key q) j k n.0 h, NoneAbove-trans j k qs h n.1)

  pub Descending-insert_back :
      (x : A) (ps : List A) → Descending key ps → Descending key (insert_back key x ps)
  unfolding insert_back
  Descending-insert_back x [] d = (tt, tt)
  Descending-insert_back x (q ∷ qs) d = elim (Bool-cases (o.lt (key x) (key q))) [
    | inl e ↦ rw e (
      NoneAbove-insert_back (key q) x qs (o.asym (key x) (key q) e) d.0,
      Descending-insert_back x qs d.1,
    )
    | inr e ↦ rw e ((e, NoneAbove-trans (key q) (key x) qs e d.0), d)
  ]

  -- Each item of the one list is not above any of the other.
  abbrev pub AllBefore : List A → List A → Type 0
  AllBefore xs ys = All (λ x. NoneBelow key (key x) ys) xs

  AllBefore-cons :
      (x : A) (xs ys : List A) → NoneAbove key (key x) xs → AllBefore xs ys → AllBefore xs (x ∷ ys)
  AllBefore-cons x [] ys n b = tt
  AllBefore-cons x (z ∷ zs) ys n b = ((n.0, b.0), AllBefore-cons x zs ys n.1 b.1)

  pub Ascending-reverse_onto :
      (xs ys : List A)
      → Descending key xs
      → Ascending key ys
      → AllBefore xs ys
      → Ascending key (reverse_onto xs ys)
  Ascending-reverse_onto [] ys d a b = a
  Ascending-reverse_onto (x ∷ xs) ys d a b =
      Ascending-reverse_onto xs (x ∷ ys) d.1 (b.0, a) (AllBefore-cons x xs ys d.0 b.1)

  -- Each item of the one list is not below any of the other.
  abbrev pub AllAfter : List A → List A → Type 0
  AllAfter xs ys = All (λ x. NoneAbove key (key x) ys) xs

  AllAfter-cons :
      (x : A) (xs ys : List A) → NoneBelow key (key x) xs → AllAfter xs ys → AllAfter xs (x ∷ ys)
  AllAfter-cons x [] ys n b = tt
  AllAfter-cons x (z ∷ zs) ys n b = ((n.0, b.0), AllAfter-cons x zs ys n.1 b.1)

  pub Descending-reverse_onto :
      (xs ys : List A)
      → Ascending key xs
      → Descending key ys
      → AllAfter xs ys
      → Descending key (reverse_onto xs ys)
  Descending-reverse_onto [] ys d a b = a
  Descending-reverse_onto (x ∷ xs) ys d a b =
      Descending-reverse_onto xs (x ∷ ys) d.1 (b.0, a) (AllAfter-cons x xs ys d.0 b.1)

  pub AllBefore-nil : (xs : List A) → AllBefore xs []
  AllBefore-nil [] = tt
  AllBefore-nil (x ∷ xs) = (tt, AllBefore-nil xs)

  pub AllAfter-nil : (xs : List A) → AllAfter xs []
  AllAfter-nil [] = tt
  AllAfter-nil (x ∷ xs) = (tt, AllAfter-nil xs)
