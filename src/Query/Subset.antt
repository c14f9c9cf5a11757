-- ===== src/Query/Subset.antt =====
-- The test of whether one set of variable codes is a subset of another, and of whether one range of
-- priorities is in another.
use dballe.Prelude.{
  ℕ, ◌<◌, ◌≡◌, refl, Bool, true, false, ◌&&◌, ◌||◌, arith, ltb, ◌==◌, List, [], ◌∷◌, Bool-cases,
  inl, inr,
}
use dballe.Prelude.Int.{ℤ, leb_ℤ}
use dballe.Prelude.Words.{is_missing_int}
use dballe.SortedVector.{All}
use mathlib.Core.Path.{subst}
use dballe.Query.{is_subset, is_subrange}

-- The order in which std::set is walked
abbrev pub Increasing : List ℕ → Type 0
Increasing [] = Unit
Increasing (x ∷ xs) = All (λ y. x < y) xs × Increasing xs

abbrev pub elem : ℕ → List ℕ → Bool
elem x [] = false
elem x (y ∷ ys) = (x == y) || elem x ys

-- Each member of the first set is in the second.
abbrev pub all_in : List ℕ → List ℕ → Bool
all_in [] sup = true
all_in (x ∷ xs) sup = elem x sup && all_in xs sup

elem-below : (x y : ℕ) (ys : List ℕ) → x < y → All (λ z. y < z) ys → elem x ys ≡ false
elem-below x y [] h a = refl
elem-below x y (z ∷ zs) h a = ground (arith, elem-below x y zs h a.1, a.0)

all_in-skip :
    (xs : List ℕ) (y : ℕ) (ys : List ℕ) → All (λ z. y < z) xs → all_in xs (y ∷ ys) ≡ all_in xs ys
all_in-skip [] y ys a = refl
all_in-skip (x ∷ xs) y ys a = ground (arith, all_in-skip xs y ys a.1, a.0)

All-above : (x y : ℕ) (xs : List ℕ) → y < x → All (λ z. x < z) xs → All (λ z. y < z) xs
All-above x y [] h a = tt
All-above x y (z ∷ zs) h a = (omega (arith, a.0), All-above x y zs h a.1)

-- The walk over two sets of codes, each in increasing order, tells whether each member of the first is
-- in the second.
pub is_subset-all_in :
    (sub sup : List ℕ) → Increasing sub → Increasing sup → is_subset sub sup ≡ all_in sub sup
unfolding is_subset
is_subset-all_in [] [] a b = refl
is_subset-all_in (x ∷ xs) [] a b = refl
is_subset-all_in [] (y ∷ sup) a b = refl
is_subset-all_in (x ∷ xs) (y ∷ sup) a b = elim (Bool-cases (x == y)) [
  | inl e ↦
      let same : x ≡ y = ground arith in
      let above : All (λ z. y < z) xs = subst (λ w. All (λ z. w < z) xs) same a.0 in
      rw (e, is_subset-all_in xs sup a.1 b.1, all_in-skip xs y sup above) refl
  | inr e ↦ elim (Bool-cases (ltb x y)) [
    | inl l ↦ rw (e, l, elem-below x y sup (ground arith) b.0) refl
    | inr l ↦
        rw
          (
            e,
            l,
            is_subset-all_in (x ∷ xs) sup a b.1,
            all_in-skip xs y sup (All-above x y xs (ground arith) a.0),
          )
          refl
  ]
]

-- Whether a value is in a range of which a missing bound is open
abbrev pub admits : ℤ → ℤ → ℤ → Bool
admits lo hi v = (is_missing_int lo || leb_ℤ lo v) && (is_missing_int hi || leb_ℤ v hi)

-- Each value in a range is in the range that it is found to be a part of.
pub is_subrange_sound :
    (sub1 sub2 sup1 sup2 v : ℤ)
    → is_subrange sub1 sub2 sup1 sup2 ≡ true
    → admits sub1 sub2 v ≡ true
    → admits sup1 sup2 v ≡ true
unfolding is_subrange
is_subrange_sound sub1 sub2 sup1 sup2 v h k = ground arith
