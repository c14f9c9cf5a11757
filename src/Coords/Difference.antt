-- ===== src/Coords/Difference.antt =====
-- Comparing by `if (int res = a - b) return res;` against the order of std::tie.
use dballe.Prelude.{◌≡◌, List, [], ◌∷◌, arith}
use dballe.Prelude.Int.{ℤ, pos, ◌≤ℤ◌, ◌-ℤ◌, ltb_ℤ, eqb_ℤ}
use dballe.Prelude.Words.{sub32, missing_int}
use dballe.Prelude.Order.{int_ord, tie_eq, tie_lt}
use dballe.Coords.{first_difference32}

-- A field that is not negative: no difference of two such fields overflows.
abbrev pub IsNatural : ℤ → Type 0
IsNatural z = (pos 0 ≤ℤ z) × (z ≤ℤ missing_int)

pub sub32-eq : (a b : ℤ) → IsNatural a → IsNatural b → sub32 a b ≡ a -ℤ b
unfolding sub32 ◌-ℤ◌
sub32-eq a b h k = ground arith

module _ (x y : ℤ) (hx : IsNatural x) (hy : IsNatural y) where
  pub lt-difference : ltb_ℤ (sub32 x y) (pos 0) ≡ ltb_ℤ x y
  unfolding ◌-ℤ◌
  lt-difference = rw (sub32-eq x y hx hy) (ground arith)

  pub eq-difference : eqb_ℤ (sub32 x y) (pos 0) ≡ eqb_ℤ x y
  unfolding ◌-ℤ◌
  eq-difference = rw (sub32-eq x y hx hy) (ground arith)

  pub lt-last : tie_lt (x ∷ []) (y ∷ []) ≡ ltb_ℤ (sub32 x y) (pos 0)
  lt-last = rw lt-difference (ground arith)

  pub eq-last : tie_eq (x ∷ []) (y ∷ []) ≡ eqb_ℤ (sub32 x y) (pos 0)
  eq-last = rw eq-difference (ground arith)

  module _ (rest : ℤ) (xs ys : List ℤ) where
    pub lt-first :
        tie_lt xs ys ≡ ltb_ℤ rest (pos 0)
        → tie_lt (x ∷ xs) (y ∷ ys) ≡ ltb_ℤ (first_difference32 x y rest) (pos 0)
    lt-first h = ground (arith, lt-difference, eq-difference)

    pub eq-first :
        tie_eq xs ys ≡ eqb_ℤ rest (pos 0)
        → tie_eq (x ∷ xs) (y ∷ ys) ≡ eqb_ℤ (first_difference32 x y rest) (pos 0)
    eq-first h = ground (arith, eq-difference)
