-- ===== src/Level.antt =====
-- Levels and layers: struct Level of dballe/types.h and dballe/types.cc.
pub mod Order
use dballe.Prelude.{Bool, not, ◌&&◌, List, [], ◌∷◌}
use dballe.Prelude.Int.{ℤ, pos}
use dballe.Prelude.Words.{missing_int, is_missing_int, sub32}
use dballe.Prelude.Order.{int_ord, tie_eq, tie_lt}
use dballe.Coords.{first_difference32}

pub record Level : Type 0 where
  pub ltype1 : ℤ
  pub l1 : ℤ
  pub ltype2 : ℤ
  pub l2 : ℤ

abbrev pub level : ℤ → ℤ → ℤ → ℤ → Level
level t1 a t2 b = record { ltype1 = t1; l1 = a; ltype2 = t2; l2 = b }

abbrev pub missing : Level
missing = level missing_int missing_int missing_int missing_int

-- Level::cloud
abbrev pub cloud : ℤ → ℤ → Level
cloud ltype2 l2 = level (pos 256) missing_int ltype2 l2

unfoldable pub is_missing : Level → Bool
is_missing l =
    is_missing_int l.ltype1
    && (is_missing_int l.l1 && (is_missing_int l.ltype2 && is_missing_int l.l2))

abbrev pub fields : Level → List ℤ
fields l = l.ltype1 ∷ l.l1 ∷ l.ltype2 ∷ l.l2 ∷ []

unfoldable pub eq : Level → Level → Bool
eq a b = tie_eq (fields a) (fields b)

unfoldable pub ne : Level → Level → Bool
ne a b = not (tie_eq (fields a) (fields b))

unfoldable pub lt : Level → Level → Bool
lt a b = tie_lt (fields a) (fields b)

unfoldable pub gt : Level → Level → Bool
gt a b = tie_lt (fields b) (fields a)

unfoldable pub le : Level → Level → Bool
le a b = not (tie_lt (fields b) (fields a))

unfoldable pub ge : Level → Level → Bool
ge a b = not (tie_lt (fields a) (fields b))

unfoldable pub compare : Level → Level → ℤ
compare a b =
    first_difference32 a.ltype1 b.ltype1
      (first_difference32 a.l1 b.l1 (first_difference32 a.ltype2 b.ltype2 (sub32 a.l2 b.l2)))
