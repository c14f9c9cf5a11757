-- ===== src/Trange.antt =====
-- Time ranges: struct Trange of dballe/types.h and dballe/types.cc.
pub mod Order
use dballe.Prelude.{Bool, not, ◌&&◌, List, [], ◌∷◌}
use dballe.Prelude.Int.{ℤ, pos}
use dballe.Prelude.Words.{missing_int, is_missing_int, sub32}
use dballe.Prelude.Order.{int_ord, tie_eq, tie_lt}
use dballe.Coords.{first_difference32}

pub record Trange : Type 0 where
  pub pind : ℤ
  pub p1 : ℤ
  pub p2 : ℤ

abbrev pub trange : ℤ → ℤ → ℤ → Trange
trange p a b = record { pind = p; p1 = a; p2 = b }

abbrev pub missing : Trange
missing = trange missing_int missing_int missing_int

-- Trange::instant
abbrev pub instant : Trange
instant = trange (pos 254) (pos 0) (pos 0)

unfoldable pub is_missing : Trange → Bool
is_missing t = is_missing_int t.pind && (is_missing_int t.p1 && is_missing_int t.p2)

unfoldable pub compare : Trange → Trange → ℤ
compare a b = first_difference32 a.pind b.pind (first_difference32 a.p1 b.p1 (sub32 a.p2 b.p2))

abbrev pub fields : Trange → List ℤ
fields t = t.pind ∷ t.p1 ∷ t.p2 ∷ []

unfoldable pub eq : Trange → Trange → Bool
eq a b = tie_eq (fields a) (fields b)

unfoldable pub ne : Trange → Trange → Bool
ne a b = not (tie_eq (fields a) (fields b))

unfoldable pub lt : Trange → Trange → Bool
lt a b = tie_lt (fields a) (fields b)

unfoldable pub gt : Trange → Trange → Bool
gt a b = tie_lt (fields b) (fields a)

unfoldable pub le : Trange → Trange → Bool
le a b = not (tie_lt (fields b) (fields a))

unfoldable pub ge : Trange → Trange → Bool
ge a b = not (tie_lt (fields a) (fields b))
