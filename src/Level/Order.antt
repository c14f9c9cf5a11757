-- ===== src/Level/Order.antt =====
-- The comparison operators of Level and Level::compare.
use dballe.Prelude.{ℕ, ◌<◌, ◌≡◌, true, false, arith}
use dballe.Prelude.Int.{ℤ, pos, negsuc, ◌-ℤ◌, ltb_ℤ, eqb_ℤ}
use dballe.Prelude.Words.{missing_int, sub32}
use dballe.Prelude.Order.{
  Ord, int_ord, Comparison, IsTotalOrder, tie-IsTotalOrder, tie_connected, tie_lt-asym,
}
use dballe.Coords.Difference.{IsNatural, lt-last, eq-last, lt-first, eq-first}
use dballe.Level.{Level, level, fields, compare, eq, ne, lt, gt, le, ge}

fields-injective : (a b : Level) → fields a ≡ fields b → a ≡ b
fields-injective a b h = ground arith

abbrev pub operators : Comparison Level
operators = record { eq = eq; ne = ne; lt = lt; gt = gt; le = le; ge = ge }

-- The six operators agree with one another, and with a strict total order.
pub level_operators-IsTotalOrder : IsTotalOrder operators
unfolding eq ne lt gt le ge
level_operators-IsTotalOrder = tie-IsTotalOrder fields fields-injective

pub lt-asym : (a b : Level) → lt a b ≡ true → lt b a ≡ false
unfolding lt
lt-asym a b = tie_lt-asym (fields a) (fields b)

pub lt-connected : (a b : Level) → lt a b ≡ false → lt b a ≡ false → a ≡ b
unfolding lt
lt-connected = tie_connected fields fields-injective

instance abbrev pub level_ord : Ord Level
level_ord = record {
  lt = lt;
  eqb = eq;
  eqb_iff = level_operators-IsTotalOrder.eq_iff;
  asym = lt-asym;
  trans = level_operators-IsTotalOrder.trans;
  connected = lt-connected;
}

-- No field is negative; a missing field is not either.
pub record HasNaturals (a : Level) : Type 0 where
  pub ltype1 : IsNatural a.ltype1
  pub l1 : IsNatural a.l1
  pub ltype2 : IsNatural a.ltype2
  pub l2 : IsNatural a.l2

-- On levels with no negative field `compare` is negative just when `<` holds, and zero just when
-- `==` holds.
pub level_compare-sign :
    (a b : Level)
    → HasNaturals a
    → HasNaturals b
    → (lt a b ≡ ltb_ℤ (compare a b) (pos 0)) × (eq a b ≡ eqb_ℤ (compare a b) (pos 0))
unfolding lt eq compare
level_compare-sign a b h k =
    (search (lt-first, lt-last, h, k) depth 7, search (eq-first, eq-last, h, k) depth 7)

-- Of two levels of one first type, whatever their second types and values are, of which one has no
-- first value and the other a negative one that fits an `int`, `compare` puts the one without before
-- the other, and `<` puts it after: the difference overflows.
pub compare_overflow :
    (ltype1 a b c d : ℤ) (n : ℕ)
    → n < 2147483648
    → (ltb_ℤ (compare (level ltype1 missing_int a b) (level ltype1 (negsuc n) c d)) (pos 0) ≡ true)
      × (lt (level ltype1 missing_int a b) (level ltype1 (negsuc n) c d) ≡ false)
unfolding lt compare sub32 ◌-ℤ◌
compare_overflow ltype1 a b c d n h = (ground arith, ground arith)
