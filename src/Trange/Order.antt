-- ===== src/Trange/Order.antt =====
-- The comparison operators of Trange and Trange::compare.
use dballe.Prelude.{◌≡◌, true, false, arith}
use dballe.Prelude.Int.{pos, ltb_ℤ, eqb_ℤ}
use dballe.Prelude.Order.{
  Ord, int_ord, Comparison, IsTotalOrder, tie-IsTotalOrder, tie_connected, tie_lt-asym,
}
use dballe.Coords.Difference.{IsNatural, lt-last, eq-last, lt-first, eq-first}
use dballe.Trange.{Trange, fields, compare, eq, ne, lt, gt, le, ge}

fields-injective : (a b : Trange) → fields a ≡ fields b → a ≡ b
fields-injective a b h = ground arith

abbrev pub operators : Comparison Trange
operators = record { eq = eq; ne = ne; lt = lt; gt = gt; le = le; ge = ge }

-- The six operators agree with one another, and with a strict total order.
pub trange_operators-IsTotalOrder : IsTotalOrder operators
unfolding eq ne lt gt le ge
trange_operators-IsTotalOrder = tie-IsTotalOrder fields fields-injective

pub lt-asym : (a b : Trange) → lt a b ≡ true → lt b a ≡ false
unfolding lt
lt-asym a b = tie_lt-asym (fields a) (fields b)

pub lt-connected : (a b : Trange) → lt a b ≡ false → lt b a ≡ false → a ≡ b
unfolding lt
lt-connected = tie_connected fields fields-injective

instance abbrev pub trange_ord : Ord Trange
trange_ord = record {
  lt = lt;
  eqb = eq;
  eqb_iff = trange_operators-IsTotalOrder.eq_iff;
  asym = lt-asym;
  trans = trange_operators-IsTotalOrder.trans;
  connected = lt-connected;
}

-- No field is negative; a missing field is not either.
pub record HasNaturals (a : Trange) : Type 0 where
  pub pind : IsNatural a.pind
  pub p1 : IsNatural a.p1
  pub p2 : IsNatural a.p2

-- On time ranges with no negative field `compare` is negative just when `<` holds, and zero just
-- when `==` holds.
pub trange_compare-sign :
    (a b : Trange)
    → HasNaturals a
    → HasNaturals b
    → (lt a b ≡ ltb_ℤ (compare a b) (pos 0)) × (eq a b ≡ eqb_ℤ (compare a b) (pos 0))
unfolding lt eq compare
trange_compare-sign a b h k =
    (search (lt-first, lt-last, h, k) depth 7, search (eq-first, eq-last, h, k) depth 7)
