-- ===== src/Datetime/Order.antt =====
-- The comparison operators of Datetime and Datetime::compare.
use dballe.Prelude.{ℕ, ◌≡◌, true, false, List, [], ◌∷◌, arith}
use dballe.Prelude.Int.{ℤ, pos, ltb_ℤ, eqb_ℤ, ◌-ℤ◌}
use dballe.Prelude.Order.{
  Ord, nat_ord, Comparison, IsTotalOrder, tie-IsTotalOrder, tie_connected, tie_lt-asym, tie_eq,
  tie_lt,
}
use dballe.Date.{first_difference}
use dballe.Datetime.{Datetime, fields, compare, eq, ne, lt, gt, le, ge}

pub fields-injective : (a b : Datetime) → fields a ≡ fields b → a ≡ b
fields-injective a b h = ground arith

abbrev pub operators : Comparison Datetime
operators = record { eq = eq; ne = ne; lt = lt; gt = gt; le = le; ge = ge }

-- The six operators agree with one another, and with a strict total order of the datetimes.
pub datetime_operators-IsTotalOrder : IsTotalOrder operators
unfolding eq ne lt gt le ge
datetime_operators-IsTotalOrder = tie-IsTotalOrder fields fields-injective

pub lt-asym : (a b : Datetime) → lt a b ≡ true → lt b a ≡ false
unfolding lt
lt-asym a b = tie_lt-asym (fields a) (fields b)

pub lt-connected : (a b : Datetime) → lt a b ≡ false → lt b a ≡ false → a ≡ b
unfolding lt
lt-connected = tie_connected fields fields-injective

instance abbrev pub datetime_ord : Ord Datetime
datetime_ord = record {
  lt = lt;
  eqb = eq;
  eqb_iff = datetime_operators-IsTotalOrder.eq_iff;
  asym = lt-asym;
  trans = datetime_operators-IsTotalOrder.trans;
  connected = lt-connected;
}

-- One field more at the front of a comparison.
module _ (x y : ℕ) (rest : ℤ) (xs ys : List ℕ) where
  lt-first_difference :
      tie_lt xs ys ≡ ltb_ℤ rest (pos 0)
      → tie_lt (x ∷ xs) (y ∷ ys) ≡ ltb_ℤ (first_difference x y rest) (pos 0)
  unfolding ◌-ℤ◌
  lt-first_difference h = ground arith

  eq-first_difference :
      tie_eq xs ys ≡ eqb_ℤ rest (pos 0)
      → tie_eq (x ∷ xs) (y ∷ ys) ≡ eqb_ℤ (first_difference x y rest) (pos 0)
  unfolding ◌-ℤ◌
  eq-first_difference h = ground arith

lt-last : (x y : ℕ) → tie_lt (x ∷ []) (y ∷ []) ≡ ltb_ℤ (pos x -ℤ pos y) (pos 0)
unfolding ◌-ℤ◌
lt-last x y = ground arith

eq-last : (x y : ℕ) → tie_eq (x ∷ []) (y ∷ []) ≡ eqb_ℤ (pos x -ℤ pos y) (pos 0)
unfolding ◌-ℤ◌
eq-last x y = ground arith

-- For any two datetimes, `compare` is negative just when `<` holds of them, and zero just when `==`
-- does.
pub datetime_compare-sign :
    (a b : Datetime)
    → (lt a b ≡ ltb_ℤ (compare a b) (pos 0)) × (eq a b ≡ eqb_ℤ (compare a b) (pos 0))
unfolding lt eq compare
datetime_compare-sign a b =
    (search (lt-first_difference, lt-last) depth 7, search (eq-first_difference, eq-last) depth 7)

pub le_trans : (a b c : Datetime) → le a b ≡ true → le b c ≡ true → le a c ≡ true
le_trans a b c h k = ground (
  arith,
  datetime_operators-IsTotalOrder.le_or a b,
  datetime_operators-IsTotalOrder.le_or b c,
  datetime_operators-IsTotalOrder.le_or a c,
  datetime_operators-IsTotalOrder.eq_iff a b,
  datetime_operators-IsTotalOrder.eq_iff b c,
  datetime_operators-IsTotalOrder.trans a b c,
)
