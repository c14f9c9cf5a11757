-- ===== src/Datetime/Bounds.antt =====
-- What lower_bound and upper_bound promise, and where the documentation promises more.
use dballe.Prelude.{ℕ, ◌≡◌, ◌≢◌, true, arith, ok}
use dballe.Prelude.Int.{pos}
use dballe.Prelude.Words.{missing_int}
use dballe.Date
use dballe.Date.Validity
use dballe.Date.Validity.{month_length, month_length_range, days_in_month-eq}
use dballe.Time.Laws
use dballe.Datetime.{
  Datetime, datetime, Parts, parts, validate, make, check_parts, lower_bound, upper_bound, le, lt,
}
use dballe.Datetime.Partial.{
  Matches, IsPlain, earliest, latest, earliest-IsPlain, latest-IsPlain, earliest-Matches,
  latest-Matches, earliest-le, le-latest, lower_bound-eq, upper_bound-eq,
}

-- `b` is a datetime of the calendar that the parts `p` stand for.
pub record IsCandidate (p : Parts) (b : Datetime) : Type 0 where
  pub plain : IsPlain b
  pub matches : Matches p b

module _ (p : Parts) (d : Datetime) (k : IsCandidate p d) (c : check_parts p ≡ ok tt)
    (h : p.ye ≢ missing_int) where
  -- If the year is given, the partial data pass the consistency check, and some datetime of the
  -- calendar `d`, outside of leap seconds, agrees with all the parts given, then lower_bound returns
  -- a datetime of the calendar that agrees with them too and is no later than `d`.
  pub lower_bound_first :
      (lo : Datetime) × (lower_bound p ≡ ok lo) × IsCandidate p lo × (le lo d ≡ true)
  lower_bound_first = (
    earliest p d,
    lower_bound-eq p d k.plain k.matches c h,
    record {
      plain = earliest-IsPlain p d k.plain k.matches c;
      matches = earliest-Matches p d k.plain k.matches c;
    },
    earliest-le p d k.plain k.matches c,
  )

  -- If the year is given, the partial data pass the consistency check, and some datetime of the
  -- calendar `d`, outside of leap seconds, agrees with all the parts given, then upper_bound returns
  -- a datetime of the calendar that agrees with them too and is no earlier than `d`.
  pub upper_bound_last :
      (hi : Datetime) × (upper_bound p ≡ ok hi) × IsCandidate p hi × (le d hi ≡ true)
  upper_bound_last = (
    latest p d,
    upper_bound-eq p d k.plain k.matches c h,
    record {
      plain = latest-IsPlain p d k.plain k.matches c;
      matches = latest-Matches p d k.plain k.matches c;
    },
    le-latest p d k.plain k.matches c,
  )

-- On every day of the calendar the constructor accepts the leap second 23:59:60, and upper_bound
-- of that day with no time is the second before it: the bound is not the highest datetime.
pub leap_second_above :
    (ye mo da : ℕ)
    → Date.Validity.IsValid (Date.date ye mo da)
    → (make (parts (pos ye) (pos mo) (pos da) (pos 23) (pos 59) (pos 60))
        ≡ ok (datetime ye mo da 23 59 60))
      × (upper_bound (parts (pos ye) (pos mo) (pos da) missing_int missing_int missing_int)
          ≡ ok (datetime ye mo da 23 59 59))
      × (lt (datetime ye mo da 23 59 59) (datetime ye mo da 23 59 60) ≡ true)
unfolding make validate lt upper_bound check_parts
leap_second_above ye mo da v = (
  ground (
    arith,
    Validity.validate-eq ye mo da,
    Laws.validate-eq 23 59 60,
    month_length_range (pos ye) mo,
  ),
  ground (
    arith,
    Validity.validate-eq ye mo da,
    Laws.validate-eq 23 59 59,
    month_length_range (pos ye) mo,
  ),
  ground arith,
)
