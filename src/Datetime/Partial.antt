-- ===== src/Datetime/Partial.antt =====
-- The datetimes that partial data stand for: lower_bound, upper_bound, set_lower_bound and
-- set_upper_bound.
use dballe.Prelude.Order.{nat_ord, tie_lt}
use dballe.Prelude.{
  refl, List, [], ◌∷◌, if◌then◌else◌, ℕ, ◌≤◌, ◌<◌, ◌≡◌, ◌≢◌, ◌⊎◌, true, false, not, arith, ok,
}
use dballe.Prelude.Int.{ℤ, pos}
use dballe.Prelude.Words.{missing_int, is_missing_int}
use dballe.Date.Validity
use dballe.Time.Laws
use dballe.Date.Validity.{month_length, days_in_month-eq, month_length_range}
use dballe.Datetime.{
  Datetime, datetime, Parts, parts, validate, make, check_parts, lower_bound, upper_bound, le,
  fields, or_else, last_day,
}

-- A part that is missing, or is the field `x`.
abbrev pub Agrees : ℤ → ℕ → Type 0
Agrees z x = (z ≡ missing_int) ⊎ (z ≡ pos x)

-- A datetime that the partial data `p` do not contradict.
pub record Matches (p : Parts) (d : Datetime) : Type 0 where
  pub ye : Agrees p.ye d.year
  pub mo : Agrees p.mo d.month
  pub da : Agrees p.da d.day
  pub ho : Agrees p.ho d.hour
  pub mi : Agrees p.mi d.minute
  pub se : Agrees p.se d.second

-- A datetime of the calendar that is not in a leap second.
pub record IsPlain (d : Datetime) : Type 0 where
  pub year_in : d.year < 0xffff
  pub month_in : (1 ≤ d.month) × (d.month ≤ 12)
  pub day_in : (1 ≤ d.day) × (d.day ≤ month_length (pos d.year) d.month)
  pub hour_in : d.hour ≤ 23
  pub minute_in : d.minute ≤ 59
  pub second_in : d.second ≤ 59

-- The constructor returns the fields it is given, for a datetime of the calendar.
pub make-IsPlain :
    (d : Datetime)
    → IsPlain d
    → make (parts (pos d.year) (pos d.month) (pos d.day) (pos d.hour) (pos d.minute) (pos d.second))
      ≡ ok d
unfolding make validate
make-IsPlain d v = ground (
  arith,
  Validity.validate-eq d.year d.month d.day,
  Laws.validate-eq d.hour d.minute d.second,
  month_length_range (pos d.year) d.month,
)

-- Field by field no later is no later in the order of std::tie.
abbrev Pointwise : List ℕ → List ℕ → Type 0
Pointwise [] [] = Unit
Pointwise (x ∷ xs) (y ∷ ys) = (x ≤ y) × Pointwise xs ys
Pointwise _ _ = ⊥

Pointwise-le : (xs ys : List ℕ) → Pointwise xs ys → not (tie_lt ys xs) ≡ true
Pointwise-le [] [] h = refl
Pointwise-le [] (y ∷ ys) h = absurd h
Pointwise-le (x ∷ xs) [] h = absurd h
Pointwise-le (x ∷ xs) (y ∷ ys) h = ground (arith, Pointwise-le xs ys)

-- `x`, or the value that stands for a missing part
abbrev pub fill : ℤ → ℕ → ℕ → ℕ
fill z v x = if is_missing_int z then v else x

-- The first and the last datetime that `p` does not contradict, given one of them
abbrev pub earliest : Parts → Datetime → Datetime
earliest p d =
    datetime d.year (fill p.mo 1 d.month) (fill p.da 1 d.day) (fill p.ho 0 d.hour)
      (fill p.mi 0 d.minute) (fill p.se 0 d.second)

abbrev pub latest : Parts → Datetime → Datetime
latest p d =
    let mo = fill p.mo 12 d.month in
    datetime d.year mo (fill p.da (month_length (pos d.year) mo) d.day) (fill p.ho 23 d.hour)
      (fill p.mi 59 d.minute) (fill p.se 59 d.second)

-- The day is given only with the month.
day_needs_month :
    (p : Parts) → check_parts p ≡ ok tt → is_missing_int p.mo ≡ true → is_missing_int p.da ≡ true
unfolding check_parts
day_needs_month p c h = ground arith

-- A part with its missing value filled in is the field.
or_else-eq : (z : ℤ) (v x : ℕ) → Agrees z x → x < 65536 → or_else z (pos v) ≡ pos (fill z v x)
or_else-eq z v x h k = ground arith

given-eq :
    (z : ℤ) (x : ℕ)
    → Agrees z x
    → x < 65536
    → z ≢ missing_int
    → (z ≡ pos x) × (is_missing_int z ≡ false)
given-eq z x h k ne = (ground arith, ground arith)

module _ (p : Parts) (d : Datetime) (v : IsPlain d) (m : Matches p d)
    (c : check_parts p ≡ ok tt) where
  pub earliest-IsPlain : IsPlain (earliest p d)
  earliest-IsPlain = record {
    year_in = v.year_in;
    month_in = ground (arith, v.month_in);
    day_in = ground (
      arith,
      v.day_in,
      day_needs_month p c,
      month_length_range (pos d.year) d.month,
      month_length_range (pos d.year) 1,
    );
    hour_in = ground arith;
    minute_in = ground arith;
    second_in = ground arith;
  }

  pub latest-IsPlain : IsPlain (latest p d)
  latest-IsPlain = record {
    year_in = v.year_in;
    month_in = ground (arith, v.month_in);
    day_in = ground (
      arith,
      v.day_in,
      day_needs_month p c,
      month_length_range (pos d.year) d.month,
      month_length_range (pos d.year) 12,
    );
    hour_in = ground arith;
    minute_in = ground arith;
    second_in = ground arith;
  }

  pub earliest-Matches : Matches p (earliest p d)
  earliest-Matches = record {
    ye = m.ye;
    mo = ground (arith, m.mo);
    da = ground (arith, m.da);
    ho = ground (arith, m.ho);
    mi = ground (arith, m.mi);
    se = ground (arith, m.se);
  }

  pub latest-Matches : Matches p (latest p d)
  latest-Matches = record {
    ye = m.ye;
    mo = ground (arith, m.mo);
    da = ground (arith, m.da);
    ho = ground (arith, m.ho);
    mi = ground (arith, m.mi);
    se = ground (arith, m.se);
  }

  pub earliest-le : le (earliest p d) d ≡ true
  unfolding le
  earliest-le = Pointwise-le (fields (earliest p d)) (fields d) (
    omega arith,
    (
      ground (arith, v.month_in),
      (ground (arith, v.day_in), (ground arith, (ground arith, (ground arith, tt)))),
    ),
  )

  pub le-latest : le d (latest p d) ≡ true
  unfolding le
  le-latest = Pointwise-le (fields d) (fields (latest p d)) (
    omega arith,
    (
      ground (arith, v.month_in),
      (
        ground (
          arith,
          v.day_in,
          day_needs_month p c,
          month_length_range (pos d.year) d.month,
          month_length_range (pos d.year) 12,
        ),
        (
          ground (arith, v.hour_in),
          (ground (arith, v.minute_in), (ground (arith, v.second_in), tt)),
        ),
      ),
    ),
  )

  pub lower_bound-eq : p.ye ≢ missing_int → lower_bound p ≡ ok (earliest p d)
  unfolding lower_bound
  lower_bound-eq h =
      let (e, g) = given-eq p.ye d.year m.ye (omega arith) h in
      rw
        (
          c,
          g,
          e,
          or_else-eq p.mo 1 d.month m.mo (omega arith),
          or_else-eq p.da 1 d.day m.da (omega (arith, month_length_range (pos d.year) d.month)),
          or_else-eq p.ho 0 d.hour m.ho (omega arith),
          or_else-eq p.mi 0 d.minute m.mi (omega arith),
          or_else-eq p.se 0 d.second m.se (omega arith),
        )
        (make-IsPlain (earliest p d) earliest-IsPlain)

  last_day-eq :
      last_day (pos d.year) (pos (fill p.mo 12 d.month)) p.da
      ≡ ok (pos (fill p.da (month_length (pos d.year) (fill p.mo 12 d.month)) d.day))
  last_day-eq = ground (
    arith,
    days_in_month-eq (pos d.year) (fill p.mo 12 d.month),
    m.da,
    month_length_range (pos d.year) d.month,
  )

  pub upper_bound-eq : p.ye ≢ missing_int → upper_bound p ≡ ok (latest p d)
  unfolding upper_bound
  upper_bound-eq h =
      let (e, g) = given-eq p.ye d.year m.ye (omega arith) h in
      rw
        (
          c,
          g,
          e,
          or_else-eq p.mo 12 d.month m.mo (omega arith),
          last_day-eq,
          or_else-eq p.ho 23 d.hour m.ho (omega arith),
          or_else-eq p.mi 59 d.minute m.mi (omega arith),
          or_else-eq p.se 59 d.second m.se (omega arith),
        )
        (make-IsPlain (latest p d) latest-IsPlain)
