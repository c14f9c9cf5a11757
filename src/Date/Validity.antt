-- ===== src/Date/Validity.antt =====
-- Which arguments the constructor of Date accepts, and what it stores.
use dballe.Prelude.{
  ℕ, ◌+◌, ◌/◌, ◌%◌, ◌≤◌, ◌<◌, ◌≡◌, arith, ◌==◌, if◌then◌else◌, ok, err, consistency, ◌⊎◌, ◌&&◌, leb,
}
use dballe.Prelude.Int.{ℤ, pos}
use dballe.Date.{Date, date, days_in_month, is_leap, validate, make}

-- The length of month `m` from 1 to 12: two months in a row are long only in July and August.
abbrev pub month_length : ℤ → ℕ → ℕ
month_length y m = if m == 2 then (if is_leap y then 29 else 28) else 30 + (m + m / 8) % 2

-- A day that the calendar has, in a year that is not the missing value.
pub record IsValid (d : Date) : Type 0 where
  pub year_in : d.year < 0xffff
  pub month_in : (1 ≤ d.month) × (d.month ≤ 12)
  pub day_in : (1 ≤ d.day) × (d.day ≤ month_length (pos d.year) d.month)

pub days_in_month-eq :
    (y : ℤ) (m : ℕ) → 1 ≤ m → m ≤ 12 → days_in_month y (pos m) ≡ ok (month_length y m)
unfolding days_in_month
days_in_month-eq y m h k = ground arith

pub days_in_month_fails :
    (y : ℤ) (m : ℕ) → (m ≡ 0) ⊎ (12 < m) → days_in_month y (pos m) ≡ err consistency
unfolding days_in_month
days_in_month_fails y m h = ground arith

pub month_length_range : (y : ℤ) (m : ℕ) → (28 ≤ month_length y m) × (month_length y m ≤ 31)
month_length_range y m = ground arith

-- The tests of `validate` on arguments that are not negative.
pub validate-eq :
    (ye mo da : ℕ)
    → validate (pos ye) (pos mo) (pos da) ≡ (
        if leb 1 mo && (leb mo 12 && (leb 1 da && leb da (month_length (pos ye) mo)))
        then ok tt
        else err consistency)
unfolding validate
validate-eq ye mo da = ground (arith, days_in_month-eq (pos ye) mo, month_length_range (pos ye) mo)

pub validate-IsValid :
    (d : Date) → IsValid d → validate (pos d.year) (pos d.month) (pos d.day) ≡ ok tt
validate-IsValid d v = ground (arith, validate-eq d.year d.month d.day)

-- Given an argument for each field that is not negative, and a year that fits the field and is not
-- the missing value, the constructor returns just the days that the calendar has, with the fields
-- that it was given.
pub make-month_length :
    (ye mo da : ℕ)
    → ye < 0xffff
    → make (pos ye) (pos mo) (pos da) ≡ (
        if leb 1 mo && (leb mo 12 && (leb 1 da && leb da (month_length (pos ye) mo)))
        then ok (date ye mo da)
        else err consistency)
unfolding make
make-month_length ye mo da h = ground (arith, validate-eq ye mo da, month_length_range (pos ye) mo)
