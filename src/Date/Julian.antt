-- ===== src/Date/Julian.antt =====
-- Day numbers: Date::from_julian undoes Date::to_julian.
use dballe.Prelude.{
  ℕ, ◌+◌, ◌-◌, ◌*◌, ◌/◌, ◌%◌, ◌≤◌, ◌<◌, ◌≡◌, ◌≢◌, ◌⊎◌, inl, inr, refl, sym, ◌∙◌, true, false, arith,
  ltb, if◌then◌else◌, Bool-cases, tests,
}
use dballe.Prelude.Int.{pos}
use dballe.Date.{
  Date, date, calendar_to_julian, finish_calendar, julian_to_calendar, to_julian, from_julian,
}
use dballe.Date.Cycles.{
  day_number, cycle_start, quad-eq, century-eq, shifted-div, shifted-mod, cycle_year, cycle_day,
  march_day, march_length, quad_month, quad_day, finish-eq, comes_back_lem, regroup,
}
use dballe.Date.Validity.{IsValid, month_length}

-- The date of a day number, by cycles.
module _ (q c k s m day : ℕ) (hc : c < 4) (hk : k < 25) (hs : s < 4) (lo : 4 ≤ m) (hi : m ≤ 15)
    (ld : 1 ≤ day) (hd : day ≤ march_length s m)
    (leap : march_day m day ≡ 365 → (k ≢ 24) ⊎ (c ≡ 3)) where
  march_day-le : march_day m day ≤ 365
  march_day-le = ground arith

  day-le-31 : day ≤ 31
  day-le-31 = ground arith

  by_cycles :
      (jday : ℕ)
      → jday + 32044 ≡ day_number q c k s (march_day m day)
      → julian_to_calendar jday
        ≡ finish_calendar
            (cycle_year (cycle_start s (march_day m day)) + (100 * q + 25 * c + k) * 4)
            (cycle_day (cycle_start s (march_day m day)))
  unfolding julian_to_calendar cycle_day cycle_year
  by_cycles jday e =
      rw
        (
          e,
          quad-eq q c k s (march_day m day) hc hk hs march_day-le leap,
          century-eq q c k s (march_day m day) hc hk hs march_day-le leap,
          shifted-div q c k s (march_day m day) hc hk hs march_day-le leap,
          shifted-mod q c k s (march_day m day) hc hk hs march_day-le leap,
          regroup (cycle_start s (march_day m day)) (100 * q + 25 * c + k),
        )
        refl

  comes_back_parts :
      (cycle_year (cycle_start s (march_day m day)) ≡ s + (if ltb 13 m then 1 else 0))
      × (quad_month (cycle_day (cycle_start s (march_day m day)))
          ≡ (if ltb 13 m then m - 13 else m - 1))
      × (quad_day (cycle_day (cycle_start s (march_day m day))) ≡ day)
  comes_back_parts = ground (arith, comes_back_lem s m day hs lo hi ld day-le-31)

  -- The date is that of the March year and month.
  by_march :
      (jday year month : ℕ)
      → jday + 32044 ≡ day_number q c k s (march_day m day)
      → year < 65536
      → 400 * q + 100 * c + 4 * k + s + (if ltb 13 m then 1 else 0) ≡ year + 4800
      → month ≡ (if ltb 13 m then m - 13 else m - 1)
      → julian_to_calendar jday ≡ date year month day
  by_march jday year month e hy ey em =
      let (cy, cm, cd) = comes_back_parts in
      rw (by_cycles jday e)
        (unfold quad_month quad_day in finish-eq _ _ year month day (omega arith) (cm ∙ sym em) cd)

-- The day number in cycles, from the formula of calendar_to_julian.
by_formula :
    (y e : ℕ)
    → 4799 ≤ y
    → 123 ≤ e
    → y * 365 - 32167 + (y / 4 - y / 100 + y / 100 / 4) + e + 32044
      ≡ day_number (y / 400) (y % 400 / 100) (y % 100 / 4) (y % 4) (e - 123)
by_formula y e h k = omega arith

leap_end :
    (year month day : ℕ)
    → 1 ≤ month
    → month ≤ 12
    → day ≤ month_length (pos year) month
    → month ≤ 2
    → march_day (month + 13) day ≡ 365
    → ((year + 4799) % 100 / 4 ≢ 24) ⊎ ((year + 4799) % 400 / 100 ≡ 3)
leap_end year month day lo hi hd h e = ground arith

-- The round trip from a March year `y` and month `m`.
by_march_year :
    (y m year month day : ℕ)
    → 4799 ≤ y
    → 4 ≤ m
    → m ≤ 15
    → 1 ≤ day
    → day ≤ march_length (y % 4) m
    → (march_day m day ≡ 365 → (y % 100 / 4 ≢ 24) ⊎ (y % 400 / 100 ≡ 3))
    → year < 65536
    → y + (if ltb 13 m then 1 else 0) ≡ year + 4800
    → month ≡ (if ltb 13 m then m - 13 else m - 1)
    → julian_to_calendar
        (y * 365 - 32167 + (y / 4 - y / 100 + y / 100 / 4) + (7834 * m / 256 + day))
      ≡ date year month day
by_march_year y m year month day hy lo hi ld hd leap bound ey em =
    by_march (y / 400) (y % 400 / 100) (y % 100 / 4) (y % 4) m day (omega arith) (omega arith)
      (omega arith) lo hi ld hd leap _ year month
      (by_formula y (7834 * m / 256 + day) hy (omega arith)) bound (omega arith) em

module _ (year month day : ℕ) (lo : 1 ≤ month) (hi : month ≤ 12) (ld : 1 ≤ day)
    (hd : day ≤ month_length (pos year) month) (hy : year < 65536) where
  from_march :
      2 < month → julian_to_calendar (calendar_to_julian year month day) ≡ date year month day
  unfolding calendar_to_julian
  from_march h =
      let t : ltb 2 month ≡ true = ground arith in
      rw t (
        by_march_year (year + 4800) (month + 1) year month day (omega arith) (omega arith)
          (omega arith) ld (ground arith) (ground arith) hy (ground arith) (ground arith))

  to_march :
      month ≤ 2 → julian_to_calendar (calendar_to_julian year month day) ≡ date year month day
  unfolding calendar_to_julian
  to_march h =
      let t : ltb 2 month ≡ false = ground arith in
      rw t (
        by_march_year (year + 4799) (month + 13) year month day (omega arith) (omega arith)
          (omega arith) ld (ground arith) (leap_end year month day lo hi hd h) hy (ground arith)
          (ground arith))

-- from_julian undoes to_julian on every valid date.
pub from_julian-to_julian : (d : Date) → IsValid d → from_julian (to_julian d) ≡ d
unfolding from_julian to_julian
from_julian-to_julian d v = elim (Bool-cases (ltb 2 d.month)) [
  | inl h ↦
      from_march d.year d.month d.day v.month_in.0 v.month_in.1 v.day_in.0 v.day_in.1 (omega arith)
        (omega tests)
  | inr h ↦
      to_march d.year d.month d.day v.month_in.0 v.month_in.1 v.day_in.0 v.day_in.1 (omega arith)
        (ground arith)
]
