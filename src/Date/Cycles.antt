-- ===== src/Date/Cycles.antt =====
-- The arithmetic of julian_to_calendar in cycles of 400, 100 and 4 years. Years are counted from
-- March here, so that the leap day is the last of its year.
use dballe.Prelude.{
  ℕ, zero, suc, ◌+◌, ◌-◌, ◌*◌, ◌/◌, ◌%◌, ◌≤◌, ◌<◌, ◌≡◌, ◌≢◌, ◌⊎◌, refl, Bool, true, false, not,
  ◌&&◌, ◌||◌, arith, ltb, leb, ◌==◌, if◌then◌else◌,
}
use dballe.Date.{date, finish_calendar, sub_u32}

-- The day number, counted from a March, of day `d` of a year in cycles of 400, 100 and 4 years
abbrev pub day_number : ℕ → ℕ → ℕ → ℕ → ℕ → ℕ
day_number q c k s d = 146097 * q + 36524 * c + 1461 * k + 365 * s + d

-- The day of a cycle of four years, shifted by 60 days
abbrev pub cycle_start : ℕ → ℕ → ℕ
cycle_start s d = 365 * s + d + 60

module _ (q c k s d : ℕ) (hc : c < 4) (hk : k < 25) (hs : s < 4) (hd : d ≤ 365)
    (leap : d ≡ 365 → (k ≢ 24) ⊎ (c ≡ 3)) where
  pub quad-eq : day_number q c k s d / 146097 ≡ q
  quad-eq = omega arith

  pub century-eq : ((day_number q c k s d - q * 146097) * 4 + 3) / 146097 ≡ c
  century-eq = ground arith

  pub shifted-div :
      (day_number q c k s d + (60 + q * 3 + c)) / 1461
      ≡ cycle_start s d / 1461 + (100 * q + 25 * c + k)
  shifted-div = omega arith

  pub shifted-mod :
      day_number q c k s d
        + (60 + q * 3 + c)
        - (cycle_start s d / 1461 + (100 * q + 25 * c + k)) * 1461
      ≡ cycle_start s d - cycle_start s d / 1461 * 1461
  shifted-mod = omega arith

-- The end of julian_to_calendar on day `r` of a cycle of four years that starts in March, shifted
-- by 60 days: the years to add, and the date in a year that is 0.
unfoldable pub cycle_year : ℕ → ℕ
cycle_year r = (r - r / 1461 * 1461) * 4 / 1461 + r / 1461 * 4

unfoldable pub cycle_day : ℕ → ℕ
cycle_day r =
    let j = r - r / 1461 * 1461 in
    (if not (j * 4 / 1461 == 0) then (j + 305) % 365 else (j + 306) % 366) + 123

-- The months from March, as numbers from 4 to 15: the day of the year, from 0, of day `d`
abbrev pub march_day : ℕ → ℕ → ℕ
march_day m d = 7834 * m / 256 + d - 123

abbrev pub march_length : ℕ → ℕ → ℕ
march_length s m =
    let n = if ltb 13 m then m - 13 else m - 1 in
    if m == 15 then (if s == 3 then 29 else 28) else 30 + (n + n / 8) % 2

-- Whether a test passes at each number below a bound, counting down
abbrev all_below : ℕ → (ℕ → Bool) → Bool
all_below zero test = true
all_below (suc bound) test = if test bound then all_below bound test else false

all_below_sound :
    (bound : ℕ) (test : ℕ → Bool) (i : ℕ) → all_below bound test ≡ true → i < bound → test i ≡ true
all_below_sound zero test i passed below = absurd (omega arith)
all_below_sound (suc bound) test i passed below = ground (arith, all_below_sound bound test i)

-- The month and the day that the end of julian_to_calendar reads off
unfoldable pub quad_month : ℕ → ℕ
quad_month j = (j * 2141 / 65536 + 10) % 12 + 1

unfoldable pub quad_day : ℕ → ℕ
quad_day j = sub_u32 j (7834 * (j * 2141 / 65536) / 256) % 256

pub finish-eq :
    (y j year month day : ℕ)
    → (y + 65536 - 4800) % 65536 ≡ year
    → quad_month j ≡ month
    → quad_day j ≡ day
    → finish_calendar y j ≡ date year month day
unfolding quad_month quad_day
finish-eq y j year month day a b c = λ i. date (a i) (b i) (c i)

-- Day `d` of month `m` of year `s` of the cycle comes back.
abbrev pub comes_back : ℕ → ℕ → ℕ → Bool
comes_back s m d =
    let r = cycle_start s (march_day m d) in
    not (leb d (march_length s m))
    || (cycle_year r == s + (if ltb 13 m then 1 else 0)
        && (quad_month (cycle_day r) == (if ltb 13 m then m - 13 else m - 1)
            && quad_day (cycle_day r) == d))

cycle_table :
    all_below 4 (λ s. all_below 12 (λ m. all_below 31 (λ d. comes_back s (m + 4) (d + 1)))) ≡ true
unfolding cycle_year cycle_day quad_month quad_day
cycle_table = refl

module _ (s m d : ℕ) (hs : s < 4) (lo : 4 ≤ m) (hi : m ≤ 15) (ld : 1 ≤ d) (hd : d ≤ 31) where
  cycle_entry : comes_back s (m - 4 + 4) (d - 1 + 1) ≡ true
  cycle_entry =
      all_below_sound 31 (λ d. comes_back s (m - 4 + 4) (d + 1)) (d - 1)
        (all_below_sound 12 (λ m. all_below 31 (λ d. comes_back s (m + 4) (d + 1))) (m - 4)
          (all_below_sound 4
            (λ s. all_below 12 (λ m. all_below 31 (λ d. comes_back s (m + 4) (d + 1)))) s
            cycle_table hs)
          (omega arith))
        (omega arith)

  pub comes_back_lem : comes_back s m d ≡ true
  comes_back_lem =
      let em : m - 4 + 4 ≡ m = omega arith in
      let ed : d - 1 + 1 ≡ d = omega arith in rw (em, ed) at cycle_entry

pub regroup :
    (r n : ℕ)
    → (r - r / 1461 * 1461) * 4 / 1461 + (r / 1461 + n) * 4
      ≡ (r - r / 1461 * 1461) * 4 / 1461 + r / 1461 * 4 + n * 4
regroup r n = omega arith
