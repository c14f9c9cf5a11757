-- ===== src/Datetime/Normalise.antt =====
-- Datetime::normalise_h24 moves 24:00:00 to the start of the following day.
use dballe.Prelude.{◌+◌, ◌<◌, ◌≡◌, ◌⊎◌, ◌≢◌, arith, ltb, if◌then◌else◌, ok}
use dballe.Prelude.Int.{pos, ◌+ℤ◌}
use dballe.Date.{Date, date, calendar_to_julian, to_julian}
use dballe.Date.Validity.{IsValid, month_length, month_length_range, days_in_month-eq}
use dballe.Datetime.{Parts, parts, normalise_h24}

-- Parts whose hour is not 24, or whose minute or second is not 0, are left as they are.
pub normalise_h24_other :
    (p : Parts) → (p.ho ≢ pos 24) ⊎ ((p.mi ≢ pos 0) ⊎ (p.se ≢ pos 0)) → normalise_h24 p ≡ ok p
unfolding normalise_h24
normalise_h24_other p h = ground arith

-- The day after `d`
abbrev day_after : Date → Date
day_after d =
    if ltb (month_length (pos d.year) d.month) (d.day + 1)
    then (if ltb 12 (d.month + 1) then date (d.year + 1) 1 1 else date d.year (d.month + 1) 1)
    else date d.year d.month (d.day + 1)

normalise-eq :
    (d : Date)
    → IsValid d
    → normalise_h24 (parts (pos d.year) (pos d.month) (pos d.day) (pos 24) (pos 0) (pos 0))
      ≡ ok (
          parts
            (pos (day_after d).year)
            (pos (day_after d).month)
            (pos (day_after d).day)
            (pos 0)
            (pos 0)
            (pos 0))
unfolding normalise_h24 ◌+ℤ◌
normalise-eq d v = ground (arith, days_in_month-eq (pos d.year) d.month)

to_julian-day_after : (d : Date) → IsValid d → to_julian (day_after d) ≡ to_julian d + 1
unfolding to_julian calendar_to_julian
to_julian-day_after d v = ground arith

day_after-IsValid : (d : Date) → IsValid d → d.year + 1 < 0xffff → IsValid (day_after d)
day_after-IsValid d v h = ground (arith, month_length_range (pos d.year) (d.month + 1))

-- 24:00:00 of a valid date, of a year before the last that fits the field, becomes 00:00:00 of the
-- valid date with the following day number.
pub normalise_h24_midnight :
    (d : Date)
    → IsValid d
    → d.year + 1 < 0xffff
    → (e : Date) × (normalise_h24
          (parts (pos d.year) (pos d.month) (pos d.day) (pos 24) (pos 0) (pos 0))
        ≡ ok (parts (pos e.year) (pos e.month) (pos e.day) (pos 0) (pos 0) (pos 0)))
      × IsValid e
      × (to_julian e ≡ to_julian d + 1)
normalise_h24_midnight d v h =
    (day_after d, normalise-eq d v, day_after-IsValid d v h, to_julian-day_after d v)
