-- ===== src/Time.antt =====
-- Times of the day: struct Time of dballe/types.h and dballe/types.cc.
pub mod Laws
use dballe.Prelude.{
  ℕ, Bool, true, false, not, ◌&&◌, ◌||◌, ltb, ◌==◌, if◌then◌else◌, Result, ok, consistency, ◌>>=◌,
  ◌>>◌, throw_if,
}
use dballe.Prelude.Int.{ℤ, pos, ltb_ℤ, eqb_ℤ, ◌-ℤ◌}
use dballe.Prelude.Words.{is_missing_int, to_u8}
use dballe.Date.{first_difference}

pub record Time : Type 0 where
  pub hour : ℕ
  pub minute : ℕ
  pub second : ℕ

abbrev pub time : ℕ → ℕ → ℕ → Time
time h m s = record { hour = h; minute = m; second = s }

-- Time::Time()
abbrev pub missing : Time
missing = time 0xff 0xff 0xff

-- `v == MISSING_INT || v < 0 || v > max`
abbrev pub out_of_range : ℤ → ℤ → Bool
out_of_range v max = is_missing_int v || (ltb_ℤ v (pos 0) || ltb_ℤ max v)

-- Time::validate: a leap second is accepted at the end of the day.
unfoldable pub validate : ℤ → ℤ → ℤ → Result (Unit {0})
validate ho mi se = do
  throw_if (out_of_range ho (pos 23)) consistency
  throw_if (out_of_range mi (pos 59)) consistency
  if eqb_ℤ ho (pos 23) && eqb_ℤ mi (pos 59)
      then throw_if (out_of_range se (pos 60)) consistency
      else throw_if (out_of_range se (pos 59)) consistency

-- Time::Time(int, int, int)
unfoldable pub make : ℤ → ℤ → ℤ → Result Time
make ho mi se = do validate ho mi se; ok (time (to_u8 ho) (to_u8 mi) (to_u8 se))

abbrev pub is_missing : Time → Bool
is_missing t = t.hour == 0xff

unfoldable pub compare : Time → Time → ℤ
compare a b =
    first_difference a.hour b.hour
      (first_difference a.minute b.minute (pos a.second -ℤ pos b.second))

unfoldable pub eq : Time → Time → Bool
eq a b = a.hour == b.hour && (a.minute == b.minute && a.second == b.second)

unfoldable pub ne : Time → Time → Bool
ne a b = not (a.hour == b.hour) || (not (a.minute == b.minute) || not (a.second == b.second))

unfoldable pub lt : Time → Time → Bool
lt a b =
    if ltb a.hour b.hour
    then true
    else if ltb b.hour a.hour
    then false
    else if ltb a.minute b.minute
    then true
    else if ltb b.minute a.minute
    then false
    else ltb a.second b.second

unfoldable pub gt : Time → Time → Bool
gt a b =
    if ltb a.hour b.hour
    then false
    else if ltb b.hour a.hour
    then true
    else if ltb a.minute b.minute
    then false
    else if ltb b.minute a.minute
    then true
    else ltb b.second a.second
