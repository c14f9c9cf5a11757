-- ===== src/LonRange/Arc.antt =====
-- A longitude range is an arc of the circle.
use dballe.Prelude.{
  ℕ, ◌+◌, ◌-◌, ◌%◌, ◌<◌, ◌≡◌, ◌≢◌, refl, ap, not, ◌&&◌, if◌then◌else◌, Bool, true, false, arith,
  leb, ok, err, consistency, Bool-cases, inl, inr,
}
use dballe.Prelude.Int.{ℤ, pos, negsuc, sub_ℕ, ◌≤ℤ◌, ◌+ℤ◌, ◌-ℤ◌, eqb_ℤ}
use dballe.Prelude.Words.{missing_int, is_missing_int}
use dballe.Coords.{normalon}
use dballe.Coords.Laws.{IsNormal, normalon-IsTurned}
use dballe.LonRange.{LonRange, lon_range, set, set_range, contains}

-- How far east of `a` the longitude `x` is, for longitudes counted from -180 degrees
abbrev pub east_of : ℕ → ℕ → ℕ
east_of a x = (x + 36000000 - a) % 36000000

-- A range between two longitudes from -180 up to 180 degrees contains the longitudes that are met
-- on the way east from the first before the second or with it.
pub contains-arc :
    (a b x : ℕ)
    → a < 36000000
    → b < 36000000
    → x < 36000000
    → contains (lon_range (sub_ℕ a 18000000) (sub_ℕ b 18000000)) (sub_ℕ x 18000000)
      ≡ leb (east_of a x) (east_of a b)
unfolding contains
contains-arc a b x ha hb hx = ground arith

-- What `set` leaves: the whole circle, or two longitudes from -180 up to 180 degrees.
pub data IsWhole (r : LonRange) : Type 0 where
  circle : r ≡ lon_range missing_int missing_int → IsWhole r
  arc : IsNormal r.imin → IsNormal r.imax → IsWhole r

-- The longitudes that normalon brings into range
pub record IsGiven (lon : ℤ) : Type 0 where
  pub from : negsuc 17999999 ≤ℤ lon
  pub to : lon ≤ℤ pos 2129483647

normalon-normal : (lon : ℤ) → IsNormal lon → normalon lon ≡ lon
unfolding normalon ◌+ℤ◌ ◌-ℤ◌
normalon-normal lon n = ground arith

IsGiven-not_missing : (lon : ℤ) → IsGiven lon → is_missing_int lon ≡ false
IsGiven-not_missing lon g = ground arith

IsNormal-not_missing : (lon : ℤ) → IsNormal lon → is_missing_int lon ≡ false
IsNormal-not_missing lon g = ground arith

not_both {ℓ} : {A : Type ℓ} (b : Bool) (x y : A) → (if not b && b then x else y) ≡ y
not_both true x y = refl
not_both false x y = refl

-- Setting two longitudes from -180 degrees on, below the overflow of `int`, leaves the whole circle
-- or two longitudes from -180 up to 180 degrees, and setting what was left changes nothing.
pub set_range-set :
    (min max : ℤ)
    → IsGiven min
    → IsGiven max
    → (r : LonRange) × (set min max ≡ ok r) × IsWhole r × (set_range r ≡ ok r)
unfolding set set_range
set_range-set min max g h =
    let nmin : IsNormal (normalon min) = (normalon-IsTurned min g.from g.to).1 in
    let nmax : IsNormal (normalon max) = (normalon-IsTurned max h.from h.to).1 in
    rw (IsGiven-not_missing min g, IsGiven-not_missing max h)
      (elim (Bool-cases (not (eqb_ℤ min max) && eqb_ℤ (normalon min) (normalon max))) [
        | inl e ↦ rw e (lon_range missing_int missing_int, refl, circle refl, refl)
        | inr e ↦ rw e (
          lon_range (normalon min) (normalon max),
          refl,
          arc nmin nmax,
          rw
              (
                IsNormal-not_missing (normalon min) nmin,
                IsNormal-not_missing (normalon max) nmax,
                normalon-normal (normalon min) nmin,
                normalon-normal (normalon max) nmax,
              )
              (ap ok (not_both (eqb_ℤ (normalon min) (normalon max)) _ _)),
        )
      ])

-- A range that is open at one end is refused, whatever the other end is.
pub set_open :
    (lon : ℤ)
    → lon ≢ missing_int
    → (set missing_int lon ≡ err consistency) × (set lon missing_int ≡ err consistency)
unfolding set
set_open lon h = (ground arith, ground arith)
