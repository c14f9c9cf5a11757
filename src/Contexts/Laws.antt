-- ===== src/Contexts/Laws.antt =====
-- The order of contexts: the sign of Context::compare against the order of the fields of a level and
-- a time range.
use dballe.Prelude.{
  ◌≡◌, refl, sym, ◌∙◌, not, ◌&&◌, ◌||◌, arith, if◌then◌else◌, List, [], ◌∷◌, ◌++◌, length,
}
use dballe.Prelude.Int.{ℤ, pos, ltb_ℤ, eqb_ℤ}
use dballe.Prelude.Order.{Ord, int_ord, tie_eq, tie_lt, tie_ord, not_eqb, ge-or}
use dballe.Level as Levels
use dballe.Level.{Level}
use dballe.Level.Order as LevelOrder
use dballe.Level.Order.{level_ord, level_compare-sign}
use dballe.Trange as Tranges
use dballe.Trange.{Trange}
use dballe.Trange.Order as TrangeOrder
use dballe.Trange.Order.{trange_ord, trange_compare-sign}
use dballe.Contexts.{Context, compare}

-- What a context is sorted by
pub record Place : Type 0 where
  pub level : Level
  pub trange : Trange

abbrev pub place_fields : Place → List ℤ
place_fields p =
    p.level.ltype1 ∷ p.level.l1 ∷ p.level.ltype2 ∷ p.level.l2 ∷ p.trange.pind ∷ p.trange.p1
    ∷ p.trange.p2 ∷ []

pub place_fields-injective : (a b : Place) → place_fields a ≡ place_fields b → a ≡ b
place_fields-injective a b h = ground arith

instance abbrev pub place_ord : Ord Place
place_ord = tie_ord place_fields place_fields-injective

tie_lt_append :
    (xs ys us vs : List ℤ)
    → length xs ≡ length ys
    → tie_lt (xs ++ us) (ys ++ vs) ≡ (tie_lt xs ys || (tie_eq xs ys && tie_lt us vs))
tie_lt_append [] [] us vs h = refl
tie_lt_append [] (y ∷ ys) us vs h = absurd (omega (arith, h))
tie_lt_append (x ∷ xs) [] us vs h = absurd (omega (arith, h))
tie_lt_append (x ∷ xs) (y ∷ ys) us vs h = ground (
  arith,
  tie_lt_append xs ys us vs (omega (arith, h)),
  int_ord.connected x y,
  int_ord.eqb_iff x y,
  not_eqb x y,
)

tie_eq_append :
    (xs ys us vs : List ℤ)
    → length xs ≡ length ys
    → tie_eq (xs ++ us) (ys ++ vs) ≡ (tie_eq xs ys && tie_eq us vs)
tie_eq_append [] [] us vs h = refl
tie_eq_append [] (y ∷ ys) us vs h = absurd (omega (arith, h))
tie_eq_append (x ∷ xs) [] us vs h = absurd (omega (arith, h))
tie_eq_append (x ∷ xs) (y ∷ ys) us vs h =
    ground (arith, tie_eq_append xs ys us vs (omega (arith, h)))

place_lt-parts :
    (a b : Place)
    → place_ord.lt a b
      ≡ (Levels.lt a.level b.level || (Levels.eq a.level b.level && Tranges.lt a.trange b.trange))
unfolding Levels.lt Levels.eq Tranges.lt
place_lt-parts a b =
    tie_lt_append (Levels.fields a.level) (Levels.fields b.level) (Tranges.fields a.trange)
      (Tranges.fields b.trange) refl

place_eq-parts :
    (a b : Place) → place_ord.eqb a b ≡ (Levels.eq a.level b.level && Tranges.eq a.trange b.trange)
unfolding Levels.eq Tranges.eq
place_eq-parts a b =
    tie_eq_append (Levels.fields a.level) (Levels.fields b.level) (Tranges.fields a.trange)
      (Tranges.fields b.trange) refl

first_lt :
    (r t : ℤ)
    → ltb_ℤ (if eqb_ℤ r (pos 0) then t else r) (pos 0)
      ≡ (ltb_ℤ r (pos 0) || (eqb_ℤ r (pos 0) && ltb_ℤ t (pos 0)))
first_lt r t = ground arith

first_eq :
    (r t : ℤ)
    → eqb_ℤ (if eqb_ℤ r (pos 0) then t else r) (pos 0) ≡ (eqb_ℤ r (pos 0) && eqb_ℤ t (pos 0))
first_eq r t = ground arith

above_zero : (r : ℤ) → ltb_ℤ (pos 0) r ≡ (not (ltb_ℤ r (pos 0)) && not (eqb_ℤ r (pos 0)))
above_zero r = ground arith

-- No field of a place is negative; a missing field is not either.
pub record IsNatural (p : Place) : Type 0 where
  pub level : LevelOrder.HasNaturals p.level
  pub trange : TrangeOrder.HasNaturals p.trange

place_above : (a b : Place) → place_ord.lt b a ≡ (not (place_ord.lt a b) && not (place_ord.eqb a b))
place_above a b = ground (arith, ge-or a b, not_eqb a b)

module _ {ℓ} {Values : Type ℓ} where
  -- The level and the time range of a context
  abbrev pub place : Context Values → Place
  place c = record { level = c.level; trange = c.trange }

  pub compare-below :
      (c : Context Values) (p : Place)
      → IsNatural (place c)
      → IsNatural p
      → ltb_ℤ (compare c p.level p.trange) (pos 0) ≡ place_ord.lt (place c) p
  unfolding compare
  compare-below c p h k =
      let (l, e) = level_compare-sign c.level p.level h.level k.level in
      let (tl, te) = trange_compare-sign c.trange p.trange h.trange k.trange in
      first_lt (Levels.compare c.level p.level) (Tranges.compare c.trange p.trange)
      ∙ rw (sym l, sym e, sym tl) (sym (place_lt-parts (place c) p))

  compare-same :
      (c : Context Values) (p : Place)
      → IsNatural (place c)
      → IsNatural p
      → eqb_ℤ (compare c p.level p.trange) (pos 0) ≡ place_ord.eqb (place c) p
  unfolding compare
  compare-same c p h k =
      let (l, e) = level_compare-sign c.level p.level h.level k.level in
      let (tl, te) = trange_compare-sign c.trange p.trange h.trange k.trange in
      first_eq (Levels.compare c.level p.level) (Tranges.compare c.trange p.trange)
      ∙ rw (sym e, sym te) (sym (place_eq-parts (place c) p))

  pub compare-above :
      (c : Context Values) (p : Place)
      → IsNatural (place c)
      → IsNatural p
      → ltb_ℤ (pos 0) (compare c p.level p.trange) ≡ place_ord.lt p (place c)
  compare-above c p h k =
      above_zero (compare c p.level p.trange)
      ∙ rw (compare-below c p h k, compare-same c p h k) (sym (place_above (place c) p))
