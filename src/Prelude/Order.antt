-- ===== src/Prelude/Order.antt =====
-- Types with `operator<` and `operator==`, the order of std::tie on several fields, and what the
-- six comparison operators of a class promise together.
use Prim.Native.Nat.{ℕ}
use mathlib.Core.Path.{◌≡◌, refl, subst}
use mathlib.Core.Logic.{◌⊎◌, ◌↔◌, inl, inr}
use mathlib.Core.Bool.{Bool, true, false, not, ◌&&◌, ◌||◌}
use mathlib.Core.List.{List, [], ◌∷◌}
use native.Mathlib.Omega.{arith}
use dballe.Prelude.Tests.{ltb, ◌==◌, ==_iff, Bool-cases, if◌then◌else◌}
use dballe.Prelude.Int.{ℤ, ltb_ℤ, eqb_ℤ, eqb_ℤ_iff}

pub record Ord {ℓ} (A : Type ℓ) : Type ℓ where
  pub lt : A → A → Bool
  pub eqb : A → A → Bool
  pub eqb_iff : (a b : A) → (eqb a b ≡ true) ↔ (a ≡ b)
  pub asym : (a b : A) → lt a b ≡ true → lt b a ≡ false
  pub trans : (a b c : A) → lt a b ≡ true → lt b c ≡ true → lt a c ≡ true
  pub connected : (a b : A) → lt a b ≡ false → lt b a ≡ false → a ≡ b

pub ltb-asym : (a b : ℕ) → ltb a b ≡ true → ltb b a ≡ false
ltb-asym a b h = ground arith

pub ltb_trans : (a b c : ℕ) → ltb a b ≡ true → ltb b c ≡ true → ltb a c ≡ true
ltb_trans a b c h k = ground arith

pub ltb-connected : (a b : ℕ) → ltb a b ≡ false → ltb b a ≡ false → a ≡ b
ltb-connected a b h k = ground arith

instance abbrev pub nat_ord : Ord ℕ
nat_ord = record {
  lt = ltb;
  eqb = ◌==◌;
  eqb_iff = ==_iff;
  asym = ltb-asym;
  trans = ltb_trans;
  connected = ltb-connected;
}

pub ltb_ℤ-asym : (a b : ℤ) → ltb_ℤ a b ≡ true → ltb_ℤ b a ≡ false
ltb_ℤ-asym a b h = ground arith

pub ltb_ℤ-trans : (a b c : ℤ) → ltb_ℤ a b ≡ true → ltb_ℤ b c ≡ true → ltb_ℤ a c ≡ true
ltb_ℤ-trans a b c h k = ground arith

pub ltb_ℤ-connected : (a b : ℤ) → ltb_ℤ a b ≡ false → ltb_ℤ b a ≡ false → a ≡ b
ltb_ℤ-connected a b h k = ground arith

instance abbrev pub int_ord : Ord ℤ
int_ord = record {
  lt = ltb_ℤ;
  eqb = eqb_ℤ;
  eqb_iff = eqb_ℤ_iff;
  asym = ltb_ℤ-asym;
  trans = ltb_ℤ-trans;
  connected = ltb_ℤ-connected;
}

module _ {ℓ} {A : Type ℓ} ⦃o : Ord A⦄ where
  -- std::tie(a...) == std::tie(b...)
  abbrev pub tie_eq : List A → List A → Bool
  tie_eq [] [] = true
  tie_eq [] (y ∷ ys) = false
  tie_eq (x ∷ xs) [] = false
  tie_eq (x ∷ xs) (y ∷ ys) = o.eqb x y && tie_eq xs ys

  -- std::tie(a...) < std::tie(b...)
  abbrev pub tie_lt : List A → List A → Bool
  tie_lt [] [] = false
  tie_lt [] (y ∷ ys) = true
  tie_lt (x ∷ xs) [] = false
  tie_lt (x ∷ xs) (y ∷ ys) = if o.lt x y then true else if o.lt y x then false else tie_lt xs ys

  pub tie_eq_sound : (xs ys : List A) → tie_eq xs ys ≡ true → xs ≡ ys
  tie_eq_sound [] [] h = refl
  tie_eq_sound [] (y ∷ ys) h = cc
  tie_eq_sound (x ∷ xs) [] h = cc
  tie_eq_sound (x ∷ xs) (y ∷ ys) h = ground (arith, o.eqb_iff x y, tie_eq_sound xs ys)

  pub tie_eq_refl : (xs : List A) → tie_eq xs xs ≡ true
  tie_eq_refl [] = refl
  tie_eq_refl (x ∷ xs) = ground (arith, o.eqb_iff x x, tie_eq_refl xs)

  pub tie_lt-asym : (xs ys : List A) → tie_lt xs ys ≡ true → tie_lt ys xs ≡ false
  tie_lt-asym [] [] h = refl
  tie_lt-asym [] (y ∷ ys) h = refl
  tie_lt-asym (x ∷ xs) [] h = cc
  tie_lt-asym (x ∷ xs) (y ∷ ys) h = ground (arith, o.asym x y, o.asym y x, tie_lt-asym xs ys)

  pub tie_lt-connected : (xs ys : List A) → tie_lt xs ys ≡ false → tie_lt ys xs ≡ false → xs ≡ ys
  tie_lt-connected [] [] h k = refl
  tie_lt-connected [] (y ∷ ys) h k = cc
  tie_lt-connected (x ∷ xs) [] h k = cc
  tie_lt-connected (x ∷ xs) (y ∷ ys) h k = ground (arith, o.connected x y, tie_lt-connected xs ys)

  pub tie_lt_trans :
      (xs ys zs : List A) → tie_lt xs ys ≡ true → tie_lt ys zs ≡ true → tie_lt xs zs ≡ true
  tie_lt_trans [] [] zs h k = cc
  tie_lt_trans [] (y ∷ ys) [] h k = cc
  tie_lt_trans [] (y ∷ ys) (z ∷ zs) h k = refl
  tie_lt_trans (x ∷ xs) [] zs h k = cc
  tie_lt_trans (x ∷ xs) (y ∷ ys) [] h k = cc
  tie_lt_trans (x ∷ xs) (y ∷ ys) (z ∷ zs) h k = ground (
    arith,
    o.trans x y z,
    o.asym x z,
    o.asym z x,
    o.asym x y,
    o.asym y z,
    o.connected x y,
    o.connected y z,
    tie_lt_trans xs ys zs,
  )

-- The comparison operators of a class.
pub record Comparison {ℓ} (A : Type ℓ) : Type ℓ where
  pub eq : A → A → Bool
  pub ne : A → A → Bool
  pub lt : A → A → Bool
  pub gt : A → A → Bool
  pub le : A → A → Bool
  pub ge : A → A → Bool

-- The operators agree with one another and with one strict total order.
pub record IsTotalOrder {ℓ} {A : Type ℓ} (c : Comparison A) : Type ℓ where
  pub eq_iff : (a b : A) → (c.eq a b ≡ true) ↔ (a ≡ b)
  pub ne_not : (a b : A) → c.ne a b ≡ not (c.eq a b)
  pub gt_flip : (a b : A) → c.gt a b ≡ c.lt b a
  pub trichotomy : (a b : A) → c.lt a b ≡ not (c.eq a b || c.gt a b)
  pub le_or : (a b : A) → c.le a b ≡ (c.lt a b || c.eq a b)
  pub ge_or : (a b : A) → c.ge a b ≡ (c.gt a b || c.eq a b)
  pub trans : (a b d : A) → c.lt a b ≡ true → c.lt b d ≡ true → c.lt a d ≡ true

module _ {ℓ κ} {A : Type ℓ} {B : Type κ} ⦃o : Ord A⦄ (fields : B → List A) where
  -- The operators of a class that compares its fields by std::tie.
  abbrev pub tie_operators : Comparison B
  tie_operators = record {
    eq = λ a b. tie_eq (fields a) (fields b);
    ne = λ a b. not (tie_eq (fields a) (fields b));
    lt = λ a b. tie_lt (fields a) (fields b);
    gt = λ a b. tie_lt (fields b) (fields a);
    le = λ a b. not (tie_lt (fields b) (fields a));
    ge = λ a b. not (tie_lt (fields a) (fields b));
  }

  module _ (inj : (a b : B) → fields a ≡ fields b → a ≡ b) where
    pub tie_eq_iff : (a b : B) → (tie_eq (fields a) (fields b) ≡ true) ↔ (a ≡ b)
    tie_eq_iff a b = (
      λ h. inj a b (tie_eq_sound (fields a) (fields b) h),
      λ p. subst (λ b. tie_eq (fields a) (fields b) ≡ true) p (tie_eq_refl (fields a)),
    )

    pub tie_connected :
        (a b : B)
        → tie_lt (fields a) (fields b) ≡ false
        → tie_lt (fields b) (fields a) ≡ false
        → a ≡ b
    tie_connected a b h k = inj a b (tie_lt-connected (fields a) (fields b) h k)

    -- The fields determine the object, so its order is that of the fields.
    abbrev pub tie_ord : Ord B
    tie_ord = record {
      lt = λ a b. tie_lt (fields a) (fields b);
      eqb = λ a b. tie_eq (fields a) (fields b);
      eqb_iff = tie_eq_iff;
      asym = λ a b. tie_lt-asym (fields a) (fields b);
      trans = λ a b c. tie_lt_trans (fields a) (fields b) (fields c);
      connected = tie_connected;
    }

module _ {ℓ} {A : Type ℓ} ⦃o : Ord A⦄ where
  pub lt_irrefl : (a : A) → o.lt a a ≡ false
  lt_irrefl a = elim (Bool-cases (o.lt a a)) [ inl h ↦ o.asym a a h | inr h ↦ h ]

  -- In a strict total order, not greater is less or equal.
  pub not-lt : (a b : A) → not (o.lt b a) ≡ (o.lt a b || o.eqb a b)
  not-lt a b = elim (Bool-cases (o.eqb a b)) [
    | inl e ↦ let p : a ≡ b = (o.eqb_iff a b).0 e in rw (e, p) (rw (lt_irrefl b) refl)
    | inr e ↦ ground (arith, o.asym a b, o.connected a b, (o.eqb_iff a b).1)
  ]

  -- Exactly one of less, equal and greater holds.
  pub lt-trichotomy : (a b : A) → o.lt a b ≡ not (o.eqb a b || o.lt b a)
  lt-trichotomy a b = elim (Bool-cases (o.eqb a b)) [
    | inl e ↦ let p : a ≡ b = (o.eqb_iff a b).0 e in rw (e, p) (rw (lt_irrefl b) refl)
    | inr e ↦ ground (arith, o.asym a b, o.connected a b, (o.eqb_iff a b).1)
  ]

  pub not_eqb : (a b : A) → (o.lt a b ≡ true) ⊎ (o.lt b a ≡ true) → o.eqb a b ≡ false
  not_eqb a b h = elim (Bool-cases (o.eqb a b)) [
    | inr e ↦ e
    | inl e ↦
        let p : a ≡ b = (o.eqb_iff a b).0 e in
        elim h [ inl l ↦ cc (lt_irrefl b, rw p at l) | inr l ↦ cc (lt_irrefl b, rw p at l) ]
  ]

  pub not_lt_trans : (a b c : A) → o.lt b a ≡ false → o.lt c b ≡ false → o.lt c a ≡ false
  not_lt_trans a b c h k = elim (Bool-cases (o.lt c a)) [
    | inl p ↦ elim (Bool-cases (o.lt a b)) [
      | inl q ↦ cc (k, o.trans c a b p q)
      | inr q ↦ let e : a ≡ b = o.connected a b q h in rw e k
    ]
    | inr p ↦ p
  ]

  pub ge-or : (a b : A) → not (o.lt a b) ≡ (o.lt b a || o.eqb a b)
  ge-or a b = ground (arith, lt-trichotomy a b, not-lt a b, o.asym b a)

module _ {ℓ κ} {A : Type ℓ} {B : Type κ} ⦃o : Ord A⦄ (fields : B → List A)
    (inj : (a b : B) → fields a ≡ fields b → a ≡ b) where
  -- The operators of a class that compares all its fields by std::tie.
  pub tie-IsTotalOrder : IsTotalOrder (tie_operators fields)
  tie-IsTotalOrder =
      let instance t = tie_ord fields inj in
      record {
        eq_iff = t.eqb_iff;
        ne_not = λ a b. refl;
        gt_flip = λ a b. refl;
        trichotomy = lt-trichotomy;
        le_or = not-lt;
        ge_or = ge-or;
        trans = t.trans;
      }
