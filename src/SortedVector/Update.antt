-- ===== src/SortedVector/Update.antt =====
-- Replacing and erasing an item of a vector sorted by a key, and the search that comes before.
use dballe.Prelude.{
  ℕ, zero, suc, ◌+◌, ◌≤◌, ◌≡◌, refl, sym, ◌∙◌, ap, Bool, true, false, arith, if◌then◌else◌, List,
  [], ◌∷◌, Option, some, none, get_elem?, length, set, Bool-cases, inl, inr,
}
use dballe.Prelude.Order.{Ord}
use mathlib.Core.Path.{subst}
use dballe.SortedVector.{All, count_if, NoneBelow, Ascending}
use dballe.SortedVector.Search.{lt_length, Finds, at, absent}
use dballe.SortedVector.Exact.{exact_loop_lem}
use dballe.SortedVector.Map.{
  erase, lookup, count_key, IsMap, find, lookup-absent, lookup-at, head_differs, unique_tail,
}

module _ {ℓ κ} {A : Type ℓ} {K : Type κ} ⦃o : Ord K⦄ (key : A → K) where
  pub lookup-set :
      (k : K) (xs : List A) (i : ℕ) (x v : A)
      → ((k : K) → count_key key k xs ≤ 1)
      → get_elem? xs i ≡ some x
      → key x ≡ key v
      → lookup key k (set xs i v) ≡ (if o.eqb (key v) k then some v else lookup key k xs)
  lookup-set k [] i x v u e h = cc
  lookup-set k (y ∷ ys) zero x v u e h =
      let same : key y ≡ key v = cc in
      elim (Bool-cases (o.eqb (key v) k)) [
        | inl c ↦ rw c refl
        | inr c ↦ let f : o.eqb (key y) k ≡ false = ap (λ z. o.eqb z k) same ∙ c in rw (c, f) refl
      ]
  lookup-set k (y ∷ ys) (suc i) x v u e h = elim (Bool-cases (o.eqb (key y) k)) [
    | inr c ↦ rw c (lookup-set k ys i x v (unique_tail key y ys u) e h)
    | inl c ↦
        let apart : o.eqb (key v) k ≡ false =
          apart_from (key y) (key v) k ((o.eqb_iff (key y) k).0 c)
            (ap (o.eqb (key y)) (sym h) ∙ head_differs key y ys i x u e) in
        rw (c, apart) refl
  ]
    where
      apart_from : (a b k : K) → a ≡ k → o.eqb a b ≡ false → o.eqb b k ≡ false
      apart_from a b k e h = elim (Bool-cases (o.eqb b k)) [
        | inr g ↦ g
        | inl g ↦ cc (h, (o.eqb_iff a b).1 (e ∙ sym ((o.eqb_iff b k).0 g)))
      ]

  pub lookup-erase :
      (k : K) (xs : List A) (i : ℕ) (x : A)
      → ((k : K) → count_key key k xs ≤ 1)
      → get_elem? xs i ≡ some x
      → lookup key k (erase xs i) ≡ (if o.eqb (key x) k then none else lookup key k xs)
  lookup-erase k [] i x u e = cc
  lookup-erase k (y ∷ ys) zero x u e =
      let same : key x ≡ key y = ap (from_some y) (sym e) in
      elim (Bool-cases (o.eqb (key x) k)) [
        | inl c ↦
            let f : o.eqb (key y) k ≡ true = ap (λ z. o.eqb z k) (sym same) ∙ c in
            rw c (lookup-absent key k ys (ground (arith, u k, f)))
        | inr c ↦
            let f : o.eqb (key y) k ≡ false = ap (λ z. o.eqb z k) (sym same) ∙ c in rw (c, f) refl
      ]
    where
      from_some : A → Option A → K
      from_some d none = key d
      from_some d (some a) = key a
  lookup-erase k (y ∷ ys) (suc i) x u e = elim (Bool-cases (o.eqb (key y) k)) [
    | inr c ↦ rw c (lookup-erase k ys i x (unique_tail key y ys u) e)
    | inl c ↦
        let apart : o.eqb (key x) k ≡ false = elim (Bool-cases (o.eqb (key x) k)) [
          | inr g ↦ g
          | inl g ↦ cc (
            head_differs key y ys i x u e,
            (o.eqb_iff (key y) (key x)).1
                ((o.eqb_iff (key y) k).0 c ∙ sym ((o.eqb_iff (key x) k).0 g)),
          )
        ] in
        rw (c, apart) refl
  ]

  -- Tests of items are kept when they only read the key.
  All-set : (P : A → Type 0) (xs : List A) (i : ℕ) (v : A) → P v → All P xs → All P (set xs i v)
  All-set P [] i v p a = tt
  All-set P (x ∷ xs) zero v p a = (p, a.1)
  All-set P (x ∷ xs) (suc i) v p a = (a.0, All-set P xs i v p a.1)

  All-get_elem? :
      (P : A → Type 0) (xs : List A) (i : ℕ) (x : A) → get_elem? xs i ≡ some x → All P xs → P x
  All-get_elem? P [] i x e a = cc
  All-get_elem? P (y ∷ ys) zero x e a = subst P (some_inj e) a.0
    where
      some_inj : {a b : A} → some a ≡ some b → a ≡ b
      some_inj h = cc
  All-get_elem? P (y ∷ ys) (suc i) x e a = All-get_elem? P ys i x e a.1

  All-erase : (P : A → Type 0) (xs : List A) (i : ℕ) → All P xs → All P (erase xs i)
  All-erase P [] i a = tt
  All-erase P (x ∷ xs) zero a = a.1
  All-erase P (x ∷ xs) (suc i) a = (a.0, All-erase P xs i a.1)

  Ascending-erase : (xs : List A) (i : ℕ) → Ascending key xs → Ascending key (erase xs i)
  Ascending-erase [] i a = tt
  Ascending-erase (x ∷ xs) zero a = a.1
  Ascending-erase (x ∷ xs) (suc i) a = (All-erase _ xs i a.0, Ascending-erase xs i a.1)

  Ascending-set :
      (xs : List A) (i : ℕ) (x v : A)
      → get_elem? xs i ≡ some x
      → key x ≡ key v
      → Ascending key xs
      → Ascending key (set xs i v)
  Ascending-set [] i x v e h a = tt
  Ascending-set (y ∷ ys) zero x v e h a =
      let same : key y ≡ key v = cc in (subst (λ k. NoneBelow key k ys) same a.0, a.1)
  Ascending-set (y ∷ ys) (suc i) x v e h a = (
    All-set (λ z. o.lt (key z) (key y) ≡ false) ys i v
        (subst (λ k. o.lt k (key y) ≡ false) h
          (All-get_elem? (λ z. o.lt (key z) (key y) ≡ false) ys i x e a.0))
        a.0,
    Ascending-set ys i x v e h a.1,
  )

  count_if-erase_le : (p : A → Bool) (xs : List A) (i : ℕ) → count_if p (erase xs i) ≤ count_if p xs
  count_if-erase_le p [] i = omega arith
  count_if-erase_le p (x ∷ xs) zero = omega arith
  count_if-erase_le p (x ∷ xs) (suc i) = omega (arith, count_if-erase_le p xs i)

  count_key-set :
      (k : K) (xs : List A) (i : ℕ) (x v : A)
      → get_elem? xs i ≡ some x
      → key x ≡ key v
      → count_key key k (set xs i v) ≡ count_key key k xs
  count_key-set k [] i x v e h = refl
  count_key-set k (y ∷ ys) zero x v e h =
      let same : key v ≡ key y = cc in
      ap (λ z. (if o.eqb z k then 1 else 0) + count_key key k ys) same
  count_key-set k (y ∷ ys) (suc i) x v e h = omega (arith, count_key-set k ys i x v e h)

  pub set-IsMap :
      (xs : List A) (i : ℕ) (x v : A)
      → get_elem? xs i ≡ some x
      → key x ≡ key v
      → IsMap key xs
      → IsMap key (set xs i v)
  set-IsMap xs i x v e h m = record {
    ascending = Ascending-set xs i x v e h m.ascending;
    unique = λ k. omega (arith, count_key-set k xs i x v e h, m.unique k);
  }

  pub erase-IsMap : (xs : List A) (i : ℕ) → IsMap key xs → IsMap key (erase xs i)
  erase-IsMap xs i m = record {
    ascending = Ascending-erase xs i m.ascending;
    unique = λ k. omega (arith, count_if-erase_le (λ x. o.eqb (key x) k) xs i, m.unique k);
  }

  -- What `find` answers: the place of the item that `lookup` gives, or that it gives none.
  pub data Locates (k : K) (xs : List A) : Option ℕ → Type (ℓ ⊔ κ) where
    here :
        (i : ℕ) (x : A)
        → get_elem? xs i ≡ some x
        → key x ≡ k
        → lookup key k xs ≡ some x
        → Locates k xs (some i)
    nowhere : count_key key k xs ≡ 0 → lookup key k xs ≡ none → Locates k xs none

  Finds-Locates :
      (k : K) (xs : List A) (r : Option ℕ) → IsMap key xs → Finds key k xs r → Locates k xs r
  Finds-Locates k xs _ m (at i x e h) =
      here i x e ((o.eqb_iff (key x) k).0 h) (lookup-at key k xs i x m.unique e h)
  Finds-Locates k xs _ m (absent h) = nowhere h (lookup-absent key k xs h)

  pub find_lem :
      (k : K) (left right : A → Bool) (xs : List A)
      → ((i : ℕ) (x : A) → get_elem? xs i ≡ some x → left x ≡ o.lt k (key x))
      → ((i : ℕ) (x : A) → get_elem? xs i ≡ some x → right x ≡ o.lt (key x) k)
      → IsMap key xs
      → (r : Option ℕ) × (find key left right xs ≡ some r) × Locates k xs r
  unfolding find
  find_lem k left right xs left-eq right-eq m =
      let (r, e, f) =
        exact_loop_lem key k left right xs left-eq right-eq m.ascending (suc (length xs)) 0
          (length xs) (omega arith) (omega arith) (λ i x h. absurd (omega arith))
          (λ i x h g. absurd (omega (arith, lt_length xs i x g))) in
      (r, e, Finds-Locates k xs r m f)
