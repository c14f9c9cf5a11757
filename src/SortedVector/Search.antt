-- ===== src/SortedVector/Search.antt =====
-- The binary search that keeps `begin` before the last item not above the key and `end` at the
-- first item above it. `lo` here is `begin` + 1, since `begin` starts from -1.
use dballe.Prelude.{
  ℕ, zero, suc, ◌+◌, ◌-◌, ◌/◌, ◌≤◌, ◌<◌, ◌≡◌, refl, ◌⊎◌, Bool, true, false, arith, ltb,
  if◌then◌else◌, List, [], ◌∷◌, Option, some, none, get_elem?, length, Bool-cases, inl, inr,
}
use dballe.Prelude.Order.{Ord, not_lt_trans, lt_irrefl, not_eqb}
use dballe.SortedVector.{count_if, NoneBelow, Ascending}

-- An index below the length has an item.
pub get_elem?-total {ℓ} :
    {A : Type ℓ} (xs : List A) (i : ℕ) → i < length xs → (x : A) × (get_elem? xs i ≡ some x)
get_elem?-total [] i h = absurd (omega arith)
get_elem?-total (x ∷ xs) zero h = (x, refl)
get_elem?-total (x ∷ xs) (suc i) h = get_elem?-total xs i (omega arith)

pub lt_length {ℓ} :
    {A : Type ℓ} (xs : List A) (i : ℕ) (x : A) → get_elem? xs i ≡ some x → i < length xs
lt_length [] i x h = cc
lt_length (y ∷ ys) zero x h = omega arith
lt_length (y ∷ ys) (suc i) x h = omega (arith, lt_length ys i x h)

-- No item passes a test that fails at each index.
pub count_if-zero {ℓ} :
    {A : Type ℓ} (p : A → Bool) (xs : List A)
    → ((i : ℕ) (x : A) → get_elem? xs i ≡ some x → p x ≡ false)
    → count_if p xs ≡ 0
count_if-zero p [] h = refl
count_if-zero p (x ∷ xs) h =
    rw (h 0 x refl) (omega (arith, count_if-zero p xs (λ i y e. h (suc i) y e)))

module _ {ℓ κ} {A : Type ℓ} {K : Type κ} ⦃o : Ord K⦄ (key : A → K) where
  unfoldable pub partition_loop : ℕ → K → List A → ℕ → ℕ → Option ℕ
  partition_loop zero k xs lo hi = none
  partition_loop (suc fuel) k xs lo hi = elim (ltb lo hi) [
    | false ↦ some lo
    | true ↦ elim (get_elem? xs ((hi + lo - 1) / 2)) [
      | none ↦ none
      | some x ↦ elim (o.lt k (key x)) [
        | true ↦ partition_loop fuel k xs lo ((hi + lo - 1) / 2)
        | false ↦ partition_loop fuel k xs ((hi + lo - 1) / 2 + 1) hi
      ]
    ]
  ]

  NoneBelow-get_elem? :
      (k : K) (xs : List A) (i : ℕ) (x : A)
      → NoneBelow key k xs
      → get_elem? xs i ≡ some x
      → o.lt (key x) k ≡ false
  NoneBelow-get_elem? k [] i x n h = cc
  NoneBelow-get_elem? k (y ∷ ys) zero x n h = ground (arith, n.0)
  NoneBelow-get_elem? k (y ∷ ys) (suc i) x n h = NoneBelow-get_elem? k ys i x n.1 h

  pub Ascending-get_elem? :
      (xs : List A) (i j : ℕ) (x y : A)
      → Ascending key xs
      → i ≤ j
      → get_elem? xs i ≡ some x
      → get_elem? xs j ≡ some y
      → o.lt (key y) (key x) ≡ false
  Ascending-get_elem? [] i j x y a h p q = cc
  Ascending-get_elem? (z ∷ zs) zero zero x y a h p q =
      let e : x ≡ y = cc in rw e (lt_irrefl (key y))
  Ascending-get_elem? (z ∷ zs) zero (suc j) x y a h p q =
      let e : z ≡ x = cc in rw (← e) (NoneBelow-get_elem? (key z) zs j y a.0 q)
  Ascending-get_elem? (z ∷ zs) (suc i) zero x y a h p q = absurd (omega arith)
  Ascending-get_elem? (z ∷ zs) (suc i) (suc j) x y a h p q =
      Ascending-get_elem? zs i j x y a.1 (omega arith) p q

  -- The items before `n` are not above the key, and the others are.
  pub record Splits (k : K) (xs : List A) (n : ℕ) : Type ℓ where
    pub bounded : n ≤ length xs
    pub before : (i : ℕ) (x : A) → i < n → get_elem? xs i ≡ some x → o.lt k (key x) ≡ false
    pub after : (i : ℕ) (x : A) → n ≤ i → get_elem? xs i ≡ some x → o.lt k (key x) ≡ true

  lt_of_lt_of_not_lt : (a b c : K) → o.lt a b ≡ true → o.lt c b ≡ false → o.lt a c ≡ true
  lt_of_lt_of_not_lt a b c h k = elim (Bool-cases (o.lt a c)) [
    | inl p ↦ p
    | inr p ↦ cc (h, not_lt_trans b c a k p)
  ]

  module _ (k : K) (xs : List A) (a : Ascending key xs) where
    pub partition_loop_lem :
        (fuel lo hi : ℕ)
        → hi - lo < fuel
        → lo ≤ hi
        → hi ≤ length xs
        → ((i : ℕ) (x : A) → i < lo → get_elem? xs i ≡ some x → o.lt k (key x) ≡ false)
        → ((i : ℕ) (x : A) → hi ≤ i → get_elem? xs i ≡ some x → o.lt k (key x) ≡ true)
        → (n : ℕ) × (partition_loop fuel k xs lo hi ≡ some n) × Splits k xs n
    unfolding partition_loop
    partition_loop_lem zero lo hi f le len pre post = absurd (omega arith)
    partition_loop_lem (suc fuel) lo hi f le len pre post = elim (Bool-cases (ltb lo hi)) [
      | inr h ↦
          let e : lo ≡ hi = ground arith in
          rw (h, partition_loop)
            (
              lo,
              refl,
              record {
                bounded = omega arith;
                before = pre;
                after = λ i x g. post i x (omega arith);
              },
            )
      | inl h ↦
          let lt : lo < hi = ground arith in
          let (x, at) = get_elem?-total xs ((hi + lo - 1) / 2) (omega arith) in
          rw (h, partition_loop, at)
            (elim (Bool-cases (o.lt k (key x))) [
              | inl above ↦
                  rw (above, partition_loop)
                    (partition_loop_lem fuel lo ((hi + lo - 1) / 2) (omega arith) (omega arith)
                      (omega arith) pre
                      (λ i y g e.
                        lt_of_lt_of_not_lt k (key x) (key y) above
                          (Ascending-get_elem? xs ((hi + lo - 1) / 2) i x y a g at e)))
              | inr within ↦
                  rw (within, partition_loop)
                    (partition_loop_lem fuel ((hi + lo - 1) / 2 + 1) hi (omega arith) (omega arith)
                      len
                      (λ i y g e.
                        not_lt_trans (key y) (key x) k
                          (Ascending-get_elem? xs i ((hi + lo - 1) / 2) y x a (omega arith) e at)
                          within)
                      post)
            ])
    ]

  -- What a search for a key answers: the place of an item with the key, or that there is none.
  pub data Finds (k : K) (xs : List A) : Option ℕ → Type ℓ where
    at : (i : ℕ) (x : A) → get_elem? xs i ≡ some x → o.eqb (key x) k ≡ true → Finds k xs (some i)
    absent : count_if (λ x. o.eqb (key x) k) xs ≡ 0 → Finds k xs none

  -- `if (begin == -1 || items[begin] != value) return -1; else return begin;`
  abbrev pub answer : K → List A → ℕ → Option (Option ℕ)
  answer k xs zero = some none
  answer k xs (suc n) = elim (get_elem? xs n) [
    | none ↦ none
    | some x ↦ some (if o.eqb (key x) k then some n else none)
  ]

  module _ (k : K) (xs : List A) (a : Ascending key xs) where
    pub answer-Finds :
        (n : ℕ) → Splits k xs n → (r : Option ℕ) × (answer k xs n ≡ some r) × Finds k xs r
    answer-Finds zero s = (
      none,
      refl,
      absent (count_if-zero _ xs (λ i x e. not_eqb (key x) k (inr (s.after i x (omega arith) e)))),
    )
    answer-Finds (suc n) s =
        let (x, e) = get_elem?-total xs n (omega (arith, s.bounded)) in
        rw (e, answer)
          (elim (Bool-cases (o.eqb (key x) k)) [
            | inl same ↦ rw (same, answer) (some n, refl, at n x e same)
            | inr differs ↦
                rw (differs, answer)
                  (
                    none,
                    refl,
                    absent (
                        count_if-zero _ xs
                          (λ i y g. other x e differs i y g (Bool-cases (ltb n i)))),
                  )
          ])
      where
        other :
            (x : A)
            → get_elem? xs n ≡ some x
            → o.eqb (key x) k ≡ false
            → (i : ℕ) (y : A) → get_elem? xs i ≡ some y
            → (ltb n i ≡ true) ⊎ (ltb n i ≡ false)
            → o.eqb (key y) k ≡ false
        other x e differs i y g (inl h) = not_eqb (key y) k (inr (s.after i y (ground arith) g))
        other x e differs i y g (inr h) = elim (Bool-cases (o.eqb (key y) k)) [
          | inr f ↦ f
          | inl f ↦
              let p : key y ≡ k = (o.eqb_iff (key y) k).0 f in
              let below : o.lt (key x) (key y) ≡ false =
                Ascending-get_elem? xs i n y x a (ground arith) g e in
              let q : key x ≡ k =
                o.connected (key x) k (rw p at below) (s.before n x (omega arith) e) in
              cc (differs, (o.eqb_iff (key x) k).1 q)
        ]
