-- ===== src/Repinfo/Names.antt =====
-- Finding reports by name.
use dballe.Prelude.{
  ℕ, suc, ◌≤◌, ◌≡◌, refl, sym, ◌∙◌, ap, Bool, true, ◌&&◌, arith, List, [], ◌∷◌, map, Option, some,
  none, get_elem?, length, Bool-cases, inl, inr,
}
use dballe.Prelude.Int.{ℤ, negsuc, eqb_ℤ}
use dballe.Prelude.Order.{int_ord}
use dballe.SortedVector.{count_if, Ascending}
use dballe.SortedVector.Search.{Finds, at, absent, partition_loop, answer}
use dballe.SortedVector.Map.{count_if-get_elem?}
use dballe.SmallSet.{binary_search}
use dballe.SmallSet.Search.{IsSort, binary_search-Finds}
use dballe.Repinfo.{
  Cache, Memoidx, text_ord, item_at, cache_find_by_memo, rebuild_memo_idx, index_of, get_id,
  lc_memo, to_int,
}

-- The answer to a search for a name: the id of an entry with the name as an `int`, or -1 if no entry
-- has it.
pub data Named (memo : List ℕ) (cache : List Cache) : ℤ → Type 0 where
  known :
      {c : Cache} (i : ℕ)
      → get_elem? cache i ≡ some c
      → c.memo ≡ memo
      → Named memo cache (to_int c.id)
  unknown : count_if (λ c. text_ord.eqb c.memo memo) cache ≡ 0 → Named memo cache (negsuc 0)

count_if-map :
    {A B : Type 0} (f : A → B) (p : B → Bool) (xs : List A)
    → count_if p (map f xs) ≡ count_if (λ x. p (f x)) xs
count_if-map f p [] = refl
count_if-map f p (x ∷ xs) = omega (arith, count_if-map f p xs)

place_of :
    {A : Type 0} (p : A → Bool) (xs : List A)
    → 1 ≤ count_if p xs
    → (i : ℕ) × (x : A) × (get_elem? xs i ≡ some x) × (p x ≡ true)
place_of p [] h = absurd (omega (arith, h))
place_of p (x ∷ xs) h = elim (Bool-cases (p x)) [
  | inl e ↦ (0, x, refl, e)
  | inr e ↦ let (i, y, g, q) = place_of p xs (ground (arith, e, h)) in (suc i, y, g, q)
]

length-count : {A : Type 0} (xs : List A) → count_if (λ x. true) xs ≡ length xs
length-count [] = refl
length-count (x ∷ xs) = omega (arith, length-count xs)

length-map : {A B : Type 0} (f : A → B) (xs : List A) → length (map f xs) ≡ length xs
length-map f [] = refl
length-map f (x ∷ xs) = ap suc (length-map f xs)

module _ (std_sort : List Memoidx → List Memoidx) (is_sort : IsSort (λ m. m.memo) std_sort) where
  abbrev sorted : List Cache → List Memoidx
  sorted cache = std_sort (map index_of cache)

  length-sorted : (cache : List Cache) → length (sorted cache) ≡ length cache
  length-sorted cache =
      sym (length-count (sorted cache))
      ∙ (is_sort.same (map index_of cache)).counts (λ m. true)
      ∙ length-count (map index_of cache)
      ∙ length-map index_of cache

  Finds-Named :
      (memo : List ℕ) (cache : List Cache) (f : Option ℕ)
      → Finds (λ m. m.memo) memo (sorted cache) f
      → (r : ℤ) × (elim (item_at (sorted cache) (some f)) as (λ _. Option ℤ) [
        | none ↦ none
        | some none ↦ some (negsuc 0)
        | some (some m) ↦ some m.id
      ]
          ≡ some r)
        × Named memo cache r
  Finds-Named memo cache _ (at i x g same) =
      let here : Memoidx → Bool = λ m. text_ord.eqb m.memo x.memo && eqb_ℤ m.id x.id in
      let many : 1 ≤ count_if here (sorted cache) =
        count_if-get_elem? here (sorted cache) i x g (here_refl x) in
      let (j, c, h, p) =
        place_of (λ c. here (index_of c)) cache
          (omega (
            arith,
            many,
            (is_sort.same (map index_of cache)).counts here,
            count_if-map index_of here cache,
          )) in
      (
        x.id,
        rw (g, item_at) refl,
        named (to_int c.id) x.id (same_id c x p)
            (known j h (same_memo c x p ∙ (text_ord.eqb_iff x.memo memo).0 same)),
      )
    where
      here_refl : (x : Memoidx) → (text_ord.eqb x.memo x.memo && eqb_ℤ x.id x.id) ≡ true
      here_refl x =
          rw ((text_ord.eqb_iff x.memo x.memo).1 refl) ((int_ord.eqb_iff x.id x.id).1 refl)

      same_memo :
          (c : Cache) (x : Memoidx)
          → (text_ord.eqb c.memo x.memo && eqb_ℤ (to_int c.id) x.id) ≡ true
          → c.memo ≡ x.memo
      same_memo c x p =
          (text_ord.eqb_iff c.memo x.memo).0
            (first (text_ord.eqb c.memo x.memo) (eqb_ℤ (to_int c.id) x.id) p)
        where
          first : (a b : Bool) → (a && b) ≡ true → a ≡ true
          first a b q = ground (arith, q)

      same_id :
          (c : Cache) (x : Memoidx)
          → (text_ord.eqb c.memo x.memo && eqb_ℤ (to_int c.id) x.id) ≡ true
          → to_int c.id ≡ x.id
      same_id c x p =
          (int_ord.eqb_iff (to_int c.id) x.id).0
            (second (text_ord.eqb c.memo x.memo) (eqb_ℤ (to_int c.id) x.id) p)
        where
          second : (a b : Bool) → (a && b) ≡ true → b ≡ true
          second a b q = ground (arith, q)

      named : (a b : ℤ) → a ≡ b → Named memo cache a → Named memo cache b
      named a b e n = rw (sym e) n
  Finds-Named memo cache _ (absent none_there) = (
    negsuc 0,
    refl,
    unknown (
        sym (count_if-map index_of (λ m. text_ord.eqb m.memo memo) cache)
        ∙ sym ((is_sort.same (map index_of cache)).counts (λ m. text_ord.eqb m.memo memo))
        ∙ none_there),
  )

  search_sorted :
      (memo : List ℕ) (cache : List Cache)
      → cache_find_by_memo memo (record { cache = cache; memo_idx = sorted cache })
        ≡ binary_search (λ m. m.memo) memo (sorted cache)
  unfolding cache_find_by_memo binary_search
  search_sorted memo cache = ap bounded_by (sym (length-sorted cache))
    where
      bounded_by : ℕ → Option (Option ℕ)
      bounded_by n = elim (partition_loop (λ m. m.memo) (suc n) memo (sorted cache) 0 n) [
        | none ↦ none
        | some i ↦ answer (λ m. m.memo) memo (sorted cache) i
      ]

  Ascending-sorted : (cache : List Cache) → Ascending (λ m. m.memo) (sorted cache)
  Ascending-sorted cache = is_sort.ascending (map index_of cache)

  -- If the sort sorts and the index is empty, then the search for a name reads no item outside its
  -- vectors, and returns the id, as an `int`, of an entry whose name is the first 19 characters of the
  -- name in lower case, or -1 if there is no such entry.
  pub get_id_lem :
      (memo : List ℕ) (cache : List Cache)
      → (r : ℤ) × ((get_id std_sort memo (record { cache = cache; memo_idx = [] })).0 ≡ some r)
        × Named (lc_memo memo) cache r
  unfolding get_id rebuild_memo_idx
  get_id_lem memo cache =
      let (f, e, finds) =
        binary_search-Finds (λ m. m.memo) (lc_memo memo) (sorted cache) (Ascending-sorted cache) in
      rw (search_sorted (lc_memo memo) cache ∙ e, get_id) (Finds-Named (lc_memo memo) cache f finds)
