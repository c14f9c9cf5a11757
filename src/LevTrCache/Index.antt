-- ===== src/LevTrCache/Index.antt =====
-- The index by level finds what a search of all entries finds.
use dballe.Prelude.{
  ◌≡◌, refl, sym, ◌∙◌, ap, true, false, if◌then◌else◌, List, [], ◌∷◌, ◌++◌, Bool-cases, inl, inr,
}
use dballe.Prelude.Int.{ℤ}
use dballe.Prelude.Words.{missing_int, is_missing_int}
use dballe.SortedVector.{All}
use dballe.Level as Levels
use dballe.Level.{Level}
use dballe.Level.Order.{level_operators-IsTotalOrder}
use dballe.Trange as Tranges
use dballe.Trange.{Trange}
use dballe.Trange.Order.{trange_operators-IsTotalOrder}
use dballe.LevTrCache.{
  LevTrEntry, LevTrCache, ReverseIndex, empty, bucket, scan, reverse_find_id, reverse_add, find_id,
}

-- The entries with a level
abbrev pub of_level : Level → List LevTrEntry → List LevTrEntry
of_level l [] = []
of_level l (e ∷ es) = if Levels.eq e.level l then e ∷ of_level l es else of_level l es

-- The index has the entries of each level, in the order of insertion.
pub record IsIndexed (c : LevTrCache) : Type 0 where
  pub buckets : (l : Level) → bucket l c.reverse ≡ of_level l c.by_id

of_level-append :
    (l : Level) (es : List LevTrEntry) (e : LevTrEntry)
    → of_level l (es ++ e ∷ [])
      ≡ (if Levels.eq e.level l then of_level l es ++ e ∷ [] else of_level l es)
of_level-append l [] e = refl
of_level-append l (x ∷ xs) e = elim (Bool-cases (Levels.eq e.level l)) [
  | inl h ↦ elim (Bool-cases (Levels.eq x.level l)) [
    | inl k ↦ rw (h, k) (ap (λ r. x ∷ r) (of_level-append l xs e ∙ rw h refl))
    | inr k ↦ rw (h, k) (of_level-append l xs e ∙ rw h refl)
  ]
  | inr h ↦ elim (Bool-cases (Levels.eq x.level l)) [
    | inl k ↦ rw (h, k) (ap (λ r. x ∷ r) (of_level-append l xs e ∙ rw h refl))
    | inr k ↦ rw (h, k) (of_level-append l xs e ∙ rw h refl)
  ]
]

eq_trans : (a b l : Level) → Levels.eq a b ≡ true → Levels.eq a l ≡ Levels.eq b l
eq_trans a b l h = ap (λ z. Levels.eq z l) ((level_operators-IsTotalOrder.eq_iff a b).0 h)

other_level : (a b l : Level) → Levels.eq a b ≡ false → Levels.eq a l ≡ true → Levels.eq b l ≡ false
other_level a b l h g = elim (Bool-cases (Levels.eq b l)) [
  | inr k ↦ k
  | inl k ↦
      let same : a ≡ b =
        (level_operators-IsTotalOrder.eq_iff a l).0 g
        ∙ sym ((level_operators-IsTotalOrder.eq_iff b l).0 k) in
      cc (h, (level_operators-IsTotalOrder.eq_iff a b).1 same)
]

bucket-reverse_add :
    (l : Level) (e : LevTrEntry) (r : ReverseIndex)
    → bucket l (reverse_add e r)
      ≡ (if Levels.eq e.level l then bucket l r ++ e ∷ [] else bucket l r)
unfolding reverse_add
bucket-reverse_add l e [] = refl
bucket-reverse_add l e ((k, es) ∷ rest) = elim (Bool-cases (Levels.eq k e.level)) [
  | inl h ↦ elim (Bool-cases (Levels.eq e.level l)) [
    | inl g ↦ rw (h, g, eq_trans k e.level l h ∙ g) refl
    | inr g ↦ rw (h, g, eq_trans k e.level l h ∙ g) refl
  ]
  | inr h ↦ elim (Bool-cases (Levels.eq k l)) [
    | inl g ↦
        let differs : Levels.eq e.level l ≡ false = other_level k e.level l h g in
        rw (h, g, differs) refl
    | inr g ↦ rw (h, g) (bucket-reverse_add l e rest)
  ]
]

pub empty-IsIndexed : IsIndexed empty
empty-IsIndexed = record { buckets = λ l. refl }

pub stored-IsIndexed :
    (e : LevTrEntry) (c : LevTrCache)
    → IsIndexed c
    → IsIndexed (record { by_id = c.by_id ++ e ∷ []; reverse = reverse_add e c.reverse })
stored-IsIndexed e c h = record {
  buckets = λ l.
      bucket-reverse_add l e c.reverse ∙ rw (h.buckets l) refl ∙ sym (of_level-append l c.by_id e);
}

scan-of_level :
    (lt : LevTrEntry) (es : List LevTrEntry) → scan lt (of_level lt.level es) ≡ scan lt es
unfolding scan
scan-of_level lt [] = refl
scan-of_level lt (e ∷ es) = elim (Bool-cases (Levels.eq e.level lt.level)) [
  | inl h ↦ rw (h, scan) (rw (h, scan-of_level lt es) refl)
  | inr h ↦ rw h (scan-of_level lt es)
]

-- The entry has a level and time range.
pub record Has (level : Level) (trange : Trange) (e : LevTrEntry) : Type 0 where
  pub same_level : e.level ≡ level
  pub same_trange : e.trange ≡ trange

-- The answers to a search of the entries `es` for `lt`: its own id, that of the first entry with its
-- level and time range, or MISSING_INT.
pub data FoundId (lt : LevTrEntry) (es : List LevTrEntry) : ℤ → Type 0 where
  own : is_missing_int lt.id ≡ false → FoundId lt es lt.id
  first :
      (before after : List LevTrEntry) (e : LevTrEntry)
      → is_missing_int lt.id ≡ true
      → es ≡ before ++ e ∷ after
      → Has lt.level lt.trange e
      → All (λ x. ¬ Has lt.level lt.trange x) before
      → FoundId lt es e.id
  unknown :
      is_missing_int lt.id ≡ true
      → All (λ x. ¬ Has lt.level lt.trange x) es
      → FoundId lt es missing_int

scan-FoundId :
    (lt : LevTrEntry) (es : List LevTrEntry)
    → is_missing_int lt.id ≡ true
    → FoundId lt es (scan lt es)
unfolding scan
scan-FoundId lt [] m = unknown m tt
scan-FoundId lt (e ∷ es) m = elim (Bool-cases (Levels.eq e.level lt.level)) [
  | inr h ↦
      let differs : ¬ Has lt.level lt.trange e =
        λ k. cc (h, (level_operators-IsTotalOrder.eq_iff e.level lt.level).1 k.same_level) in
      rw h (later differs (scan lt es) (scan-FoundId lt es m))
  | inl h ↦ elim (Bool-cases (Tranges.eq e.trange lt.trange)) [
    | inr g ↦
        let differs : ¬ Has lt.level lt.trange e =
          λ k. cc (g, (trange_operators-IsTotalOrder.eq_iff e.trange lt.trange).1 k.same_trange) in
        rw (h, g) (later differs (scan lt es) (scan-FoundId lt es m))
    | inl g ↦
        rw (h, g)
          (first [] es e m refl
            (record {
              same_level = (level_operators-IsTotalOrder.eq_iff e.level lt.level).0 h;
              same_trange = (trange_operators-IsTotalOrder.eq_iff e.trange lt.trange).0 g;
            })
            tt)
  ]
]
  where
    later : ¬ Has lt.level lt.trange e → (z : ℤ) → FoundId lt es z → FoundId lt (e ∷ es) z
    later differs _ (own k) = own k
    later differs _ (first before after x k split has none_has) =
        first (e ∷ before) after x k (ap (λ r. e ∷ r) split) has (differs, none_has)
    later differs _ (unknown k none_has) = unknown k (differs, none_has)

-- With an index of all entries, `find_id` returns the id of the entry if it has one, and otherwise the
-- id of the first entry that was inserted with its level and its time range, or MISSING_INT if there
-- is none.
pub find_id_lem : (e : LevTrEntry) (c : LevTrCache) → IsIndexed c → FoundId e c.by_id (find_id e c)
unfolding find_id reverse_find_id
find_id_lem e c h = elim (Bool-cases (is_missing_int e.id)) [
  | inl m ↦ rw (m, h.buckets e.level, scan-of_level e c.by_id) (scan-FoundId e c.by_id m)
  | inr m ↦ rw m (own m)
]
