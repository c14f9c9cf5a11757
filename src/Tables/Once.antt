-- ===== src/Tables/Once.antt =====
-- The insertion of rows of dballe/db/v7/sqlite/data.cc, and runs of its statement, one for each value.
use dballe.Prelude.{
  ◌≡◌, refl, sym, ◌∙◌, ap, Bool, true, false, ◌||◌, if◌then◌else◌, List, [], ◌∷◌, map, Result, ok,
  err, ◌>>=◌, Bool-cases, inl, inr,
}
use dballe.Prelude.Int.{ℤ}
use dballe.Prelude.Order.{Ord}
use dballe.SortedVector.{NoneBelow, Ascending}
use dballe.SmallSet.Search.{IsSort}
use dballe.Pending.{Rows}
use dballe.Pending.Known.{IsRows}
use dballe.Tables.Sqlite.{insert_loop, insert}

module _ {Item Value Datum : Type 0} ⦃o : Ord Value⦄ (rows : Rows Item Value Datum)
    (is_rows : IsRows rows) where
  abbrev pub has_value : Value → List Value → Bool
  has_value k [] = false
  has_value k (x ∷ xs) = o.eqb x k || has_value k xs

  -- The rows after which no row has their value
  abbrev pub lasts : List Datum → List Datum
  lasts [] = []
  lasts (v ∷ vs) = if has_value (rows.value v) (map rows.value vs) then lasts vs else v ∷ lasts vs

  abbrev pub only_lasts : {Db : Type 0} → Result (List Datum × Db) → Result (List Datum × Db)
  only_lasts (err e) = err e
  only_lasts (ok x) = ok (lasts x.0, x.1)

  module _ {Db : Type 0} (execute : Datum → Db → Result (ℤ × Db)) where
    abbrev pub with_rest : Datum → ℤ → Result (List Datum × Db) → Result (List Datum × Db)
    with_rest v z r = r >>= λ x. ok (rows.with_id z v ∷ x.0, x.1)

    -- The statement is run for each row, and the row gets its id.
    abbrev pub run_all : List Datum → Db → Result (List Datum × Db)
    run_all [] db = ok ([], db)
    run_all (v ∷ vs) db = execute v db >>= λ x. with_rest v x.0 (run_all vs x.1)

    -- The rows that are left have the values of those that were given.
    data Same (vs : List Datum) : Result (List Datum × Db) → Type 0 where
      threw : {e : _} → Same vs (err e)
      left :
          {ds : List Datum} {db : Db}
          → map rows.value ds ≡ map rows.value vs
          → Same vs (ok (ds, db))

    insert_loop-Same : (vs : List Datum) (db : Db) → Same vs (insert_loop rows execute vs db)
    unfolding insert_loop
    insert_loop-Same [] db = left refl
    insert_loop-Same (v ∷ []) db = one (execute v db)
      where
        one : (r : Result (ℤ × Db)) → Same (v ∷ []) (r >>= λ x. ok (rows.with_id x.0 v ∷ [], x.1))
        one (err e) = threw
        one (ok x) = left (ap (λ k. k ∷ []) (is_rows.value_with_id x.0 v))
    insert_loop-Same (v ∷ w ∷ vs) db = elim (Bool-cases (o.eqb (rows.value v) (rows.value w))) [
      | inl e ↦
          rw (e, insert_loop)
            (skip (insert_loop rows execute (w ∷ vs) db) (insert_loop-Same (w ∷ vs) db))
      | inr e ↦ rw (e, insert_loop) (row (execute v db) (λ db. insert_loop-Same (w ∷ vs) db))
    ]
      where
        skip :
            (r : Result (List Datum × Db))
            → Same (w ∷ vs) r
            → Same (v ∷ w ∷ vs) (r >>= λ x. ok (v ∷ x.0, x.1))
        skip _ threw = threw
        skip _ (left s) = left (ap (λ ks. rows.value v ∷ ks) s)

        after :
            (z : ℤ) (r : Result (List Datum × Db))
            → Same (w ∷ vs) r
            → Same (v ∷ w ∷ vs) (with_rest v z r)
        after z _ threw = threw
        after z _ (left {ds = ds} s) = left (
            ap (λ k. k ∷ map rows.value ds) (is_rows.value_with_id z v)
            ∙ ap (λ ks. rows.value v ∷ ks) s)

        row :
            (r : Result (ℤ × Db))
            → ((db : Db) → Same (w ∷ vs) (insert_loop rows execute (w ∷ vs) db))
            → Same (v ∷ w ∷ vs) (r >>= λ x. with_rest v x.0 (insert_loop rows execute (w ∷ vs) x.1))
        row (err e) rest = threw
        row (ok x) rest = after x.0 (insert_loop rows execute (w ∷ vs) x.1) (rest x.1)

    -- In sorted rows, a value that the next row does not have is in none that follow.
    not_later :
        (v w : Datum) (vs : List Datum)
        → Ascending rows.value (v ∷ w ∷ vs)
        → o.eqb (rows.value v) (rows.value w) ≡ false
        → has_value (rows.value v) (map rows.value (w ∷ vs)) ≡ false
    not_later v w vs a e = rw (differs w e) (none_of vs a.1.0)
      where
        differs :
            (x : Datum)
            → o.eqb (rows.value v) (rows.value x) ≡ false
            → o.eqb (rows.value x) (rows.value v) ≡ false
        differs x d = elim (Bool-cases (o.eqb (rows.value x) (rows.value v))) [
          | inr g ↦ g
          | inl g ↦
              let same = (o.eqb_iff (rows.value x) (rows.value v)).0 g in
              cc (d, (o.eqb_iff (rows.value v) (rows.value x)).1 (sym same))
        ]

        below : o.lt (rows.value v) (rows.value w) ≡ true
        below = elim (Bool-cases (o.lt (rows.value v) (rows.value w))) [
          | inl g ↦ g
          | inr g ↦
              let same = o.connected (rows.value v) (rows.value w) g a.0.0 in
              cc (e, (o.eqb_iff (rows.value v) (rows.value w)).1 same)
        ]

        none_of :
            (xs : List Datum)
            → NoneBelow rows.value (rows.value w) xs
            → has_value (rows.value v) (map rows.value xs) ≡ false
        none_of [] n = refl
        none_of (x ∷ xs) n = elim (Bool-cases (o.eqb (rows.value x) (rows.value v))) [
          | inr g ↦ rw g (none_of xs n.1)
          | inl g ↦
              let same = (o.eqb_iff (rows.value x) (rows.value v)).0 g in
              cc (below, ap (λ k. o.lt k (rows.value w)) same, n.0)
        ]

    -- The loop on sorted rows
    insert_loop-run_all :
        (vs : List Datum) (db : Db)
        → Ascending rows.value vs
        → only_lasts (insert_loop rows execute vs db) ≡ run_all (lasts vs) db
    unfolding insert_loop
    insert_loop-run_all [] db a = refl
    insert_loop-run_all (v ∷ []) db a = one (execute v db)
      where
        one :
            (r : Result (ℤ × Db))
            → only_lasts (r >>= λ x. ok (rows.with_id x.0 v ∷ [], x.1))
              ≡ (r >>= λ x. with_rest v x.0 (run_all [] x.1))
        one (err e) = refl
        one (ok x) = refl
    insert_loop-run_all (v ∷ w ∷ vs) db a =
        elim (Bool-cases (o.eqb (rows.value v) (rows.value w))) [
          | inl e ↦
              let there : has_value (rows.value v) (map rows.value (w ∷ vs)) ≡ true = first_has e in
              rw (e, insert_loop, there)
                (skip there (insert_loop rows execute (w ∷ vs) db) (insert_loop-Same (w ∷ vs) db)
                  ∙ insert_loop-run_all (w ∷ vs) db a.1)
          | inr e ↦
              let gone : has_value (rows.value v) (map rows.value (w ∷ vs)) ≡ false =
                not_later v w vs a e in
              rw (e, insert_loop, gone)
                (row gone (execute v db) (λ db. insert_loop-run_all (w ∷ vs) db a.1))
        ]
      where
        first_has :
            o.eqb (rows.value v) (rows.value w) ≡ true
            → has_value (rows.value v) (map rows.value (w ∷ vs)) ≡ true
        first_has e =
            let same = (o.eqb_iff (rows.value v) (rows.value w)).0 e in
            rw ((o.eqb_iff (rows.value w) (rows.value v)).1 (sym same)) refl

        skip :
            has_value (rows.value v) (map rows.value (w ∷ vs)) ≡ true
            → (r : Result (List Datum × Db)) → Same (w ∷ vs) r
            → only_lasts (r >>= λ x. ok (v ∷ x.0, x.1)) ≡ only_lasts r
        skip there _ threw = refl
        skip there _ (left s) = rw (ap (has_value (rows.value v)) s ∙ there) refl

        after :
            has_value (rows.value v) (map rows.value (w ∷ vs)) ≡ false
            → (z : ℤ) (r : Result (List Datum × Db)) → Same (w ∷ vs) r
            → only_lasts (with_rest v z r) ≡ with_rest v z (only_lasts r)
        after gone z _ threw = refl
        after gone z _ (left {ds = ds} s) =
            rw
              (ap (λ k. has_value k (map rows.value ds)) (is_rows.value_with_id z v)
                ∙ ap (has_value (rows.value v)) s
                ∙ gone)
              refl

        row :
            has_value (rows.value v) (map rows.value (w ∷ vs)) ≡ false
            → (r : Result (ℤ × Db))
            → ((db : Db)
                → only_lasts (insert_loop rows execute (w ∷ vs) db) ≡ run_all (lasts (w ∷ vs)) db)
            → only_lasts (r >>= λ x. with_rest v x.0 (insert_loop rows execute (w ∷ vs) x.1))
              ≡ (r >>= λ x. with_rest v x.0 (run_all (lasts (w ∷ vs)) x.1))
        row gone (err e) rest = refl
        row gone (ok x) rest =
            after gone x.0 (insert_loop rows execute (w ∷ vs) x.1) (insert_loop-Same (w ∷ vs) x.1)
            ∙ ap (with_rest v x.0) (rest x.1)

    -- If the sort sorts, an insertion runs the statement once for each value, in the order of the
    -- values, with the last of the sorted rows that have it: it throws what the first run that fails
    -- throws, and otherwise leaves the database that the runs leave, and those rows with the ids that
    -- the runs return.
    pub insert-run_all :
        (sort : List Datum → List Datum)
        → IsSort rows.value sort
        → (vs : List Datum) (db : Db)
        → only_lasts (insert rows execute sort vs db) ≡ run_all (lasts (sort vs)) db
    unfolding insert
    insert-run_all sort is_sort vs db = insert_loop-run_all (sort vs) db (is_sort.ascending vs)
