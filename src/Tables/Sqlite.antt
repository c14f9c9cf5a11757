-- ===== src/Tables/Sqlite.antt =====
-- How the SQLite tables insert rows: SQLiteStationData::insert and SQLiteData::insert of
-- dballe/db/v7/sqlite/data.cc. `sort` is std::sort by the values of the rows, `execute` runs the
-- statement for a row and returns the id of the row that it made.
use dballe.Prelude.{
  ℕ, zero, suc, ◌⊎◌, Error, ◌≤◌, ◌≡◌, refl, ◌∙◌, true, false, arith, if◌then◌else◌, List, [], ◌∷◌,
  Option, some, Result, ok, err, ◌>>=◌, Bool-cases, inl, inr,
}
use dballe.Prelude.Int.{ℤ}
use dballe.Prelude.Words.{is_missing_int}
use dballe.Prelude.Order.{Ord}
use dballe.SortedVector.{count_if}
use dballe.SmallSet.Search.{IsSort}
use dballe.Pending.{Rows}
use dballe.Pending.Known.{IsRows}
use dballe.Pending.Written.{noted}

module _ {Item Value Datum Db : Type 0} ⦃o : Ord Value⦄ (rows : Rows Item Value Datum)
    (execute : Datum → Db → Result (ℤ × Db)) where
  -- The loop of `insert`: of rows with the same value the last is inserted.
  unfoldable pub insert_loop : List Datum → Db → Result (List Datum × Db)
  insert_loop [] db = ok ([], db)
  insert_loop (v ∷ []) db = do (id, db') ← execute v db; ok (rows.with_id id v ∷ [], db')
  insert_loop (v ∷ w ∷ vs) db = elim (o.eqb (rows.value v) (rows.value w)) [
    | true ↦ do (rest, db') ← insert_loop (w ∷ vs) db; ok (v ∷ rest, db')
    | false ↦ do
      (id, db1) ← execute v db
      (rest, db2) ← insert_loop (w ∷ vs) db1
      ok (rows.with_id id v ∷ rest, db2)
  ]

  -- SQLiteStationData::insert and SQLiteData::insert
  unfoldable pub insert : (List Datum → List Datum) → List Datum → Db → Result (List Datum × Db)
  unfolding insert_loop
  insert sort vars db = insert_loop (sort vars) db

-- An insertion of `vs` that left `ds`: the rows have the same values, and each has an id.
pub record Inserts {Item Value Datum : Type 0} ⦃o : Ord Value⦄ (rows : Rows Item Value Datum)
    (vs ds : List Datum) : Type 0 where
  pub values :
      (k : Value)
      → count_if (λ d. o.eqb (rows.value d) k) ds ≡ count_if (λ d. o.eqb (rows.value d) k) vs
  pub ids :
      (known : Value → Option ℤ) (k : Value)
      → 1 ≤ count_if (λ d. o.eqb (rows.value d) k) vs
      → (z : ℤ) × (noted rows known ds k ≡ some z) × (is_missing_int z ≡ false)

none_or_some : (n : ℕ) → (1 ≤ n) ⊎ (n ≡ 0)
none_or_some zero = inr refl
none_or_some (suc n) = inl (omega arith)

module _ {Item Value Datum : Type 0} ⦃o : Ord Value⦄ (rows : Rows Item Value Datum)
    (is_rows : IsRows rows) where
  abbrev counted : Value → List Datum → ℕ
  counted k = count_if (λ d. o.eqb (rows.value d) k)

  noted-absent :
      (known : Value → Option ℤ) (ds : List Datum) (k : Value)
      → counted k ds ≡ 0
      → noted rows known ds k ≡ known k
  noted-absent known [] k h = refl
  noted-absent known (d ∷ ds) k h = elim (Bool-cases (o.eqb (rows.value d) k)) [
    | inl e ↦ absurd (ground (arith, e, h))
    | inr e ↦
        noted-absent (λ k. if o.eqb (rows.value d) k then some (rows.datum_id d) else known k) ds k
          (omega (arith, h))
        ∙ rw e refl
  ]

  Inserts-nil : Inserts rows [] []
  Inserts-nil = record { values = λ k. refl; ids = λ known k h. absurd (omega (arith, h)) }

  -- A row that is inserted before others of which none has its value
  Inserts-row :
      (z : ℤ) (v : Datum) (vs ds : List Datum)
      → is_missing_int z ≡ false
      → Inserts rows vs ds
      → Inserts rows (v ∷ vs) (rows.with_id z v ∷ ds)
  Inserts-row z v vs ds h r = record {
    values = λ k. rw (is_rows.value_with_id z v) (omega (arith, r.values k));
    ids = λ known k c.
        let known' : Value → Option ℤ = λ k.
          if o.eqb (rows.value (rows.with_id z v)) k
          then some (rows.datum_id (rows.with_id z v))
          else known k in
        elim (none_or_some (counted k vs)) [
          | inl some_there ↦ r.ids known' k some_there
          | inr none_there ↦
              let e : o.eqb (rows.value v) k ≡ true = ground (arith, c, none_there) in
              (
                z,
                noted-absent known' ds k (r.values k ∙ none_there)
                    ∙ rw (is_rows.value_with_id z v, e, is_rows.id_with_id z v) refl,
                h,
              )
        ];
  }

  Inserts-skip :
      (v w : Datum) (vs ds : List Datum)
      → o.eqb (rows.value v) (rows.value w) ≡ true
      → Inserts rows (w ∷ vs) ds
      → Inserts rows (v ∷ w ∷ vs) (v ∷ ds)
  Inserts-skip v w vs ds e r = record {
    values = λ k. omega (arith, r.values k);
    ids = λ known k c.
        let same : rows.value v ≡ rows.value w = (o.eqb_iff (rows.value v) (rows.value w)).0 e in
        r.ids (λ k. if o.eqb (rows.value v) k then some (rows.datum_id v) else known k) k
          (ground (arith, rw same at c));
  }

  -- The outcomes of an insertion of `vs`: an exception that the statement throws for a row with one of
  -- their values, or an insertion
  pub data Inserted {Db : Type 0} (execute : Datum → Db → Result (ℤ × Db)) (vs : List Datum)
      : Result (List Datum × Db) → Type 0 where
    thrown :
        {e : Error} (d : Datum) (db : Db)
        → 1 ≤ counted (rows.value d) vs
        → execute d db ≡ err e
        → Inserted execute vs (err e)
    inserted : (ds : List Datum) {db : Db} → Inserts rows vs ds → Inserted execute vs (ok (ds, db))

  counted-head : (v : Datum) (vs : List Datum) → 1 ≤ counted (rows.value v) (v ∷ vs)
  counted-head v vs = ground (arith, (o.eqb_iff (rows.value v) (rows.value v)).1 refl)

  -- The same of the loop alone
  insert_loop_lem :
      {Db : Type 0} (execute : Datum → Db → Result (ℤ × Db))
      → ((v : Datum) (db : Db) (z : ℤ) (db' : Db)
          → execute v db ≡ ok (z, db')
          → is_missing_int z ≡ false)
      → (vs : List Datum) (db : Db) → Inserted execute vs (insert_loop rows execute vs db)
  unfolding insert_loop
  insert_loop_lem execute h [] db = inserted [] Inserts-nil
  insert_loop_lem {Db} execute h (v ∷ []) db = go (execute v db) refl
    where
      go :
          (r : Result (ℤ × Db))
          → execute v db ≡ r
          → Inserted execute (v ∷ []) (r >>= λ x. ok (rows.with_id x.0 v ∷ [], x.1))
      go (err e) g = thrown v db (counted-head v []) g
      go (ok (z, db')) g = inserted _ (Inserts-row z v [] [] (h v db z db' g) Inserts-nil)
  insert_loop_lem {Db} execute h (v ∷ w ∷ vs) db =
      elim (Bool-cases (o.eqb (rows.value v) (rows.value w))) [
        | inl e ↦
            rw (e, insert_loop)
              (skip e (insert_loop rows execute (w ∷ vs) db)
                (insert_loop_lem execute h (w ∷ vs) db))
        | inr e ↦
            rw (e, insert_loop)
              (row (execute v db) refl (λ db. insert_loop_lem execute h (w ∷ vs) db))
      ]
    where
      longer :
          (d : Datum)
          → 1 ≤ counted (rows.value d) (w ∷ vs)
          → 1 ≤ counted (rows.value d) (v ∷ w ∷ vs)
      longer d l = omega (arith, l)

      skip :
          o.eqb (rows.value v) (rows.value w) ≡ true
          → (r : Result (List Datum × Db)) → Inserted execute (w ∷ vs) r
          → Inserted execute (v ∷ w ∷ vs) (r >>= λ x. ok (v ∷ x.0, x.1))
      skip e _ (thrown d db l g) = thrown d db (longer d l) g
      skip e _ (inserted ds i) = inserted _ (Inserts-skip v w vs ds e i)

      after :
          (z : ℤ)
          → is_missing_int z ≡ false
          → (r : Result (List Datum × Db)) → Inserted execute (w ∷ vs) r
          → Inserted execute (v ∷ w ∷ vs) (r >>= λ x. ok (rows.with_id z v ∷ x.0, x.1))
      after z m _ (thrown d db l g) = thrown d db (longer d l) g
      after z m _ (inserted ds i) = inserted _ (Inserts-row z v (w ∷ vs) ds m i)

      row :
          (r : Result (ℤ × Db))
          → execute v db ≡ r
          → ((db : Db) → Inserted execute (w ∷ vs) (insert_loop rows execute (w ∷ vs) db))
          → Inserted execute (v ∷ w ∷ vs) (do
            (z, db1) ← r
            (ds, db2) ← insert_loop rows execute (w ∷ vs) db1
            ok (rows.with_id z v ∷ ds, db2))
      row (err e) g rest = thrown v db (counted-head v (w ∷ vs)) g
      row (ok (z, db1)) g rest =
          after z (h v db z db1 g) (insert_loop rows execute (w ∷ vs) db1) (rest db1)

  -- If the statement returns ids that are not missing and the sort sorts, then an insertion throws
  -- what the statement throws for a row with the value of one of those to insert, or it leaves rows
  -- that have each value as often as those, and noting their ids gives an id that is not missing for
  -- each value.
  pub insert-Inserted :
      {Db : Type 0} (execute : Datum → Db → Result (ℤ × Db))
      → ((v : Datum) (db : Db) (z : ℤ) (db' : Db)
          → execute v db ≡ ok (z, db')
          → is_missing_int z ≡ false)
      → (sort : List Datum → List Datum) → IsSort rows.value sort
      → (vs : List Datum) (db : Db) → Inserted execute vs (insert rows execute sort vs db)
  unfolding insert
  insert-Inserted {Db} execute h sort is_sort vs db =
      go (insert_loop rows execute (sort vs) db) (insert_loop_lem execute h (sort vs) db)
    where
      sorted : (k : Value) → counted k (sort vs) ≡ counted k vs
      sorted k = (is_sort.same vs).counts (λ d. o.eqb (rows.value d) k)

      go : (r : Result (List Datum × Db)) → Inserted execute (sort vs) r → Inserted execute vs r
      go _ (thrown d db l g) = thrown d db (omega (arith, l, sorted (rows.value d))) g
      go _ (inserted ds i) = inserted ds (record {
        values = λ k. i.values k ∙ sorted k;
        ids = λ known k c. i.ids known k (omega (arith, c, sorted k));
      })
