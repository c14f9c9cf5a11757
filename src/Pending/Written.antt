-- ===== src/Pending/Written.antt =====
-- What writing the waiting rows leaves: their ids are known afterwards.
use dballe.Prelude.{
  ℕ, zero, suc, ◌-◌, ◌≤◌, ◌≡◌, refl, sym, ap, false, arith, if◌then◌else◌, List, [], ◌∷◌, ◌++◌,
  Option, some, none, get_elem?, length, take, Result, ok, err, ◌>>=◌, Bool-cases, inl, inr,
}
use dballe.Prelude.Int.{ℤ}
use dballe.Prelude.Order.{Ord}
use dballe.SortedVector.{NoneBelow, Ascending}
use dballe.SortedVector.Search.{Finds, at, absent}
use dballe.SortedVector.Map.{count_key, unique_tail, head_differs}
use dballe.SmallSet.{SmallSet}
use dballe.SmallSet as SmallSets
use dballe.SmallSet.Search.{IsSort, count_if-append}
use dballe.SmallSet.Unique.{IsTidy-add}
use dballe.Pending.{
  Rows, Pending, search, change_at, note_id, note_ids, write_pending, write_new, write_changed,
}
use dballe.Pending.Known.{IsRows, id_of, IsKept, Sought, search_lem}

length-change_at :
    {A : Type 0} (f : A → A) (i : ℕ) (xs : List A) → length (change_at f i xs) ≡ length xs
length-change_at f i [] = refl
length-change_at f zero (x ∷ xs) = refl
length-change_at f (suc i) (x ∷ xs) = ap suc (length-change_at f i xs)

module _ {Item Value Datum : Type 0} ⦃o : Ord Value⦄ (rows : Rows Item Value Datum) where
  -- The ids that are known after the ids of rows have been noted: the last row with a value counts.
  abbrev pub noted : (Value → Option ℤ) → List Datum → Value → Option ℤ
  noted known [] k = known k
  noted known (d ∷ ds) k =
      noted (λ k. if o.eqb (rows.value d) k then some (rows.datum_id d) else known k) ds k

  -- What noting ids leaves
  pub record Notes (known : Value → Option ℤ) (s : SmallSet Item) : Type 0 where
    pub kept : IsKept rows s
    pub known_then : (k : Value) → id_of rows k s.items ≡ known k

  module _ {Db : Type 0} (insert : List Datum → Db → Result (List Datum × Db))
      (update : List Datum → Db → Result Db) where
    -- The tables are not called when no row waits.
    abbrev pub insert_any : List Datum → Db → Result (List Datum × Db)
    insert_any [] db = ok ([], db)
    insert_any (d ∷ ds) db = insert (d ∷ ds) db

    abbrev pub update_any : List Datum → Db → Result Db
    update_any [] db = ok db
    update_any (d ∷ ds) db = update (d ∷ ds) db

    -- The outcomes of writing the rows of `p`
    pub data Writes (p : Pending Item Datum) (db : Db)
        : Result (Pending Item Datum × Db) → Type 0 where
      not_inserted : {e : _} → insert_any p.to_insert db ≡ err e → Writes p db (err e)
      not_updated :
          {e : _} (ds : List Datum) (db1 : Db)
          → insert_any p.to_insert db ≡ ok (ds, db1)
          → update_any p.to_update db1 ≡ err e
          → Writes p db (err e)
      written :
          {after : Pending Item Datum} {db2 : Db} (ds : List Datum) (db1 : Db)
          → insert_any p.to_insert db ≡ ok (ds, db1)
          → update_any p.to_update db1 ≡ ok db2
          → after.to_insert ≡ []
          → after.to_update ≡ []
          → Notes (noted (λ k. id_of rows k p.ids.items) ds) after.ids
          → Writes p db (ok (after, db2))

module _ {Item Value Datum : Type 0} ⦃o : Ord Value⦄ (rows : Rows Item Value Datum)
    (is_rows : IsRows rows) where
  module _ (z : ℤ) where
    NoneBelow-change_at :
        (k : Value) (n i : ℕ) (xs : List Item)
        → NoneBelow rows.get_value k (take n xs)
        → NoneBelow rows.get_value k (take n (change_at (rows.set_id z) i xs))
    NoneBelow-change_at k zero i xs h = tt
    NoneBelow-change_at k (suc n) i [] h = tt
    NoneBelow-change_at k (suc n) zero (x ∷ xs) h = (rw (is_rows.value_set_id z x) h.0, h.1)
    NoneBelow-change_at k (suc n) (suc i) (x ∷ xs) h = (h.0, NoneBelow-change_at k n i xs h.1)

    Ascending-change_at :
        (n i : ℕ) (xs : List Item)
        → Ascending rows.get_value (take n xs)
        → Ascending rows.get_value (take n (change_at (rows.set_id z) i xs))
    Ascending-change_at zero i xs h = tt
    Ascending-change_at (suc n) i [] h = tt
    Ascending-change_at (suc n) zero (x ∷ xs) h = (rw (is_rows.value_set_id z x) h.0, h.1)
    Ascending-change_at (suc n) (suc i) (x ∷ xs) h =
        (NoneBelow-change_at (rows.get_value x) n i xs h.0, Ascending-change_at n i xs h.1)

    count_key-change_at :
        (k : Value) (i : ℕ) (xs : List Item)
        → count_key rows.get_value k (change_at (rows.set_id z) i xs)
          ≡ count_key rows.get_value k xs
    count_key-change_at k i [] = refl
    count_key-change_at k zero (x ∷ xs) = rw (is_rows.value_set_id z x) refl
    count_key-change_at k (suc i) (x ∷ xs) = omega (arith, count_key-change_at k i xs)

    id_of-change_at :
        (k : Value) (i : ℕ) (xs : List Item) (x : Item)
        → ((k : Value) → count_key rows.get_value k xs ≤ 1)
        → get_elem? xs i ≡ some x
        → id_of rows k (change_at (rows.set_id z) i xs)
          ≡ (if o.eqb (rows.get_value x) k then some z else id_of rows k xs)
    unfolding id_of
    id_of-change_at k i [] x u e = cc
    id_of-change_at k zero (y ∷ ys) x u e =
        let same : rows.get_value x ≡ rows.get_value y = ap (value_or y) (sym e) in
        elim (Bool-cases (o.eqb (rows.get_value x) k)) [
          | inl c ↦ rw (is_rows.value_set_id z y, sym same, c, is_rows.id_set_id z y) refl
          | inr c ↦ rw (is_rows.value_set_id z y, sym same, c) refl
        ]
      where
        value_or : Item → Option Item → Value
        value_or d none = rows.get_value d
        value_or d (some a) = rows.get_value a
    id_of-change_at k (suc i) (y ∷ ys) x u e = elim (Bool-cases (o.eqb (rows.get_value y) k)) [
      | inr c ↦ rw c (id_of-change_at k i ys x (unique_tail rows.get_value y ys u) e)
      | inl c ↦
          let same : rows.get_value y ≡ k = (o.eqb_iff (rows.get_value y) k).0 c in
          let apart : o.eqb (rows.get_value x) k ≡ false = rw same at (
            flip (rows.get_value y) (rows.get_value x)
              (head_differs rows.get_value y ys i x u e)) in
          rw (c, apart) refl
    ]
      where
        flip : (a b : Value) → o.eqb a b ≡ false → o.eqb b a ≡ false
        flip a b h = ground (arith, h, o.eqb_iff a b, o.eqb_iff b a)

  id_of-append :
      (k : Value) (xs : List Item) (y : Item)
      → count_key rows.get_value (rows.get_value y) xs ≡ 0
      → id_of rows k (xs ++ y ∷ [])
        ≡ (if o.eqb (rows.get_value y) k then some (rows.item_id y) else id_of rows k xs)
  unfolding id_of
  id_of-append k [] y h = refl
  id_of-append k (x ∷ xs) y h = elim (Bool-cases (o.eqb (rows.get_value x) k)) [
    | inr c ↦ rw c (id_of-append k xs y (omega (arith, h)))
    | inl c ↦ elim (Bool-cases (o.eqb (rows.get_value y) k)) [
      | inr d ↦ rw (c, d) refl
      | inl d ↦
          let same : rows.get_value y ≡ k = (o.eqb_iff (rows.get_value y) k).0 d in
          absurd (ground (arith, c, rw same at h))
    ]
  ]

  unique-append :
      (xs : List Item) (y : Item)
      → count_key rows.get_value (rows.get_value y) xs ≡ 0
      → ((k : Value) → count_key rows.get_value k xs ≤ 1)
      → (k : Value) → count_key rows.get_value k (xs ++ y ∷ []) ≤ 1
  unique-append xs y h u k = elim (Bool-cases (o.eqb (rows.get_value y) k)) [
    | inr c ↦ ground (arith, c, u k, count_if-append (λ x. o.eqb (rows.get_value x) k) xs (y ∷ []))
    | inl c ↦
        let same : rows.get_value y ≡ k = (o.eqb_iff (rows.get_value y) k).0 c in
        ground
          (arith, c, rw same at h, count_if-append (λ x. o.eqb (rows.get_value x) k) xs (y ∷ []))
  ]

  module _ (sort : List Item → List Item) (is_sort : IsSort rows.get_value sort) where
    note_id_lem :
        (d : Datum) (f : Option ℕ × SmallSet Item) (s : SmallSet Item)
        → Sought rows (rows.value d) s f
        → Finds rows.get_value (rows.value d) f.1.items f.0
        → Notes rows
            (λ k. if o.eqb (rows.value d) k then some (rows.datum_id d) else id_of rows k s.items)
            (note_id rows sort d f)
    unfolding SmallSets.add
    note_id_lem d (_, s') s t (at i x g same) =
        let z = rows.datum_id d in
        let e : rows.get_value x ≡ rows.value d =
          (o.eqb_iff (rows.get_value x) (rows.value d)).0 same in
        record {
          kept = record {
            tidy = record {
              within = rw (length-change_at (rows.set_id z) i s'.items) t.kept.tidy.within;
              sorted = rw (length-change_at (rows.set_id z) i s'.items) (
                  Ascending-change_at z (length s'.items - s'.dirty) i s'.items t.kept.tidy.sorted);
            };
            unique = λ k. rw (count_key-change_at z k i s'.items) (t.kept.unique k);
          };
          known_then =
              λ k. rw (sym (t.same k), sym e) (id_of-change_at z k i s'.items x t.kept.unique g);
        }
    note_id_lem d (_, s') s t (absent none_there) =
        let y = rows.item (rows.datum_id d) (rows.value d) in
        let e = is_rows.value_item (rows.datum_id d) (rows.value d) in
        record {
          kept = record {
            tidy = IsTidy-add rows.get_value y s' t.kept.tidy;
            unique = λ k. unique-append s'.items y (rw e none_there) t.kept.unique k;
          };
          known_then = λ k. rw (sym (t.same k)) (
              rw (e, is_rows.id_item (rows.datum_id d) (rows.value d)) at
                (id_of-append k s'.items y (rw e none_there)));
        }

    pub note_ids_lem :
        (known : Value → Option ℤ) (ds : List Datum) (s : SmallSet Item)
        → Notes rows known s
        → Notes rows (noted rows known ds) (note_ids rows sort ds s)
    unfolding note_ids
    note_ids_lem known [] s n = n
    note_ids_lem known (d ∷ ds) s n =
        let t = search_lem rows sort is_sort (rows.value d) s n.kept in
        let m = note_id_lem d (search rows.get_value sort (rows.value d) s) s t t.finds in
        note_ids_lem (λ k. if o.eqb (rows.value d) k then some (rows.datum_id d) else known k) ds
          (note_id rows sort d (search rows.get_value sort (rows.value d) s))
          (record { kept = m.kept; known_then = λ k. rw (sym (n.known_then k)) (m.known_then k) })

    module _ {Db : Type 0} (insert : List Datum → Db → Result (List Datum × Db))
        (update : List Datum → Db → Result Db) where
      abbrev note_all : SmallSet Item → List Datum × Db → Result (SmallSet Item × Db)
      note_all s r = ok (note_ids rows sort r.0 s, r.1)

      write_new_lem :
          (s : SmallSet Item) (new : List Datum) (changed : List Datum) (db : Db)
          → write_new rows sort insert update
              (record { ids = s; to_insert = new; to_update = changed })
              db
            ≡ (insert_any rows insert update new db >>= note_all s)
      unfolding note_ids
      write_new_lem s [] changed db = refl
      write_new_lem s (d ∷ ds) changed db = refl

      write_changed_lem :
          (s : SmallSet Item) (new : List Datum) (changed : List Datum) (db : Db)
          → write_changed rows sort insert update
              (record { ids = s; to_insert = new; to_update = changed })
              db
            ≡ update_any rows insert update changed db
      write_changed_lem s new [] db = refl
      write_changed_lem s new (d ∷ ds) db = refl

      -- Writing the rows of kept rows either throws what a table throws, or calls the tables for the
      -- rows to insert and to update, leaves no row waiting, and notes the ids of the rows inserted.
      pub write_pending_lem :
          (p : Pending Item Datum) (db : Db)
          → IsKept rows p.ids
          → Writes rows insert update p db (write_pending rows sort insert update p db)
      unfolding write_pending
      write_pending_lem p db k =
          rw (write_new_lem p.ids p.to_insert p.to_update db)
            (after_insert (insert_any rows insert update p.to_insert db) refl)
        where
          after_update :
              (ds : List Datum) (db1 : Db)
              → insert_any rows insert update p.to_insert db ≡ ok (ds, db1)
              → (r : Result Db) → update_any rows insert update p.to_update db1 ≡ r
              → Writes rows insert update p db (
                  r >>= λ db2. ok (
                    record { ids = note_ids rows sort ds p.ids; to_insert = []; to_update = [] },
                    db2,
                  ))
          after_update ds db1 h (err e) g = not_updated ds db1 h g
          after_update ds db1 h (ok db2) g = written ds db1 h g refl refl (
              note_ids_lem (λ k. id_of rows k p.ids.items) ds p.ids
                (record { kept = k; known_then = λ k. refl }))

          after_insert :
              (r : Result (List Datum × Db))
              → insert_any rows insert update p.to_insert db ≡ r
              → Writes rows insert update p db (do
                (ids, db1) ← (r >>= note_all p.ids)
                db2 ← write_changed rows sort insert update p db1
                ok (record { ids = ids; to_insert = []; to_update = [] }, db2))
          after_insert (err e) h = not_inserted h
          after_insert (ok (ds, db1)) h =
              rw (write_changed_lem p.ids p.to_insert p.to_update db1)
                (after_update ds db1 h (update_any rows insert update p.to_update db1) refl)
