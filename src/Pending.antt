-- ===== src/Pending.antt =====
-- The rows that dballe/db/v7/batch.cc holds before it writes them. StationData and MeasuredData do
-- the same with different rows: `Rows` names what differs, and both are made of the functions here.
pub mod Known
pub mod Added
pub mod Written
use dballe.Prelude.{
  is_empty, ℕ, Bool, true, false, if◌then◌else◌, List, [], ◌∷◌, ◌++◌, Option, some, none, get_elem?,
  Result, ok, err, consistency, zero, suc, ◌>>=◌,
}
use dballe.Prelude.Int.{ℤ}
use dballe.Prelude.Words.{missing_int}
use dballe.Prelude.Order.{Ord}
use dballe.SmallSet.{SmallSet, empty}
use dballe.SmallSet as SmallSets

-- batch::UpdateMode
pub data UpdateMode : Type 0 where
  update ignore error : UpdateMode

-- The items of the set of known rows, their values, and the rows that wait (StationDatum or
-- MeasuredDatum)
pub record Rows (Item Value Datum : Type 0) : Type 0 where
  pub get_value : Item → Value
  pub item_id : Item → ℤ
  -- The item that is added for a row and its id
  pub item : ℤ → Value → Item
  -- `cur->id = id`
  pub set_id : ℤ → Item → Item
  pub value : Datum → Value
  pub datum_id : Datum → ℤ
  -- The same row with another id
  pub with_id : ℤ → Datum → Datum

-- The fields that StationData and MeasuredData share: ids_by_code or ids_on_db, to_insert, to_update
pub record Pending (Item Datum : Type 0) : Type 0 where
  pub ids : SmallSet Item
  pub to_insert : List Datum
  pub to_update : List Datum

abbrev pub no_pending : {Item Datum : Type 0} → Pending Item Datum
no_pending = record { ids = empty; to_insert = []; to_update = [] }

abbrev pub change_at : {A : Type 0} → (A → A) → ℕ → List A → List A
change_at f i [] = []
change_at f zero (x ∷ xs) = f x ∷ xs
change_at f (suc i) (x ∷ xs) = x ∷ change_at f i xs

-- SmallSet::find. It does not run out of fuel on a set that only `find` and `add` have sorted.
unfoldable pub search :
    {Item Value : Type 0}
    → ⦃o : Ord Value⦄ → (Item → Value)
    → (List Item → List Item)
    → Value
    → SmallSet Item
    → Option ℕ × SmallSet Item
search get_value sort value s = elim (SmallSets.find get_value sort value s) [
  | none ↦ (none, s)
  | some r ↦ r
]

module _ {Item Value Datum : Type 0} ⦃o : Ord Value⦄ (rows : Rows Item Value Datum)
    (sort : List Item → List Item) where
  -- `in_db->id`
  abbrev pub id_at : List Item → ℕ → ℤ
  id_at xs i = elim (get_elem? xs i) [ none ↦ missing_int | some x ↦ rows.item_id x ]

  -- What `add` does with the result of the search
  abbrev pub place :
      UpdateMode
      → Datum
      → Option ℕ × SmallSet Item
      → Pending Item Datum
      → Result (Pending Item Datum)
  place update d (some i, s) p =
      ok (record p { ids = s; to_update = p.to_update ++ rows.with_id (id_at s.items i) d ∷ [] })
  place ignore d (some i, s) p = ok (record p { ids = s })
  place error d (some i, s) p = err consistency
  place mode d (none, s) p = ok (record p { ids = s; to_insert = p.to_insert ++ d ∷ [] })

  -- MeasuredData::add, and StationData::add from the search on
  unfoldable pub add : UpdateMode → Datum → Pending Item Datum → Result (Pending Item Datum)
  unfolding search
  add mode d p = place mode d (search rows.get_value sort (rows.value d) p.ids) p

  -- The body of the loop of `write_pending` after the search
  abbrev pub note_id : Datum → Option ℕ × SmallSet Item → SmallSet Item
  unfolding SmallSets.add
  note_id d (some i, s) = record s { items = change_at (rows.set_id (rows.datum_id d)) i s.items }
  note_id d (none, s) = SmallSets.add (rows.item (rows.datum_id d) (rows.value d)) s

  -- The loop of `write_pending` over `to_insert`
  unfoldable pub note_ids : List Datum → SmallSet Item → SmallSet Item
  unfolding search
  note_ids [] s = s
  note_ids (d ∷ ds) s = note_ids ds (note_id d (search rows.get_value sort (rows.value d) s))

  -- `insert` and `update` of the table: the first returns the rows as it leaves them, with their ids.
  module _ {Db : Type 0} (insert : List Datum → Db → Result (List Datum × Db))
      (update : List Datum → Db → Result Db) where
    abbrev pub write_new : Pending Item Datum → Db → Result (SmallSet Item × Db)
    unfolding note_ids
    write_new p db =
        if is_empty p.to_insert
        then ok (p.ids, db)
        else do (ds, db') ← insert p.to_insert db; ok (note_ids ds p.ids, db')

    abbrev pub write_changed : Pending Item Datum → Db → Result Db
    write_changed p db = if is_empty p.to_update then ok db else update p.to_update db

    -- StationData::write_pending and MeasuredData::write_pending
    unfoldable pub write_pending : Pending Item Datum → Db → Result (Pending Item Datum × Db)
    unfolding note_ids
    write_pending p db = do
      (ids, db1) ← write_new p db
      db2 ← write_changed p db1
      ok (record { ids = ids; to_insert = []; to_update = [] }, db2)
