-- ===== src/Pending/Added.antt =====
-- What adding a row does, told by the ids that are known.
use dballe.Prelude.{
  ℕ, ◌≡◌, refl, sym, ◌∙◌, ap, List, [], ◌∷◌, ◌++◌, Option, some, none, Result, ok, err, consistency,
}
use dballe.Prelude.Int.{ℤ}
use dballe.Prelude.Order.{Ord}
use dballe.SortedVector.Search.{Finds, at, absent}
use dballe.SmallSet.{SmallSet}
use dballe.SmallSet.Search.{IsSort}
use dballe.Pending.{Rows, Pending, UpdateMode, update, ignore, error, search, id_at, place, add}
use dballe.Pending.Known.{id_of, IsKept, Sought, search_lem, id_of-absent, id_of-at}

module _ {Item Value Datum : Type 0} ⦃o : Ord Value⦄ (rows : Rows Item Value Datum) where
  -- Where a row goes, if its value has the id `known`: nothing but the waiting rows is told.
  abbrev pub destination :
      UpdateMode → Option ℤ → Datum → Pending Item Datum → Result (List Datum × List Datum)
  destination mode none d p = ok (p.to_insert ++ d ∷ [], p.to_update)
  destination update (some z) d p = ok (p.to_insert, p.to_update ++ rows.with_id z d ∷ [])
  destination ignore (some z) d p = ok (p.to_insert, p.to_update)
  destination error (some z) d p = err consistency

  -- The result of adding a row: an exception, or the waiting rows with the same ids known.
  pub data Adds (p : Pending Item Datum)
      : Result (List Datum × List Datum) → Result (Pending Item Datum) → Type 0 where
    thrown : {e : _} → Adds p (err e) (err e)
    placed :
        {i u : List Datum} (after : Pending Item Datum)
        → after.to_insert ≡ i
        → after.to_update ≡ u
        → IsKept rows after.ids
        → ((k : Value) → id_of rows k after.ids.items ≡ id_of rows k p.ids.items)
        → Adds p (ok (i, u)) (ok after)

  module _ (sort : List Item → List Item) (is_sort : IsSort rows.get_value sort) where
    place-found :
        (mode : UpdateMode) (d : Datum) (p : Pending Item Datum) (i : ℕ) (s : SmallSet Item) (z : ℤ)
        → id_at rows sort s.items i ≡ z
        → IsKept rows s
        → ((k : Value) → id_of rows k s.items ≡ id_of rows k p.ids.items)
        → Adds p (destination mode (some z) d p) (place rows sort mode d (some i, s) p)
    place-found update d p i s z e k same =
        placed _ refl (ap (λ z. p.to_update ++ rows.with_id z d ∷ []) e) k same
    place-found ignore d p i s z e k same = placed _ refl refl k same
    place-found error d p i s z e k same = thrown

    -- Adding a row to kept rows throws when its value is known and the mode is `error`; it adds the
    -- row with the known id to the rows to update, nothing at all, or, when the value is not known, the
    -- row to the rows to insert. The known ids stay.
    pub add_lem :
        (mode : UpdateMode) (d : Datum) (p : Pending Item Datum)
        → IsKept rows p.ids
        → Adds p
            (destination mode (id_of rows (rows.value d) p.ids.items) d p)
            (add rows sort mode d p)
    unfolding add
    add_lem mode d p h =
        let s = search_lem rows sort is_sort (rows.value d) p.ids h in
        go (search rows.get_value sort (rows.value d) p.ids) s s.finds
      where
        go :
            (f : Option ℕ × SmallSet Item)
            → Sought rows (rows.value d) p.ids f
            → Finds rows.get_value (rows.value d) f.1.items f.0
            → Adds p
                (destination mode (id_of rows (rows.value d) p.ids.items) d p)
                (place rows sort mode d f p)
        go (_, s) t (at i x g same) =
            let known =
              sym (t.same (rows.value d))
              ∙ id_of-at rows (rows.value d) s.items i x t.kept.unique g same in
            rw known (place-found mode d p i s (rows.item_id x) (rw (g, id_at) refl) t.kept t.same)
        go (_, s) t (absent none_there) =
            let unknown =
              sym (t.same (rows.value d)) ∙ id_of-absent rows (rows.value d) s.items none_there in
            rw unknown (placed _ refl refl t.kept t.same)
