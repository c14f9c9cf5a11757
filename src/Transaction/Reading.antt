-- ===== src/Transaction/Reading.antt =====
-- Reading the ids of the values after they were written.
use dballe.Prelude.{ℕ, ◌≡◌, refl, sym, ◌∙◌, List, [], ◌∷◌, map, Option, some, none}
use dballe.Prelude.Int.{ℤ}
use dballe.Prelude.Order.{Ord}
use dballe.SortedVector.Search.{Finds, at, absent}
use dballe.SmallSet.{SmallSet}
use dballe.SmallSet.Search.{IsSort}
use dballe.Pending.{Rows, search, id_at}
use dballe.Pending.Known.{id_of, IsKept, Sought, search_lem, id_of-absent, id_of-at}
use dballe.Transaction.{read_ids}

module _ {Item Value Datum Var : Type 0} ⦃o : Ord Value⦄ (rows : Rows Item Value Datum)
    (sort : List Item → List Item) (is_sort : IsSort rows.get_value sort)
    (value : Var → Value) where
  -- The id that a search finds
  abbrev id_found : Option ℕ × SmallSet Item → Option ℤ
  id_found f = elim f.0 as (λ _. Option ℤ) [
    | none ↦ none
    | some i ↦ some (id_at rows sort f.1.items i)
  ]

  id_found_lem :
      (k : Value) (s : SmallSet Item) (f : Option ℕ × SmallSet Item)
      → Sought rows k s f
      → Finds rows.get_value k f.1.items f.0
      → id_found f ≡ id_of rows k s.items
  id_found_lem k s (_, s') t (at i x g same) =
      rw (g, id_at) refl ∙ sym (id_of-at rows k s'.items i x t.kept.unique g same) ∙ t.same k
  id_found_lem k s (_, s') t (absent none_there) =
      sym (id_of-absent rows k s'.items none_there) ∙ t.same k

  -- If the rows are kept, the ids that are read for values are those that are known of them, in order;
  -- the rows stay kept, with the same ids.
  pub read_ids_lem :
      (vs : List Var) (s : SmallSet Item)
      → IsKept rows s
      → ((read_ids rows sort value vs s).0 ≡ map (λ v. id_of rows (value v) s.items) vs)
        × (IsKept rows (read_ids rows sort value vs s).1
            × ((k : Value)
                → id_of rows k (read_ids rows sort value vs s).1.items ≡ id_of rows k s.items))
  unfolding read_ids
  read_ids_lem [] s h = (refl, (h, λ k. refl))
  read_ids_lem (v ∷ vs) s h =
      let t = search_lem rows sort is_sort (value v) s h in
      let s' = (search rows.get_value sort (value v) s).1 in
      let (e, (k, same)) = read_ids_lem vs s' t.kept in
      (
        cons (id_found_lem (value v) s (search rows.get_value sort (value v) s) t t.finds) (
            e
            ∙ maps (λ v. id_of rows (value v) s'.items) (λ v. id_of rows (value v) s.items)
                (λ v. t.same (value v)) vs),
        (k, λ q. same q ∙ t.same q),
      )
    where
      cons : {a b : Option ℤ} {xs ys : List (Option ℤ)} → a ≡ b → xs ≡ ys → (a ∷ xs) ≡ (b ∷ ys)
      cons p q = rw (p, q) refl

      maps :
          (f g : Var → Option ℤ) → ((v : Var) → f v ≡ g v) → (vs : List Var) → map f vs ≡ map g vs
      maps f g p [] = refl
      maps f g p (v ∷ vs) = cons (p v) (maps f g p vs)
