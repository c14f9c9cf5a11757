-- ===== src/Contexts/Store.antt =====
-- The contexts of a message as a finite map from levels and time ranges.
use dballe.Prelude.{
  ℕ, zero, suc, ◌≡◌, refl, sym, ◌∙◌, ap, Bool, true, false, if◌then◌else◌, List, [], ◌∷◌, Option,
  some, none, get_elem?, Bool-cases, inl, inr,
}
use mathlib.Core.Path.{subst}
use dballe.Prelude.Int.{pos, ltb_ℤ}
use dballe.SortedVector.{All, reverse_onto, insert_back}
use dballe.SortedVector.Map
use dballe.SortedVector.Map.{erase, lookup, count_key, IsMap, insert_new-IsMap, lookup-insert_new}
use dballe.SortedVector.Update.{find_lem, Locates, here, nowhere, erase-IsMap, lookup-erase}
use dballe.Contexts.{Context, compare, find, swap_back, drop, insert_new, obtain}
use dballe.Contexts.Laws.{Place, place_ord, place, IsNatural, compare-below, compare-above}

module _ {ℓ} {Values : Type ℓ} where
  abbrev pub AllNatural : List (Context Values) → Type 0
  AllNatural = All (λ c. IsNatural (place c))

  AllNatural-get_elem? :
      (xs : List (Context Values)) (i : ℕ) (c : Context Values)
      → AllNatural xs
      → get_elem? xs i ≡ some c
      → IsNatural (place c)
  AllNatural-get_elem? [] i c a e = cc
  AllNatural-get_elem? (x ∷ xs) zero c a e = subst (λ y. IsNatural (place y)) (inject e) a.0
    where
      inject : {x y : Context Values} → some x ≡ some y → x ≡ y
      inject h = cc
  AllNatural-get_elem? (x ∷ xs) (suc i) c a e = AllNatural-get_elem? xs i c a.1 e

  AllNatural-reverse_onto :
      (xs ys : List (Context Values))
      → AllNatural xs
      → AllNatural ys
      → AllNatural (reverse_onto xs ys)
  AllNatural-reverse_onto [] ys a b = b
  AllNatural-reverse_onto (x ∷ xs) ys a b = AllNatural-reverse_onto xs (x ∷ ys) a.1 (a.0, b)

  swap_back-insert_back :
      (c : Context Values) (ps : List (Context Values))
      → IsNatural (place c)
      → AllNatural ps
      → swap_back c ps ≡ insert_back place c ps
  unfolding swap_back insert_back
  swap_back-insert_back c [] h a = refl
  swap_back-insert_back c (p ∷ ps) h a =
      rw (compare-above p (place c) a.0 h, swap_back-insert_back c ps h a.1) refl

  find-Locates :
      (p : Place) (contexts : List (Context Values))
      → IsNatural p
      → AllNatural contexts
      → IsMap place contexts
      → (r : Option ℕ) × (find p.level p.trange contexts ≡ some r) × Locates place p contexts r
  unfolding find Map.find
  find-Locates p [] h a m = (none, refl, nowhere refl refl)
  find-Locates p (c ∷ cs) h a m =
      find_lem place p (λ x. ltb_ℤ (pos 0) (compare x p.level p.trange))
        (λ x. ltb_ℤ (compare x p.level p.trange) (pos 0)) (c ∷ cs)
        (λ i x e. compare-above x p (AllNatural-get_elem? (c ∷ cs) i x a e) h)
        (λ i x e. compare-below x p (AllNatural-get_elem? (c ∷ cs) i x a e) h) m

  -- What `drop` leaves: whether there was a context, and a sorted vector without it.
  pub record Dropped (p : Place) (contexts : List (Context Values))
      (result : Option (Bool × List (Context Values))) : Type ℓ where
    pub dropped : Bool
    pub after : List (Context Values)
    pub returns : result ≡ some (dropped, after)
    pub was_there : dropped ≡ (elim (lookup place p contexts) [ none ↦ false | some c ↦ true ])
    pub sorted : IsMap place after
    pub views :
        (k : Place)
        → lookup place k after ≡ (if place_ord.eqb p k then none else lookup place k contexts)

  -- On contexts in order, with no negative fields, `drop` removes the context with a level and a time
  -- range, says whether there was one, and changes no other.
  pub drop_lem :
      (p : Place) (contexts : List (Context Values))
      → IsNatural p
      → AllNatural contexts
      → IsMap place contexts
      → Dropped p contexts (drop p.level p.trange contexts)
  unfolding drop
  drop_lem p contexts h a m =
      let (r, e, l) = find-Locates p contexts h a m in rw (e, drop) (remove r l)
    where
      remove :
          (r : Option ℕ)
          → Locates place p contexts r
          → Dropped p contexts (elim (some r) [
            | none ↦ none
            | some none ↦ some (false, contexts)
            | some (some i) ↦ some (true, erase contexts i)
          ])
      remove _ (nowhere n g) = record {
        dropped = false;
        after = contexts;
        returns = refl;
        was_there = rw g refl;
        sorted = m;
        views = λ k. elim (Bool-cases (place_ord.eqb p k)) [
          | inl e ↦ rw e (ap (λ z. lookup place z contexts) (sym ((place_ord.eqb_iff p k).0 e)) ∙ g)
          | inr e ↦ rw e refl
        ];
      }
      remove _ (here i y g same n) = record {
        dropped = true;
        after = erase contexts i;
        returns = refl;
        was_there = rw n refl;
        sorted = erase-IsMap place contexts i m;
        views = λ k.
            lookup-erase place k contexts i y m.unique g
            ∙ ap (λ z. if place_ord.eqb z k then none else lookup place k contexts) same;
      }

  module _ (new_values : Values) where
    -- A new context
    abbrev pub fresh : Place → Context Values
    fresh p = record { level = p.level; trange = p.trange; values = new_values }

    -- What `obtain` leaves: a sorted vector with a context for `p`, new only if there was none.
    pub record Obtained (p : Place) (contexts : List (Context Values))
        (result : Option (List (Context Values))) : Type ℓ where
      pub after : List (Context Values)
      pub returns : result ≡ some after
      pub sorted : IsMap place after
      pub there :
          lookup place p after
          ≡ some (elim (lookup place p contexts) [ none ↦ fresh p | some c ↦ c ])
      pub others :
          (k : Place) → place_ord.eqb p k ≡ false → lookup place k after ≡ lookup place k contexts

    -- On contexts in order, with no negative fields, `obtain` leaves the context with a level and a
    -- time range that was there, or else a new one, and changes no other.
    pub obtain_lem :
        (p : Place) (contexts : List (Context Values))
        → IsNatural p
        → AllNatural contexts
        → IsMap place contexts
        → Obtained p contexts (obtain new_values p.level p.trange contexts)
    unfolding obtain insert_new
    obtain_lem p contexts h a m =
        let (r, e, l) = find-Locates p contexts h a m in rw (e, obtain) (take_place r l)
      where
        inserted :
            insert_new new_values p.level p.trange contexts
            ≡ Map.insert_new place (fresh p) contexts
        inserted =
            unfold Map.insert_new in
            ap (λ ps. reverse_onto ps [])
              (swap_back-insert_back (fresh p) (reverse_onto contexts []) h
                (AllNatural-reverse_onto contexts [] a tt))

        take_place :
            (r : Option ℕ)
            → Locates place p contexts r
            → Obtained p contexts (elim (some r) [
              | none ↦ none
              | some none ↦ some (insert_new new_values p.level p.trange contexts)
              | some (some i) ↦ some contexts
            ])
        take_place _ (nowhere n g) = record {
          after = Map.insert_new place (fresh p) contexts;
          returns = ap some inserted;
          sorted = insert_new-IsMap place (fresh p) contexts m n;
          there = rw g (
              lookup-insert_new place p (fresh p) contexts n
              ∙ rw ((place_ord.eqb_iff p p).1 refl) refl);
          others = λ k apart. lookup-insert_new place k (fresh p) contexts n ∙ rw apart refl;
        }
        take_place _ (here i y g same n) = record {
          after = contexts;
          returns = refl;
          sorted = m;
          there = rw n refl;
          others = λ k apart. refl;
        }
