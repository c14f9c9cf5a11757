-- ===== src/Values/Merge.antt =====
-- ValuesBase::merge: the variables that are merged replace those with their codes.
use dballe.Prelude.{ℕ, ◌≡◌, refl, ◌∙◌, ap, ◌==◌, if◌then◌else◌, List, [], ◌∷◌, Option, some, map}
use dballe.Prelude.Order.{nat_ord}
use dballe.Values.{merge}
use dballe.Values.Laws.{IsSorted, get, Becomes, set_var_lem}

module _ {ℓ} {Var : Type ℓ} (varcode : Var → ℕ) where
  -- The last variable of `vals` with a code, or else what there was
  abbrev pub merged : List Var → (ℕ → Option (Option Var)) → ℕ → Option (Option Var)
  merged [] view c = view c
  merged (v ∷ vals) view c = merged vals (λ k. if varcode v == k then some (some v) else view k) c

  merged-eq :
      (vals : List Var) (f g : ℕ → Option (Option Var))
      → ((k : ℕ) → f k ≡ g k)
      → (c : ℕ) → merged vals f c ≡ merged vals g c
  merged-eq [] f g h c = h c
  merged-eq (v ∷ vals) f g h c =
      merged-eq vals (λ k. if varcode v == k then some (some v) else f k)
        (λ k. if varcode v == k then some (some v) else g k)
        (λ k. ap (λ r. if varcode v == k then some (some v) else r) (h k)) c

  -- Merging variables into values sorted by code, with no code twice, sets each variable in turn,
  -- the last one with a code staying, keeps the rest, and leaves the values sorted so.
  pub merge_lem :
      (vals : List Var) (values : List (Option Var))
      → IsSorted varcode values
      → Becomes varcode
          (merged vals (λ k. get varcode k values))
          (merge varcode (map some vals) values)
  unfolding merge
  merge_lem [] values m = record { after = values; returns = refl; sorted = m; views = λ c. refl }
  merge_lem (v ∷ vals) values m =
      let first = set_var_lem varcode v values m in
      let rest = merge_lem vals first.after first.sorted in
      record {
        after = rest.after;
        returns = rw (first.returns, merge) rest.returns;
        sorted = rest.sorted;
        views = λ c. rest.views c ∙ merged-eq vals _ _ first.views c;
      }
