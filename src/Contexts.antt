-- ===== src/Contexts.antt =====
-- The contexts of a message, sorted by level and time range: struct Contexts of dballe/msg/msg.cc
-- and Context::compare of dballe/msg/context.cc. The values of a context are of any type, and
-- `new_values` is the empty collection that a new context has. A search that ran out of fuel gives
-- `none`.
pub mod Laws
pub mod Store
use dballe.Prelude.{
  ℕ, Bool, true, false, ltb, ◌==◌, if◌then◌else◌, List, [], ◌∷◌, Option, some, none, ◌&&◌, Result,
  ok, err, runtime, get_elem?,
}
use dballe.Prelude.Int.{ℤ, pos, ltb_ℤ, eqb_ℤ}
use dballe.SortedVector.{reverse_onto}
use dballe.SortedVector.Exact.{exact_loop}
use dballe.SortedVector.Map.{erase}
use dballe.Prelude.{length, suc}
use dballe.Level.{Level}
use dballe.Level as Levels
use dballe.Trange.{Trange}
use dballe.Trange as Tranges

pub record Context {ℓ} (Values : Type ℓ) : Type ℓ where
  pub level : Level
  pub trange : Trange
  pub values : Values

module _ {ℓ} {Values : Type ℓ} where
  -- Context::compare with a level and a time range
  unfoldable pub compare : Context Values → Level → Trange → ℤ
  compare c lev tr =
      let res = Levels.compare c.level lev in
      if eqb_ℤ res (pos 0) then Tranges.compare c.trange tr else res

  -- Contexts::find
  unfoldable pub find : Level → Trange → List (Context Values) → Option (Option ℕ)
  unfolding compare exact_loop
  find lev tr [] = some none
  find lev tr (c ∷ contexts) =
      exact_loop (λ middle. ltb_ℤ (pos 0) (compare middle lev tr))
        (λ middle. ltb_ℤ (compare middle lev tr) (pos 0)) (suc (length (c ∷ contexts)))
        (c ∷ contexts) 0 (length (c ∷ contexts))

  -- The loop of insert_new on the reversed vector: the new context is swapped with the one before it
  -- while that one compares greater.
  unfoldable pub swap_back : Context Values → List (Context Values) → List (Context Values)
  unfolding compare
  swap_back c [] = c ∷ []
  swap_back c (p ∷ ps) =
      if ltb_ℤ (pos 0) (compare p c.level c.trange) then p ∷ swap_back c ps else c ∷ p ∷ ps

  -- Contexts::drop, with whether there was one
  unfoldable pub drop :
      Level → Trange → List (Context Values) → Option (Bool × List (Context Values))
  unfolding find
  drop lev tr contexts = elim (find lev tr contexts) [
    | none ↦ none
    | some none ↦ some (false, contexts)
    | some (some i) ↦ some (true, erase contexts i)
  ]

  module _ (new_values : Values) where
    -- Contexts::insert_new
    unfoldable pub insert_new : Level → Trange → List (Context Values) → List (Context Values)
    unfolding swap_back
    insert_new lev tr contexts =
        reverse_onto
          (swap_back (record { level = lev; trange = tr; values = new_values })
            (reverse_onto contexts []))
          []

    -- Contexts::obtain, as the vector that it leaves
    unfoldable pub obtain : Level → Trange → List (Context Values) → Option (List (Context Values))
    unfolding find insert_new
    obtain lev tr contexts = elim (find lev tr contexts) [
      | none ↦ none
      | some none ↦ some (insert_new lev tr contexts)
      | some (some i) ↦ some contexts
    ]
