-- ===== src/SortedVector.antt =====
-- Vectors sorted by a key, which SmallSet, Values, Contexts and Repinfo keep: insertion from the
-- end, and the facts on sorted lists that the searches share.
pub mod Insertion
pub mod Search
pub mod Exact
pub mod Map
pub mod Update
use dballe.Prelude.{
  ℕ, zero, suc, ◌+◌, ◌<◌, ◌≡◌, Bool, true, false, arith, if◌then◌else◌, List, [], ◌∷◌, some, none,
  get_elem?,
}
use dballe.Prelude.Order.{Ord}

abbrev pub All {ℓ κ} : {A : Type ℓ} → (A → Type κ) → List A → Type κ
All P [] = Unit
All P (x ∷ xs) = P x × All P xs

-- How many items pass a test
abbrev pub count_if {ℓ} : {A : Type ℓ} → (A → Bool) → List A → ℕ
count_if p [] = 0
count_if p (x ∷ xs) = (if p x then 1 else 0) + count_if p xs

-- Two vectors hold the same items, as often.
pub record SameItems {ℓ} {A : Type ℓ} (xs ys : List A) : Type ℓ where
  pub counts : (p : A → Bool) → count_if p xs ≡ count_if p ys

-- `xs` reversed, before `ys`
abbrev pub reverse_onto {ℓ} : {A : Type ℓ} → List A → List A → List A
reverse_onto [] ys = ys
reverse_onto (x ∷ xs) ys = reverse_onto xs (x ∷ ys)

module _ {ℓ κ} {A : Type ℓ} {K : Type κ} ⦃o : Ord K⦄ (key : A → K) where
  -- No item of the list has a lower key.
  abbrev pub NoneBelow : K → List A → Type 0
  NoneBelow k = All (λ y. o.lt (key y) k ≡ false)

  -- No item of the list has a higher key.
  abbrev pub NoneAbove : K → List A → Type 0
  NoneAbove k = All (λ y. o.lt k (key y) ≡ false)

  -- Keys never fall.
  abbrev pub Ascending : List A → Type 0
  Ascending [] = Unit {0}
  Ascending (x ∷ xs) = NoneBelow (key x) xs × Ascending xs

  -- Keys never rise.
  abbrev pub Descending : List A → Type 0
  Descending [] = Unit {0}
  Descending (x ∷ xs) = NoneAbove (key x) xs × Descending xs

  -- The insertion sort step on a reversed vector: the new item moves towards the beginning while the
  -- item before it has a higher key.
  unfoldable pub insert_back : A → List A → List A
  insert_back x [] = x ∷ []
  insert_back x (p ∷ ps) = if o.lt (key x) (key p) then p ∷ insert_back x ps else x ∷ p ∷ ps
