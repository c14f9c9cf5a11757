-- ===== src/Examples/Texts.antt =====
-- The theorems on CSV text at concrete inputs.
use dballe.Prelude.{◌≡◌, true, [], ◌∷◌, ◌++◌}
use dballe.Csv.{line, line_feed, next, add_values}
use dballe.Csv.Reading.{next-add_values}

-- `a"b`, an empty string and `c,` in a row, and the first letter of the next
next-add_values_example :
    next (add_values [] ((97 ∷ 34 ∷ 98 ∷ []) ∷ [] ∷ (99 ∷ 44 ∷ []) ∷ []) ++ line_feed ∷ 100 ∷ [])
    ≡ line true ((97 ∷ 34 ∷ 98 ∷ []) ∷ [] ∷ (99 ∷ 44 ∷ []) ∷ []) (100 ∷ [])
next-add_values_example = next-add_values 97 (34 ∷ 98 ∷ []) ([] ∷ (99 ∷ 44 ∷ []) ∷ []) (100 ∷ [])
