-- ===== src/Examples/Messages.antt =====
-- The theorems on the contexts of a message at concrete inputs.
use dballe.Prelude.{ℕ, arith, List, [], ◌∷◌}
use dballe.Prelude.Int.{pos}
use dballe.Prelude.Words.{missing_int}
use dballe.Level.{level}
use dballe.Trange.{trange}
use dballe.SortedVector.Map.{IsMap}
use dballe.Contexts.{Context, obtain, drop}
use dballe.Contexts.Laws.{Place, place, place_ord, IsNatural}
use dballe.Contexts.Store.{Obtained, Dropped, obtain_lem, drop_lem}

abbrev surface : Place
surface = record {
  level = level (pos 1) missing_int missing_int missing_int;
  trange = trange (pos 254) (pos 0) (pos 0);
}

abbrev two_metres : Place
two_metres = record {
  level = level (pos 103) (pos 2000) missing_int missing_int;
  trange = trange (pos 254) (pos 0) (pos 0);
}

surface-IsNatural : IsNatural surface
surface-IsNatural = record {
  level = record {
    ltype1 = (omega arith, omega arith);
    l1 = (omega arith, omega arith);
    ltype2 = (omega arith, omega arith);
    l2 = (omega arith, omega arith);
  };
  trange = record {
    pind = (omega arith, omega arith);
    p1 = (omega arith, omega arith);
    p2 = (omega arith, omega arith);
  };
}

two_metres-IsNatural : IsNatural two_metres
two_metres-IsNatural = record {
  level = record {
    ltype1 = (omega arith, omega arith);
    l1 = (omega arith, omega arith);
    ltype2 = (omega arith, omega arith);
    l2 = (omega arith, omega arith);
  };
  trange = record {
    pind = (omega arith, omega arith);
    p1 = (omega arith, omega arith);
    p2 = (omega arith, omega arith);
  };
}

-- One context, whose values are a number
abbrev contexts : List (Context ℕ)
contexts = record { level = two_metres.level; trange = two_metres.trange; values = 7 } ∷ []

contexts-IsMap : IsMap place contexts
contexts-IsMap = record { ascending = (tt, tt); unique = λ k. ground arith }

obtain_lem_example : Obtained 0 surface contexts (obtain 0 surface.level surface.trange contexts)
obtain_lem_example =
    obtain_lem 0 surface contexts surface-IsNatural (two_metres-IsNatural, tt) contexts-IsMap

drop_lem_example : Dropped two_metres contexts (drop two_metres.level two_metres.trange contexts)
drop_lem_example =
    drop_lem two_metres contexts two_metres-IsNatural (two_metres-IsNatural, tt) contexts-IsMap
