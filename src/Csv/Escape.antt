-- ===== src/Csv/Escape.antt =====
-- Quoting a string and unescaping it.
use dballe.Prelude.{ℕ, false, ◌≡◌, refl, arith, ◌==◌, List, [], ◌∷◌, ◌++◌, Bool-cases, inl, inr}
use dballe.Csv.{quote, unescape_from, unescape, double_quotes, has_special, output_quoted_string}
use dballe.Prelude.Order.{nat_ord}

unescape_from-double_quotes :
    (cs : List ℕ) → unescape_from false (double_quotes cs ++ quote ∷ []) ≡ cs
unfolding double_quotes
unescape_from-double_quotes [] = refl
unescape_from-double_quotes (c ∷ cs) = elim (Bool-cases (c == quote)) [
  | inl h ↦
      let e : c ≡ quote = (nat_ord.eqb_iff c quote).0 h in
      rw (e, unescape_from-double_quotes cs) refl
  | inr h ↦ rw (h, unescape_from-double_quotes cs, h) refl
]

unescape-plain : (cs : List ℕ) → has_special cs ≡ false → unescape cs ≡ cs
unfolding unescape
unescape-plain [] h = refl
unescape-plain (c ∷ []) h = refl
unescape-plain (c ∷ d ∷ cs) h = elim (Bool-cases (c == quote)) [
  | inl e ↦ absurd (ground (arith, e, h))
  | inr e ↦ rw e refl
]

unescape-quoted : (cs : List ℕ) → unescape (quote ∷ (double_quotes cs ++ quote ∷ [])) ≡ cs
unfolding unescape double_quotes
unescape-quoted [] = refl
unescape-quoted (c ∷ cs) = elim (Bool-cases (c == quote)) [
  | inl h ↦
      let e : c ≡ quote = (nat_ord.eqb_iff c quote).0 h in
      rw (e, unescape_from-double_quotes cs) refl
  | inr h ↦ rw (h, unescape_from-double_quotes cs, h) refl
]

-- Unescaping what csv_output_quoted_string writes of a string gives the string.
pub unescape-output_quoted_string : (str : List ℕ) → unescape (output_quoted_string str) ≡ str
unfolding output_quoted_string
unescape-output_quoted_string str = elim (Bool-cases (has_special str)) [
  | inl h ↦ rw h (unescape-quoted str)
  | inr h ↦ rw h (unescape-plain str h)
]
