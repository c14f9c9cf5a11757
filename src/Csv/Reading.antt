-- ===== src/Csv/Reading.antt =====
-- Reading back the rows that CSVWriter writes of strings.
use dballe.Prelude.{
  ℕ, true, false, ◌≡◌, refl, ap, ◌∙◌, ◌==◌, List, [], ◌∷◌, ◌++◌, Bool-cases, inl, inr,
}
use dballe.Csv.{
  quote, comma, line_feed, beg, qcol, eqcol, line, step, scan, next, double_quotes, add_value,
  add_values,
}
use dballe.Prelude.Order.{nat_ord}

append_assoc {ℓ} : {A : Type ℓ} (xs ys zs : List A) → (xs ++ ys) ++ zs ≡ xs ++ (ys ++ zs)
append_assoc [] ys zs = refl
append_assoc (x ∷ xs) ys zs = ap (λ r. x ∷ r) (append_assoc xs ys zs)

append_nil {ℓ} : {A : Type ℓ} (xs : List A) → xs ++ [] ≡ xs
append_nil [] = refl
append_nil (x ∷ xs) = ap (λ r. x ∷ r) (append_nil xs)

double_quotes-other :
    (c : ℕ) (cs : List ℕ) → (c == quote) ≡ false → double_quotes (c ∷ cs) ≡ c ∷ double_quotes cs
unfolding double_quotes
double_quotes-other c cs h = rw h refl

double_quotes-quote :
    (c : ℕ) (cs : List ℕ)
    → (c == quote) ≡ true
    → double_quotes (c ∷ cs) ≡ quote ∷ c ∷ double_quotes cs
unfolding double_quotes
double_quotes-quote c cs h = rw h refl

scan_qcol-other :
    (c : ℕ) (text : List ℕ) (cols : List (List ℕ)) (input : List ℕ)
    → (c == quote) ≡ false
    → scan qcol text cols (c ∷ input) ≡ scan qcol (text ++ c ∷ []) cols input
unfolding scan step
scan_qcol-other c text cols input h = rw (scan, h) refl

-- A quote in a quoted column is written twice.
scan_qcol-quote :
    (c : ℕ) (text : List ℕ) (cols : List (List ℕ)) (input : List ℕ)
    → (c == quote) ≡ true
    → scan qcol text cols (quote ∷ c ∷ input) ≡ scan qcol (text ++ c ∷ []) cols input
unfolding scan step
scan_qcol-quote c text cols input h = let e : c ≡ quote = (nat_ord.eqb_iff c quote).0 h in rw e refl

-- A quoted column is read up to its closing quote.
scan-double_quotes :
    (cs text : List ℕ) (cols : List (List ℕ)) (rest : List ℕ)
    → scan qcol text cols (double_quotes cs ++ quote ∷ rest) ≡ scan eqcol (text ++ cs) cols rest
scan-double_quotes [] text cols rest = unfold scan step double_quotes in rw (append_nil text) refl
scan-double_quotes (c ∷ cs) text cols rest = elim (Bool-cases (c == quote)) [
  | inl h ↦
      ap (λ d. scan qcol text cols (d ++ quote ∷ rest)) (double_quotes-quote c cs h)
      ∙ scan_qcol-quote c text cols (double_quotes cs ++ quote ∷ rest) h
      ∙ scan-double_quotes cs (text ++ c ∷ []) cols rest
      ∙ ap (λ t. scan eqcol t cols rest) (append_assoc text (c ∷ []) cs)
  | inr h ↦
      ap (λ d. scan qcol text cols (d ++ quote ∷ rest)) (double_quotes-other c cs h)
      ∙ scan_qcol-other c text cols (double_quotes cs ++ quote ∷ rest) h
      ∙ scan-double_quotes cs (text ++ c ∷ []) cols rest
      ∙ ap (λ t. scan eqcol t cols rest) (append_assoc text (c ∷ []) cs)
]

-- What add_value writes of a string after the separator
abbrev written : List ℕ → List ℕ
written [] = []
written (c ∷ val) = quote ∷ (double_quotes (c ∷ val) ++ quote ∷ [])

-- The values after the first, each with its separator, and then the end of the line
abbrev remaining : List (List ℕ) → List ℕ → List ℕ
remaining [] rest = line_feed ∷ rest
remaining (v ∷ vs) rest = comma ∷ (written v ++ remaining vs rest)

scan-written-comma :
    (v : List ℕ) (cols : List (List ℕ)) (rest : List ℕ)
    → scan beg [] cols (written v ++ comma ∷ rest) ≡ scan beg [] (cols ++ v ∷ []) rest
unfolding scan step
scan-written-comma [] cols rest = refl
scan-written-comma (c ∷ v) cols rest =
    ap (scan qcol [] cols) (append_assoc (double_quotes (c ∷ v)) (quote ∷ []) (comma ∷ rest))
    ∙ scan-double_quotes (c ∷ v) [] cols (comma ∷ rest)

scan-written-line_feed :
    (v : List ℕ) (cols : List (List ℕ)) (rest : List ℕ)
    → scan beg [] cols (written v ++ line_feed ∷ rest) ≡ line true (cols ++ v ∷ []) rest
unfolding scan step
scan-written-line_feed [] cols rest = refl
scan-written-line_feed (c ∷ v) cols rest =
    ap (scan qcol [] cols) (append_assoc (double_quotes (c ∷ v)) (quote ∷ []) (line_feed ∷ rest))
    ∙ scan-double_quotes (c ∷ v) [] cols (line_feed ∷ rest)

scan-remaining :
    (v : List ℕ) (vs cols : List (List ℕ)) (rest : List ℕ)
    → scan beg [] cols (written v ++ remaining vs rest) ≡ line true (cols ++ v ∷ vs) rest
scan-remaining v [] cols rest = scan-written-line_feed v cols rest
scan-remaining v (w ∷ vs) cols rest =
    scan-written-comma v cols (written w ++ remaining vs rest)
    ∙ scan-remaining w vs (cols ++ v ∷ []) rest
    ∙ ap (λ c. line true c rest) (append_assoc cols (v ∷ []) (w ∷ vs))

add_value-eq : (c : ℕ) (row v : List ℕ) → add_value (c ∷ row) v ≡ c ∷ (row ++ comma ∷ written v)
unfolding add_value
add_value-eq c row [] = refl
add_value-eq c row (d ∷ v) = ap (λ r. c ∷ r) (append_assoc row (comma ∷ []) (written (d ∷ v)))

add_values-eq :
    (c : ℕ) (row : List ℕ) (vs : List (List ℕ)) (rest : List ℕ)
    → add_values (c ∷ row) vs ++ line_feed ∷ rest ≡ c ∷ (row ++ remaining vs rest)
unfolding add_values
add_values-eq c row [] rest = refl
add_values-eq c row (v ∷ vs) rest =
    ap (λ r. add_values r vs ++ line_feed ∷ rest) (add_value-eq c row v)
    ∙ add_values-eq c (row ++ comma ∷ written v) vs rest
    ∙ ap (λ r. c ∷ r) (append_assoc row (comma ∷ written v) (remaining vs rest))

-- A row of strings, of which the first is not empty, is read back as those strings, and the reading
-- stops at the end of the line.
pub next-add_values :
    (c : ℕ) (v : List ℕ) (vs : List (List ℕ)) (rest : List ℕ)
    → next (add_values [] ((c ∷ v) ∷ vs) ++ line_feed ∷ rest) ≡ line true ((c ∷ v) ∷ vs) rest
unfolding next add_values add_value
next-add_values c v vs rest =
    ap (scan beg [] []) (add_values-eq quote (double_quotes (c ∷ v) ++ quote ∷ []) vs rest)
    ∙ scan-remaining (c ∷ v) vs [] rest

-- An empty string at the beginning of a row leaves no column: the row is the one without it.
pub add_values-empty_first : (vs : List (List ℕ)) → add_values [] ([] ∷ vs) ≡ add_values [] vs
unfolding add_values add_value
add_values-empty_first vs = refl
