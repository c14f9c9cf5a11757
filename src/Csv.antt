-- ===== src/Csv.antt =====
-- Reading and writing CSV: CSVReader::next and CSVReader::unescape, csv_output_quoted_string, and
-- the strings of CSVWriter, all of dballe/core/csv.cc. A character is its code. The stream is the
-- list of the characters that are still to be read.
pub mod Reading
pub mod Escape
use dballe.Prelude.{ℕ, Bool, true, false, ◌||◌, arith, ◌==◌, if◌then◌else◌, List, [], ◌∷◌, ◌++◌}

abbrev pub quote : ℕ
quote = 34

abbrev pub comma : ℕ
comma = 44

abbrev pub carriage_return : ℕ
carriage_return = 13

abbrev pub line_feed : ℕ
line_feed = 10

-- The states of the tokenizer of CSVReader::next
pub data State : Type 0 where
  beg col qcol eqcol halfeol : State

-- The column being read and the columns read, or the columns of a finished line
pub data Progress : Type 0 where
  more : State → List ℕ → List (List ℕ) → Progress
  finished : List (List ℕ) → Progress

-- The switch on the state and a character
unfoldable pub step : State → List ℕ → List (List ℕ) → ℕ → Progress
step beg text cols c =
    if c == quote
    then more qcol text cols
    else if c == comma
    then more beg [] (cols ++ text ∷ [])
    else if c == carriage_return
    then more halfeol text cols
    else if c == line_feed
    then finished (cols ++ text ∷ [])
    else more col (text ++ c ∷ []) cols
step col text cols c =
    if c == comma
    then more beg [] (cols ++ text ∷ [])
    else if c == carriage_return
    then more halfeol text cols
    else if c == line_feed
    then finished (cols ++ text ∷ [])
    else more col (text ++ c ∷ []) cols
step qcol text cols c = if c == quote then more eqcol text cols else more qcol (text ++ c ∷ []) cols
step eqcol text cols c =
    if c == comma
    then more beg [] (cols ++ text ∷ [])
    else if c == carriage_return
    then more halfeol text cols
    else if c == line_feed
    then finished (cols ++ text ∷ [])
    else more qcol (text ++ c ∷ []) cols
step halfeol text cols c =
    if c == line_feed
    then finished (cols ++ text ∷ [])
    else more col ((text ++ carriage_return ∷ []) ++ c ∷ []) cols

-- What `next` returns, the columns that it leaves, and the rest of the stream
pub record Line : Type 0 where
  pub found : Bool
  pub cols : List (List ℕ)
  pub rest : List ℕ

abbrev pub line : Bool → List (List ℕ) → List ℕ → Line
line found cols rest = record { found = found; cols = cols; rest = rest }

-- `if (!col.empty()) cols.push_back(col);`
abbrev pub push_unless_empty : List ℕ → List (List ℕ) → List (List ℕ)
push_unless_empty [] cols = cols
push_unless_empty (c ∷ text) cols = cols ++ (c ∷ text) ∷ []

-- After the end of the stream
abbrev pub at_end : State → List ℕ → List (List ℕ) → Line
at_end beg text cols = line false cols []
at_end _ text cols = line true (push_unless_empty text cols) []

-- The loop of CSVReader::next
unfoldable pub scan : State → List ℕ → List (List ℕ) → List ℕ → Line
unfolding step
scan state text cols [] = at_end state text cols
scan state text cols (c ∷ input) = elim (step state text cols c) [
  | more state' text' cols' ↦ scan state' text' cols' input
  | finished cols' ↦ line true cols' input
]

-- CSVReader::next, of an open stream
unfoldable pub next : List ℕ → Line
unfolding scan
next input = scan beg [] [] input

-- The loop of CSVReader::unescape
abbrev pub unescape_from : Bool → List ℕ → List ℕ
unescape_from escape [] = []
unescape_from escape (c ∷ cs) =
    if c == quote
    then (if escape then c ∷ unescape_from false cs else unescape_from true cs)
    else c ∷ unescape_from escape cs

-- CSVReader::unescape
unfoldable pub unescape : List ℕ → List ℕ
unescape [] = []
unescape (c ∷ []) = c ∷ []
unescape (c ∷ d ∷ cs) = if c == quote then unescape_from false (d ∷ cs) else c ∷ d ∷ cs

-- The loops that write a string and double its quotes
unfoldable pub double_quotes : List ℕ → List ℕ
double_quotes [] = []
double_quotes (c ∷ cs) = if c == quote then quote ∷ c ∷ double_quotes cs else c ∷ double_quotes cs

-- `str.find_first_of("\",") != string::npos`
abbrev pub has_special : List ℕ → Bool
has_special [] = false
has_special (c ∷ cs) = (c == quote) || ((c == comma) || has_special cs)

-- csv_output_quoted_string
unfoldable pub output_quoted_string : List ℕ → List ℕ
unfolding double_quotes
output_quoted_string str =
    if has_special str then quote ∷ (double_quotes str ++ quote ∷ []) else str

-- `if (!row.empty()) row += ',';`
abbrev pub separate : List ℕ → List ℕ
separate [] = []
separate (c ∷ row) = (c ∷ row) ++ comma ∷ []

-- CSVWriter::add_value of a string
unfoldable pub add_value : List ℕ → List ℕ → List ℕ
unfolding double_quotes
add_value row [] = separate row
add_value row (c ∷ val) = separate row ++ quote ∷ (double_quotes (c ∷ val) ++ quote ∷ [])

-- A row of string values
unfoldable pub add_values : List ℕ → List (List ℕ) → List ℕ
unfolding add_value
add_values row [] = row
add_values row (v ∷ vs) = add_values (add_value row v) vs
