-- ===== src/Query.antt =====
-- Queries: core::Query of dballe/core/query.h and dballe/core/query.cc, and the test of whether one
-- query narrows another. A string is the list of the codes of its characters, an identifier `none`
-- when it is missing, a set of variable codes the list that its iterators walk.
pub mod Subset
pub mod Parsing
pub mod Selection
pub mod Narrowing
use dballe.Prelude.{
  is_empty, ℕ, Bool, true, false, not, ◌&&◌, ◌||◌, arith, ltb, ◌==◌, if◌then◌else◌, List, [], ◌∷◌,
  ◌++◌, Option, some, none, length, take, Result, ok, err, Error, consistency, ◌>>=◌,
}
use dballe.Prelude.Int.{ℤ, ltb_ℤ, leb_ℤ, eqb_ℤ}
use dballe.Prelude.Words.{missing_int, is_missing_int}
use dballe.Prelude.Order.{nat_ord, tie_eq}
use dballe.Datetime.{set_lower_bound, set_upper_bound}
use dballe.Datetime as Datetimes
use dballe.DatetimeRange.{DatetimeRange, range, range_is_missing}
use dballe.DatetimeRange as DatetimeRanges
use dballe.LatRange.{LatRange}
use dballe.LatRange as LatRanges
use dballe.LonRange.{lon_range, LonRange, set_range}
use dballe.LonRange as LonRanges
use dballe.Level.{Level}
use dballe.Level as Levels
use dballe.Trange.{Trange}
use dballe.Trange as Tranges

pub record Query : Type 0 where
  -- The bits WANT_MISSING_*, which no code of the repository sets or reads but operator==
  pub want_missing : ℕ
  pub ana_id : ℤ
  pub priomin : ℤ
  pub priomax : ℤ
  pub report : List ℕ
  pub mobile : ℤ
  pub ident : Option (List ℕ)
  pub latrange : LatRange
  pub lonrange : LonRange
  pub dtrange : DatetimeRange
  pub level : Level
  pub trange : Trange
  pub varcodes : List ℕ
  pub query : List ℕ
  pub ana_filter : List ℕ
  pub data_filter : List ℕ
  pub attr_filter : List ℕ
  pub limit : ℤ
  pub block : ℤ
  pub station : ℤ

-- The query as it is made
abbrev pub no_query : Query
no_query = record {
  want_missing = 0;
  ana_id = missing_int;
  priomin = missing_int;
  priomax = missing_int;
  report = [];
  mobile = missing_int;
  ident = none;
  latrange = record { imin = LatRanges.lowest; imax = LatRanges.highest };
  lonrange = lon_range missing_int missing_int;
  dtrange = range Datetimes.missing Datetimes.missing;
  level = Levels.missing;
  trange = Tranges.missing;
  varcodes = [];
  query = [];
  ana_filter = [];
  data_filter = [];
  attr_filter = [];
  limit = missing_int;
  block = missing_int;
  station = missing_int;
}

-- Query::clear, which leaves want_missing
abbrev pub clear : Query → Query
clear q = record no_query { want_missing = q.want_missing }

-- The DBA_DB_MODIFIER bits that parse_modifiers sets
pub record Modifiers : Type 0 where
  pub best : Bool
  pub unsorted : Bool
  pub details : Bool
  pub attrs : Bool
  pub last : Bool

abbrev pub no_modifiers : Modifiers
no_modifiers = record {
  best = false;
  unsorted = false;
  details = false;
  attrs = false;
  last = false;
}

abbrev pub same_string : List ℕ → List ℕ → Bool
same_string = tie_eq

-- One token of parse_modifiers; the numbers are the characters of "best", "last", "attr", "bigana",
-- "nosort", "stream" and "details".
unfoldable pub add_modifier : List ℕ → Modifiers → Result Modifiers
add_modifier token m =
    if length token == 0
    then ok m
    else if length token == 4
    then (if same_string token (98 ∷ 101 ∷ 115 ∷ 116 ∷ [])
        then ok (record m { best = true })
        else if same_string token (108 ∷ 97 ∷ 115 ∷ 116 ∷ [])
        then ok (record m { last = true })
        else err consistency)
    else if length token == 5
    then (if same_string (take 4 token) (97 ∷ 116 ∷ 116 ∷ 114 ∷ [])
        then ok (record m { attrs = true })
        else err consistency)
    else if length token == 6
    then (if same_string token (98 ∷ 105 ∷ 103 ∷ 97 ∷ 110 ∷ 97 ∷ [])
        then ok m
        else if same_string token (110 ∷ 111 ∷ 115 ∷ 111 ∷ 114 ∷ 116 ∷ [])
        then ok (record m { unsorted = true })
        else if same_string token (115 ∷ 116 ∷ 114 ∷ 101 ∷ 97 ∷ 109 ∷ [])
        then ok m
        else err consistency)
    else if length token == 7
    then (if same_string token (100 ∷ 101 ∷ 116 ∷ 97 ∷ 105 ∷ 108 ∷ 115 ∷ [])
        then ok (record m { details = true })
        else err consistency)
    else err consistency

-- The loop of parse_modifiers: `token` is what strcspn has passed over.
unfoldable pub parse_tokens : List ℕ → List ℕ → Modifiers → Result Modifiers
unfolding add_modifier
parse_tokens token [] m = add_modifier token m
parse_tokens token (c ∷ s) m =
    if c == 44
    then (add_modifier token m >>= λ m'. parse_tokens [] s m')
    else parse_tokens (token ++ c ∷ []) s m

-- Query::parse_modifiers
unfoldable pub parse_modifiers : List ℕ → Result Modifiers
unfolding parse_tokens
parse_modifiers s = parse_tokens [] s no_modifiers

-- The three removed_or_changed
unfoldable pub removed_or_changed : ℤ → ℤ → Bool
removed_or_changed val other = not (eqb_ℤ other val || is_missing_int other)

unfoldable pub ident_removed_or_changed : Option (List ℕ) → Option (List ℕ) → Bool
ident_removed_or_changed val none = false
ident_removed_or_changed none (some other) = true
ident_removed_or_changed (some val) (some other) = not (same_string other val)

unfoldable pub string_removed_or_changed : List ℕ → List ℕ → Bool
string_removed_or_changed val [] = false
string_removed_or_changed val (c ∷ other) = not (same_string (c ∷ other) val)

-- The loop of is_subset; the fuel is more than the rounds that are needed
unfoldable pub is_subset : List ℕ → List ℕ → Bool
is_subset sub [] = elim sub [ [] ↦ true | ◌∷◌ x xs ↦ false ]
is_subset sub (y ∷ sup) = elim sub [
  | [] ↦ true
  | ◌∷◌ x xs ↦
      if x == y then is_subset xs sup else if ltb x y then false else is_subset (x ∷ xs) sup
]

unfoldable pub is_subrange : ℤ → ℤ → ℤ → ℤ → Bool
is_subrange sub1 sub2 sup1 sup2 =
    if is_missing_int sup1 && is_missing_int sup2
    then true
    else if is_missing_int sup1
    then not (is_missing_int sub2) && leb_ℤ sub2 sup2
    else if is_missing_int sup2
    then not (is_missing_int sub1) && leb_ℤ sup1 sub1
    else if is_missing_int sub1 || ltb_ℤ sub1 sup1
    then false
    else if is_missing_int sub2 || ltb_ℤ sup2 sub2
    then false
    else true

-- `if (c) return false;`
abbrev pub unless : Bool → Result Bool → Result Bool
unless c rest = if c then ok false else rest

abbrev pub lost : Modifiers → Modifiers → Bool
lost mods omods = (not mods.best && omods.best) || (not mods.last && omods.last)

-- Query::is_subquery, after the two modifier strings are parsed
unfoldable pub is_subquery_after : Query → Query → Modifiers → Modifiers → Result Bool
unfolding removed_or_changed string_removed_or_changed
is_subquery_after q other mods omods = unless (lost mods omods) (
    unless (string_removed_or_changed q.ana_filter other.ana_filter) (
      unless (string_removed_or_changed q.data_filter other.data_filter) (
        unless (string_removed_or_changed q.attr_filter other.attr_filter) (
          unless
            (not (is_missing_int other.limit)
              && (is_missing_int q.limit || ltb_ℤ other.limit q.limit))
            (unless (removed_or_changed q.block other.block)
              (unless (removed_or_changed q.station other.station) (ok true)))))))

-- The levels and the time ranges in Query::is_subquery
unfoldable pub fields_changed : Query → Query → Bool
unfolding removed_or_changed
fields_changed q other =
    removed_or_changed q.level.ltype1 other.level.ltype1
    || (removed_or_changed q.level.l1 other.level.l1
        || (removed_or_changed q.level.ltype2 other.level.ltype2
            || (removed_or_changed q.level.l2 other.level.l2
                || (removed_or_changed q.trange.pind other.trange.pind
                    || (removed_or_changed q.trange.p1 other.trange.p1
                        || removed_or_changed q.trange.p2 other.trange.p2)))))

-- Query::is_subquery
unfoldable pub is_subquery : Query → Query → Result Bool
unfolding removed_or_changed string_removed_or_changed ident_removed_or_changed is_subset
    is_subrange is_subquery_after fields_changed parse_modifiers
is_subquery q other = unless (removed_or_changed q.ana_id other.ana_id) (
    unless (not (is_subrange q.priomin q.priomax other.priomin other.priomax)) (
      unless (string_removed_or_changed q.report other.report) (
        unless (removed_or_changed q.mobile other.mobile) (
          unless (ident_removed_or_changed q.ident other.ident) (
            unless (not (LatRanges.contains_range other.latrange q.latrange)) (
              unless (not (LonRanges.contains_range other.lonrange q.lonrange)) (
                unless (not (DatetimeRanges.contains_range other.dtrange q.dtrange)) (
                  unless (fields_changed q other) (
                    unless (not (is_subset other.varcodes q.varcodes)) (
                      parse_modifiers q.query >>= λ mods. parse_modifiers other.query >>= λ omods.
                      is_subquery_after q other mods omods))))))))))

-- Query::validate
unfoldable pub validate : Query → Result Query
validate q = do
  lonrange ← set_range q.lonrange
  min ← set_lower_bound q.dtrange.min
  max ← set_upper_bound q.dtrange.max
  ok (record q { lonrange = lonrange; dtrange = range min max })

-- Query::empty
unfoldable pub is_query_empty : Query → Bool
is_query_empty q =
    is_missing_int q.ana_id
    && (is_missing_int q.priomin
        && (is_missing_int q.priomax
            && (is_empty q.report
                && (is_missing_int q.mobile
                    && (no_ident q.ident
                        && (LatRanges.is_missing q.latrange
                            && (LonRanges.is_missing q.lonrange
                                && (range_is_missing q.dtrange
                                    && (Levels.is_missing q.level
                                        && (Tranges.is_missing q.trange
                                            && (is_empty q.varcodes
                                                && (is_empty q.query
                                                    && (is_empty q.ana_filter
                                                        && (is_empty q.data_filter
                                                            && (is_empty q.attr_filter
                                                            && (is_missing_int q.limit
                                                            && (is_missing_int q.block
                                                            && is_missing_int
                                                            q.station)))))))))))))))))
  where
    no_ident : Option (List ℕ) → Bool
    no_ident none = true
    no_ident (some i) = false
