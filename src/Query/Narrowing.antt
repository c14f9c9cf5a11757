-- ===== src/Query/Narrowing.antt =====
-- What it means for the data that a query selects that it is a subquery of another.
use dballe.Prelude.{
  ℕ, ◌≡◌, refl, ap, ◌∙◌, Bool, true, false, not, ◌&&◌, ◌||◌, arith, List, [], ◌∷◌, Option, some,
  none, Result, ok, err, ◌>>=◌,
}
use dballe.Prelude.Int.{ℤ}
use dballe.Prelude.Order.{nat_ord, tie_eq_sound}
use dballe.DatetimeRange.Laws as DatetimeLaws
use dballe.LatRange as LatRanges
use dballe.Query.{
  Query, same_string, removed_or_changed, ident_removed_or_changed, string_removed_or_changed,
  unless, fields_changed, is_subquery, is_subquery_after, Modifiers, parse_modifiers,
}
use dballe.Query.Subset.{is_subrange_sound}
use dballe.Query.Selection.{
  Datum, int_selects, string_selects, ident_selects, filter_selects, fields_select, selects_after,
  selects,
}

unless-continues : (c : Bool) (k : Result Bool) → unless c k ≡ ok true → (c ≡ false) × (k ≡ ok true)
unless-continues false k h = (refl, h)
unless-continues true k h = cc

int_selects-kept :
    (val other v : ℤ)
    → removed_or_changed val other ≡ false
    → int_selects val v ≡ true
    → int_selects other v ≡ true
unfolding removed_or_changed
int_selects-kept val other v h k = ground arith

same_string_trans :
    (a b c : List ℕ) → same_string a b ≡ true → same_string b c ≡ true → same_string a c ≡ true
same_string_trans a b c h k = ap (λ s. same_string s c) (tie_eq_sound a b h) ∙ k

string_selects-kept :
    (val other v : List ℕ)
    → string_removed_or_changed val other ≡ false
    → string_selects val v ≡ true
    → string_selects other v ≡ true
unfolding string_removed_or_changed
string_selects-kept val [] v h k = refl
string_selects-kept [] (c ∷ other) v h k = cc
string_selects-kept (d ∷ val) (c ∷ other) v h k =
    same_string_trans (c ∷ other) (d ∷ val) v (ground (arith, h)) k

ident_selects-kept :
    (val other v : Option (List ℕ))
    → ident_removed_or_changed val other ≡ false
    → ident_selects val v ≡ true
    → ident_selects other v ≡ true
unfolding ident_removed_or_changed
ident_selects-kept val none v h k = refl
ident_selects-kept none (some other) v h k = cc
ident_selects-kept (some val) (some other) none h k = cc
ident_selects-kept (some val) (some other) (some v) h k =
    same_string_trans other val v (ground (arith, h)) k

lat_selects-kept :
    (sub sup : LatRanges.LatRange) (lat : ℤ)
    → not (LatRanges.contains_range sup sub) ≡ false
    → LatRanges.contains sub lat ≡ true
    → LatRanges.contains sup lat ≡ true
unfolding LatRanges.contains_range LatRanges.contains
lat_selects-kept sub sup lat h k = ground arith

&&-both : (a b : Bool) → (a && b) ≡ true → (a ≡ true) × (b ≡ true)
&&-both true b h = (refl, h)
&&-both false b h = cc

||-neither : (a b : Bool) → (a || b) ≡ false → (a ≡ false) × (b ≡ false)
||-neither true b h = cc
||-neither false b h = (refl, h)

fields_select-kept :
    (q other : Query) (d : Datum)
    → fields_changed q other ≡ false
    → fields_select q d ≡ true
    → fields_select other d ≡ true
unfolding fields_changed
fields_select-kept q other d h k =
    let (c1, h1) = ||-neither _ _ h in
    let (s1, k1) = &&-both _ _ k in
    let (c2, h2) = ||-neither _ _ h1 in
    let (s2, k2) = &&-both _ _ k1 in
    let (c3, h3) = ||-neither _ _ h2 in
    let (s3, k3) = &&-both _ _ k2 in
    let (c4, h4) = ||-neither _ _ h3 in
    let (s4, k4) = &&-both _ _ k3 in
    let (c5, h5) = ||-neither _ _ h4 in
    let (s5, k5) = &&-both _ _ k4 in
    let (c6, h6) = ||-neither _ _ h5 in
    let (s6, k6) = &&-both _ _ k5 in
    rw
      (
        int_selects-kept q.level.ltype1 other.level.ltype1 d.level.ltype1 c1 s1,
        int_selects-kept q.level.l1 other.level.l1 d.level.l1 c2 s2,
        int_selects-kept q.level.ltype2 other.level.ltype2 d.level.ltype2 c3 s3,
        int_selects-kept q.level.l2 other.level.l2 d.level.l2 c4 s4,
        int_selects-kept q.trange.pind other.trange.pind d.trange.pind c5 s5,
        int_selects-kept q.trange.p1 other.trange.p1 d.trange.p1 c6 s6,
      )
      (int_selects-kept q.trange.p2 other.trange.p2 d.trange.p2 h6 k6)

filter_selects-kept :
    (passes : List ℕ → Bool) (val other : List ℕ)
    → string_removed_or_changed val other ≡ false
    → filter_selects passes val ≡ true
    → filter_selects passes other ≡ true
unfolding string_removed_or_changed
filter_selects-kept passes val [] h k = refl
filter_selects-kept passes val (c ∷ other) h k =
    ap (filter_selects passes) (tie_eq_sound (c ∷ other) val (ground (arith, h))) ∙ k

-- The tests after the modifiers are parsed
after-kept :
    (q other : Query) (mods omods : Modifiers) (d : Datum)
    → is_subquery_after q other mods omods ≡ ok true
    → selects_after q d ≡ true
    → selects_after other d ≡ true
unfolding is_subquery_after
after-kept q other mods omods d h k =
    let (lost, h1) = unless-continues _ _ h in
    let (ana, h2) = unless-continues _ _ h1 in
    let (data_, h3) = unless-continues _ _ h2 in
    let (attr, h4) = unless-continues _ _ h3 in
    let (limit, h5) = unless-continues _ _ h4 in
    let (block, h6) = unless-continues _ _ h5 in
    let (station, h7) = unless-continues _ _ h6 in
    let (k1, t1) = &&-both _ _ k in
    let (k2, t2) = &&-both _ _ t1 in
    let (k3, t3) = &&-both _ _ t2 in
    let (k4, k5) = &&-both _ _ t3 in
    rw
      (
        filter_selects-kept d.passes_ana q.ana_filter other.ana_filter ana k1,
        filter_selects-kept d.passes_data q.data_filter other.data_filter data_ k2,
        filter_selects-kept d.passes_attr q.attr_filter other.attr_filter attr k3,
        int_selects-kept q.block other.block d.block block k4,
      )
      (int_selects-kept q.station other.station d.station station k5)

-- The parsing of the modifiers of both queries, and the tests that follow
parsed-kept :
    (q other : Query) (d : Datum) (mods omods : Result Modifiers)
    → (mods >>= λ m. omods >>= λ o. is_subquery_after q other m o) ≡ ok true
    → selects_after q d ≡ true
    → selects_after other d ≡ true
parsed-kept q other d (err e) omods h k = cc
parsed-kept q other d (ok m) (err e) h k = cc
parsed-kept q other d (ok m) (ok o) h k = after-kept q other m o d h k

not-true : (b : Bool) → not b ≡ false → b ≡ true
not-true true h = refl
not-true false h = cc

-- A subquery selects no datum that the query it narrows does not: as far as the filters on the
-- station's id, identifier, WMO block and station numbers, on priority, report, mobility, latitude,
-- datetime, level and time range go, and those of station, data and attributes that are given as a
-- text. The filters on longitudes and on variable codes are not looked at.
pub is_subquery_sound :
    (q other : Query) (d : Datum)
    → is_subquery q other ≡ ok true
    → selects q d ≡ true
    → selects other d ≡ true
unfolding is_subquery
is_subquery_sound q other d h k =
    let (ana, h1) = unless-continues _ _ h in
    let (prio, h2) = unless-continues _ _ h1 in
    let (report, h3) = unless-continues _ _ h2 in
    let (mobile, h4) = unless-continues _ _ h3 in
    let (ident, h5) = unless-continues _ _ h4 in
    let (lat, h6) = unless-continues _ _ h5 in
    let (lon, h7) = unless-continues _ _ h6 in
    let (datetime, h8) = unless-continues _ _ h7 in
    let (fields, h9) = unless-continues _ _ h8 in
    let (k1, t1) = &&-both _ _ k in
    let (k2, t2) = &&-both _ _ t1 in
    let (k3, t3) = &&-both _ _ t2 in
    let (k4, t4) = &&-both _ _ t3 in
    let (k5, t5) = &&-both _ _ t4 in
    let (k6, t6) = &&-both _ _ t5 in
    let (k7, t7) = &&-both _ _ t6 in
    let (k8, k9) = &&-both _ _ t7 in
    let (codes, h10) = unless-continues _ _ h9 in
    rw
      (
        int_selects-kept q.ana_id other.ana_id d.ana_id ana k1,
        is_subrange_sound q.priomin q.priomax other.priomin other.priomax d.prio (not-true _ prio)
            k2,
        string_selects-kept q.report other.report d.report report k3,
        int_selects-kept q.mobile other.mobile d.mobile mobile k4,
        ident_selects-kept q.ident other.ident d.ident ident k5,
        lat_selects-kept q.latrange other.latrange d.lat lat k6,
        DatetimeLaws.contains_range_sound other.dtrange q.dtrange d.datetime (not-true _ datetime)
            k7,
        fields_select-kept q other d fields k8,
      )
      (parsed-kept q other d (parse_modifiers q.query) (parse_modifiers other.query) h10 k9)
