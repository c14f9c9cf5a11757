-- ===== src/RepinfoUpdate/Refreshed.antt =====
-- What the rows of a file of reports make of the entries of the cache: the specification of
-- Repinfo::read_repinfo_file of dballe/db/v7/repinfo.cc.
use dballe.Prelude.{
  ℕ, zero, suc, ◌<◌, ◌≡◌, refl, sym, ◌∙◌, ap, Bool, true, false, ◌||◌, if◌then◌else◌, List, [], ◌∷◌,
  map, Option, some, none, get_elem?, arith, ◌==◌, Bool-cases, inl, inr,
}
use dballe.Prelude.Int.{ℤ}
use dballe.Prelude.Order.{nat_ord}
use dballe.SortedVector.{All, count_if}
use dballe.Pending.{change_at}
use dballe.Repinfo.{Cache}
use dballe.Repinfo.Order.{Increasing}

-- A row of six columns, with its numbers read
pub record Row : Type 0 where
  pub id : ℕ
  pub memo : List ℕ
  pub desc : List ℕ
  pub prio : ℤ
  pub descriptor : List ℕ
  pub tablea : ℕ

-- The entry with the new fields of a row, if the row has its id
abbrev pub refreshed : Row → Cache → Cache
refreshed r c =
    if c.id == r.id
    then record c {
      new_memo = r.memo;
      new_desc = r.desc;
      new_prio = r.prio;
      new_descriptor = r.descriptor;
      new_tablea = r.tablea;
    }
    else c

-- The entry after all rows: the last row with its id counts.
abbrev pub refreshed_by : List Row → Cache → Cache
refreshed_by [] c = c
refreshed_by (r ∷ rs) c = refreshed_by rs (refreshed r c)

abbrev pub has_id : ℕ → List Cache → Bool
has_id id [] = false
has_id id (c ∷ cs) = (c.id == id) || has_id id cs

-- The new item that a row makes: its values stand in the entry and in its new fields.
abbrev pub new_item : Row → Cache
new_item r = record {
  id = r.id;
  memo = r.memo;
  desc = r.desc;
  prio = r.prio;
  descriptor = r.descriptor;
  tablea = r.tablea;
  new_memo = r.memo;
  new_desc = r.desc;
  new_prio = r.prio;
  new_descriptor = r.descriptor;
  new_tablea = r.tablea;
}

-- One new item for each row whose id the cache does not have
abbrev pub new_items : List Cache → List Row → List Cache
new_items cache [] = []
new_items cache (r ∷ rs) =
    if has_id r.id cache then new_items cache rs else new_item r ∷ new_items cache rs

pub refreshed-id : (r : Row) (c : Cache) → (refreshed r c).id ≡ c.id
refreshed-id r c = elim (Bool-cases (c.id == r.id)) [ inl e ↦ rw e refl | inr e ↦ rw e refl ]

pub has_id-refreshed :
    (id : ℕ) (r : Row) (cs : List Cache) → has_id id (map (refreshed r) cs) ≡ has_id id cs
has_id-refreshed id r [] = refl
has_id-refreshed id r (c ∷ cs) = rw (refreshed-id r c, has_id-refreshed id r cs) refl

pub new_items-refreshed :
    (r : Row) (cache : List Cache) (rs : List Row)
    → new_items (map (refreshed r) cache) rs ≡ new_items cache rs
new_items-refreshed r cache [] = refl
new_items-refreshed r cache (x ∷ rs) =
    rw (has_id-refreshed x.id r cache, new_items-refreshed r cache rs) refl

pub Increasing-refreshed :
    (r : Row) (cs : List Cache) → Increasing cs → Increasing (map (refreshed r) cs)
Increasing-refreshed r [] h = tt
Increasing-refreshed r (c ∷ cs) h =
    (rw (refreshed-id r c) (above c.id cs h.0), Increasing-refreshed r cs h.1)
  where
    above :
        (id : ℕ) (ds : List Cache)
        → All (λ d. id < d.id) ds
        → All (λ d. id < d.id) (map (refreshed r) ds)
    above id [] a = tt
    above id (d ∷ ds) a = (rw (refreshed-id r d) a.0, above id ds a.1)

-- Entries whose ids are above that of a row stay as they are.
refreshed-above :
    (r : Row) (cs : List Cache) → All (λ d. r.id < d.id) cs → map (refreshed r) cs ≡ cs
refreshed-above r [] a = refl
refreshed-above r (c ∷ cs) a =
    let differs : (c.id == r.id) ≡ false = let l = a.0 in ground arith in
    rw (differs, refreshed-above r cs a.1) refl

pub refreshed-absent :
    (r : Row) (cs : List Cache)
    → count_if (λ c. c.id == r.id) cs ≡ 0
    → (map (refreshed r) cs ≡ cs) × (has_id r.id cs ≡ false)
refreshed-absent r [] h = (refl, refl)
refreshed-absent r (c ∷ cs) h = elim (Bool-cases (c.id == r.id)) [
  | inl e ↦ absurd (ground (arith, e, h))
  | inr e ↦
      let (same, none_there) = refreshed-absent r cs (ground (arith, e, h)) in
      (rw (e, same) refl, rw (e, none_there) refl)
]

-- What a row changes where its id is found: in a cache in which ids rise, one entry
pub refreshed-at :
    (r : Row) (cs : List Cache) (i : ℕ) (x : Cache) (f : Cache → Cache)
    → Increasing cs
    → get_elem? cs i ≡ some x
    → (x.id == r.id) ≡ true
    → ((c : Cache) → (c.id == r.id) ≡ true → f c ≡ refreshed r c)
    → (change_at f i cs ≡ map (refreshed r) cs) × (has_id r.id cs ≡ true)
refreshed-at r [] i x f h g e k = cc
refreshed-at r (c ∷ cs) zero x f h g e k =
    let e' : (c.id == r.id) ≡ true = ap (id_is c) g ∙ e in
    let up : All (λ d. r.id < d.id) cs = above_row cs e' h.0 in
    (
      ap (λ y. y ∷ cs) (k c e') ∙ ap (λ ys. refreshed r c ∷ ys) (sym (refreshed-above r cs up)),
      rw e' refl,
    )
  where
    id_is : Cache → Option Cache → Bool
    id_is d none = d.id == r.id
    id_is d (some y) = y.id == r.id

    above_row :
        (ds : List Cache)
        → (c.id == r.id) ≡ true
        → All (λ d. c.id < d.id) ds
        → All (λ d. r.id < d.id) ds
    above_row [] q a = tt
    above_row (d ∷ ds) q a = (let l = a.0 in ground (arith, q), above_row ds q a.1)
refreshed-at r (c ∷ cs) (suc i) x f h g e k =
    let (rest, there) = refreshed-at r cs i x f h.1 g e k in
    let below : c.id < r.id = lower cs i h.0 g in
    let differs : (c.id == r.id) ≡ false = ground arith in
    (ap (λ ys. c ∷ ys) rest ∙ rw differs refl, rw (differs, there) refl)
  where
    lower :
        (ds : List Cache) (j : ℕ)
        → All (λ d. c.id < d.id) ds
        → get_elem? ds j ≡ some x
        → c.id < r.id
    lower [] j a q = cc
    lower (d ∷ ds) zero a q =
        let same : d.id ≡ x.id = ap (id_or d) q in let l = a.0 in ground (arith, same, l, e)
      where
        id_or : Cache → Option Cache → ℕ
        id_or y none = y.id
        id_or y (some z) = z.id
    lower (d ∷ ds) (suc j) a q = lower ds j a.1 q
