-- ===== src/Repinfo/Conflicts.antt =====
-- The conflicts that make the update of report information stop.
use dballe.Prelude.{
  ◌≡◌, refl, ◌∙◌, Bool, true, false, not, ◌&&◌, ◌||◌, arith, if◌then◌else◌, List, [], ◌∷◌, ◌++◌,
  map, Result, ok, err, throw_if, consistency, ◌>>◌, Bool-cases, inl, inr,
}
use dballe.Prelude.Int.{ℤ, eqb_ℤ}
use dballe.Prelude.Order.{nat_ord, tie_eq}
use dballe.Repinfo.{
  Cache, is_skipped, takes_prio, new_takes_prio, verify_cache, verify_new, verify_conflicts,
}

abbrev pub returns : Result (Unit {0}) → Bool
returns (err e) = false
returns (ok u) = true

-- Whether no number comes twice
abbrev pub is_among : ℤ → List ℤ → Bool
is_among z [] = false
is_among z (x ∷ xs) = eqb_ℤ x z || is_among z xs

abbrev pub no_repeats : List ℤ → Bool
no_repeats [] = true
no_repeats (x ∷ xs) = not (is_among x xs) && no_repeats xs

-- The priorities that the entries to keep will have
abbrev pub kept_prios : List Cache → List ℤ
kept_prios [] = []
kept_prios (c ∷ cs) = if is_skipped c then kept_prios cs else c.new_prio ∷ kept_prios cs

abbrev pub new_prios : List Cache → List ℤ
new_prios ns = map (λ n. n.new_prio) ns

abbrev pub keeps_names : List Cache → Bool
keeps_names [] = true
keeps_names (c ∷ cs) = (is_skipped c || tie_eq c.memo c.new_memo) && keeps_names cs

new_takes_prio_lem : (z : ℤ) (ns : List Cache) → new_takes_prio z ns ≡ is_among z (new_prios ns)
new_takes_prio_lem z [] = refl
new_takes_prio_lem z (n ∷ ns) = rw (new_takes_prio_lem z ns) refl

takes_prio_lem : (z : ℤ) (cs : List Cache) → takes_prio z cs ≡ is_among z (kept_prios cs)
takes_prio_lem z [] = refl
takes_prio_lem z (c ∷ cs) = elim (Bool-cases (is_skipped c)) [
  | inl e ↦ rw (e, takes_prio_lem z cs) refl
  | inr e ↦ rw (e, takes_prio_lem z cs) refl
]

is_among-append :
    (z : ℤ) (xs ys : List ℤ) → is_among z (xs ++ ys) ≡ (is_among z xs || is_among z ys)
is_among-append z [] ys = refl
is_among-append z (x ∷ xs) ys = ground (arith, is_among-append z xs ys)

returns-throw_if :
    (b : Bool) (r : Result (Unit {0}))
    → returns (throw_if b consistency >> r) ≡ (not b && returns r)
returns-throw_if true r = refl
returns-throw_if false r = refl

returns-then : (r s : Result (Unit {0})) → returns (r >> s) ≡ (returns r && returns s)
returns-then (err e) s = refl
returns-then (ok u) s = refl

verify_new_lem : (ns : List Cache) → returns (verify_new ns) ≡ no_repeats (new_prios ns)
unfolding verify_new
verify_new_lem [] = refl
verify_new_lem (n ∷ ns) =
    rw
      (
        returns-throw_if (new_takes_prio n.new_prio ns) (verify_new ns),
        new_takes_prio_lem n.new_prio ns,
        verify_new_lem ns,
      )
      refl

verify_cache_lem :
    (cs ns : List Cache)
    → (returns (verify_cache cs ns) && no_repeats (new_prios ns))
      ≡ (keeps_names cs && no_repeats (kept_prios cs ++ new_prios ns))
unfolding verify_cache
verify_cache_lem [] ns = refl
verify_cache_lem (c ∷ cs) ns = elim (Bool-cases (is_skipped c)) [
  | inl e ↦ rw e (verify_cache_lem cs ns)
  | inr e ↦
      rw
        (
          e,
          returns-throw_if (not (tie_eq c.memo c.new_memo)) (
              throw_if (takes_prio c.new_prio cs) consistency
              >> (throw_if (new_takes_prio c.new_prio ns) consistency >> verify_cache cs ns)),
          returns-throw_if (takes_prio c.new_prio cs)
              (throw_if (new_takes_prio c.new_prio ns) consistency >> verify_cache cs ns),
          returns-throw_if (new_takes_prio c.new_prio ns) (verify_cache cs ns),
          takes_prio_lem c.new_prio cs,
          new_takes_prio_lem c.new_prio ns,
          is_among-append c.new_prio (kept_prios cs) (new_prios ns),
        )
        (shuffle (tie_eq c.memo c.new_memo) (is_among c.new_prio (kept_prios cs))
          (is_among c.new_prio (new_prios ns)) (returns (verify_cache cs ns))
          (no_repeats (new_prios ns)) (keeps_names cs) (no_repeats (kept_prios cs ++ new_prios ns))
          (verify_cache_lem cs ns))
]
  where
    shuffle :
        (a t u v n k r : Bool)
        → (v && n) ≡ (k && r)
        → ((not (not a) && (not t && (not u && v))) && n)
          ≡ (((false || a) && k) && (not (t || u) && r))
    shuffle a t u v n k r h = ground (arith, h)

-- The update of report information finds no conflict just when no entry that is kept gets another
-- name, and no two of the entries that are kept or new will have the same priority.
pub verify_conflicts_lem :
    (cache newitems : List Cache)
    → returns (verify_conflicts cache newitems)
      ≡ (keeps_names cache && no_repeats (kept_prios cache ++ new_prios newitems))
unfolding verify_conflicts
verify_conflicts_lem cache newitems =
    returns-then (verify_cache cache newitems) (verify_new newitems)
    ∙ rw (verify_new_lem newitems) (verify_cache_lem cache newitems)
