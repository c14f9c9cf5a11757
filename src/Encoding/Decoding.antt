-- ===== src/Encoding/Decoding.antt =====
-- Decoding any bytes: each round takes at least two of them, so the loop ends.
use dballe.Prelude.{
  ℕ, zero, suc, ◌+◌, ◌≤◌, ◌≡◌, refl, arith, ◌==◌, List, [], ◌∷◌, Option, some, none, Result, ok,
  err, Error, notfound, ap, ◌>>=◌, length, Bool-cases, inl, inr,
}
use dballe.Encoding.{
  Kind, text, number, Wreport, decode_uint16, decode_uint32, decode_cstring, to_int, decode_var,
  Decoded, passed_on, decode_loop,
}

-- What a decoding step answers: an exception, or a value and what is left, at least `n` bytes shorter.
data Takes {ℓ} {A : Type ℓ} (n : ℕ) (buf : List ℕ) : Result (A × List ℕ) → Type ℓ where
  throws : (e : Error) → Takes n buf (err e)
  takes : (a : A) (rest : List ℕ) → length rest + n ≤ length buf → Takes n buf (ok (a, rest))

decode_uint16-Takes : (buf : List ℕ) → Takes 2 buf (decode_uint16 buf)
unfolding decode_uint16
decode_uint16-Takes [] = throws _
decode_uint16-Takes (a ∷ []) = throws _
decode_uint16-Takes (a ∷ b ∷ buf) = takes _ buf (omega arith)

decode_uint32-Takes : (buf : List ℕ) → Takes 4 buf (decode_uint32 buf)
unfolding decode_uint32
decode_uint32-Takes [] = throws _
decode_uint32-Takes (a ∷ []) = throws _
decode_uint32-Takes (a ∷ b ∷ []) = throws _
decode_uint32-Takes (a ∷ b ∷ c ∷ []) = throws _
decode_uint32-Takes (a ∷ b ∷ c ∷ d ∷ buf) = takes _ buf (omega arith)

decode_cstring-Takes : (buf : List ℕ) → Takes 1 buf (decode_cstring buf)
unfolding decode_cstring
decode_cstring-Takes [] = throws _
decode_cstring-Takes (c ∷ buf) = elim (Bool-cases (c == 0)) [
  | inl h ↦ rw h (takes [] buf (omega arith))
  | inr h ↦ rw h (longer (decode_cstring buf) (decode_cstring-Takes buf))
]
  where
    longer :
        (r : Result (List ℕ × List ℕ))
        → Takes 1 buf r
        → Takes 1 (c ∷ buf) (r >>= λ r. ok (c ∷ r.0, r.1))
    longer _ (throws e) = throws e
    longer _ (takes a rest l) = takes (c ∷ a) rest (omega (arith, l))

module _ {ℓ} {Var : Type ℓ} (w : Wreport Var) where
  decode_var-Takes : (buf : List ℕ) → Takes 2 buf (decode_var w buf)
  unfolding decode_var
  decode_var-Takes buf = after (decode_uint16 buf) (decode_uint16-Takes buf)
    where
      made :
          (rest : List ℕ) (r : Result Var)
          → length rest + 2 ≤ length buf
          → Takes 2 buf (r >>= λ v. ok (v, rest))
      made rest (err e) l = throws e
      made rest (ok v) l = takes v rest l

      text_after :
          (c : ℕ) (rest : List ℕ) (r : Result (List ℕ × List ℕ))
          → length rest + 2 ≤ length buf
          → Takes 1 rest r
          → Takes 2 buf (r >>= λ t. w.of_text c t.0 >>= λ v. ok (v, t.1))
      text_after c rest _ l (throws e) = throws e
      text_after c rest _ l (takes t left m) = made left (w.of_text c t) (omega (arith, l, m))

      number_after :
          (c : ℕ) (rest : List ℕ) (r : Result (ℕ × List ℕ))
          → length rest + 2 ≤ length buf
          → Takes 4 rest r
          → Takes 2 buf (r >>= λ n. w.of_number c (to_int n.0) >>= λ v. ok (v, n.1))
      number_after c rest _ l (throws e) = throws e
      number_after c rest _ l (takes n left m) =
          made left (w.of_number c (to_int n)) (omega (arith, l, m))

      by_kind :
          (c : ℕ) (rest : List ℕ) (k : Option Kind)
          → length rest + 2 ≤ length buf
          → Takes 2 buf (elim k [
            | none ↦ err notfound
            | some text ↦ (decode_cstring rest >>= λ t. w.of_text c t.0 >>= λ v. ok (v, t.1))
            | some number ↦
                (decode_uint32 rest >>= λ n. w.of_number c (to_int n.0) >>= λ v. ok (v, n.1))
          ])
      by_kind c rest none l = throws notfound
      by_kind c rest (some text) l =
          text_after c rest (decode_cstring rest) l (decode_cstring-Takes rest)
      by_kind c rest (some number) l =
          number_after c rest (decode_uint32 rest) l (decode_uint32-Takes rest)

      after :
          (r : Result (ℕ × List ℕ))
          → Takes 2 buf r
          → Takes 2 buf (
              r >>= λ c. elim (w.kind c.0) [
                | none ↦ err notfound
                | some text ↦ (decode_cstring c.1 >>= λ t. w.of_text c.0 t.0 >>= λ v. ok (v, t.1))
                | some number ↦
                    (decode_uint32 c.1 >>= λ n. w.of_number c.0 (to_int n.0) >>= λ v. ok (v, n.1))
              ])
      after _ (throws e) = throws e
      after _ (takes c rest l) = by_kind c rest (w.kind c) l

  -- On any bytes, with fuel for each of them, the loop ends: with the variables that it passed on, and
  -- the exception that ended it if there was one.
  pub decode_loop_total :
      (fuel : ℕ) (buf : List ℕ)
      → length buf ≤ fuel
      → (d : Decoded Var) × (decode_loop w fuel buf ≡ some d)
  unfolding decode_loop
  decode_loop_total zero [] l = (_, refl)
  decode_loop_total (suc fuel) [] l = (_, refl)
  decode_loop_total zero (b ∷ buf) l = absurd (omega (arith, l))
  decode_loop_total (suc fuel) (b ∷ buf) l =
      round (decode_var w (b ∷ buf)) (decode_var-Takes (b ∷ buf))
        (λ rest m. decode_loop_total fuel rest m)
    where
      round :
          (r : Result (Var × List ℕ))
          → Takes 2 (b ∷ buf) r
          → ((rest : List ℕ)
              → length rest ≤ fuel
              → (d : Decoded Var) × (decode_loop w fuel rest ≡ some d))
          → (d : Decoded Var) × ((elim r [
            | err e ↦ some (record { vars = []; thrown = some e })
            | ok r ↦ passed_on r.0 (decode_loop w fuel r.1)
          ])
              ≡ some d)
      round _ (throws e) again = (record { vars = []; thrown = some e }, refl)
      round _ (takes v rest m) again =
          let (d, e) = again rest (omega (arith, l, m)) in
          (record d { vars = v ∷ d.vars }, ap (passed_on v) e)
