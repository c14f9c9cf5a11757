-- ===== src/Encoding/RoundTrip.antt =====
-- Decoding what was encoded.
use dballe.Prelude.{
  ℕ, zero, suc, ◌+◌, ◌*◌, ◌/◌, ◌%◌, ◌≤◌, ◌<◌, ◌≡◌, refl, sym, ap, ◌∙◌, false, arith, ◌==◌, List, [],
  ◌∷◌, ◌++◌, some, none, ok, map, length, length-append,
}
use mathlib.Core.List.{append_assoc}
use dballe.Prelude.Int.{ℤ, pos, negsuc}
use dballe.Prelude.Words.{to_u32, IsInt}
use dballe.SortedVector.{All}
use dballe.Encoding.{
  Kind, text, number, Wreport, append_uint16, append_uint32, append_cstring, decode_uint16,
  decode_uint32, decode_cstring, to_int, append, decode_var, encode_onto, passed_on, decode_loop,
}

-- A variable that can be encoded: its code is 16 bits wide, its type is that of the entry of its code
-- in the table, its text ends at its first zero, its number is an `int`, and the constructor that
-- Decoder::decode_var calls accepts its value, and makes the same variable without its attributes,
-- which is `bare`.
pub record IsEncodable {ℓ} {Var : Type ℓ} (w : Wreport Var) (bare : Var → Var) (v : Var)
    : Type ℓ where
  pub code_in : w.code v < 65536
  pub known : w.kind (w.code v) ≡ some (w.own_kind v)
  pub text_in : w.own_kind v ≡ text → All (λ c. (c == 0) ≡ false) (w.enqc v)
  pub number_in : w.own_kind v ≡ number → IsInt (w.enqi v)
  pub of_enqc : w.own_kind v ≡ text → w.of_text (w.code v) (w.enqc v) ≡ ok (bare v)
  pub of_enqi : w.own_kind v ≡ number → w.of_number (w.code v) (w.enqi v) ≡ ok (bare v)

decode-append_uint16 :
    (val : ℕ) (rest : List ℕ)
    → val < 65536
    → decode_uint16 (append_uint16 [] val ++ rest) ≡ ok (val, rest)
unfolding decode_uint16 append_uint16
decode-append_uint16 val rest h =
    let e : val / 256 % 256 * 256 + val % 256 ≡ val = omega arith in ap (λ n. ok (n, rest)) e

decode-append_uint32 :
    (val : ℕ) (rest : List ℕ)
    → val < 4294967296
    → decode_uint32 (append_uint32 [] val ++ rest) ≡ ok (val, rest)
unfolding decode_uint32 append_uint32
decode-append_uint32 val rest h =
    let e : ((val / 16777216 % 256 * 256 + val / 65536 % 256) * 256 + val / 256 % 256) * 256
          + val % 256
        ≡ val =
      omega arith in
    ap (λ n. ok (n, rest)) e

append_cstring-eq : (buf val : List ℕ) → append_cstring buf val ≡ buf ++ (val ++ 0 ∷ [])
unfolding append_cstring
append_cstring-eq buf [] = refl
append_cstring-eq buf (c ∷ val) =
    append_cstring-eq (buf ++ c ∷ []) val ∙ append_assoc buf (c ∷ []) (val ++ 0 ∷ [])

decode_cstring-terminated :
    (val rest : List ℕ)
    → All (λ c. (c == 0) ≡ false) val
    → decode_cstring (val ++ 0 ∷ rest) ≡ ok (val, rest)
unfolding decode_cstring
decode_cstring-terminated [] rest h = refl
decode_cstring-terminated (c ∷ val) rest h = rw (h.0, decode_cstring-terminated val rest h.1) refl

to_int-to_u32 : (z : ℤ) → IsInt z → to_int (to_u32 z) ≡ z
to_int-to_u32 (pos n) h = ground (arith, h.below)
to_int-to_u32 (negsuc n) h = ground (arith, h.above)

to_u32-lt : (z : ℤ) → to_u32 z < 4294967296
to_u32-lt (pos n) = omega arith
to_u32-lt (negsuc n) = omega arith

append_nil {ℓ} : {A : Type ℓ} (xs : List A) → xs ++ [] ≡ xs
append_nil [] = refl
append_nil (x ∷ xs) = ap (λ r. x ∷ r) (append_nil xs)

module _ {ℓ} {Var : Type ℓ} (w : Wreport Var) (bare : Var → Var) where
  append_text :
      (buf : List ℕ) (v : Var)
      → w.own_kind v ≡ text
      → append w buf v ≡ append_uint16 buf (w.code v) ++ (w.enqc v ++ 0 ∷ [])
  unfolding append
  append_text buf v e = rw (append, e) (append_cstring-eq (append_uint16 buf (w.code v)) (w.enqc v))

  append_number :
      (buf : List ℕ) (v : Var)
      → w.own_kind v ≡ number
      → append w buf v ≡ append_uint32 (append_uint16 buf (w.code v)) (to_u32 (w.enqi v))
  unfolding append
  append_number buf v e = rw (append, e) refl

  append-nil_onto : (buf : List ℕ) (v : Var) → append w buf v ≡ buf ++ append w [] v
  append-nil_onto buf v = onto (w.own_kind v) refl
    where
      onto : (k : Kind) → w.own_kind v ≡ k → append w buf v ≡ buf ++ append w [] v
      onto text e =
          unfold append_uint16 in
          append_text buf v e
          ∙ append_assoc buf (append_uint16 [] (w.code v)) (w.enqc v ++ 0 ∷ [])
          ∙ ap (λ r. buf ++ r) (sym (append_text [] v e))
      onto number e =
          unfold append_uint16 append_uint32 in
          append_number buf v e
          ∙ append_assoc buf (append_uint16 [] (w.code v)) (append_uint32 [] (to_u32 (w.enqi v)))
          ∙ ap (λ r. buf ++ r) (sym (append_number [] v e))

  decode_text :
      (buf rest rest' t : List ℕ) (c : ℕ) (v : Var)
      → decode_uint16 buf ≡ ok (c, rest)
      → w.kind c ≡ some text
      → decode_cstring rest ≡ ok (t, rest')
      → w.of_text c t ≡ ok v
      → decode_var w buf ≡ ok (v, rest')
  unfolding decode_var
  decode_text buf rest rest' t c v e k g m = rw e (rw k (rw g (rw m refl)))

  decode_number :
      (buf rest rest' : List ℕ) (n c : ℕ) (v : Var)
      → decode_uint16 buf ≡ ok (c, rest)
      → w.kind c ≡ some number
      → decode_uint32 rest ≡ ok (n, rest')
      → w.of_number c (to_int n) ≡ ok v
      → decode_var w buf ≡ ok (v, rest')
  unfolding decode_var
  decode_number buf rest rest' n c v e k g m = rw e (rw k (rw g (rw m refl)))

  -- A variable is read back without its attributes, and what follows it is left.
  decode_var-append :
      (v : Var) (rest : List ℕ)
      → IsEncodable w bare v
      → decode_var w (append w [] v ++ rest) ≡ ok (bare v, rest)
  decode_var-append v rest h = back (w.own_kind v) refl
    where
      back :
          (k : Kind) → w.own_kind v ≡ k → decode_var w (append w [] v ++ rest) ≡ ok (bare v, rest)
      back text e =
          unfold append_uint16 in
          ap (λ b. decode_var w (b ++ rest)) (append_text [] v e)
          ∙ decode_text (append_uint16 [] (w.code v) ++ ((w.enqc v ++ 0 ∷ []) ++ rest))
              ((w.enqc v ++ 0 ∷ []) ++ rest) rest (w.enqc v) (w.code v) (bare v)
              (decode-append_uint16 (w.code v) ((w.enqc v ++ 0 ∷ []) ++ rest) h.code_in)
              (h.known ∙ ap some e)
              (ap decode_cstring (append_assoc (w.enqc v) (0 ∷ []) rest)
                ∙ decode_cstring-terminated (w.enqc v) rest (h.text_in e))
              (h.of_enqc e)
      back number e =
          unfold append_uint16 append_uint32 in
          ap (λ b. decode_var w (b ++ rest)) (append_number [] v e)
          ∙ decode_number
              (append_uint16 [] (w.code v) ++ (append_uint32 [] (to_u32 (w.enqi v)) ++ rest))
              (append_uint32 [] (to_u32 (w.enqi v)) ++ rest) rest (to_u32 (w.enqi v)) (w.code v)
              (bare v)
              (decode-append_uint16 (w.code v) (append_uint32 [] (to_u32 (w.enqi v)) ++ rest)
                h.code_in)
              (h.known ∙ ap some e)
              (decode-append_uint32 (to_u32 (w.enqi v)) rest (to_u32-lt (w.enqi v)))
              (ap (w.of_number (w.code v)) (to_int-to_u32 (w.enqi v) (h.number_in e)) ∙ h.of_enqi e)

  encode_onto-eq :
      (buf : List ℕ) (vs : List Var) → encode_onto w buf vs ≡ buf ++ encode_onto w [] vs
  unfolding encode_onto
  encode_onto-eq buf [] = sym (append_nil buf)
  encode_onto-eq buf (v ∷ vs) =
      encode_onto-eq (append w buf v) vs
      ∙ ap (λ b. b ++ encode_onto w [] vs) (append-nil_onto buf v)
      ∙ append_assoc buf (append w [] v) (encode_onto w [] vs)
      ∙ ap (λ b. buf ++ b) (sym (encode_onto-eq (append w [] v) vs))

  append-length : (v : Var) → 2 ≤ length (append w [] v)
  append-length v = long (w.own_kind v) refl
    where
      long : (k : Kind) → w.own_kind v ≡ k → 2 ≤ length (append w [] v)
      long text e = unfold append_uint16 in omega (arith, ap length (append_text [] v e))
      long number e =
          unfold append_uint16 append_uint32 in omega (arith, ap length (append_number [] v e))

  -- One round of the decoder's loop, with fuel for the bytes that are there
  decode_loop-append :
      (v : Var) (rest : List ℕ) (fuel : ℕ)
      → IsEncodable w bare v
      → decode_loop w (suc fuel) (append w [] v ++ rest)
        ≡ passed_on (bare v) (decode_loop w fuel rest)
  unfolding decode_loop
  decode_loop-append v rest fuel h =
      one (append w [] v ++ rest) (decode_var-append v rest h)
        (omega (arith, append-length v, length-append (append w [] v) rest))
    where
      one :
          (buf : List ℕ)
          → decode_var w buf ≡ ok (bare v, rest)
          → 1 ≤ length buf
          → decode_loop w (suc fuel) buf ≡ passed_on (bare v) (decode_loop w fuel rest)
      one [] e l = absurd (omega (arith, l))
      one (b ∷ buf) e l = rw (decode_loop, e) refl

  encode_onto-cons :
      (v : Var) (vs : List Var) → encode_onto w [] (v ∷ vs) ≡ append w [] v ++ encode_onto w [] vs
  unfolding encode_onto
  encode_onto-cons v vs = encode_onto-eq (append w [] v) vs

  cons_length :
      (v : Var) (vs : List Var)
      → length (encode_onto w [] (v ∷ vs)) ≡ length (append w [] v) + length (encode_onto w [] vs)
  cons_length v vs =
      ap length (encode_onto-cons v vs) ∙ length-append (append w [] v) (encode_onto w [] vs)

  decode_loop-encode_onto :
      (vs : List Var) (fuel : ℕ)
      → All (IsEncodable w bare) vs
      → length (encode_onto w [] vs) ≤ fuel
      → decode_loop w fuel (encode_onto w [] vs)
        ≡ some (record { vars = map bare vs; thrown = none })
  decode_loop-encode_onto [] zero h l = unfold decode_loop encode_onto in refl
  decode_loop-encode_onto [] (suc fuel) h l = unfold decode_loop encode_onto in refl
  decode_loop-encode_onto (v ∷ vs) zero h l =
      absurd (omega (arith, l, cons_length v vs, append-length v))
  decode_loop-encode_onto (v ∷ vs) (suc fuel) h l =
      ap (decode_loop w (suc fuel)) (encode_onto-cons v vs)
      ∙ decode_loop-append v (encode_onto w [] vs) fuel h.0
      ∙ ap (passed_on (bare v)) (
          decode_loop-encode_onto vs fuel h.1 (omega (arith, l, cons_length v vs, append-length v)))

  -- If each variable is set, has the type of the entry of its code in the table, and has a value that
  -- the constructor accepts and its text encodes (a text without zeros, also if it is binary), then
  -- decoding what was encoded of them, with fuel for its bytes, passes on the variables, in order and
  -- without their attributes, and throws nothing.
  pub decode_loop-encode :
      (vs : List Var)
      → All (IsEncodable w bare) vs
      → decode_loop w (length (encode_onto w [] vs)) (encode_onto w [] vs)
        ≡ some (record { vars = map bare vs; thrown = none })
  decode_loop-encode vs h =
      decode_loop-encode_onto vs (length (encode_onto w [] vs)) h (omega arith)
