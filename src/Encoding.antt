-- ===== src/Encoding.antt =====
-- The binary representation of variables: Encoder and Decoder of dballe/core/values.cc, and
-- ValuesBase::encode and ValuesBase::decode of dballe/values.cc. A byte is a number below 256; the
-- decoder is the list of the bytes that are left. `Wreport` is what the code uses of wreport::Var.
pub mod RoundTrip
pub mod Decoding
use dballe.Prelude.{
  ℕ, zero, suc, ◌+◌, ◌*◌, ◌/◌, ◌%◌, ◌≡◌, Bool, true, false, ltb, ◌==◌, if◌then◌else◌, List, [], ◌∷◌,
  ◌++◌, Option, some, none, Result, ok, err, ◌>>=◌, Error, toolong, notfound,
}
use dballe.Prelude.Int.{ℤ, pos, negsuc}
use dballe.Prelude.Words.{to_u32, wrap32}

-- wreport::Vartype, as far as the switches tell its values apart
pub data Kind : Type 0 where
  text number : Kind

-- wreport::Var and the table of variables
pub record Wreport {ℓ} (Var : Type ℓ) : Type ℓ where
  -- varinfo(code)->type, where there is such a code
  pub kind : ℕ → Option Kind
  pub code : Var → ℕ
  -- info()->type
  pub own_kind : Var → Kind
  pub enqc : Var → List ℕ
  pub enqi : Var → ℤ
  -- Var(info, const char*) and Var(info, int) of the table's entry of a code, which throw if the value
  -- does not fit it
  pub of_text : ℕ → List ℕ → Result Var
  pub of_number : ℕ → ℤ → Result Var

-- Encoder::append_uint16, after htons
unfoldable pub append_uint16 : List ℕ → ℕ → List ℕ
append_uint16 buf val = buf ++ val / 256 % 256 ∷ val % 256 ∷ []

-- Encoder::append_uint32, after htonl
unfoldable pub append_uint32 : List ℕ → ℕ → List ℕ
append_uint32 buf val =
    buf ++ val / 16777216 % 256 ∷ val / 65536 % 256 ∷ val / 256 % 256 ∷ val % 256 ∷ []

-- Encoder::append_cstring; the terminating zero of `val` is left out
unfoldable pub append_cstring : List ℕ → List ℕ → List ℕ
append_cstring buf [] = buf ++ 0 ∷ []
append_cstring buf (c ∷ val) = append_cstring (buf ++ c ∷ []) val

-- Decoder::decode_uint16
unfoldable pub decode_uint16 : List ℕ → Result (ℕ × List ℕ)
decode_uint16 (a ∷ b ∷ buf) = ok (a * 256 + b, buf)
decode_uint16 _ = err toolong

-- Decoder::decode_uint32
unfoldable pub decode_uint32 : List ℕ → Result (ℕ × List ℕ)
decode_uint32 (a ∷ b ∷ c ∷ d ∷ buf) = ok (((a * 256 + b) * 256 + c) * 256 + d, buf)
decode_uint32 _ = err toolong

-- Decoder::decode_cstring
unfoldable pub decode_cstring : List ℕ → Result (List ℕ × List ℕ)
decode_cstring [] = err toolong
decode_cstring (c ∷ buf) =
    let rest = decode_cstring buf in
    if c == 0 then ok ([], buf) else (rest >>= λ r. ok (c ∷ r.0, r.1))

-- The conversion of `uint32_t` to `int`
abbrev pub to_int : ℕ → ℤ
to_int n = wrap32 (pos n)

-- What the loop of ValuesBase::decode passes on, and the exception that leaves it
pub record Decoded {ℓ} (Var : Type ℓ) : Type ℓ where
  pub vars : List Var
  pub thrown : Option Error

abbrev pub passed_on {ℓ} : {Var : Type ℓ} → Var → Option (Decoded Var) → Option (Decoded Var)
passed_on v none = none
passed_on v (some d) = some (record d { vars = v ∷ d.vars })

module _ {ℓ} {Var : Type ℓ} (w : Wreport Var) where
  -- Encoder::append, of a variable that is set
  unfoldable pub append : List ℕ → Var → List ℕ
  unfolding append_uint16 append_uint32 append_cstring
  append buf v = elim (w.own_kind v) [
    | text ↦ append_cstring (append_uint16 buf (w.code v)) (w.enqc v)
    | number ↦ append_uint32 (append_uint16 buf (w.code v)) (to_u32 (w.enqi v))
  ]

  -- Decoder::decode_var
  unfoldable pub decode_var : List ℕ → Result (Var × List ℕ)
  unfolding decode_uint16 decode_uint32 decode_cstring
  decode_var buf = decode_uint16 buf >>= λ c. elim (w.kind c.0) [
    | none ↦ err notfound
    | some text ↦ (decode_cstring c.1 >>= λ t. w.of_text c.0 t.0 >>= λ v. ok (v, t.1))
    | some number ↦ (decode_uint32 c.1 >>= λ n. w.of_number c.0 (to_int n.0) >>= λ v. ok (v, n.1))
  ]

  -- Encoder::append of each variable of a collection: ValuesBase::encode
  unfoldable pub encode_onto : List ℕ → List Var → List ℕ
  unfolding append
  encode_onto buf [] = buf
  encode_onto buf (v ∷ vs) = encode_onto (append buf v) vs

  -- ValuesBase::decode, and the loop of Decoder::decode_attrs; the fuel is at least the number of
  -- bytes
  unfoldable pub decode_loop : ℕ → List ℕ → Option (Decoded Var)
  unfolding decode_var
  decode_loop fuel [] = some (record { vars = []; thrown = none })
  decode_loop zero (b ∷ buf) = none
  decode_loop (suc fuel) (b ∷ buf) = elim (decode_var (b ∷ buf)) [
    | err e ↦ some (record { vars = []; thrown = some e })
    | ok r ↦ passed_on r.0 (decode_loop fuel r.1)
  ]
