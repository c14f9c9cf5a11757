-- ===== src/Prelude/Errors.antt =====
-- The exceptions of the modelled code as values. Messages are left out.
use mathlib.Core.Bool.{Bool, true, false}

-- What a call returns, or the exception that leaves it: wreport::error_consistency,
-- wreport::error_notfound, std::runtime_error, wreport::error_toolong or wreport::error_parse
pub data Error : Type 0 where
  consistency : Error
  notfound : Error
  runtime : Error
  toolong : Error
  parse : Error

pub data Result {ℓ} (Value : Type ℓ) : Type ℓ where
  err : Error → Result Value
  ok : Value → Result Value

-- An exception skips the statements that follow.
infixl 10 ◌>>=◌ ◌>>◌
abbrev pub ◌>>=◌ {ℓ κ} :
    {First : Type ℓ} {Next : Type κ} → Result First → (First → Result Next) → Result Next
err thrown >>= next = err thrown
ok returned >>= next = next returned

abbrev pub ◌>>◌ {ℓ} : {Next : Type ℓ} → Result (Unit {0}) → Result Next → Result Next
err thrown >> next = err thrown
ok returned >> next = next

-- `if (bad) throw e;`
abbrev pub throw_if : Bool → Error → Result (Unit {0})
throw_if bad e = elim bad [ true ↦ err e | false ↦ ok tt ]
