-- ===== src/Errors.antt =====
-- axor_wrap/errors.py: the errors as values, and code that may raise.
pub mod Exec
use axor_wrap.Base.{ℕ, String, Bool, true, false, List, ◌≡◌, refl, arith}

-- Python's own errors, then those of errors.py with their fields. `tool_raised` is what a tool's
-- function raises by itself, `transport` what Python's HTTP client raises besides its
-- `URLError`: a `TimeoutError` or an error of http.client.
pub data Error : Type 0 where
  type_error value_error key_error attribute_error index_error : Error
  scan_error : String → Error
  manifest_validation : String → List String → Error
  kernel_not_installed plane_extra_not_installed : Error
  unknown_tool : String → List String → Error
  tool_denied : String → String → Error
  connector : ℕ → String → Error
  transport : String → Error
  admission_held : String → Error
  assignment : String → Error
  trace_build : String → Error
  tool_raised : String → Error

-- What a call of a function gives: a value, or the error that it raises.
pub data Result {ℓ} (A : Type ℓ) : Type ℓ where
  err : Error → Result A
  ok : A → Result A

module _ {ℓ κ} {A : Type ℓ} {B : Type κ} where
  infixl 5 ◌>>=◌
  abbrev pub ◌>>=◌ : Result A → (A → Result B) → Result B
  err e >>= next = err e
  ok a >>= next = next a

  -- A call that gives a value: so does its first step.
  pub bind-ok :
      (m : Result A) (next : A → Result B) (b : B)
      → (m >>= next) ≡ ok b
      → (a : A) × (m ≡ ok a) × (next a ≡ ok b)
  bind-ok (err e) next b h = ground arith
  bind-ok (ok a) next b h = (a, refl, h)

pub ok_inj {ℓ} : {A : Type ℓ} (a b : A) → ok a ≡ ok b → a ≡ b
ok_inj a b h = cc
