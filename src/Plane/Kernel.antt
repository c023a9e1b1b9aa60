-- ===== src/Plane/Kernel.antt =====
-- What plane/session.py takes from axor_core and from `cryptography`: the two message types of
-- `axor_core.kernel.state`, by the fields that the session gives and reads, and the functions that it
-- calls, as parameters.
use axor_wrap.Base.{ℕ, String, Bool, List}
use axor_wrap.Base.Dict.{Dict}
use axor_wrap.Value.{Value}

pub record Injection : Type 0 where
  pub injection_id : String
  pub text : String
  pub reason : String
  pub operator : String
  pub sig : String

pub record Excision : Type 0 where
  pub excision_id : String
  pub target_refs : List Value
  pub reason : String
  pub operator : String
  pub sig : String

pub record Kernel : Type 0 where
  -- `axor_core.kernel.jcs.canonicalize`
  pub canonicalize : Value → List ℕ
  -- `Ed25519PublicKey.from_public_bytes(key).verify(sig, message)`: false where it raises
  -- `InvalidSignature` or `ValueError`
  pub verify : List ℕ → List ℕ → List ℕ → Bool
  -- `Ed25519PublicKey.from_public_bytes(key)` returns; otherwise it raises a `ValueError`
  pub is_public_key : List ℕ → Bool
  -- `axor_core.kernel.state.excision_refused_refs`
  pub excision_refused_refs : Excision → Dict String → List Value
