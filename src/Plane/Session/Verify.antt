-- ===== src/Plane/Session/Verify.antt =====
-- `_verify`, `_verify_ed25519`, `_canonical`, `apply_delta` and `apply_snapshot`.
use axor_wrap.Base.{
  ℕ, ◌+◌, ◌-◌, ◌*◌, ℤ, String, ◌<>◌, Bool, false, ◌&&◌, ◌||◌, Option, none, some, List, [], ◌∷◌,
  leb, nat_eq, if◌then◌else◌,
}
use axor_wrap.Base.Dict.{Dict, lookup}
use axor_wrap.Base.Text.{codes, repr}
use axor_wrap.Errors.{ok, err}
use axor_wrap.Errors.Exec.{Exec}
use axor_wrap.Value.{Value, int, str, obj, end, field, fields, entries, to_int, to_dict}
use axor_wrap.Plane.Kernel.{Kernel}
use axor_wrap.Plane.Session.State.{PlaneSession, AppliedEffect, sig_invalid, report}
use axor_wrap.Plane.Session.Apply.{apply}

hex_digit : ℕ → Option ℕ
hex_digit c =
    if leb 48 c && leb c 57
    then some (c - 48)
    else if leb 97 c && leb c 102
    then some (c - 87)
    else if leb 65 c && leb c 70
    then some (c - 55)
    else none

abbrev is_space : ℕ → Bool
is_space c = nat_eq c 32 || (leb 9 c && leb c 13)

-- the byte of two digits, before the bytes that follow
hex_byte : Option ℕ → Option ℕ → Option (List ℕ) → Option (List ℕ)
hex_byte (some a) (some b) (some rest) = some ((a * 16 + b) ∷ rest)
hex_byte a b rest = none

-- `bytes.fromhex(s)`: two digits a byte, white space allowed between bytes; `none` is a `ValueError`.
unfoldable pub from_hex : List ℕ → Option (List ℕ)
unfolding hex_byte hex_digit
from_hex [] = some []
from_hex (a ∷ []) = if is_space a then some [] else none
from_hex (a ∷ b ∷ s) =
    let after_space = from_hex (b ∷ s) in
    let after_byte = hex_byte (hex_digit a) (hex_digit b) (from_hex s) in
    if is_space a then after_space else after_byte

-- A command of a snapshot, once it is known to have the shape of one.
pub record Command : Type 0 where
  pub version : ℤ
  pub delta : Dict Value
  pub operator : String
  pub timestamp : String
  pub sig : String

abbrev text_value : Option Value → Option String
text_value (some (str s)) = some s
text_value v = none

read_version : Option Value → Option ℤ
unfolding to_int
read_version none = none
read_version (some v) = elim (to_int v) [ ok n ↦ some n | err e ↦ none ]

read_delta : Option Value → Option (Dict Value)
unfolding to_dict
read_delta none = none
read_delta (some v) = to_dict v

command_of :
    Option ℤ → Option (Dict Value) → Option String → Option String → Option String → Option Command
command_of (some v) (some d) (some o) (some t) (some s) =
    some (record { version = v; delta = d; operator = o; timestamp = t; sig = s })
command_of v d o t s = none

-- The `try` of the loop over `commands`, and the test of the three texts.
unfoldable pub read_command : Value → Option Command
unfolding read_version read_delta command_of lookup entries
read_command (obj fs) =
    let get = λ (k : String). lookup k (entries fs) in
    command_of (read_version (get "version")) (read_delta (get "delta"))
      (text_value (get "operator")) (text_value (get "timestamp")) (text_value (get "sig"))
read_command v = none

abbrev pub invalid : String → AppliedEffect
invalid detail = record { kind = sig_invalid; detail = detail }

abbrev pub malformed : AppliedEffect
malformed = invalid "malformed command entry"

module _ (kernel : Kernel) where
  verify_hex : Option (List ℕ) → Option (List ℕ) → List ℕ → Bool
  verify_hex (some key) (some sig) message = kernel.verify key sig message
  verify_hex key sig message = false

  unfoldable pub verify_ed25519 : String → List ℕ → String → Bool
  unfolding verify_hex from_hex
  verify_ed25519 pubkey_hex message sig_hex =
      verify_hex (from_hex (codes pubkey_hex)) (from_hex (codes sig_hex)) message

  -- the bytes that an operator signs
  unfoldable pub message : PlaneSession → ℤ → Dict Value → String → List ℕ
  unfolding fields
  message s version body timestamp = kernel.canonicalize (
      obj (
        field "node_id" (str s.node_id) (
          field "version" (int version)
            (field "body" (obj (fields body)) (field "timestamp" (str timestamp) end)))))

  unfoldable pub signed_by : Option String → PlaneSession → Command → Bool
  unfolding verify_ed25519 message
  signed_by none s c = false
  signed_by (some pubkey) s c =
      verify_ed25519 pubkey (message s c.version c.delta c.timestamp) c.sig

  unfoldable pub verify : PlaneSession → Command → Option AppliedEffect
  unfolding signed_by lookup
  verify s c = elim s.operator_pubkeys [
    | [] ↦ none
    | k ∷ ks ↦
        if signed_by (lookup c.operator s.operator_pubkeys) s c
        then none
        else some (invalid ("operator=" <> repr c.operator))
  ]

  unfoldable pub refuse : AppliedEffect → ℤ → Exec PlaneSession AppliedEffect
  unfolding report
  refuse effect version s = (ok effect, report effect version s)

  unfoldable pub apply_delta : Command → Exec PlaneSession AppliedEffect
  unfolding verify refuse apply
  apply_delta c s = elim (verify s c) [
    | none ↦ apply c.version c.delta s
    | some rejected ↦ refuse rejected c.version s
  ]
