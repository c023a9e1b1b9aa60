-- ===== src/Plane/Session/Wire.antt =====
-- `apply_delta` and `apply_snapshot` of what a message of the plane holds, which may have any shape: a
-- state that is no dict, commands that are no list, an operator, a timestamp or a signature that is
-- no text. Each is met where the session first uses it, so a stale or a stopped session never looks
-- at a state, and one without operator keys never looks at a signature.
pub mod Lattice
pub mod Shaped
use axor_wrap.Base.{
  ℕ, ℤ, String, ◌<>◌, Bool, true, false, ◌||◌, Option, none, some, List, [], ◌∷◌, ◌==◌, leb_ℤ,
  if◌then◌else◌,
}
use axor_wrap.Base.Dict.{Dict, lookup}
use axor_wrap.Base.Text.{codes}
use axor_wrap.Errors.{Error, Result, ok, err, type_error, attribute_error, ◌>>=◌}
use axor_wrap.Errors.Exec.{Exec}
use axor_wrap.Value.{Value, null, bool, int, str, arr, obj, end, field, entries, elements, iterate}
use axor_wrap.Value.Show.{repr}
use axor_wrap.Plane.Kernel.{Kernel}
use axor_wrap.Plane.Bridge.Labels.{occurs}
use axor_wrap.Plane.Session.State.{PlaneSession, AppliedEffect}
use axor_wrap.Plane.Session.Apply.{apply}
use axor_wrap.Plane.Session.Verify.{Command, verify_ed25519, from_hex, invalid, refuse}
use axor_wrap.Plane.Session.Snapshot.{
  Checked, refused, passed, check_commands, check_state, conclude,
}

-- A pushed command as it comes from the wire.
pub record Delivery : Type 0 where
  pub version : ℤ
  pub delta : Value
  pub operator : Value
  pub timestamp : Value
  pub sig : Value

-- `key in state` for a list
abbrev has_text : String → List Value → Bool
has_text key [] = false
has_text key (str s ∷ vs) = (key == s) || has_text key vs
has_text key (v ∷ vs) = has_text key vs

abbrev type_error_if : Bool → Error
type_error_if true = type_error
type_error_if false = attribute_error

-- The error of a state that is no dict: `in` fails for a value that is no container; `state[key]` fails
-- where the key is found in a text or a list, and `state.get` where none is.
misread : Value → Error
unfolding elements occurs
misread (str s) =
    type_error_if (occurs "stopped" s || (occurs "paused" s || occurs "budget_cap_calls" s))
misread (arr vs) =
    let found = λ (key : String). has_text key (elements vs) in
    type_error_if (found "stopped" || (found "paused" || found "budget_cap_calls"))
misread v = type_error

-- The version is taken before the state is looked at.
misapply : ℤ → Value → Exec PlaneSession AppliedEffect
unfolding apply misread
misapply version v s =
    if leb_ℤ version s.applied_version || s.stopped
    then apply version [] s
    else (err (misread v), record s { applied_version = version })

-- `_apply` of a value
unfoldable pub apply_value : ℤ → Value → Exec PlaneSession AppliedEffect
unfolding apply entries misapply
apply_value version (obj fs) = apply version (entries fs)
apply_value version v = misapply version v

-- `self.operator_pubkeys.get(operator)`: a list or a dict is no key
pubkey_of : Dict String → Value → Result (Option String)
unfolding lookup
pubkey_of keys (str operator) = ok (lookup operator keys)
pubkey_of keys (arr vs) = err type_error
pubkey_of keys (obj fs) = err type_error
pubkey_of keys v = ok none

module _ (kernel : Kernel) where
  abbrev is_key : Option (List ℕ) → Bool
  is_key none = false
  is_key (some key) = kernel.is_public_key key

  -- `_verify_ed25519`: the key is read before the signature.
  sig_verifies : String → List ℕ → Value → Result Bool
  unfolding verify_ed25519 from_hex
  sig_verifies pubkey message (str sig) = ok (verify_ed25519 kernel pubkey message sig)
  sig_verifies pubkey message sig =
      if is_key (from_hex (codes pubkey)) then err type_error else ok false

  signed_with : Option String → List ℕ → Value → Result Bool
  unfolding sig_verifies
  signed_with none message sig = ok false
  signed_with (some pubkey) message sig = sig_verifies pubkey message sig

  wire_message : PlaneSession → Delivery → List ℕ
  wire_message s d = kernel.canonicalize (
      obj (
        field "node_id" (str s.node_id) (
          field "version" (int d.version)
            (field "body" d.delta (field "timestamp" d.timestamp end)))))

  check_signature : PlaneSession → Delivery → Result (Option AppliedEffect)
  unfolding pubkey_of signed_with wire_message repr
  check_signature s d = do
    pubkey ← pubkey_of s.operator_pubkeys d.operator
    good ← signed_with pubkey (wire_message s d) d.sig
    ok (if good then none else some (invalid ("operator=" <> repr d.operator)))

  -- `_verify` of values
  verify_delivery : PlaneSession → Delivery → Result (Option AppliedEffect)
  unfolding check_signature
  verify_delivery s d = elim s.operator_pubkeys [ [] ↦ ok none | k ∷ ks ↦ check_signature s d ]

  verified : Delivery → Result (Option AppliedEffect) → Exec PlaneSession AppliedEffect
  unfolding apply_value refuse
  verified d (err e) s = (err e, s)
  verified d (ok none) s = apply_value d.version d.delta s
  verified d (ok (some rejected)) s = refuse kernel rejected d.version s

  -- `apply_delta`
  unfoldable pub apply_delivery : Delivery → Exec PlaneSession AppliedEffect
  unfolding verified verify_delivery
  apply_delivery d s = verified d (verify_delivery s d) s

  -- The commands are checked before the state's items are read.
  conclude_value : ℤ → Value → Checked (List Command) → Exec PlaneSession AppliedEffect
  unfolding refuse conclude check_state entries
  conclude_value version (obj fs) checked s =
      conclude kernel version (check_state kernel (entries fs) checked) s
  conclude_value version v (refused e) s = refuse kernel e version s
  conclude_value version v (passed cs) s = (err attribute_error, s)

  check_listed : ℤ → Value → Option (List Value) → Exec PlaneSession AppliedEffect
  unfolding check_commands conclude_value
  check_listed version state none s = (err type_error, s)
  check_listed version state (some vs) s =
      conclude_value version state (check_commands kernel s vs) s

  -- `apply_snapshot`
  unfoldable pub apply_snapshot_values : ℤ → Value → Value → Exec PlaneSession AppliedEffect
  unfolding apply_value check_listed iterate
  apply_snapshot_values version state commands s = elim s.operator_pubkeys [
    | [] ↦ apply_value version state s
    | k ∷ ks ↦ check_listed version state (iterate commands) s
  ]
