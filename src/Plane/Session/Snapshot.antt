-- ===== src/Plane/Session/Snapshot.antt =====
-- `PlaneSession.apply_snapshot`.
pub mod Lattice
pub mod Outbox
pub mod Sorted
pub mod Deltas
pub mod Authentic
pub mod Absorb
use axor_wrap.Base.{
  ℤ, String, ◌<>◌, Bool, true, false, Option, none, some, List, [], ◌∷◌, leb_ℤ, max_ℤ,
  if◌then◌else◌,
}
use axor_wrap.Base.Dict.{Dict, lookup, update}
use axor_wrap.Base.Text.{repr}
use axor_wrap.Errors.{Result, ok, err}
use axor_wrap.Errors.Exec.{Exec, pure, modify, ◌>>=◌, ◌>>◌}
use axor_wrap.Value.{Value}
use axor_wrap.Value.Equality.{value_eq}
use axor_wrap.Plane.Kernel.{Kernel}
use axor_wrap.Plane.Session.State.{PlaneSession, AppliedEffect}
use axor_wrap.Plane.Session.Apply.{apply, applied_effect}
use axor_wrap.Plane.Session.Verify.{Command, read_command, verify, refuse, invalid, malformed}

-- What the checks before the replay find: the effect with which the snapshot is refused, or what
-- they pass on.
pub data Checked {ℓ} (A : Type ℓ) : Type ℓ where
  refused : AppliedEffect → Checked A
  passed : A → Checked A

abbrev pub also : Command → Checked (List Command) → Checked (List Command)
also c (refused e) = refused e
also c (passed cs) = passed (c ∷ cs)

-- `verified.sort(key=version)`: stable
insert_sorted : Command → List Command → List Command
insert_sorted c [] = c ∷ []
insert_sorted c (d ∷ ds) = if leb_ℤ c.version d.version then c ∷ d ∷ ds else d ∷ insert_sorted c ds

sort : List Command → List Command
unfolding insert_sorted
sort [] = []
sort (c ∷ cs) = insert_sorted c (sort cs)

-- `signed_values`
signed_values : Dict Value → List Command → Dict Value
unfolding update
signed_values acc [] = acc
signed_values acc (c ∷ cs) = signed_values (update acc c.delta) cs

abbrev unsigned : String → AppliedEffect
unsigned key = invalid ("unsigned state key " <> repr key)

abbrev mismatch : String → AppliedEffect
mismatch key = invalid ("state key " <> (repr key <> " is not what was signed"))

-- One key of the state against what was signed; `none` if it agrees.
check_key : Dict Value → String → Value → Option AppliedEffect
unfolding lookup value_eq
check_key signed key value = elim (lookup key signed) [
  | none ↦ some (unsigned key)
  | some v ↦ if value_eq v value then none else some (mismatch key)
]

check_keys : Dict Value → Dict Value → Option AppliedEffect
unfolding check_key
check_keys signed [] = none
check_keys signed ((key, value) ∷ state) = elim (check_key signed key value) [
  | none ↦ check_keys signed state
  | some effect ↦ some effect
]

-- The loop over the verified commands.
unfoldable pub replay : List Command → AppliedEffect → Exec PlaneSession AppliedEffect
replay [] last s = (ok last, s)
replay (c ∷ cs) last s = elim (leb_ℤ c.version s.applied_version) [
  | true ↦ replay cs last s
  | false ↦ (apply c.version c.delta >>= replay cs) s
]

abbrev pub raise_version : ℤ → PlaneSession → PlaneSession
raise_version version s = record s { applied_version = max_ℤ s.applied_version version }

replay_all : ℤ → List Command → Exec PlaneSession AppliedEffect
unfolding replay
replay_all version cs = do
  effect ← replay cs applied_effect
  modify (raise_version version)
  pure effect

module _ (kernel : Kernel) where
  check_entry : PlaneSession → Value → Checked Command
  unfolding read_command verify
  check_entry s v = elim (read_command v) [
    | none ↦ refused malformed
    | some c ↦ elim (verify kernel s c) [ none ↦ passed c | some e ↦ refused e ]
  ]

  -- The loop over `commands`.
  unfoldable pub check_commands : PlaneSession → List Value → Checked (List Command)
  unfolding check_entry
  check_commands s [] = passed []
  check_commands s (v ∷ vs) = elim (check_entry s v) [
    | refused e ↦ refused e
    | passed c ↦ also c (check_commands s vs)
  ]

  -- The check of the state's keys: the commands to replay, in the order of their versions.
  unfoldable pub check_state : Dict Value → Checked (List Command) → Checked (List Command)
  unfolding sort signed_values check_keys
  check_state state (refused e) = refused e
  check_state state (passed cs) = elim (check_keys (signed_values [] (sort cs)) state) [
    | none ↦ passed (sort cs)
    | some e ↦ refused e
  ]

  unfoldable pub conclude : ℤ → Checked (List Command) → Exec PlaneSession AppliedEffect
  unfolding refuse replay_all
  conclude version (refused e) = refuse kernel e version
  conclude version (passed cs) = replay_all version cs

  unfoldable pub apply_snapshot : ℤ → Dict Value → List Value → Exec PlaneSession AppliedEffect
  unfolding apply check_commands check_state conclude
  apply_snapshot version state commands s = elim s.operator_pubkeys [
    | [] ↦ apply version state s
    | k ∷ ks ↦ conclude version (check_state state (check_commands s commands)) s
  ]
