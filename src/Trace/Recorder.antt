-- ===== src/Trace/Recorder.antt =====
-- trace.py: `RecordedCall` and `SessionRecorder`.
use axor_wrap.Base.{
  ℕ, zero, suc, String, Bool, true, false, ◌||◌, List, [], ◌∷◌, ◌++◌, ◌==◌, length, if◌then◌else◌,
}
use axor_wrap.Base.Dict.{Dict}
use axor_wrap.Errors.{Result, ok, err, value_error}
use axor_wrap.Value.{Value, null}

pub record RecordedCall : Type 0 where
  pub tool : String
  pub args : Dict Value
  pub executed : Bool
  pub result : Value

abbrev pub every_intent : String
every_intent = "every_intent"

abbrev pub executions_only : String
executions_only = "executions_only"

pub record SessionRecorder : Type 0 where
  pub calls : List RecordedCall
  pub observes : String

abbrev pub known_position : String → Bool
known_position observes = (observes == every_intent) || (observes == executions_only)

abbrev pub new_recorder : String → Result SessionRecorder
new_recorder observes =
    if known_position observes
    then ok (record { calls = []; observes = observes })
    else err value_error

-- The recorder that a toolset makes for itself.
abbrev pub session_recorder : SessionRecorder
session_recorder = record { calls = []; observes = every_intent }

-- `evaluated`; the call that it returns is the one at the index.
abbrev pub evaluated : String → Dict Value → SessionRecorder → ℕ × SessionRecorder
evaluated tool args r = (
  length r.calls,
  record r {
    calls = r.calls ++ record { tool = tool; args = args; executed = false; result = null } ∷ [];
  },
)

abbrev pub clear : SessionRecorder → SessionRecorder
clear r = record r { calls = [] }

-- `call.executed, call.result = True, output`
abbrev pub executed_call : Value → RecordedCall → RecordedCall
executed_call output c = record c { executed = true; result = output }

unfoldable pub mark_at : ℕ → Value → List RecordedCall → List RecordedCall
mark_at i output [] = []
mark_at zero output (c ∷ cs) = executed_call output c ∷ cs
mark_at (suc i) output (c ∷ cs) = c ∷ mark_at i output cs

abbrev pub mark : ℕ → Value → SessionRecorder → SessionRecorder
mark i output r = record r { calls = mark_at i output r.calls }
