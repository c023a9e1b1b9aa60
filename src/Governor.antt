-- ===== src/Governor.antt =====
-- What runtime.py and trace.py take from axor_core: the governor that judges a tool call, its trace
-- events, and the canonical form of a value.
use axor_wrap.Base.{ℕ, String, Bool, List, Option}
use axor_wrap.Base.Dict.{Dict}
use axor_wrap.Errors.Exec.{Exec}
use axor_wrap.Value.{Value}

pub record Governor : Type 1 where
  -- the object, with its taint ledger
  pub State : Type 0
  pub Decision : Type 0
  pub Event : Type 0
  pub evaluate : String → Dict Value → Exec State Decision
  pub register_output : Decision → Value → Exec State (Unit {0})
  pub allowed : Decision → Bool
  pub reason : Decision → String
  pub category : Decision → String
  pub trace_events : State → List Event
  -- the value of an event's kind, its payload (empty if it has none) and its reason
  pub kind : Event → String
  pub payload : Event → Dict Value
  pub event_reason : Event → Option Value
  -- the values of TraceEventKind.INTENT_APPROVED, INTENT_TRANSFORMED and INTENT_DENIED
  pub intent_approved : String
  pub intent_transformed : String
  pub intent_denied : String
  pub gate_of : String → String
  pub canonicalize : Value → List ℕ
  pub sha256_hex : List ℕ → String
