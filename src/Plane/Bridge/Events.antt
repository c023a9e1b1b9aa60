-- ===== src/Plane/Bridge/Events.antt =====
-- bridge.py: the events of a trace, and those of the kernel. The classes of axor_core are given by the
-- fields that the bridge reads and writes.
use axor_wrap.Base.{ℤ, String, Option, List}
use axor_wrap.Base.Dict.{Dict}
use axor_wrap.Value.{Value}

-- An element of the enumeration `DegradationLevel`, by its name, or any other value.
pub data Level : Type 0 where
  member : String → Level
  raw : Value → Level

-- The kinds that the bridge tests for, and the others.
pub data TraceEventKind : Type 0 where
  child_spawned_kind child_stale_kind child_completed intent_approved intent_transformed
        other_kind :
      TraceEventKind

-- The class of an event, with the fields that it adds.
pub data Detail : Type 0 where
  intent_denied : String → String → Detail
  degradation_transition : Value → String → Level → Level → Detail
  source_quarantined : Value → String → Detail
  taint_propagated : Detail
  suspicious_intent : String → Value → List Value → String → Detail
  child_spawned : Value → Value → Detail
  child_stale : Value → Detail
  cancelled : String → String → Detail
  no_class : Detail

pub record TraceEvent : Type 0 where
  pub node_id : String
  pub sequence : ℤ
  pub kind : TraceEventKind
  pub payload : Dict Value
  pub detail : Detail

pub data EventKind : Type 0 where
  tool_call tool_result denial fact gate_eval node_spawned message_received operator_intervention :
      EventKind

pub data Verdict : Type 0 where
  pass deny : Verdict

pub record Event : Type 0 where
  pub seq : ℤ
  pub node_id : String
  pub kind : EventKind
  pub ts : String
  pub causal_root : Value
  pub gate : Option String
  pub verdict : Option Verdict
  pub payload : Dict Value
