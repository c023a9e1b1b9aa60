-- ===== src/Plane/Session/State.antt =====
-- The class `PlaneSession`, `AppliedEffect` and `_report`.
use axor_wrap.Base.{ℤ, pos, String, Bool, true, false, not, ◌||◌, Option, none, List, [], ◌∷◌, ◌++◌}
use axor_wrap.Base.Dict.{Dict}
use axor_wrap.Value.{Value, int, str, obj, end, field}
use axor_wrap.Plane.Kernel.{Injection, Excision}

pub data EffectKind : Type 0 where
  applied noop_absorbed noop_stale rejected_widening sig_invalid : EffectKind

pub record AppliedEffect : Type 0 where
  pub kind : EffectKind
  pub detail : String

abbrev pub kind_text : EffectKind → String
kind_text applied = "applied"
kind_text noop_absorbed = "noop_absorbed"
kind_text noop_stale = "noop_stale"
kind_text rejected_widening = "rejected_widening"
kind_text sig_invalid = "sig_invalid"

-- The dict that `_apply` builds for a replan.
pub record Replan : Type 0 where
  pub id : String
  pub reason : String
  pub operator : String

-- A message for the plane: a dict with the keys `kind` and `payload`.
pub record Event : Type 0 where
  pub kind : String
  pub payload : Value

pub record PlaneSession : Type 0 where
  pub node_id : String
  pub operator_pubkeys : Dict String
  pub test_bench : Bool
  pub local_budget_cap : Option ℤ
  pub applied_version : ℤ
  pub paused : Bool
  pub stopped : Bool
  pub budget_cap_calls : Option ℤ
  pub pending_injection : Option Injection
  pub pending_excision : Option Excision
  pub pending_replan : Option Replan
  pub consumed_ids : List String
  pub outbox : List Event

-- The constructor with its defaults, and `__post_init__`.
abbrev pub new_session : String → Dict String → Bool → Option ℤ → PlaneSession
new_session node_id operator_pubkeys test_bench local_budget_cap = record {
  node_id = node_id;
  operator_pubkeys = operator_pubkeys;
  test_bench = test_bench;
  local_budget_cap = local_budget_cap;
  applied_version = pos 0;
  paused = false;
  stopped = false;
  budget_cap_calls = local_budget_cap;
  pending_injection = none;
  pending_excision = none;
  pending_replan = none;
  consumed_ids = [];
  outbox = [];
}

unfoldable pub emit : String → Value → PlaneSession → PlaneSession
emit kind payload s = record s {
  outbox = s.outbox ++ record { kind = kind; payload = payload } ∷ [];
}

abbrev pub is_applied : EffectKind → Bool
is_applied applied = true
is_applied _ = false

unfoldable pub report : AppliedEffect → ℤ → PlaneSession → PlaneSession
unfolding emit
report effect version s = elim (is_applied effect.kind) [
  | true ↦ s
  | false ↦
      emit "state_applied"
        (obj (
          field "version" (int version) (
            field "result" (str (kind_text effect.kind)) (field "detail" (str effect.detail) end))))
        s
]

-- Polled at the boundary between two intents.
unfoldable pub admit_intent : PlaneSession → Bool
admit_intent s = not (s.paused || s.stopped)
