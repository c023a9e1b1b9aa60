-- ===== src/Plane/Bridge/Translate.antt =====
-- bridge.py: `trace_event_to_kernel`, `_gate_of` and `trace_to_kernel`.
pub mod Denials
pub mod Order
use axor_wrap.Base.{
  ℤ, pos, String, ◌<>◌, Bool, true, false, not, ◌&&◌, ◌||◌, Option, none, some, List, [], ◌∷◌, ◌==◌,
  if◌then◌else◌,
}
use axor_wrap.Base.Dict.{Dict, lookup, insert}
use axor_wrap.Base.Text.{empty, decimal_ℤ, lower, strip_prefix}
use axor_wrap.Value.{Value, null, int, str, arr, of_dict, of_list, truthy, items}
use axor_wrap.Value.Show.{show}
use axor_wrap.Plane.Bridge.Events.{
  TraceEventKind, child_spawned_kind, child_stale_kind, child_completed, intent_approved,
  intent_transformed, other_kind, Detail, intent_denied, degradation_transition, source_quarantined,
  taint_propagated, suspicious_intent, child_spawned, child_stale, cancelled, no_class, TraceEvent,
  EventKind, tool_call, tool_result, denial, fact, gate_eval, node_spawned, message_received,
  operator_intervention, Verdict, pass, deny, Event, Level, member, raw,
}
use axor_wrap.Plane.Bridge.Labels.{
  level_name, severity, stamp, occurs, denial_category, known_gate, category_of,
}

-- An event without what only some have.
abbrev pub base_event : TraceEvent → String → EventKind → Dict Value → Event
unfolding stamp
base_event event nid kind payload = record {
  seq = event.sequence;
  node_id = nid;
  kind = kind;
  ts = stamp event.sequence;
  causal_root = null;
  gate = none;
  verdict = none;
  payload = payload;
}

unfoldable pub numbered : String → TraceEvent → Value
unfolding decimal_ℤ
numbered prefix event = str (prefix <> decimal_ℤ event.sequence)

abbrev or_value : Value → Option Value → Value
or_value default none = default
or_value default (some v) = v

-- `payload.get(k, default)`
field_or : Value → String → Dict Value → Value
unfolding lookup
field_or default k payload = or_value default (lookup k payload)

-- `asdict(event).get("child_node_id")`, `asdict(event).get("child_depth")`
abbrev child_field : Detail → Option Value
child_field (child_spawned id depth) = some id
child_field (child_stale id) = some id
child_field other = none

abbrev depth_field : Detail → Option Value
depth_field (child_spawned id depth) = some depth
depth_field other = none

abbrev or_recorded : Option Value → Value → Value
unfolding truthy
or_recorded none v = v
or_recorded (some own) v = if truthy own then own else v

child_id : TraceEvent → Value
unfolding truthy field_or
child_id event =
    or_recorded (child_field event.detail) (field_or (str "") "child_node_id" event.payload)

spawned : TraceEvent → String → Event
unfolding child_id field_or stamp
spawned event nid = base_event event nid node_spawned (
    ("child_id", child_id event)
    ∷ ("parent_id", str nid)
    ∷ (
      "depth",
      or_value (field_or (int (pos 0)) "child_depth" event.payload) (depth_field event.detail),
    )
    ∷ ("edge_kind", str "delegation")
    ∷ [])

stale : TraceEvent → String → Event
unfolding child_id field_or stamp severity
stale event nid = base_event event nid fact (
    ("fact_id", numbered "stale_" event)
    ∷ ("fact_type", str "node_stale")
    ∷ ("severity", int (severity "CAUTIOUS"))
    ∷ ("reason", field_or (str "child died without returning") "error" event.payload)
    ∷ ("child_id", child_id event)
    ∷ [])

completed : TraceEvent → String → Event
unfolding field_or stamp
completed event nid =
    record (base_event event nid message_received (
      ("from", field_or (str "") "child_node_id" event.payload)
      ∷ ("edge_kind", str "delegation")
      ∷ ("msg_id", numbered "ret_" event)
      ∷ ("value_ref", field_or null "value_ref" event.payload)
      ∷ ("carried", field_or (of_dict []) "carried" event.payload)
      ∷ [])) { causal_root = field_or null "value_ref" event.payload }

transition : TraceEvent → String → Value → String → Level → Level → Event
unfolding stamp severity level_name
transition event nid source reason new previous =
    record (base_event event nid fact (
      ("fact_id", numbered "deg_" event)
      ∷ ("fact_type", str "degradation_transition")
      ∷ ("severity", int (severity (level_name new)))
      ∷ ("reason", str reason)
      ∷ ("new_level", str (level_name new))
      ∷ ("previous_level", str (level_name previous))
      ∷ [])) { causal_root = source }

quarantined : TraceEvent → String → Value → String → Event
unfolding stamp severity
quarantined event nid source reason =
    record (base_event event nid fact (
      ("fact_id", numbered "quar_" event)
      ∷ ("fact_type", str "source_quarantined")
      ∷ ("severity", int (severity "RESTRICTED"))
      ∷ ("reason", str reason)
      ∷ [])) { causal_root = source }

propagated : TraceEvent → String → Event
unfolding field_or stamp
propagated event nid = record (base_event event nid tool_result event.payload) {
  causal_root = field_or null "value_ref" event.payload;
}

suspicious : TraceEvent → String → String → Value → List Value → Bool → Event
unfolding stamp items
suspicious event nid tool score reasons denied =
    record (base_event event nid (if denied then denial else gate_eval)
      (("tool", str tool) ∷ ("score", score) ∷ ("reasons", of_list reasons) ∷ [])) {
        gate = some "anomaly";
        verdict = some (if denied then deny else pass);
      }

approved : TraceEvent → String → Event
unfolding stamp
approved event nid = record (base_event event nid tool_call event.payload) { verdict = some pass }

-- The last test, of intent_approved and intent_transformed.
abbrev if_approved : TraceEvent → String → TraceEventKind → Option Event
unfolding approved stamp
if_approved event nid intent_approved = some (approved event nid)
if_approved event nid intent_transformed = some (approved event nid)
if_approved event nid kind = none

-- What is left after the tests of the classes and of child_spawned_kind, child_stale_kind and child_completed.
abbrev rest_of : TraceEvent → String → Detail → TraceEventKind → Option Event
unfolding stamp approved occurs
rest_of event nid (cancelled reason detail) kind =
    if occurs "control plane" detail
    then some (
        base_event event nid operator_intervention
          (("reason", str reason) ∷ ("detail", str detail) ∷ []))
    else none
rest_of event nid other kind = if_approved event nid kind

abbrev is_spawn : Detail → TraceEventKind → Bool
is_spawn (child_spawned id depth) kind = true
is_spawn other child_spawned_kind = true
is_spawn other kind = false

abbrev is_stale : Detail → TraceEventKind → Bool
is_stale (child_stale id) kind = true
is_stale other child_stale_kind = true
is_stale other kind = false

abbrev is_completed : TraceEventKind → Bool
is_completed child_completed = true
is_completed kind = false

-- The tests from `ChildSpawnedEvent` on.
unfoldable pub by_kind : TraceEvent → String → Option Event
unfolding spawned stale completed approved stamp occurs
by_kind event nid =
    if is_spawn event.detail event.kind
    then some (spawned event nid)
    else if is_stale event.detail event.kind
    then some (stale event nid)
    else if is_completed event.kind
    then some (completed event nid)
    else rest_of event nid event.detail event.kind

-- `node_id or event.node_id`
abbrev pub node_or : Option String → String → String
node_or none own = own
node_or (some id) own = if empty id then own else id

-- `gate_of_category` is the table `GATE_OF_CATEGORY` of axor_core.governor.
module _ (gate_of_category : Dict String) where
  unfoldable pub gate_of : String → String
  unfolding lookup
  gate_of category = known_gate category (lookup category gate_of_category)

  unfoldable pub denied : TraceEvent → String → String → String → Event
  unfolding gate_of denial_category insert stamp
  denied event nid reason intent_kind =
      let category = denial_category event.payload reason in
      let payload = insert "reason" (str reason) event.payload in
      if intent_kind == "tool_call"
      then record (base_event event nid tool_call payload) {
        gate = some (gate_of category);
        verdict = some deny;
      }
      else record (base_event event nid denial
          (insert "intent_kind" (str intent_kind) (insert "category" (str category) payload))) {
            gate = some (gate_of category);
            verdict = some deny;
          }

  by_class : TraceEvent → String → Detail → Option Event
  unfolding denied transition quarantined propagated suspicious by_kind
  by_class event nid (intent_denied reason intent_kind) = some (denied event nid reason intent_kind)
  by_class event nid (degradation_transition source reason new previous) =
      some (transition event nid source reason new previous)
  by_class event nid (source_quarantined source reason) = some (quarantined event nid source reason)
  by_class event nid taint_propagated = some (propagated event nid)
  by_class event nid (suspicious_intent tool score reasons action) =
      some (suspicious event nid tool score reasons (action == "denied"))
  by_class event nid other = by_kind event nid

  -- `trace_event_to_kernel`
  unfoldable pub trace_event_to_kernel : Option String → TraceEvent → Option Event
  unfolding by_class
  trace_event_to_kernel node_id event = by_class event (node_or node_id event.node_id) event.detail

  abbrev pub also : Option Event → List Event → List Event
  also none out = out
  also (some event) out = event ∷ out

  unfoldable pub trace_to_kernel : Option String → List TraceEvent → List Event
  unfolding trace_event_to_kernel
  trace_to_kernel node_id [] = []
  trace_to_kernel node_id (event ∷ events) =
      also (trace_event_to_kernel node_id event) (trace_to_kernel node_id events)
