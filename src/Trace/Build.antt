-- ===== src/Trace/Build.antt =====
-- trace.py: `_decision_of`, the events of a trace and `build_trace`.
use axor_wrap.Base.{
  ℕ, suc, String, ◌<>◌, Bool, true, false, Option, none, some, List, [], ◌∷◌, ◌++◌, map,
  if◌then◌else◌,
}
use axor_wrap.Base.Dict.{Dict, lookup, insert}
use axor_wrap.Base.Text.{decimal}
use axor_wrap.Errors.{Result, ok, err, key_error, attribute_error, type_error, ◌>>=◌}
use axor_wrap.Value.{Value, obj, entries, truthy, to_dict}
use axor_wrap.Value.Show.{show}
use axor_wrap.Compile.Manifests.{texts, truthy_at, shown_field}
use axor_wrap.Governor.{Governor}
use axor_wrap.Trace.Recorder.{RecordedCall}
use axor_wrap.Trace.Pairing.{Pair, is_denied, judged_tool}
use axor_wrap.Trace.Fields.{normalize}
use axor_wrap.Trace.Ledger.{Ledger, Provenance, mint_argument, mint_patterns}

pub data Unresolved : Type 0 where
  no_driving_args : Unresolved
  unresolved_argument : String → Unresolved

pub record GateDecision : Type 0 where
  pub verdict : String
  pub gate : String
  pub driving_value_id : Option String
  pub enforced : Bool
  pub reason : Option String
  pub projection : Option String
  pub driving_unresolved : Option Unresolved

-- The events of a trace, by their `type`, with their `seq` first.
pub data TraceEvent : Type 0 where
  tool_call_intent : ℕ → String → String → Dict String → TraceEvent
  gate_decision : ℕ → String → GateDecision → TraceEvent
  tool_result : ℕ → String → List String → TraceEvent

abbrev gate_on_allow : String
gate_on_allow = "taint_floor"

abbrev projection_untrusted : String
projection_untrusted = "untrusted-derived"

abbrev pub driving_id : List String → Dict String → Option String
driving_id [] bindings = none
driving_id (a ∷ as_) bindings = lookup a bindings

abbrev unresolved_of : List String → Option String → Option Unresolved
unresolved_of driving (some id) = none
unresolved_of [] none = some no_driving_args
unresolved_of (a ∷ as_) none = some (unresolved_argument a)

abbrev or_key_error : Option Value → Result Value
or_key_error none = err key_error
or_key_error (some v) = ok v

abbrev shown_if_truthy : Option Value → Option String
shown_if_truthy none = none
shown_if_truthy (some v) = if truthy v then some (show v) else none

-- `refs.get(name, {})`, of which `.get` is called
unfoldable pub provenance_of : Option Value → Result Provenance
unfolding texts truthy_at entries
provenance_of none = ok (record { taints = []; is_sensitive = false })
provenance_of (some (obj fs)) = do
  taints ← texts "sources" (entries fs)
  ok (record { taints = taints; is_sensitive = truthy_at "sensitive" (entries fs) })
provenance_of (some v) = err attribute_error

abbrev or_type_error : Option (Dict Value) → Result (Dict Value)
or_type_error none = err type_error
or_type_error (some d) = ok d

-- `dict(payload.get("arg_provenance", {}))`
unfoldable pub refs_of : Dict Value → Result (Dict Value)
unfolding lookup to_dict
refs_of payload = elim (lookup "arg_provenance" payload) [
  | none ↦ ok []
  | some v ↦ or_type_error (to_dict v)
]

module _ (G : Governor) where
  unfoldable pub gate_name : Governor.Event G → Result String
  unfolding lookup show
  gate_name event =
      if is_denied G event
      then (do
        category ← or_key_error (lookup "category" (Governor.payload G event))
        ok (Governor.gate_of G (show category)))
      else ok gate_on_allow

  -- `_decision_of`
  unfoldable pub decision_of : Governor.Event G → Dict String → Bool → Result GateDecision
  unfolding gate_name texts truthy show lookup
  decision_of event bindings enforced = do
    driving ← texts "driving_args" (Governor.payload G event)
    gate ← gate_name event
    let id = driving_id driving bindings
    ok (record {
      verdict = if is_denied G event then "DENY" else "ALLOW";
      gate = gate;
      driving_value_id = id;
      enforced = enforced;
      reason = shown_if_truthy (Governor.event_reason G event);
      projection = if is_denied G event then some projection_untrusted else none;
      driving_unresolved = unresolved_of driving id;
    })

  -- The bindings of a call's arguments, each with a new value.
  unfoldable pub bind_args :
      String → Dict Value → Dict Value → Dict String → Ledger → Result (Dict String × Ledger)
  unfolding provenance_of mint_argument insert lookup
  bind_args tool refs [] bindings ledger = ok (bindings, ledger)
  bind_args tool refs ((name, value) ∷ rest) bindings ledger = do
    ref ← provenance_of (lookup name refs)
    let minted = mint_argument G tool name value ref ledger
    bind_args tool refs rest (insert name minted.0 bindings) minted.1

  -- `_mint_untrusted_fields`
  unfoldable pub mint_untrusted_fields :
      Dict Value → String → Value → Ledger → Result (List String × Ledger)
  unfolding texts normalize mint_patterns
  mint_untrusted_fields manifest tool result ledger = do
    private_patterns ← texts "sensitive_fields" manifest
    patterns ← texts "untrusted_fields" manifest
    ok (mint_patterns G tool (map normalize private_patterns) result patterns ledger)

  abbrev pub manifest_of : Dict (Dict Value) → String → Dict Value
  manifest_of by_id tool = elim (lookup tool by_id) [ none ↦ [] | some m ↦ m ]

  -- The arguments of a pair's call; none if the wrapper never saw it.
  unfoldable pub intent_bindings :
      Dict Value → Option RecordedCall → Ledger → Result (Dict String × Ledger)
  unfolding bind_args
  intent_bindings refs none ledger = ok ([], ledger)
  intent_bindings refs (some c) ledger = bind_args c.tool refs c.args [] ledger

  abbrev pub tool_of : Option RecordedCall → Governor.Event G → String
  tool_of none event = judged_tool G event
  tool_of (some c) event = c.tool

  -- `if call is not None and call.executed`: the result event, and the next number.
  abbrev pub executed_events :
      Dict (Dict Value) → RecordedCall → ℕ → Ledger → Bool → Result (List TraceEvent × ℕ × Ledger)
  executed_events by_id c seq ledger true = do
    minted ← mint_untrusted_fields (manifest_of by_id c.tool) c.tool c.result ledger
    ok (tool_result seq c.tool minted.0 ∷ [], suc seq, minted.1)
  executed_events by_id c seq ledger false = ok ([], seq, ledger)

  unfoldable pub result_events :
      Dict (Dict Value) → Option RecordedCall → ℕ → Ledger → Result (List TraceEvent × ℕ × Ledger)
  unfolding mint_untrusted_fields lookup
  result_events by_id none seq ledger = ok ([], seq, ledger)
  result_events by_id (some c) seq ledger = executed_events by_id c seq ledger c.executed

  abbrev pub call_id : ℕ → String
  call_id index = "call_root_" <> decimal index

  -- The loop of `build_trace`, from the pair of the given index and the event of the given number.
  unfoldable pub build_events :
      Dict (Dict Value) → Bool → List (Pair G) → ℕ → ℕ → Ledger → Result (List TraceEvent × Ledger)
  unfolding refs_of intent_bindings decision_of result_events judged_tool decimal
  build_events by_id enforced [] index seq ledger = ok ([], ledger)
  build_events by_id enforced ((seen, event) ∷ pairs) index seq ledger = do
    refs ← refs_of (Governor.payload G event)
    bound ← intent_bindings refs seen ledger
    decision ← decision_of event bound.0 enforced
    produced ← result_events by_id seen (suc (suc seq)) bound.1
    rest ← build_events by_id enforced pairs (suc index) produced.1 produced.2
    ok (
      tool_call_intent seq (tool_of seen event) (call_id index) bound.0
          ∷ gate_decision (suc seq) (call_id index) decision
          ∷ (produced.0 ++ rest.0),
      rest.1,
    )

  unfoldable pub manifests_by_id : Dict (Dict Value) → List (Dict Value) → Dict (Dict Value)
  unfolding insert shown_field
  manifests_by_id acc [] = acc
  manifests_by_id acc (m ∷ ms) = manifests_by_id (insert (shown_field "id" m) m acc) ms
