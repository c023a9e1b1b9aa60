-- ===== src/Plane/Bridge/Tests.antt =====
-- A trace with a refused call, an event of no meaning on the plane, and an approved call.
use axor_wrap.Base.{ℤ, pos, String, none, some, List, [], ◌∷◌, map, ◌≡◌, refl, Among, inl, inr}
use axor_wrap.Base.Dict.{Dict}
use axor_wrap.Value.{str}
use axor_wrap.Plane.Bridge.Events.{
  TraceEvent, TraceEventKind, other_kind, intent_approved, Detail, intent_denied, no_class, Event,
}
use axor_wrap.Plane.Bridge.Labels.{category_of}
use axor_wrap.Plane.Bridge.Translate.{trace_to_kernel}
use axor_wrap.Plane.Bridge.Translate.Denials.{Records, trace_to_kernel-denials}
use axor_wrap.Plane.Bridge.Translate.Order.{Thinned, trace_to_kernel-order}

abbrev event : ℤ → TraceEventKind → Detail → TraceEvent
event n kind detail = record {
  node_id = "n1";
  sequence = n;
  kind = kind;
  payload = ("tool", str "send") ∷ [];
  detail = detail;
}

abbrev refused : TraceEvent
refused = event (pos 4) other_kind (intent_denied "carrier of a tainted value" "tool_call")

abbrev events : List TraceEvent
events = event (pos 3) other_kind no_class ∷ refused ∷ event (pos 6) intent_approved no_class ∷ []

abbrev gates : Dict String
gates = ("carrier_gate", "carrier") ∷ []

category_test : category_of "Carrier of a value" ≡ "carrier_gate"
unfolding category_of
category_test = refl

gates_test :
    map (λ e. e.gate) (trace_to_kernel gates none events) ≡ some "taint_enforcement" ∷ none ∷ []
unfolding trace_to_kernel
gates_test = refl

trace_to_kernel-denials_example :
    (e : Event) × Among e (trace_to_kernel gates none events)
    × Records gates refused "carrier of a tainted value" "tool_call" e
trace_to_kernel-denials_example =
    trace_to_kernel-denials gates none events refused "carrier of a tainted value" "tool_call"
      (inr (inl refl)) refl

trace_to_kernel-order_example :
    Thinned
      (map (λ e. e.seq) (trace_to_kernel gates (some "n2") events))
      (map (λ e. e.sequence) events)
trace_to_kernel-order_example = trace_to_kernel-order gates (some "n2") events
