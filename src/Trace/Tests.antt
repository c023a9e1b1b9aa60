-- ===== src/Trace/Tests.antt =====
-- A read and a denied payment, as a trace.
use axor_wrap.Base.{String, Bool, true, false, List, [], ◌∷◌, ◌≡◌, refl, none, some, length}
use axor_wrap.Base.Dict.{Dict}
use axor_wrap.Errors.{Result, ok, err}
use axor_wrap.Value.{Value, str, of_dict, of_list, fields, items, null}
use axor_wrap.Governor.{Governor}
use axor_wrap.Trace.Recorder.{RecordedCall, every_intent}
use axor_wrap.Trace.Fields.{paths_in, strip_brackets}
use axor_wrap.Trace.Pairing.{paired, verdict_events}
use axor_wrap.Trace.Build.{build_events, manifests_by_id}
use axor_wrap.Trace.Document.{Trace, Labels, build_trace}
use axor_wrap.Trace.References.{EventsKnown, ledger_of, build_trace-EventsKnown}
use axor_wrap.Trace.Redaction.{AllRedacted, build_trace-AllRedacted}
use axor_wrap.Trace.Numbered.{Numbered, build_trace-Numbered}

abbrev kernel : Governor
kernel = record {
  State = Unit {0};
  Decision = Bool;
  Event = Bool × String;
  evaluate = λ name args s. (ok true, s);
  register_output = λ d output s. (ok tt, s);
  allowed = λ d. d;
  reason = λ d. "";
  category = λ d. "";
  trace_events = λ s. [];
  kind = λ e. elim (e.0) [ true ↦ "intent_approved" | false ↦ "intent_denied" ];
  payload = λ e.
      ("tool", str e.1)
      ∷ ("category", str "taint")
      ∷ ("driving_args", of_list (str "to" ∷ []))
      ∷ (
        "arg_provenance",
        of_dict (("to", of_dict (("sources", of_list (str "inbox" ∷ [])) ∷ [])) ∷ []),
      )
      ∷ [];
  event_reason = λ e. none;
  intent_approved = "intent_approved";
  intent_transformed = "intent_transformed";
  intent_denied = "intent_denied";
  gate_of = λ c. c;
  canonicalize = λ v. [];
  sha256_hex = λ b. "0";
}

abbrev inbox : Value
inbox = of_dict (
    (
      "messages",
      of_list (of_dict (("body", str "hi") ∷ []) ∷ of_dict (("body", str "pay") ∷ []) ∷ []),
    )
    ∷ [])

abbrev recorded : List RecordedCall
recorded =
    record { tool = "read"; args = []; executed = true; result = inbox }
    ∷ record { tool = "pay"; args = ("to", str "pay") ∷ []; executed = false; result = null }
    ∷ []

abbrev manifest : Dict Value
manifest =
    ("id", str "read")
    ∷ ("untrusted_fields", of_list (str "result.messages[].body" ∷ []))
    ∷ ("sensitive_fields", of_list (str "messages[0].body" ∷ []))
    ∷ []

abbrev labels : Labels kernel
labels = record {
  trial = ("run_id", str "r") ∷ [];
  trace_id = none;
  kernel_version = none;
  runtime = none;
  scenario = none;
  inputs_digest = some "sha256:1";
}

abbrev traced : Result Trace
traced =
    build_trace kernel recorded ((true, "read") ∷ (false, "pay") ∷ []) (manifest ∷ []) "on"
      every_intent labels

abbrev or_empty : Result Trace → Trace
or_empty (ok t) = t
or_empty (err e) = record {
  schema_version = "";
  trace_id = "";
  trial = [];
  producer = record { mode = ""; provenance_fidelity = ""; kernel_version = none; runtime = none };
  events = [];
  values = [];
  inputs_digest = none;
}

five_events : length (or_empty traced).events ≡ 5
unfolding build_trace paired verdict_events build_events manifests_by_id fields items
five_events = refl

is_traced : traced ≡ ok (or_empty traced)
unfolding build_trace paired verdict_events build_events manifests_by_id fields items
is_traced = refl

build_trace-Numbered_example : Numbered 0 (or_empty traced).events
build_trace-Numbered_example =
    build_trace-Numbered kernel recorded ((true, "read") ∷ (false, "pay") ∷ []) (manifest ∷ []) "on"
      every_intent labels (or_empty traced) is_traced

-- The same messages, one field further down: only the first is found.
abbrev paged : Value
paged = of_dict (("page", inbox) ∷ [])

first_with_page : length (paths_in ("page" ∷ "messages[]" ∷ "body" ∷ []) paged) ≡ 1
unfolding paths_in strip_brackets fields items
first_with_page = refl

all_without_page : length (paths_in ("messages[]" ∷ "body" ∷ []) inbox) ≡ 2
unfolding paths_in strip_brackets fields items
all_without_page = refl

build_trace-EventsKnown_example : EventsKnown (ledger_of (or_empty traced)) (or_empty traced).events
build_trace-EventsKnown_example =
    build_trace-EventsKnown kernel recorded ((true, "read") ∷ (false, "pay") ∷ []) (manifest ∷ [])
      "on" every_intent labels (or_empty traced) is_traced

build_trace-AllRedacted_example : AllRedacted (or_empty traced).values
build_trace-AllRedacted_example =
    build_trace-AllRedacted kernel recorded ((true, "read") ∷ (false, "pay") ∷ []) (manifest ∷ [])
      "on" every_intent labels (or_empty traced) is_traced
