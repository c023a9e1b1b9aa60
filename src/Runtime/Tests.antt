-- ===== src/Runtime/Tests.antt =====
-- A governor that denies the tool `pay`, and sessions under it.
use axor_wrap.Base.{
  ℕ, suc, String, Bool, true, false, not, List, [], ◌∷◌, ◌++◌, ◌≡◌, refl, sym, ap, ◌∙◌, none, some,
  map, ◌==◌, ◌⊎◌, if◌then◌else◌, inl, inr, Bool-cases,
}
use axor_wrap.Base.Dict.{Dict}
use axor_wrap.Errors.{Result, ok}
use axor_wrap.Errors.Exec.{Exec, ◌>>=◌}
use axor_wrap.Value.{Value, str}
use axor_wrap.Value.Show.{show}
use axor_wrap.Governor.{Governor}
use axor_wrap.Trace.Recorder.{SessionRecorder, session_recorder, every_intent}
use axor_wrap.Trace.Pairing.{Pair, verdict_events, judged_tool, is_verdict, paired}
use axor_wrap.Runtime.Toolset.{
  Host, call, admit, find_tool, admit_by, in_world, judge, in_governor, record_call, enforce,
  refuse, mark_executed,
}
use axor_wrap.Runtime.Observed.{Journal, judged_names}
use axor_wrap.Runtime.Session.{calls_in_order, RightlyPaired, session-paired}
use axor_wrap.Runtime.Enforcement.{Allows, call-permitted}
use axor_wrap.Runtime.Flag.{with_enforcement, call-flag}
use axor_wrap.Value.{of_dict, of_list, fields, items}
use axor_wrap.Compile.Manifests.{
  read_all, override_items, policy_field, allowed_values, sorted_entries, overrides_onto,
}
use axor_wrap.Compile.Kwargs.{Vocabulary, Kwargs}
use axor_wrap.Runtime.Toolset.{WrappedToolset}
use axor_wrap.Runtime.Build.{toolset_for_arm}
use axor_wrap.Runtime.Arms.{Declares, toolset_for_arm-Declares}
use axor_wrap.Experiment.{arm_for}

abbrev verdict_kind : String → String
verdict_kind name = if name == "pay" then "intent_denied" else "intent_approved"

abbrev judge_kind : String → Dict Value → Exec (List (String × String)) Bool
judge_kind name args log = (ok (not (name == "pay")), log ++ (verdict_kind name, name) ∷ [])

abbrev journal : Governor
journal = record {
  State = List (String × String);
  Decision = Bool;
  Event = String × String;
  evaluate = judge_kind;
  register_output = λ d output log. (ok tt, log);
  allowed = λ d. d;
  reason = λ d. "no payments";
  category = λ d. "taint_floor";
  trace_events = λ log. log;
  kind = λ e. e.0;
  payload = λ e. ("tool", str e.1) ∷ [];
  event_reason = λ e. none;
  intent_approved = "intent_approved";
  intent_transformed = "intent_transformed";
  intent_denied = "intent_denied";
  gate_of = λ c. c;
  canonicalize = λ v. [];
  sha256_hex = λ b. "";
}

verdicts-append :
    (log : List (String × String)) (name : String)
    → map (judged_tool journal) (verdict_events journal (log ++ (verdict_kind name, name) ∷ []))
      ≡ map (judged_tool journal) (verdict_events journal log) ++ name ∷ []
unfolding verdict_events judged_tool show
verdicts-append [] name = elim (Bool-cases (name == "pay")) [ inl p ↦ rw p | inr p ↦ rw p ]
verdicts-append (e ∷ log) name = elim (Bool-cases (is_verdict journal e)) [
  | inl p ↦ rw p (ap (λ l. judged_tool journal e ∷ l) (verdicts-append log name))
  | inr p ↦ rw p (verdicts-append log name)
]

journal_laws : Journal ℕ journal
unfolding judged_names
journal_laws = record {
  judged = λ name args g g' d e.
      ap (λ p. map (judged_tool journal) (verdict_events journal p.1)) (sym e)
      ∙ verdicts-append g name;
  failed = λ name args g g' x e. absurd (cc);
  registered = λ d output g. refl;
}

-- A tool counts its runs.
abbrev counting : Dict Value → Exec ℕ Value
counting args n = (ok (str "done"), suc n)

abbrev host : String → Host ℕ journal
host enforcement = record {
  toolset = record {
    tools = ("read", counting) ∷ ("pay", counting) ∷ [];
    manifests = [];
    policy = none;
    inputs = none;
    node_id = "";
    governor = [];
    admission = some (λ n. (ok true, n));
    enforcement = enforcement;
    recorder = some session_recorder;
  };
  world = 0;
}

abbrev three_calls : List (String × Dict Value)
three_calls = ("read", []) ∷ ("pay", []) ∷ ("launch", []) ∷ []

runs_on : (calls_in_order ℕ journal three_calls (host "on")).world ≡ 1
unfolding calls_in_order call ◌>>=◌ find_tool admit admit_by in_world judge in_governor record_call
    enforce refuse mark_executed
runs_on = refl

runs_off : (calls_in_order ℕ journal three_calls (host "off")).world ≡ 2
unfolding calls_in_order call ◌>>=◌ find_tool admit admit_by in_world judge in_governor record_call
    enforce refuse mark_executed
runs_off = refl

session-paired_example :
    let t = calls_in_order ℕ journal three_calls (host "on") in
    (r : SessionRecorder) × (t.toolset.recorder ≡ some r)
    × ((ps : List (Pair journal)) × (paired journal r.calls
            (verdict_events journal (Governor.trace_events journal t.toolset.governor))
            every_intent
          ≡ ok ps)
        × RightlyPaired ℕ journal ps)
unfolding judged_names verdict_events
session-paired_example = session-paired ℕ journal journal_laws three_calls (host "on") refl refl

call-permitted_example :
    let t = (call ℕ journal "pay" [] (host "on")).1 in
    Allows ℕ journal "pay" [] [] ⊎ (t.world ≡ 0) ⊎ (t.world ≡ (admit ℕ journal (host "on")).1.world)
call-permitted_example = call-permitted ℕ journal "pay" [] (host "on") refl

read_allowed : (d : Bool) → (judge_kind "read" [] []).0 ≡ ok d → d ≡ true
read_allowed true e = refl
read_allowed false e = absurd (cc)

call-flag_example : call ℕ journal "read" [] (with_enforcement ℕ journal "off" (host "on")) ≡ (
  (call ℕ journal "read" [] (host "on")).0,
  with_enforcement ℕ journal "off" (call ℕ journal "read" [] (host "on")).1,
)
call-flag_example = call-flag ℕ journal "off" "read" [] (host "on") read_allowed

-- An assignment with an observed and a governed arm.
abbrev given : Dict Value
given =
    ("tool_manifests", of_list (of_dict (("id", str "read") ∷ []) ∷ []))
    ∷ (
      "conditions",
      of_list (
          of_dict (("id", str "observed") ∷ ("enforcement", str "off") ∷ [])
          ∷ of_dict (("id", str "governed") ∷ ("enforcement", str "on") ∷ [])
          ∷ []),
    )
    ∷ []

abbrev names : Vocabulary
names = record {
  Predicate = String;
  enum_predicate = λ arg values. arg;
  ConsequenceClass = String;
  class_named = λ name. some name;
}

abbrev fresh : Kwargs names → String → Result (List (String × String))
fresh config node_id = ok []

abbrev trial_toolset : WrappedToolset ℕ journal
trial_toolset = record {
  tools = ("read", counting) ∷ [];
  manifests = (("id", str "read") ∷ []) ∷ [];
  policy = none;
  inputs = none;
  node_id = "";
  governor = [];
  admission = none;
  enforcement = "on";
  recorder = some session_recorder;
}

builds :
    toolset_for_arm ℕ journal names fresh
      (("read", counting) ∷ [])
      given
      "inbox:governed:0"
      none
      none
      none
      none
    ≡ ok trial_toolset
unfolding toolset_for_arm items fields read_all override_items policy_field allowed_values
    sorted_entries overrides_onto
builds = refl

toolset_for_arm-Declares_example :
    (arm : Dict Value) × (arm_for given "inbox:governed:0" ≡ ok arm)
    × Declares arm "on"
    × (trial_toolset.recorder ≡ some session_recorder)
    × (trial_toolset.admission ≡ none)
toolset_for_arm-Declares_example =
    toolset_for_arm-Declares ℕ journal names fresh (("read", counting) ∷ []) given
      "inbox:governed:0" none none none none trial_toolset builds
