-- ===== src/Trace/Document.antt =====
-- trace.py: `build_trace`, `world_digest`, `_default_trace_id`, `trial_of`.
use axor_wrap.Base.{
  ℕ, suc, ℤ, pos, negsuc, String, ◌<>◌, not, Option, none, some, List, [], ◌∷◌, ltb, if◌then◌else◌,
  ◌==◌, ◌≡◌, refl,
}
use axor_wrap.Base.Dict.{Dict, lookup}
use axor_wrap.Base.Text.{decimal, empty, rsplit2, parse_int}
use axor_wrap.Errors.{Result, ok, err, trace_build, ◌>>=◌}
use axor_wrap.Value.{Value, str, int, truthy, of_dict}
use axor_wrap.Compile.Manifests.{shown_field}
use axor_wrap.Governor.{Governor}
use axor_wrap.Trace.Recorder.{RecordedCall}
use axor_wrap.Trace.Pairing.{paired, verdict_events}
use axor_wrap.Trace.Ledger.{new_ledger, Entry, content_hash}
use axor_wrap.Trace.Build.{TraceEvent, build_events, manifests_by_id}

pub record Producer : Type 0 where
  pub mode : String
  pub provenance_fidelity : String
  pub kernel_version : Option String
  pub runtime : Option String

pub record Trace : Type 0 where
  pub schema_version : String
  pub trace_id : String
  pub trial : Dict Value
  pub producer : Producer
  pub events : List TraceEvent
  pub values : List Entry
  pub inputs_digest : Option String

-- A text field that is left out where it is absent or empty.
abbrev pub if_not_empty : Option String → Option String
if_not_empty none = none
if_not_empty (some s) = if empty s then none else some s

abbrev pub or_default : String → Option String → String
or_default d none = d
or_default d (some s) = if empty s then d else s

unfoldable pub default_trace_id : Dict Value → String
unfolding shown_field
default_trace_id trial =
    "t_"
    <> (shown_field "run_id" trial
        <> ("_"
            <> (shown_field "scenario_id" trial
                <> ("_"
                    <> (shown_field "condition_id" trial
                        <> ("_"
                            <> (shown_field "seed" trial
                                <> ("_r" <> shown_field "repeat_index" trial))))))))

abbrev or_no_fields : Option Value → Value
or_no_fields none = of_dict []
or_no_fields (some v) = if truthy v then v else of_dict []

module _ (G : Governor) where
  unfoldable pub world_digest : Option Value → Option Value → String
  unfolding content_hash
  world_digest inputs fixtures =
      content_hash G
        (of_dict (("inputs", or_no_fields inputs) ∷ ("fixtures", or_no_fields fixtures) ∷ []))

  abbrev pub digest_of : Option String → Option (Dict Value) → Option String
  digest_of (some d) scenario = some d
  digest_of none none = none
  digest_of none (some s) = some (world_digest (lookup "inputs" s) (lookup "fixtures" s))

  -- The arguments of `build_trace` that are texts or documents of the caller.
  pub record Labels : Type 0 where
    pub trial : Dict Value
    pub trace_id : Option String
    pub kernel_version : Option String
    pub runtime : Option String
    pub scenario : Option (Dict Value)
    pub inputs_digest : Option String

  unfoldable pub build_trace :
      List RecordedCall
      → List (Governor.Event G)
      → List (Dict Value)
      → String
      → String
      → Labels
      → Result Trace
  unfolding default_trace_id world_digest lookup
  build_trace calls trace_events manifests enforcement observes labels = do
    pairs ← paired G calls (verdict_events G trace_events) observes
    built ←
        build_events G (manifests_by_id G [] manifests) (not (enforcement == "off")) pairs 0 0
          new_ledger
    ok (record {
      schema_version = "trace/v1";
      trace_id = or_default (default_trace_id labels.trial) labels.trace_id;
      trial = labels.trial;
      producer = record {
        mode = "wrapped_code";
        provenance_fidelity = "explicit_flow_tracked";
        kernel_version = if_not_empty labels.kernel_version;
        runtime = if_not_empty labels.runtime;
      };
      events = built.0;
      values = built.1.values;
      inputs_digest = if_not_empty (digest_of labels.inputs_digest labels.scenario);
    })

abbrev zeros_before : ℕ → String
zeros_before n = if ltb n 10 then "00" else if ltb n 100 then "0" else ""

-- `f"{n:03d}"`: the sign counts as one of the three places.
unfoldable pub three_places : ℤ → String
unfolding decimal
three_places (pos n) = zeros_before n <> decimal n
three_places (negsuc n) = "-" <> ((if ltb (suc n) 10 then "0" else "") <> decimal (suc n))

abbrev trial_block : String → Option String → String → String → Option ℤ → Result (Dict Value)
trial_block run_id seed scenario arm none = err (trace_build "malformed trial unit")
trial_block run_id seed scenario arm (some index) = ok (
    ("run_id", str run_id)
    ∷ ("scenario_id", str scenario)
    ∷ ("condition_id", str arm)
    ∷ ("seed", str (elim seed [ none ↦ "s" <> three_places index | some s ↦ s ]))
    ∷ ("repeat_index", int index)
    ∷ [])

abbrev trial_of_parts : String → Option String → List String → Result (Dict Value)
trial_of_parts run_id seed (scenario ∷ arm ∷ index ∷ []) =
    trial_block run_id seed scenario arm (parse_int index)
trial_of_parts run_id seed parts = err (trace_build "malformed trial unit")

unfoldable pub trial_of : String → String → Option String → Result (Dict Value)
unfolding rsplit2 parse_int three_places
trial_of trial_unit run_id seed = trial_of_parts run_id seed (rsplit2 trial_unit)

trial_of_test :
    trial_of "inbox:v2:governed:7" "r1" none
    ≡ ok (
        ("run_id", str "r1")
        ∷ ("scenario_id", str "inbox:v2")
        ∷ ("condition_id", str "governed")
        ∷ ("seed", str "s007")
        ∷ ("repeat_index", int (pos 7))
        ∷ [])
unfolding trial_of
trial_of_test = refl
