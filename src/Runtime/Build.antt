-- ===== src/Runtime/Build.antt =====
-- runtime.py, `WrappedToolset.__init__` and `wrap_callables`, and experiment.py, `toolset_for_arm`.
use axor_wrap.Base.{
  String, Bool, true, ◌||◌, Option, none, some, List, [], ◌∷◌, if◌then◌else◌, ◌==◌,
}
use axor_wrap.Base.Dict.{Dict, lookup}
use axor_wrap.Errors.{Result, ok, err, value_error, assignment, type_error, attribute_error, ◌>>=◌}
use axor_wrap.Errors.Exec.{Exec}
use axor_wrap.Value.{Value, arr, obj, elements, entries, truthy, to_dict}
use axor_wrap.Governor.{Governor}
use axor_wrap.Compile.Kwargs.{Vocabulary, Kwargs, governor_kwargs}
use axor_wrap.Trace.Recorder.{session_recorder, every_intent}
use axor_wrap.Trace.Document.{Trace, Labels, build_trace}
use axor_wrap.Runtime.Toolset.{
  Tool, WrappedToolset, Host, enforcement_on, enforcement_off, callables,
}
use axor_wrap.Experiment.{arm_for, enforcement_of, inputs_for}

-- `dict(d) if d else None`
abbrev pub kept : Option (Dict Value) → Option (Dict Value)
kept none = none
kept (some []) = none
kept (some d) = some d

module _ (W : Type 0) (G : Governor) where
  -- `trace()`: it wants a toolset that records.
  unfoldable pub trace : Labels G → WrappedToolset W G → Result Trace
  unfolding build_trace
  trace labels t = elim t.recorder [
    | none ↦ err value_error
    | some r ↦
        build_trace G r.calls (Governor.trace_events G t.governor) t.manifests t.enforcement
          every_intent labels
  ]

module _ (W : Type 0) (G : Governor) (V : Vocabulary) where
  -- The keyword arguments of the constructor. `governor` is an object that is given in place of one
  -- that is built from the configuration.
  pub record Options : Type 0 where
    pub policy : Option (Dict Value)
    pub governor : Option (Governor.State G)
    pub admission : Option (Exec W Bool)
    pub enforcement : String
    pub record_calls : Bool
    pub inputs : Option (Dict Value)
    pub node_id : String

  -- `_build_governor`: `ToolCallGovernor(**config, node_id=node_id)`
  module _ (build_governor : Kwargs V → String → Result (Governor.State G)) where
    abbrev pub given_or_built :
        Option (Governor.State G) → Kwargs V → String → Result (Governor.State G)
    given_or_built none config node_id = build_governor config node_id
    given_or_built (some governor) config node_id = ok governor

    abbrev pub checked_flag : String → Result String
    checked_flag flag =
        if (flag == enforcement_on) || (flag == enforcement_off) then ok flag else err value_error

    unfoldable pub new_toolset :
        Dict (Tool W G) → List (Dict Value) → Options → Result (WrappedToolset W G)
    unfolding governor_kwargs
    new_toolset tools manifests options = do
      config ← governor_kwargs V manifests options.policy options.inputs
      governor ← given_or_built options.governor config options.node_id
      flag ← checked_flag options.enforcement
      ok (record {
        tools = tools;
        manifests = manifests;
        policy = kept options.policy;
        inputs = kept options.inputs;
        node_id = options.node_id;
        governor = governor;
        admission = options.admission;
        enforcement = flag;
        recorder = if options.record_calls then some session_recorder else none;
      })

    -- `wrap_callables`, with the toolset that its functions share
    unfoldable pub wrap_callables :
        Dict (Tool W G)
        → List (Dict Value)
        → Options
        → Result (Dict (Dict Value → Exec (Host W G) Value) × WrappedToolset W G)
    unfolding new_toolset callables
    wrap_callables tools manifests options = do
      toolset ← new_toolset tools manifests options
      ok (callables W G toolset, toolset)

    -- A manifest that is no dict has no `get`.
    abbrev pub a_dict : Value → Result (Dict Value)
    a_dict (obj fs) = ok (entries fs)
    a_dict v = err attribute_error

    unfoldable pub dicts : List Value → Result (List (Dict Value))
    unfolding entries
    dicts [] = ok []
    dicts (v ∷ vs) = do d ← a_dict v; ds ← dicts vs; ok (d ∷ ds)

    abbrev pub any_manifests : List Value → Result (List Value)
    any_manifests [] = err (assignment "assignment carries no tool_manifests")
    any_manifests (v ∷ vs) = ok (v ∷ vs)

    -- `assignment.get("tool_manifests")`, a list that is not empty
    unfoldable pub manifests_given : Dict Value → Result (List Value)
    unfolding lookup elements
    manifests_given given = elim (lookup "tool_manifests" given) [
      | some (arr vs) ↦ any_manifests (elements vs)
      | v ↦ err (assignment "assignment carries no tool_manifests")
    ]

    -- A policy that is no dict: `dict(policy)` refuses it, or the compilation finds no `get`.
    abbrev pub no_policy : Option (Dict Value) → Result (Option (Dict Value))
    no_policy none = err type_error
    no_policy (some d) = err attribute_error

    unfoldable pub arm_policy : Option Value → Result (Option (Dict Value))
    unfolding truthy to_dict entries
    arm_policy none = ok none
    arm_policy (some (obj fs)) = ok (some (entries fs))
    arm_policy (some v) = if truthy v then no_policy (to_dict v) else ok none

    -- `policy or arm.get("policy")`
    unfoldable pub policy_or_arm : Option (Dict Value) → Dict Value → Result (Option (Dict Value))
    unfolding arm_policy lookup
    policy_or_arm (some (e ∷ d)) arm = ok (some (e ∷ d))
    policy_or_arm none arm = arm_policy (lookup "policy" arm)
    policy_or_arm (some []) arm = arm_policy (lookup "policy" arm)

    abbrev pub inputs_or : Dict Value → String → Option (Dict Value) → Result (Dict Value)
    inputs_or given trial_unit (some inputs) = ok inputs
    inputs_or given trial_unit none = inputs_for given trial_unit

    abbrev pub trial_options :
        Option (Dict Value)
        → Option (Governor.State G)
        → Option (Exec W Bool)
        → String
        → Dict Value
        → Options
    trial_options policy governor admission flag inputs = record {
      policy = policy;
      governor = governor;
      admission = admission;
      enforcement = flag;
      record_calls = true;
      inputs = some inputs;
      node_id = "";
    }

    unfoldable pub toolset_for_arm :
        Dict (Tool W G)
        → Dict Value
        → String
        → Option (Dict Value)
        → Option (Governor.State G)
        → Option (Exec W Bool)
        → Option (Dict Value)
        → Result (WrappedToolset W G)
    unfolding new_toolset dicts manifests_given policy_or_arm arm_for enforcement_of inputs_for
    toolset_for_arm tools given trial_unit policy governor admission inputs = do
      listed ← manifests_given given
      arm ← arm_for given trial_unit
      flag ← enforcement_of arm
      known ← inputs_or given trial_unit inputs
      chosen ← policy_or_arm policy arm
      manifests ← dicts listed
      new_toolset tools manifests (trial_options chosen governor admission flag known)
