-- ===== src/Runtime/Arms.antt =====
-- experiment.py: a trial's toolset enforces what its arm declares.
use axor_wrap.Base.{
  String, Bool, Option, none, some, List, if◌then◌else◌, ◌≡◌, ap, sym, subst, ◌∙◌, ◌⊎◌, arith,
  eq_iff,
}
use axor_wrap.Base.Dict.{Dict, lookup}
use axor_wrap.Errors.{Result, ok, bind-ok, ok_inj}
use axor_wrap.Errors.Exec.{Exec}
use axor_wrap.Value.{Value, str, obj, arr, int, bool, null}
use axor_wrap.Governor.{Governor}
use axor_wrap.Compile.Kwargs.{Vocabulary, Kwargs, governor_kwargs}
use axor_wrap.Trace.Recorder.{session_recorder}
use axor_wrap.Runtime.Toolset.{Tool, WrappedToolset, enforcement_on, enforcement_off}
use axor_wrap.Runtime.Build.{
  Options, new_toolset, toolset_for_arm, given_or_built, checked_flag, manifests_given, inputs_or,
  policy_or_arm, dicts, trial_options,
}
use axor_wrap.Experiment.{arm_for, enforcement_of, known_flag, or_assignment_error}

-- The arm declares the flag, and it is one of the two.
abbrev pub Declares : Dict Value → String → Type 0
Declares arm flag =
    (lookup "enforcement" arm ≡ some (str flag))
    × ((flag ≡ enforcement_on) ⊎ (flag ≡ enforcement_off))

known_flag-Declares :
    (o : Option Value) (flag : String)
    → known_flag o ≡ some flag
    → (o ≡ some (str flag)) × ((flag ≡ enforcement_on) ⊎ (flag ≡ enforcement_off))
known_flag-Declares (some (str s)) flag h =
    ground (arith, eq_iff s enforcement_on, eq_iff s enforcement_off)
known_flag-Declares none flag h = absurd (cc)
known_flag-Declares (some (obj fs)) flag h = absurd (cc)
known_flag-Declares (some (arr vs)) flag h = absurd (cc)
known_flag-Declares (some (int n)) flag h = absurd (cc)
known_flag-Declares (some (bool b)) flag h = absurd (cc)
known_flag-Declares (some null) flag h = absurd (cc)

enforcement_of-Declares :
    (arm : Dict Value) (flag : String) → enforcement_of arm ≡ ok flag → Declares arm flag
unfolding enforcement_of
enforcement_of-Declares arm flag h =
    known_flag-Declares (lookup "enforcement" arm) flag
      (found (known_flag (lookup "enforcement" arm)) h)
  where
    found : (o : Option String) → or_assignment_error "enforcement" o ≡ ok flag → o ≡ some flag
    found none e = absurd (cc)
    found (some f) e = ap (λ x. some x) (ok_inj f flag e)

module _ (W : Type 0) (G : Governor) (V : Vocabulary)
    (build_governor : Kwargs V → String → Result (Governor.State G)) where
  new_toolset-options :
      (tools : Dict (Tool W G)) (manifests : List (Dict Value)) (o : Options W G V)
      (t : WrappedToolset W G)
      → new_toolset W G V build_governor tools manifests o ≡ ok t
      → (t.enforcement ≡ o.enforcement)
        × (t.recorder ≡ (if o.record_calls then some session_recorder else none))
        × (t.admission ≡ o.admission)
  unfolding new_toolset
  new_toolset-options tools manifests o t h =
      let (config, config_ok, h1) = bind-ok (governor_kwargs V manifests o.policy o.inputs) _ t h in
      let (governor, governor_ok, h2) =
        bind-ok (given_or_built W G V build_governor o.governor config o.node_id) _ t h1 in
      let (flag, flag_ok, h3) = bind-ok (checked_flag W G V build_governor o.enforcement) _ t h2 in
      let same = ok_inj _ t h3 in
      (
        sym (ap (λ x. x.enforcement) same) ∙ kept_flag flag flag_ok,
        sym (ap (λ x. x.recorder) same),
        sym (ap (λ x. x.admission) same),
      )
    where
      kept_flag :
          (flag : String)
          → checked_flag W G V build_governor o.enforcement ≡ ok flag
          → flag ≡ o.enforcement
      kept_flag flag e = ground arith

  -- A toolset that is built for a trial: the trial's arm declares "on" or "off", the toolset enforces
  -- just that, it records from its start, and it asks the admission that it was given.
  pub toolset_for_arm-Declares :
      (tools : Dict (Tool W G)) (given : Dict Value) (trial_unit : String)
      (policy : Option (Dict Value)) (governor : Option (Governor.State G))
      (admission : Option (Exec W Bool)) (inputs : Option (Dict Value)) (t : WrappedToolset W G)
      → toolset_for_arm W G V build_governor tools given trial_unit policy governor admission inputs
        ≡ ok t
      → (arm : Dict Value) × (arm_for given trial_unit ≡ ok arm)
        × Declares arm t.enforcement
        × (t.recorder ≡ some session_recorder)
        × (t.admission ≡ admission)
  unfolding toolset_for_arm
  toolset_for_arm-Declares tools given trial_unit policy governor admission inputs t h =
      let (listed, listed_ok, h1) = bind-ok (manifests_given W G V build_governor given) _ t h in
      let (arm, arm_ok, h2) = bind-ok (arm_for given trial_unit) _ t h1 in
      let (flag, flag_ok, h3) = bind-ok (enforcement_of arm) _ t h2 in
      let (known, known_ok, h4) =
        bind-ok (inputs_or W G V build_governor given trial_unit inputs) _ t h3 in
      let (chosen, chosen_ok, h5) =
        bind-ok (policy_or_arm W G V build_governor policy arm) _ t h4 in
      let (manifests, manifests_ok, h6) = bind-ok (dicts W G V build_governor listed) _ t h5 in
      let (same, records, admits) =
        new_toolset-options tools manifests
          (trial_options W G V build_governor chosen governor admission flag known) t h6 in
      (
        arm,
        arm_ok,
        subst (Declares arm) (sym same) (enforcement_of-Declares arm flag flag_ok),
        records,
        admits,
      )
