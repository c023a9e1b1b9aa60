-- ===== src/Experiment.antt =====
-- axor_wrap/experiment.py: what an assignment says of a trial.
use axor_wrap.Base.{String, ◌||◌, Option, none, some, List, [], ◌∷◌, map, if◌then◌else◌, ◌==◌}
use axor_wrap.Base.Dict.{Dict, lookup, insert}
use axor_wrap.Base.Text.{rsplit2}
use axor_wrap.Errors.{
  Result, ok, err, assignment, type_error, attribute_error, key_error, value_error, ◌>>=◌,
}
use axor_wrap.Value.{Value, str, obj, arr, entries, elements, truthy, iterate, to_dict}
use axor_wrap.Value.Show.{show}
use axor_wrap.Compile.Manifests.{shown_field}
use axor_wrap.Runtime.Toolset.{enforcement_on, enforcement_off}

-- The values of a loop over `d.get(k) or []`
unfoldable pub loop_over : String → Dict Value → Result (List Value)
unfolding lookup truthy iterate
loop_over k d = elim (lookup k d) [
  | none ↦ ok []
  | some v ↦ if truthy v then or_type_error (iterate v) else ok []
]
  where
    or_type_error : Option (List Value) → Result (List Value)
    or_type_error none = err type_error
    or_type_error (some vs) = ok vs

-- `str(arm["id"])` and `dict(arm)`
unfoldable pub arm_of : Value → Result (String × Dict Value)
unfolding lookup entries show
arm_of (obj fs) = elim (lookup "id" (entries fs)) [
  | none ↦ err key_error
  | some id ↦ ok (show id, entries fs)
]
arm_of v = err type_error

unfoldable pub arms_onto : Dict (Dict Value) → List Value → Result (Dict (Dict Value))
unfolding arm_of insert
arms_onto acc [] = ok acc
arms_onto acc (v ∷ vs) = do a ← arm_of v; arms_onto (insert a.0 a.1 acc) vs

-- `arms`
unfoldable pub arms : Dict Value → Result (Dict (Dict Value))
unfolding loop_over arms_onto
arms given = do declared ← loop_over "conditions" given; arms_onto [] declared

abbrev pub known_flag : Option Value → Option String
known_flag (some (str s)) = if (s == enforcement_on) || (s == enforcement_off) then some s else none
known_flag v = none

abbrev pub or_assignment_error : {A : Type 0} → String → Option A → Result A
or_assignment_error what none = err (assignment what)
or_assignment_error what (some a) = ok a

-- `enforcement_of`
unfoldable pub enforcement_of : Dict Value → Result String
unfolding lookup
enforcement_of arm = or_assignment_error "enforcement" (known_flag (lookup "enforcement" arm))

-- The three parts of a trial unit.
abbrev pub three_parts : List String → Option (String × String × String)
three_parts (scenario ∷ arm ∷ index ∷ []) = some (scenario, arm, index)
three_parts parts = none

-- `arm_for`
unfoldable pub arm_for : Dict Value → String → Result (Dict Value)
unfolding rsplit2 arms lookup
arm_for given trial_unit = do
  parts ← or_assignment_error "malformed trial unit" (three_parts (rsplit2 trial_unit))
  declared ← arms given
  or_assignment_error "arm" (lookup parts.1 declared)

unfoldable pub inputs_of : Dict Value → Result (Dict Value)
unfolding lookup truthy to_dict
inputs_of scenario = elim (lookup "inputs" scenario) [
  | none ↦ ok []
  | some v ↦ if truthy v then or_type_error (to_dict v) else ok []
]
  where
    or_type_error : Option (Dict Value) → Result (Dict Value)
    or_type_error none = err type_error
    or_type_error (some d) = ok d

unfoldable pub scenario_inputs : String → List Value → Result (Dict Value)
unfolding inputs_of shown_field entries
scenario_inputs id [] = ok []
scenario_inputs id (obj fs ∷ rest) =
    let later = scenario_inputs id rest in
    if shown_field "name" (entries fs) == id then inputs_of (entries fs) else later
scenario_inputs id (v ∷ rest) = err attribute_error

abbrev pub or_value_error : {A : Type 0} → Option A → Result A
or_value_error none = err value_error
or_value_error (some a) = ok a

-- `_inputs_for`
unfoldable pub inputs_for : Dict Value → String → Result (Dict Value)
unfolding rsplit2 loop_over scenario_inputs
inputs_for given trial_unit = do
  parts ← or_value_error (three_parts (rsplit2 trial_unit))
  scenarios ← loop_over "scenarios" given
  scenario_inputs parts.0 scenarios

-- `planned_trials`
unfoldable pub planned_trials : Dict Value → Result (List String)
unfolding lookup elements show
planned_trials given = elim (lookup "planned_trials" given) [
  | some (arr units) ↦ ok (map show (elements units))
  | v ↦ err (assignment "assignment carries no planned_trials")
]
