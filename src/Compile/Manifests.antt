-- ===== src/Compile/Manifests.antt =====
-- `_expand` and `compile_manifests`.
use axor_wrap.Base.{
  String, Bool, true, false, ◌||◌, Option, none, some, List, [], ◌∷◌, ◌++◌, map, contains,
  if◌then◌else◌,
}
use axor_wrap.Base.Dict.{Dict, lookup, insert}
use axor_wrap.Base.Text.{lower, strip_prefix}
use axor_wrap.Base.Sorting.{str_le, sorted}
use axor_wrap.Errors.{Result, ok, err, type_error, value_error, key_error, attribute_error, ◌>>=◌}
use axor_wrap.Value.{Value, str, arr, obj, entries, elements, truthy, iterate}
use axor_wrap.Value.Show.{show}

abbrev pub egress_classes : List String
egress_classes = "EXPORT" ∷ "EXEC" ∷ []

abbrev input_ref : String
input_ref = "$inputs."

-- The key of an item that refers to an input.
unfoldable pub reference : Value → Option String
unfolding strip_prefix
reference (str s) = strip_prefix input_ref s
reference v = none

-- A list is spliced, any other value is one item.
unfoldable pub spliced : Value → List Value
unfolding elements
spliced (arr vs) = elements vs
spliced v = v ∷ []

abbrev pub find_input : Option (Dict Value) → String → Option Value
find_input none key = none
find_input (some inputs) key = lookup key inputs

abbrev pub spliced_or_refused : Option Value → Result (List Value)
spliced_or_refused none = err value_error
spliced_or_refused (some value) = ok (spliced value)

abbrev pub resolve_reference : Option (Dict Value) → Value → Option String → Result (List Value)
resolve_reference inputs item none = ok (item ∷ [])
resolve_reference inputs item (some key) = spliced_or_refused (find_input inputs key)

unfoldable pub expand : Option (Dict Value) → List Value → Result (List Value)
expand inputs [] = ok []
expand inputs (item ∷ rest) = do
  here ← resolve_reference inputs item (reference item)
  later ← expand inputs rest
  ok (here ++ later)

-- `str(d.get(k))`
unfoldable pub shown_field : String → Dict Value → String
unfolding lookup show
shown_field k d = elim (lookup k d) [ none ↦ "None" | some v ↦ show v ]

-- `manifest.get("effect", {}) or {}`, of which `.get` is called
unfoldable pub effect_of : Dict Value → Result (Dict Value)
unfolding lookup truthy entries
effect_of manifest = elim (lookup "effect" manifest) [
  | none ↦ ok []
  | some (obj fs) ↦ ok (entries fs)
  | some v ↦ if truthy v then err attribute_error else ok []
]

abbrev or_type_error : Option (List Value) → Result (List Value)
or_type_error none = err type_error
or_type_error (some vs) = ok vs

-- the values of a loop over `d.get(k, [])`
unfoldable pub listed : String → Dict Value → Result (List Value)
unfolding lookup iterate
listed k d = elim (lookup k d) [ none ↦ ok [] | some v ↦ or_type_error (iterate v) ]

-- `[str(v) for v in d.get(k, [])]`
unfoldable pub texts : String → Dict Value → Result (List String)
unfolding listed show
texts k d = do vs ← listed k d; ok (map show vs)

unfoldable pub rule_class : Value → Result String
unfolding lookup entries show
rule_class (obj fs) = elim (lookup "class" (entries fs)) [
  | none ↦ err key_error
  | some v ↦ ok (show v)
]
rule_class v = err type_error

unfoldable pub rule_classes : List Value → Result (List String)
unfolding rule_class
rule_classes [] = ok []
rule_classes (rule ∷ rules) = do c ← rule_class rule; cs ← rule_classes rules; ok (c ∷ cs)

-- The classes to which the effect of a tool can resolve.
unfoldable pub classes_of : Dict Value → Result (List String)
unfolding shown_field listed rule_classes
classes_of effect = do
  rules ← listed "resolve" effect
  resolved ← rule_classes rules
  ok (shown_field "default_class" effect ∷ resolved)

-- `classes & EGRESS_CLASSES`
abbrev pub meets_egress : List String → Bool
meets_egress [] = false
meets_egress (c ∷ cs) = contains egress_classes c || meets_egress cs

-- What the loop reads from one manifest.
pub record Reading : Type 0 where
  pub tool_id : String
  pub classes : List String
  pub fields : List String
  pub is_sensitive : Bool
  pub args : List String

unfoldable pub truthy_at : String → Dict Value → Bool
unfolding lookup truthy
truthy_at k d = elim (lookup k d) [ none ↦ false | some v ↦ truthy v ]

unfoldable pub read : Dict Value → Result Reading
unfolding shown_field effect_of classes_of texts truthy_at
read manifest = do
  effect ← effect_of manifest
  classes ← classes_of effect
  fields ← texts "untrusted_fields" manifest
  args ← texts "driving_args" effect
  ok (record {
    tool_id = shown_field "id" manifest;
    classes = classes;
    fields = fields;
    is_sensitive = truthy_at "sensitive_fields" manifest;
    args = args;
  })

unfoldable pub read_all : List (Dict Value) → Result (List Reading)
unfolding read
read_all [] = ok []
read_all (m ∷ ms) = do r ← read m; rs ← read_all ms; ok (r ∷ rs)

abbrev pub is_sink : Reading → Bool
is_sink r = meets_egress r.classes

abbrev pub is_untrusted : Reading → Bool
is_untrusted r = elim r.fields [ [] ↦ false | f ∷ fs ↦ true ]

-- the ids of the manifests that pass a test, in the order of the loop
unfoldable pub ids : (Reading → Bool) → List Reading → List String
ids test [] = []
ids test (r ∷ rs) = if test r then r.tool_id ∷ ids test rs else ids test rs

unfoldable pub taint_fields : Dict (List String) → List Reading → Dict (List String)
unfolding insert sorted
taint_fields acc [] = acc
taint_fields acc (r ∷ rs) =
    taint_fields (if is_untrusted r then insert r.tool_id (sorted r.fields) acc else acc) rs

unfoldable pub driving : Dict (List String) → List Reading → Dict (List String)
unfolding insert
driving acc [] = acc
driving acc (r ∷ rs) = driving (elim r.args [ [] ↦ acc | a ∷ as_ ↦ insert r.tool_id r.args acc ]) rs

-- `dict(sorted(d.items()))`
entry_in_order : String → String → Dict String → Dict String
entry_in_order k v [] = (k, v) ∷ []
entry_in_order k v ((j, w) ∷ d) =
    if str_le k j then (k, v) ∷ (j, w) ∷ d else (j, w) ∷ entry_in_order k v d

unfoldable pub sorted_entries : Dict String → Dict String
unfolding entry_in_order
sorted_entries [] = []
sorted_entries ((k, v) ∷ d) = entry_in_order k v (sorted_entries d)

-- `(policy or {}).get(k)`
unfoldable pub policy_field : String → Option (Dict Value) → Option Value
unfolding lookup
policy_field k none = none
policy_field k (some p) = lookup k p

unfoldable pub override_items : Option Value → Result (Dict Value)
unfolding truthy entries
override_items none = ok []
override_items (some (obj fs)) = ok (entries fs)
override_items (some v) = if truthy v then err attribute_error else ok []

unfoldable pub overrides_onto : Dict String → Dict Value → Dict String
unfolding insert lower show
overrides_onto acc [] = acc
overrides_onto acc ((sink, v) ∷ rest) = overrides_onto (insert (lower sink) (show v) acc) rest

abbrev pub default_allowlist_arg : String
default_allowlist_arg = "recipient"

unfoldable pub first_arg : Option (List String) → String
first_arg (some (a ∷ rest)) = a
first_arg none = default_allowlist_arg
first_arg (some []) = default_allowlist_arg

-- A policy of one argument: the values that it may take.
pub record ValuePolicy : Type 0 where
  pub arg : String
  pub enum : List String

unfoldable pub policies :
    Dict (List String) → List String → List String → Dict ValuePolicy → Dict ValuePolicy
unfolding first_arg lookup insert
policies driven resolved [] acc = acc
policies driven resolved (sink ∷ sinks) acc =
    policies driven resolved sinks
      (insert sink (record { arg = first_arg (lookup sink driven); enum = resolved }) acc)

-- `allowlist`, resolved; nothing if it is absent or empty
unfoldable pub allowed_values : Option (Dict Value) → Option Value → Result (Option (List String))
unfolding truthy iterate expand show
allowed_values inputs none = ok none
allowed_values inputs (some v) =
    if truthy v
    then (do
      given ← or_type_error (iterate v)
      values ← expand inputs given
      ok (some (map show values)))
    else ok none

pub record Compiled : Type 0 where
  pub egress_sinks : List String
  pub untrusted_sources : List String
  pub sensitive_sources : List String
  pub untrusted_fields : Dict (List String)
  pub driving_args : Dict (List String)
  pub value_policies : Dict ValuePolicy
  pub consequence_overrides : Dict String

unfoldable pub value_policies_of :
    Option (List String) → Dict (List String) → List String → Dict ValuePolicy
unfolding policies
value_policies_of none driven sinks = []
value_policies_of (some resolved) driven sinks = policies driven resolved sinks []

abbrev pub assemble : List Reading → Dict Value → Option (List String) → Compiled
assemble rs given resolved = record {
  egress_sinks = sorted (ids is_sink rs);
  untrusted_sources = sorted (ids is_untrusted rs);
  sensitive_sources = sorted (ids (λ r. r.is_sensitive) rs);
  untrusted_fields = taint_fields [] rs;
  driving_args = driving [] rs;
  value_policies = value_policies_of resolved (driving [] rs) (sorted (ids is_sink rs));
  consequence_overrides = sorted_entries (overrides_onto [] given);
}

unfoldable pub compile_manifests :
    List (Dict Value) → Option (Dict Value) → Option (Dict Value) → Result Compiled
compile_manifests manifests policy inputs = do
  rs ← read_all manifests
  given ← override_items (policy_field "criticality_overrides" policy)
  resolved ← allowed_values inputs (policy_field "allowlist" policy)
  ok (assemble rs given resolved)
