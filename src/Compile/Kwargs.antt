-- ===== src/Compile/Kwargs.antt =====
-- compile.py, `governor_kwargs`: the arguments of a governor's constructor.
use axor_wrap.Base.{String, Option, none, some, List, [], ◌∷◌, map}
use axor_wrap.Base.Dict.{Dict}
use axor_wrap.Base.Text.{upper}
use axor_wrap.Errors.{Result, ok, err, key_error, ◌>>=◌}
use axor_wrap.Value.{Value}
use axor_wrap.Compile.Manifests.{ValuePolicy, compile_manifests}

-- What the module takes from axor_core: `policy.value_policy.enum`, and the members of
-- `contracts.canonical.ConsequenceClass` by their names.
pub record Vocabulary : Type 1 where
  pub Predicate : Type 0
  pub enum_predicate : String → List String → Predicate
  pub ConsequenceClass : Type 0
  pub class_named : String → Option ConsequenceClass

module _ (V : Vocabulary) where
  -- The last three are left out where they are empty.
  pub record Kwargs : Type 0 where
    pub egress_sinks : List String
    pub untrusted_sources : List String
    pub driving_args : Dict (List String)
    pub sensitive_sources : Option (List String)
    pub value_policies : Option (Dict (List (Vocabulary.Predicate V)))
    pub consequence_overrides : Option (Dict (Vocabulary.ConsequenceClass V))

  abbrev pub if_any : {A : Type 0} → List A → Option (List A)
  if_any [] = none
  if_any (x ∷ xs) = some (x ∷ xs)

  abbrev pub predicates : String × ValuePolicy → String × List (Vocabulary.Predicate V)
  predicates (sink, p) = (sink, Vocabulary.enum_predicate V p.arg p.enum ∷ [])

  abbrev pub class_or_error :
      Option (Vocabulary.ConsequenceClass V) → Result (Vocabulary.ConsequenceClass V)
  class_or_error none = err key_error
  class_or_error (some c) = ok c

  unfoldable pub override_classes : Dict String → Result (Dict (Vocabulary.ConsequenceClass V))
  unfolding upper
  override_classes [] = ok []
  override_classes ((sink, name) ∷ rest) = do
    c ← class_or_error (Vocabulary.class_named V (upper name))
    cs ← override_classes rest
    ok ((sink, c) ∷ cs)

  unfoldable pub governor_kwargs :
      List (Dict Value) → Option (Dict Value) → Option (Dict Value) → Result Kwargs
  unfolding compile_manifests override_classes
  governor_kwargs manifests policy inputs = do
    canon ← compile_manifests manifests policy inputs
    classes ← override_classes canon.consequence_overrides
    ok (record {
      egress_sinks = canon.egress_sinks;
      untrusted_sources = canon.untrusted_sources;
      driving_args = canon.driving_args;
      sensitive_sources = if_any canon.sensitive_sources;
      value_policies = if_any (map predicates canon.value_policies);
      consequence_overrides = if_any classes;
    })
