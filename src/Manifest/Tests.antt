-- ===== src/Manifest/Tests.antt =====
-- Detected tools, their manifests, and what is compiled from these.
use axor_wrap.Base.{
  String, Bool, true, false, none, some, List, [], ◌∷◌, map, ◌≡◌, refl, contains, Among, ◌↔◌, ◌⊎◌,
}
use axor_wrap.Errors.{ok, err, manifest_validation}
use axor_wrap.Value.{Value, str, null, obj, of_dict, of_list, bool, end}
use axor_wrap.Compile.Manifests.{Compiled, compile_manifests}
use axor_wrap.Detect.{DetectedTool}
use axor_wrap.Roles.{EffectGuess, infer_effect}
use axor_wrap.Manifest.{
  build_manifest, harness_manifest, manifest_fields, whole_result, or_object_schema, effect_classes,
}
use axor_wrap.Manifest.Schema.{embedded_schema}
use axor_wrap.Manifest.Check.{check, schema_fuel, validate_manifest}
use axor_wrap.Manifest.Returns.{check-returns}
use axor_wrap.Manifest.Valid.{build_manifest-valid, harness_manifest-returns}
use axor_wrap.Manifest.Accepted.Compiles.{compile-accepted}
use axor_wrap.Base.Dict.{Dict}
use axor_wrap.Manifest.{text_list}
use axor_wrap.Base.{inl, inr, ap, ◌∙◌}
use axor_wrap.Manifest.Compiled.{inferred_manifest, harmless_classes, compile-inferred}

abbrev detected : String → String → DetectedTool
detected id description = record {
  id = id;
  source = "agent.py:1";
  description = description;
  args_schema = ("properties", of_dict (("to", of_dict []) ∷ [])) ∷ [];
  framework = "langchain";
  schema_confidence = "high";
}

abbrev tools : List DetectedTool
tools =
    detected "sendMail" "" ∷ detected "read_page" "Fetches a page." ∷ detected "frobnicate" "" ∷ []

abbrev classes : List DetectedTool → List String
classes = map (λ t. (infer_effect t).default_class)

classes_test : classes tools ≡ "EXPORT" ∷ "READ" ∷ "UNKNOWN" ∷ []
unfolding infer_effect axor_wrap.Value.fields
classes_test = refl

compile-inferred_example :
    (c : Compiled) × (compile_manifests (map inferred_manifest tools) none none ≡ ok c)
    × ((z : String)
        → (contains c.egress_sinks z ≡ true) ↔ (
            (tool : DetectedTool) × Among tool tools
            × (tool.id ≡ z)
            × (contains harmless_classes (infer_effect tool).default_class ≡ false)))
compile-inferred_example = compile-inferred tools

abbrev any_match : String → String → Bool
any_match pattern s = true

abbrev unknown : EffectGuess
unknown = record {
  default_class = "UNKNOWN";
  confidence = "low";
  reason = "";
  driving_args = "to" ∷ [];
  untrusted_fields = "result.*" ∷ [];
}

build_manifest-valid_example :
    validate_manifest any_match (of_dict (build_manifest (detected "sendMail" "Sends.") unknown))
    ≡ []
build_manifest-valid_example = build_manifest-valid any_match (detected "sendMail" "Sends.") unknown

harness_manifest-returns_example :
    ((contains effect_classes "ADMIN" ≡ true)
      × (harness_manifest any_match "grant" "ADMIN" ("to" ∷ []) true false []
          ≡ ok (
              manifest_fields "grant"
                (or_object_schema [])
                "ADMIN"
                ("to" ∷ [])
                (whole_result "untrusted_fields" true))))
    ⊎ ((contains effect_classes "ADMIN" ≡ false)
        × (harness_manifest any_match "grant" "ADMIN" ("to" ∷ []) true false []
            ≡ err (
                manifest_validation "grant"
                  ("effect_class must be one of ['EXEC', 'EXPORT', 'READ', 'WRITE']" ∷ []))))
harness_manifest-returns_example =
    harness_manifest-returns any_match "grant" "ADMIN" ("to" ∷ []) true false []

check-returns_example :
    (es : List String) × (check any_match schema_fuel embedded_schema (obj end) embedded_schema "$"
      ≡ some es)
check-returns_example = check-returns any_match (obj end)

abbrev with_rule : Dict Value
with_rule =
    ("schema_version", str "tool-manifest/v1")
    ∷ ("id", str "notify")
    ∷ ("args_schema", of_dict [])
    ∷ (
      "effect",
      of_dict (
          ("default_class", str "WRITE")
          ∷ ("driving_args", text_list ("to" ∷ []))
          ∷ (
            "resolve",
            of_list (
                of_dict (("when", of_dict (("to", str "*") ∷ [])) ∷ ("class", str "EXPORT") ∷ [])
                ∷ []),
          )
          ∷ []),
    )
    ∷ ("side_effecting", bool true)
    ∷ []

valid_test : validate_manifest any_match (of_dict with_rule) ≡ []
unfolding validate_manifest axor_wrap.Value.fields axor_wrap.Value.items
valid_test = refl

with_rule-valid :
    (m : Dict Value) → Among m (with_rule ∷ []) → validate_manifest any_match (of_dict m) ≡ []
with_rule-valid m (inl p) = ap (λ d. validate_manifest any_match (of_dict d)) p ∙ valid_test
with_rule-valid m (inr later) = absurd later

compile-accepted_example : (c : Compiled) × (compile_manifests (with_rule ∷ []) none none ≡ ok c)
compile-accepted_example = compile-accepted any_match (with_rule ∷ []) with_rule-valid

missing_test : validate_manifest any_match null ≡ "$: type object, got NoneType" ∷ []
unfolding validate_manifest
missing_test = refl
