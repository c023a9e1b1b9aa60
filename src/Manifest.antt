-- ===== src/Manifest.antt =====
-- axor_wrap/manifest.py: manifests built from detected tools or from asserted roles.
pub mod Schema
pub mod Check
pub mod Returns
pub mod Valid
pub mod Compiled
pub mod Accepted
mod Tests
use axor_wrap.Base.{
  String, Bool, true, false, not, ◌&&◌, Option, none, some, List, [], ◌∷◌, ◌++◌, ◌==◌, contains,
  if◌then◌else◌,
}
use axor_wrap.Base.Dict.{Dict, has_key, insert, lookup}
use axor_wrap.Base.Text.{empty}
use axor_wrap.Errors.{Result, ok, err, manifest_validation}
use axor_wrap.Value.{Value, str, bool, arr, obj, of_dict, of_strings, fields}
use axor_wrap.Compile.Manifests.{shown_field}
use axor_wrap.Detect.{DetectedTool}
use axor_wrap.Roles.{EffectGuess}
use axor_wrap.Manifest.Check.{validate_manifest}

abbrev pub schema_version : String
schema_version = "tool-manifest/v1"

abbrev pub effect_classes : List String
effect_classes = "READ" ∷ "WRITE" ∷ "EXPORT" ∷ "EXEC" ∷ []

abbrev pub unknown_fallback : String
unknown_fallback = "EXEC"

-- The class that a manifest states for a guess.
unfoldable pub class_or_fallback : String → String
class_or_fallback cls = if contains effect_classes cls then cls else unknown_fallback

abbrev pub or_object_schema : Dict Value → Dict Value
or_object_schema [] = ("type", str "object") ∷ []
or_object_schema (e ∷ d) = e ∷ d

unfoldable pub described : String → Dict Value → Dict Value
unfolding lookup insert
described description schema =
    if not (empty description) && not (has_key "description" schema)
    then insert "description" (str description) schema
    else schema

abbrev pub text_list : List String → Value
text_list ss = arr (of_strings ss)

-- The optional field of a manifest.
abbrev pub listed_field : String → List String → Dict Value
listed_field key [] = []
listed_field key (s ∷ ss) = (key, text_list (s ∷ ss)) ∷ []

abbrev pub manifest_fields : String → Dict Value → String → List String → Dict Value → Dict Value
manifest_fields id args_schema cls driving optional =
    ("schema_version", str schema_version)
    ∷ ("id", str id)
    ∷ ("args_schema", of_dict args_schema)
    ∷ ("effect", of_dict (("default_class", str cls) ∷ ("driving_args", text_list driving) ∷ []))
    ∷ ("side_effecting", bool (not (cls == "READ")))
    ∷ optional

unfoldable pub build_manifest : DetectedTool → EffectGuess → Dict Value
unfolding class_or_fallback described
build_manifest tool effect =
    manifest_fields tool.id (described tool.description (or_object_schema tool.args_schema))
      (class_or_fallback effect.default_class) effect.driving_args
      (listed_field "untrusted_fields" effect.untrusted_fields)

abbrev pub whole_result : String → Bool → Dict Value
whole_result key true = (key, text_list ("result" ∷ [])) ∷ []
whole_result key false = []

abbrev pub invalid_if : Dict Value → List String → Result (Dict Value)
invalid_if manifest [] = ok manifest
invalid_if manifest (e ∷ es) = err (manifest_validation (shown_field "id" manifest) (e ∷ es))

module _ (search : String → String → Bool) where
  -- `ensure_valid`
  unfoldable pub ensure_valid : Dict Value → Result (Dict Value)
  unfolding validate_manifest
  ensure_valid manifest = invalid_if manifest (validate_manifest search (of_dict manifest))

  unfoldable pub harness_manifest :
      String → String → List String → Bool → Bool → Dict Value → Result (Dict Value)
  unfolding ensure_valid
  harness_manifest id cls driving untrusted is_sensitive args_schema =
      if contains effect_classes cls
      then ensure_valid (
          manifest_fields id (or_object_schema args_schema) cls driving (
            whole_result "untrusted_fields" untrusted
            ++ whole_result "sensitive_fields" is_sensitive))
      else err (
          manifest_validation id
            ("effect_class must be one of ['EXEC', 'EXPORT', 'READ', 'WRITE']" ∷ []))
