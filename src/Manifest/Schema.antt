-- ===== src/Manifest/Schema.antt =====
-- axor_wrap/schemas/tool-manifest.schema.json, without the annotations `$schema`, `$id`, `title`,
-- `description` and `default`, which the validator does not read.
use axor_wrap.Base.{String, List, [], ◌∷◌, false}
use axor_wrap.Base.Dict.{Dict}
use axor_wrap.Value.{Value, str, bool, arr, of_dict, of_strings, fields, items}

abbrev pub typed : String → Value
typed t = of_dict (("type", str t) ∷ [])

abbrev pub one_of : List String → Value
one_of ss = of_dict (("enum", arr (of_strings ss)) ∷ [])

abbrev pub texts_schema : Value
texts_schema = of_dict (("type", str "array") ∷ ("items", typed "string") ∷ [])

abbrev pub closed_object : List String → Dict Value → Value
closed_object required properties = of_dict (
    ("type", str "object")
    ∷ ("required", arr (of_strings required))
    ∷ ("additionalProperties", bool false)
    ∷ ("properties", of_dict properties)
    ∷ [])

abbrev pub open_object : Dict Value → Value
open_object properties = of_dict (
    ("type", str "object")
    ∷ ("additionalProperties", bool false)
    ∷ ("properties", of_dict properties)
    ∷ [])

abbrev pub classes_schema : Value
classes_schema = one_of ("READ" ∷ "WRITE" ∷ "EXPORT" ∷ "EXEC" ∷ [])

abbrev pub rule_schema : Value
rule_schema = closed_object ("when" ∷ "class" ∷ []) (
    ("when", of_dict (("$ref", str "predicate.schema.json#/$defs/matcher_map") ∷ []))
    ∷ ("class", classes_schema)
    ∷ [])

abbrev pub effect_schema : Value
effect_schema = closed_object ("default_class" ∷ "driving_args" ∷ []) (
    ("default_class", classes_schema)
    ∷ ("driving_args", texts_schema)
    ∷ ("resolve", of_dict (("type", str "array") ∷ ("items", rule_schema) ∷ []))
    ∷ [])

abbrev pub real_execution_schema : Value
real_execution_schema = open_object (
    ("opt_in", typed "boolean")
    ∷ (
      "requires",
      of_dict (
          ("type", str "array")
          ∷ (
            "items",
            one_of ("isolated_test_account" ∷ "resource_allowlist" ∷ "dry_run_confirmed" ∷ []),
          )
          ∷ []),
    )
    ∷ [])

abbrev pub simulation_schema : Value
simulation_schema = open_object (
    ("supported", typed "boolean")
    ∷ ("adapter", typed "string")
    ∷ ("real_execution", real_execution_schema)
    ∷ [])

abbrev pub reset_schema : Value
reset_schema = open_object (
    ("strategy", one_of ("stateless" ∷ "fixture" ∷ "snapshot_restore" ∷ []))
    ∷ ("fixture_ref", typed "string")
    ∷ [])

abbrev pub manifest_schema : Value
manifest_schema =
    closed_object ("schema_version" ∷ "id" ∷ "args_schema" ∷ "effect" ∷ "side_effecting" ∷ []) (
      ("schema_version", of_dict (("const", str "tool-manifest/v1") ∷ []))
      ∷ ("id", typed "string")
      ∷ ("args_schema", typed "object")
      ∷ ("result_schema", typed "object")
      ∷ ("effect", effect_schema)
      ∷ ("untrusted_fields", texts_schema)
      ∷ ("sensitive_fields", texts_schema)
      ∷ ("side_effecting", typed "boolean")
      ∷ ("simulation", simulation_schema)
      ∷ ("reset", reset_schema)
      ∷ [])

-- `embedded_schema`
unfoldable pub embedded_schema : Value
unfolding fields items of_strings
embedded_schema = manifest_schema
