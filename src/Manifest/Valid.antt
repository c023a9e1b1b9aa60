-- ===== src/Manifest/Valid.antt =====
-- manifest.py: every manifest that is built from a detected tool validates.
use axor_wrap.Base.{
  ℕ, suc, String, ◌<>◌, Bool, true, false, Option, some, List, [], ◌∷◌, ◌++◌, ◌≡◌, refl, arith,
  if◌then◌else◌, contains, Bool-cases, inl, inr, ap, ◌∙◌, ◌⊎◌,
}
use axor_wrap.Base.Dict.{Dict, lookup}
use axor_wrap.Value.{
  Value, bool, str, obj, Fields, entries, elements, fields, of_strings, of_dict, get,
}
use axor_wrap.Manifest.Schema.{
  typed, texts_schema, classes_schema, effect_schema, manifest_schema, embedded_schema,
}
use axor_wrap.Manifest.Check.{
  field_errors, fields_errors, items_errors, dict_errors, parts_errors, plain_errors, enum_errors,
  is_among, check, validate_manifest,
}
use axor_wrap.Detect.{DetectedTool}
use axor_wrap.Roles.{EffectGuess}
use axor_wrap.Manifest.{
  build_manifest, class_or_fallback, effect_classes, text_list, manifest_fields, listed_field,
  described, or_object_schema, whole_result, ensure_valid, invalid_if, harness_manifest,
}
use axor_wrap.Errors.{ok, err, manifest_validation}

module _ (search : String → String → Bool) (root : Value) where
  text-valid :
      (f : ℕ) (s path : String) → check search (suc f) root (str s) (typed "string") path ≡ some []
  unfolding check fields
  text-valid f s path = refl

  texts-valid :
      (f : ℕ) (ss : List String) (path : String) (i : ℕ)
      → items_errors (check search (suc f) root) (typed "string") path i (elements (of_strings ss))
        ≡ some []
  unfolding items_errors elements of_strings
  texts-valid f [] path i = refl
  texts-valid f (s ∷ ss) path i = rw (text-valid f s, texts-valid f ss path (suc i))

  text_list-valid :
      (f : ℕ) (ss : List String) (path : String)
      → check search (suc (suc f)) root (text_list ss) texts_schema path ≡ some []
  unfolding check plain_errors parts_errors fields get lookup entries
  text_list-valid f ss path = rw (texts-valid f ss path 0)

  open-valid :
      (part : Value → Value → String → Option (List String)) (path : String) (d : Dict Value)
      → fields_errors part [] (bool true) path d ≡ some []
  unfolding fields_errors lookup field_errors
  open-valid part path [] = refl
  open-valid part path ((k, v) ∷ d) = rw (open-valid part path d)

  object-valid :
      (f : ℕ) (fs : Fields) (path : String)
      → check search (suc f) root (obj fs) (typed "object") path ≡ some []
  unfolding check plain_errors parts_errors dict_errors fields get lookup entries
  object-valid f fs path = rw (open-valid (check search f root) path (entries fs))

  class-valid :
      (f : ℕ) (cls path : String)
      → contains effect_classes cls ≡ true
      → check search (suc f) root (str cls) classes_schema path ≡ some []
  unfolding check plain_errors parts_errors enum_errors is_among fields get lookup entries
      of_strings elements
  class-valid f cls path h = ground (arith, h)

  effect-valid :
      (f : ℕ) (cls path : String) (driving : List String)
      → contains effect_classes cls ≡ true
      → check search
          (suc (suc (suc f)))
          root
          (of_dict (("default_class", str cls) ∷ ("driving_args", text_list driving) ∷ []))
          effect_schema
          path
        ≡ some []
  unfolding check plain_errors parts_errors dict_errors fields_errors field_errors fields get lookup
      entries of_strings elements
  effect-valid f cls path driving h = rw (
    class-valid (suc f) cls (path <> ".default_class") h,
    text_list-valid f driving (path <> ".driving_args"),
  )

  -- The manifest, with its two optional fields.
  manifest-valid :
      (f : ℕ) (id : String) (args_schema : Dict Value) (cls : String)
      (driving untrusted sensitive : List String)
      → contains effect_classes cls ≡ true
      → check search
          (suc (suc (suc (suc f))))
          root
          (of_dict (
            manifest_fields id args_schema cls driving (
              listed_field "untrusted_fields" untrusted
              ++ listed_field "sensitive_fields" sensitive)))
          manifest_schema
          "$"
        ≡ some []
  unfolding check plain_errors parts_errors dict_errors fields_errors field_errors fields get lookup
      entries of_strings elements
  manifest-valid f id args_schema cls driving [] [] h = rw (
    object-valid (suc (suc f)) (fields args_schema) "$.args_schema",
    effect-valid f cls "$.effect" driving h,
  )
  manifest-valid f id args_schema cls driving [] (s ∷ ss) h = rw (
    object-valid (suc (suc f)) (fields args_schema) "$.args_schema",
    effect-valid f cls "$.effect" driving h,
    text_list-valid (suc f) (s ∷ ss) "$.sensitive_fields",
  )
  manifest-valid f id args_schema cls driving (u ∷ us) [] h = rw (
    object-valid (suc (suc f)) (fields args_schema) "$.args_schema",
    effect-valid f cls "$.effect" driving h,
    text_list-valid (suc f) (u ∷ us) "$.untrusted_fields",
  )
  manifest-valid f id args_schema cls driving (u ∷ us) (s ∷ ss) h = rw (
    object-valid (suc (suc f)) (fields args_schema) "$.args_schema",
    effect-valid f cls "$.effect" driving h,
    text_list-valid (suc f) (u ∷ us) "$.untrusted_fields",
    text_list-valid (suc f) (s ∷ ss) "$.sensitive_fields",
  )

class_or_fallback-contains : (cls : String) → contains effect_classes (class_or_fallback cls) ≡ true
unfolding class_or_fallback
class_or_fallback-contains cls = elim (Bool-cases (contains effect_classes cls)) [
  | inl p ↦ rw (p, p)
  | inr p ↦ rw (p)
]

-- A manifest of two optional fields is the one of the builders.
no_sensitive :
    (us : List String)
    → listed_field "untrusted_fields" us
      ≡ (listed_field "untrusted_fields" us ++ listed_field "sensitive_fields" [])
no_sensitive [] = refl
no_sensitive (u ∷ us) = refl

whole_result-listed :
    (key : String) (b : Bool)
    → whole_result key b ≡ listed_field key (if b then "result" ∷ [] else [])
whole_result-listed key true = refl
whole_result-listed key false = refl

module _ (search : String → String → Bool) where
  check-valid :
      (id : String) (args_schema : Dict Value) (cls : String)
      (driving untrusted sensitive : List String)
      → contains effect_classes cls ≡ true
      → validate_manifest search (
          of_dict (
            manifest_fields id args_schema cls driving (
              listed_field "untrusted_fields" untrusted
              ++ listed_field "sensitive_fields" sensitive)))
        ≡ []
  unfolding validate_manifest embedded_schema
  check-valid id args_schema cls driving untrusted sensitive h =
      rw (manifest-valid search manifest_schema 6 id args_schema cls driving untrusted sensitive h)

  -- The manifest of every detected tool validates, whatever its guess: an unknown class became EXEC.
  pub build_manifest-valid :
      (tool : DetectedTool) (effect : EffectGuess)
      → validate_manifest search (of_dict (build_manifest tool effect)) ≡ []
  unfolding build_manifest
  build_manifest-valid tool effect = rw (no_sensitive effect.untrusted_fields) (
      check-valid tool.id (described tool.description (or_object_schema tool.args_schema))
        (class_or_fallback effect.default_class) effect.driving_args effect.untrusted_fields []
        (class_or_fallback-contains effect.default_class))

  whole-valid :
      (id : String) (args_schema : Dict Value) (cls : String) (driving : List String)
      (untrusted sensitive : Bool)
      → contains effect_classes cls ≡ true
      → validate_manifest search (
          of_dict (
            manifest_fields id args_schema cls driving (
              whole_result "untrusted_fields" untrusted
              ++ whole_result "sensitive_fields" sensitive)))
        ≡ []
  whole-valid id args_schema cls driving untrusted sensitive h =
      rw
        (
          whole_result-listed "untrusted_fields" untrusted,
          whole_result-listed "sensitive_fields" sensitive,
        )
        (check-valid id args_schema cls driving _ _ h)

  ensure_valid-ok :
      (manifest : Dict Value)
      → validate_manifest search (of_dict manifest) ≡ []
      → ensure_valid search manifest ≡ ok manifest
  unfolding ensure_valid
  ensure_valid-ok manifest h = ap (invalid_if manifest) h

  harness_manifest-known :
      (id cls : String) (driving : List String) (untrusted sensitive : Bool)
      (args_schema : Dict Value)
      → contains effect_classes cls ≡ true
      → harness_manifest search id cls driving untrusted sensitive args_schema
        ≡ ensure_valid search (
            manifest_fields id (or_object_schema args_schema) cls driving (
              whole_result "untrusted_fields" untrusted
              ++ whole_result "sensitive_fields" sensitive))
  unfolding harness_manifest ensure_valid
  harness_manifest-known id cls driving untrusted sensitive args_schema h = rw (h)

  -- Of asserted roles a manifest is built if the class is one of the four, and otherwise the
  -- manifest is refused, with the tool's id.
  pub harness_manifest-returns :
      (id cls : String) (driving : List String) (untrusted is_sensitive : Bool)
      (args_schema : Dict Value)
      → ((contains effect_classes cls ≡ true)
          × (harness_manifest search id cls driving untrusted is_sensitive args_schema
              ≡ ok (
                  manifest_fields id (or_object_schema args_schema) cls driving (
                    whole_result "untrusted_fields" untrusted
                    ++ whole_result "sensitive_fields" is_sensitive))))
        ⊎ ((contains effect_classes cls ≡ false)
            × (harness_manifest search id cls driving untrusted is_sensitive args_schema
                ≡ err (
                    manifest_validation id
                      ("effect_class must be one of ['EXEC', 'EXPORT', 'READ', 'WRITE']" ∷ []))))
  unfolding harness_manifest
  harness_manifest-returns id cls driving untrusted is_sensitive args_schema =
      elim (Bool-cases (contains effect_classes cls)) [
        | inl p ↦ inl (
          p,
          harness_manifest-known id cls driving untrusted is_sensitive args_schema p
              ∙ ensure_valid-ok _ (
                  whole-valid id (or_object_schema args_schema) cls driving untrusted is_sensitive
                    p),
        )
        | inr p ↦ inr (p, rw (p))
      ]
