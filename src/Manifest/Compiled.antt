-- ===== src/Manifest/Compiled.antt =====
-- From detected tools to the governor's configuration: roles.py, manifest.py and compile.py together.
use axor_wrap.Base.{
  String, Bool, true, false, not, none, List, [], ◌∷◌, map, ◌≡◌, refl, arith, contains, Among,
  eq_iff, ◌↔◌, ◌⊎◌, Bool-cases, inl, inr, sym, ◌∙◌, ap, subst,
}
use axor_wrap.Base.Dict.{Dict, lookup}
use axor_wrap.Base.Sorting.{sorted, contains-sorted}
use axor_wrap.Errors.{ok}
use axor_wrap.Value.{Value, elements, of_strings, entries, fields}
use axor_wrap.Value.Show.{show}
use axor_wrap.Compile.Manifests.{
  Reading, read, override_items, policy_field, allowed_values, meets_egress, read_all, ids, is_sink,
  shown_field, effect_of, classes_of, listed, texts, truthy_at, rule_classes, Compiled,
  compile_manifests, assemble,
}
use axor_wrap.Compile.Sinks.{ids-contains, contains-ids}
use axor_wrap.Detect.{DetectedTool}
use axor_wrap.Roles.{EffectGuess, infer_effect}
use axor_wrap.Manifest.{
  effect_classes, build_manifest, class_or_fallback, listed_field, manifest_fields, described,
  or_object_schema,
}

-- The manifest of a tool, with its guessed class.
unfoldable pub inferred_manifest : DetectedTool → Dict Value
unfolding build_manifest infer_effect
inferred_manifest tool = build_manifest tool (infer_effect tool)

show-texts : (ss : List String) → map show (elements (of_strings ss)) ≡ ss
unfolding show elements of_strings
show-texts [] = refl
show-texts (s ∷ ss) = ap (λ r. s ∷ r) (show-texts ss)

abbrev reading_of : DetectedTool → EffectGuess → Reading
reading_of tool effect = record {
  tool_id = tool.id;
  classes = class_or_fallback effect.default_class ∷ [];
  fields = effect.untrusted_fields;
  is_sensitive = false;
  args = effect.driving_args;
}

texts-listed :
    (id : String) (args_schema : Dict Value) (cls : String) (driving us : List String)
    → texts "untrusted_fields"
        (manifest_fields id args_schema cls driving (listed_field "untrusted_fields" us))
      ≡ ok us
unfolding texts listed lookup
texts-listed id args_schema cls driving [] = refl
texts-listed id args_schema cls driving (u ∷ us) = ap ok (show-texts (u ∷ us))

unmarked :
    (id : String) (args_schema : Dict Value) (cls : String) (driving us : List String)
    → truthy_at "sensitive_fields"
        (manifest_fields id args_schema cls driving (listed_field "untrusted_fields" us))
      ≡ false
unfolding truthy_at lookup
unmarked id args_schema cls driving [] = refl
unmarked id args_schema cls driving (u ∷ us) = refl

read-manifest :
    (tool : DetectedTool) (effect : EffectGuess)
    → read (build_manifest tool effect) ≡ ok (reading_of tool effect)
unfolding read build_manifest texts effect_of classes_of listed rule_classes shown_field fields
    entries lookup show elements
read-manifest tool effect = rw (
  texts-listed tool.id (described tool.description (or_object_schema tool.args_schema))
      (class_or_fallback effect.default_class) effect.driving_args effect.untrusted_fields,
  unmarked tool.id (described tool.description (or_object_schema tool.args_schema))
      (class_or_fallback effect.default_class) effect.driving_args effect.untrusted_fields,
  show-texts effect.driving_args,
)

abbrev readings : List DetectedTool → List Reading
readings [] = []
readings (tool ∷ tools) = reading_of tool (infer_effect tool) ∷ readings tools

read_all-manifests :
    (tools : List DetectedTool) → read_all (map inferred_manifest tools) ≡ ok (readings tools)
unfolding read_all inferred_manifest
read_all-manifests [] = refl
read_all-manifests (tool ∷ tools) =
    rw (read-manifest tool (infer_effect tool), read_all-manifests tools)

compile-manifests :
    (tools : List DetectedTool)
    → compile_manifests (map inferred_manifest tools) none none
      ≡ ok (assemble (readings tools) [] none)
unfolding compile_manifests override_items policy_field allowed_values
compile-manifests tools = rw (read_all-manifests tools)

-- The classes of which nothing leaves.
abbrev pub harmless_classes : List String
harmless_classes = "READ" ∷ "WRITE" ∷ []

abbrev LeavesUnlessHarmless : String → Type 0
LeavesUnlessHarmless cls =
    meets_egress (class_or_fallback cls ∷ []) ≡ not (contains harmless_classes cls)

leaves_unless-harmless : (cls : String) → LeavesUnlessHarmless cls
unfolding class_or_fallback
leaves_unless-harmless cls = elim (Bool-cases (contains effect_classes cls)) [
  | inl p ↦ known (member cls p)
  | inr p ↦ rw (p) (ground arith)
]
  where
    member :
        (k : String)
        → contains effect_classes k ≡ true
        → (k ≡ "READ") ⊎ ((k ≡ "WRITE") ⊎ ((k ≡ "EXPORT") ⊎ (k ≡ "EXEC")))
    member k h =
        ground (arith, eq_iff k "READ", eq_iff k "WRITE", eq_iff k "EXPORT", eq_iff k "EXEC")

    at : (k : String) → cls ≡ k → LeavesUnlessHarmless k → LeavesUnlessHarmless cls
    at k p h = subst LeavesUnlessHarmless (sym p) h

    known :
        (cls ≡ "READ") ⊎ ((cls ≡ "WRITE") ⊎ ((cls ≡ "EXPORT") ⊎ (cls ≡ "EXEC")))
        → LeavesUnlessHarmless cls
    known (inl p) = at "READ" p refl
    known (inr (inl p)) = at "WRITE" p refl
    known (inr (inr (inl p))) = at "EXPORT" p refl
    known (inr (inr (inr p))) = at "EXEC" p refl

is_sink-harmless :
    (tool : DetectedTool) (effect : EffectGuess)
    → is_sink (reading_of tool effect) ≡ not (contains harmless_classes effect.default_class)
unfolding class_or_fallback
is_sink-harmless tool effect = leaves_unless-harmless effect.default_class

Among-readings :
    (tools : List DetectedTool) (tool : DetectedTool)
    → Among tool tools
    → Among (reading_of tool (infer_effect tool)) (readings tools)
Among-readings [] tool among = absurd among
Among-readings (t ∷ tools) tool among = elim among [
  | inl p ↦ inl (ap (λ x. reading_of x (infer_effect x)) p)
  | inr later ↦ inr (Among-readings tools tool later)
]

readings-Among :
    (tools : List DetectedTool) (r : Reading)
    → Among r (readings tools)
    → (tool : DetectedTool) × Among tool tools × (r ≡ reading_of tool (infer_effect tool))
readings-Among [] r among = absurd among
readings-Among (t ∷ tools) r among = elim among [
  | inl p ↦ (t, inl refl, p)
  | inr later ↦ let (tool, there, p) = readings-Among tools r later in (tool, inr there, p)
]

-- The manifests of any detected tools compile, and a tool is among the egress sinks if and only if
-- one of its id is detected whose guessed class is neither READ nor WRITE: an unknown one counts.
pub compile-inferred :
    (tools : List DetectedTool)
    → (c : Compiled) × (compile_manifests (map inferred_manifest tools) none none ≡ ok c)
      × ((z : String)
          → (contains c.egress_sinks z ≡ true) ↔ (
              (tool : DetectedTool) × Among tool tools
              × (tool.id ≡ z)
              × (contains harmless_classes (infer_effect tool).default_class ≡ false)))
compile-inferred tools =
    (assemble (readings tools) [] none, compile-manifests tools, λ z. (declared z, found z))
  where
    not_true : {b : Bool} → not b ≡ true → b ≡ false
    not_true {b} h = ground arith

    declared :
        (z : String)
        → contains (sorted (ids is_sink (readings tools))) z ≡ true
        → (tool : DetectedTool) × Among tool tools
          × (tool.id ≡ z)
          × (contains harmless_classes (infer_effect tool).default_class ≡ false)
    declared z h =
        let (r, there, test, id) =
          contains-ids is_sink (readings tools) z
            (sym (contains-sorted (ids is_sink (readings tools)) z) ∙ h) in
        let (tool, among, p) = readings-Among tools r there in
        (
          tool,
          among,
          sym (ap (λ x. x.tool_id) p) ∙ id,
          not_true (sym (is_sink-harmless tool (infer_effect tool)) ∙ (sym (ap is_sink p) ∙ test)),
        )

    found :
        (z : String)
        → (tool : DetectedTool) × Among tool tools
          × (tool.id ≡ z)
          × (contains harmless_classes (infer_effect tool).default_class ≡ false)
        → contains (sorted (ids is_sink (readings tools))) z ≡ true
    found z (tool, among, id, harmful) =
        contains-sorted (ids is_sink (readings tools)) z
        ∙ subst (λ x. contains (ids is_sink (readings tools)) x ≡ true) id
            (ids-contains is_sink (readings tools) (reading_of tool (infer_effect tool))
              (Among-readings tools tool among)
              (is_sink-harmless tool (infer_effect tool) ∙ ap not harmful))
