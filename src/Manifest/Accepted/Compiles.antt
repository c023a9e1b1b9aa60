-- ===== src/Manifest/Accepted/Compiles.antt =====
-- manifest.py and compile.py: what the validator accepts, the compiler takes.
use axor_wrap.Base.{
  ℕ, suc, String, Bool, true, none, some, List, [], ◌∷◌, map, ◌≡◌, refl, if◌then◌else◌,
  Option-cases, inl, inr, ap, ◌∙◌, sym, subst, Among,
}
use axor_wrap.Base.Dict.{Dict, lookup}
use axor_wrap.Errors.{ok}
use axor_wrap.Value.{
  Value, str, arr, obj, Fields, Items, entries, elements, fields, get, iterate, of_strings, of_dict,
}
use axor_wrap.Value.Show.{show}
use axor_wrap.Manifest.Schema.{
  typed, texts_schema, rule_schema, effect_schema, manifest_schema, embedded_schema,
}
use axor_wrap.Manifest.Check.{
  list_errors, fields_of, or_true, fields_errors, items_errors, dict_errors, parts_errors,
  plain_errors, values_of, has_properties, type_mismatch, required_errors, check, validate_manifest,
}
use axor_wrap.Compile.Manifests.{
  effect_of, shown_field, listed, texts, rule_class, rule_classes, classes_of, Reading, truthy_at,
  assemble, read, read_all, Compiled, compile_manifests, override_items, policy_field,
  allowed_values,
}
use axor_wrap.Manifest.Accepted.{
  some_inj, both-valid, or_no_errors-valid, lookup-valid, items-valid, plain-valid, object-accepted,
  array-accepted, required-valid,
}

module _ (search : String → String → Bool) (root : Value) where
  check-plain :
      (f : ℕ) (node schema : Value) (path : String)
      → get "$ref" schema ≡ none
      → check search (suc f) root node schema path
        ≡ plain_errors search (check search f root) node schema path
  unfolding check
  check-plain f node schema path h = rw (h) refl

  -- What is accepted by a schema of an object, and by one of a list.
  dict-accepted :
      (f : ℕ) (node schema : Value) (path : String)
      → get "$ref" schema ≡ none
      → get "type" schema ≡ some (str "object")
      → check search (suc f) root node schema path ≡ some []
      → (fs : Fields) × (node ≡ obj fs)
        × (dict_errors (check search f root) (entries fs) schema path ≡ some [])
  unfolding parts_errors
  dict-accepted f node schema path no_ref is_object h =
      let (matches, parts) =
        plain-valid (check search f root) search node schema path
          (sym (check-plain f node schema path no_ref) ∙ h) in
      let (fs, is_obj) = object-accepted node (sym (ap (type_mismatch node) is_object) ∙ matches) in
      (
        fs,
        is_obj,
        subst (λ x. parts_errors (check search f root) x schema path ≡ some []) is_obj parts,
      )

  list-accepted :
      (f : ℕ) (node schema item : Value) (path : String)
      → get "$ref" schema ≡ none
      → get "type" schema ≡ some (str "array")
      → get "items" schema ≡ some item
      → check search (suc f) root node schema path ≡ some []
      → (vs : Items) × (node ≡ arr vs)
        × (items_errors (check search f root) item path 0 (elements vs) ≡ some [])
  unfolding parts_errors
  list-accepted f node schema item path no_ref is_array described h =
      let (matches, parts) =
        plain-valid (check search f root) search node schema path
          (sym (check-plain f node schema path no_ref) ∙ h) in
      let (vs, is_arr) = array-accepted node (sym (ap (type_mismatch node) is_array) ∙ matches) in
      (
        vs,
        is_arr,
        sym (ap (λ o. list_errors (check search f root) o path (elements vs)) described)
            ∙ subst (λ x. parts_errors (check search f root) x schema path ≡ some []) is_arr parts,
      )

  -- The fields of an accepted dict.
  dict-parts :
      (f : ℕ) (d : Dict Value) (schema : Value) (path : String)
      → has_properties schema ≡ true
      → dict_errors (check search f root) d schema path ≡ some []
      → (required_errors d path (values_of (get "required" schema)) ≡ [])
        × (fields_errors
              (check search f root)
              (fields_of (get "properties" schema))
              (or_true (get "additionalProperties" schema))
              path
              d
            ≡ some [])
  unfolding dict_errors
  dict-parts f d schema path listed h =
      let fs =
        fields_errors (check search f root) (fields_of (get "properties" schema))
          (or_true (get "additionalProperties" schema)) path d in
      let (required, rest) =
        both-valid (some (required_errors d path (values_of (get "required" schema))))
          (if has_properties schema then fs else some []) h in
      (some_inj _ [] required, sym (ap (λ b. if b then fs else some []) listed) ∙ rest)

  field-accepted :
      (f : ℕ) (d : Dict Value) (schema : Value) (path k : String) (v described : Value)
      → has_properties schema ≡ true
      → dict_errors (check search f root) d schema path ≡ some []
      → lookup k d ≡ some v
      → lookup k (fields_of (get "properties" schema)) ≡ some described
      → (at : String) × (check search f root v described at ≡ some [])
  field-accepted f d schema path k v described listed h found is_described =
      lookup-valid (check search f root) (fields_of (get "properties" schema))
        (or_true (get "additionalProperties" schema)) path k d v described
        (dict-parts f d schema path listed h).1 found is_described

  class-found :
      (fs : Fields) (c : Value)
      → lookup "class" (entries fs) ≡ some c
      → rule_class (obj fs) ≡ ok (show c)
  unfolding rule_class
  class-found fs c h = rw (h, rule_class) refl

  rule-accepted :
      (f : ℕ) (v : Value) (path : String)
      → check search (suc f) root v rule_schema path ≡ some []
      → (c : String) × (rule_class v ≡ ok c)
  unfolding rule_class get lookup fields entries has_properties of_strings elements
  rule-accepted f v path h =
      let (fs, is_obj, parts) = dict-accepted f v rule_schema path refl refl h in
      let (c, found) =
        required-valid (entries fs) path (str "when" ∷ str "class" ∷ []) (str "class")
          (dict-parts f (entries fs) rule_schema path refl parts).0 (inr (inl refl)) in
      (show c, ap rule_class is_obj ∙ class-found fs c found)

  rules-accepted :
      (vs : List Value)
      → ((v : Value) → Among v vs → (c : String) × (rule_class v ≡ ok c))
      → (cs : List String) × (rule_classes vs ≡ ok cs)
  unfolding rule_classes
  rules-accepted [] h = ([], refl)
  rules-accepted (v ∷ vs) h =
      let (c, p) = h v (inl refl) in
      let (cs, q) = rules-accepted vs (λ w among. h w (inr among)) in (c ∷ cs, rw (p, q) refl)

  -- A field that is a list wherever it is given.
  listed-accepted :
      (k : String) (d : Dict Value)
      → ((v : Value) → lookup k d ≡ some v → (vs : Items) × (v ≡ arr vs))
      → (ws : List Value) × (listed k d ≡ ok ws)
        × ((w : Value)
            → Among w ws
            → (vs : Items) × (lookup k d ≡ some (arr vs)) × Among w (elements vs))
  unfolding listed iterate
  listed-accepted k d h = elim (Option-cases (lookup k d)) [
    | inl p ↦ ([], rw (p, listed) refl, λ w among. absurd among)
    | inr (v, p) ↦
        let (vs, is_arr) = h v p in
        (elements vs, rw (p, is_arr, listed) refl, λ w among. (vs, p ∙ ap some is_arr, among))
  ]

  texts-accepted :
      (f : ℕ) (k : String) (d : Dict Value) (schema : Value) (path : String)
      → has_properties schema ≡ true
      → dict_errors (check search (suc f) root) d schema path ≡ some []
      → lookup k (fields_of (get "properties" schema)) ≡ some texts_schema
      → (ss : List String) × (texts k d ≡ ok ss)
  unfolding texts get lookup fields entries
  texts-accepted f k d schema path declares h described =
      let (ws, is_list, members) = listed-accepted k d is_array in (map show ws, rw (is_list) refl)
    where
      is_array : (v : Value) → lookup k d ≡ some v → (vs : Items) × (v ≡ arr vs)
      is_array v found =
          let (at, valid) =
            field-accepted (suc f) d schema path k v texts_schema declares h found described in
          let (vs, is_arr, rest) =
            list-accepted f v texts_schema (typed "string") at refl refl refl valid in
          (vs, is_arr)

  resolve-accepted :
      (f : ℕ) (d : Dict Value) (path : String)
      → dict_errors (check search (suc (suc f)) root) d effect_schema path ≡ some []
      → (cs : List String) × (classes_of d ≡ ok cs)
  unfolding classes_of get lookup fields entries has_properties
  resolve-accepted f d path h =
      let (ws, is_list, members) =
        listed-accepted "resolve" d
          (λ v found. let (vs, is_arr, valid) = rules v found in (vs, is_arr)) in
      let (cs, are_classes) = rules-accepted ws (λ w among. rule w (members w among)) in
      (shown_field "default_class" d ∷ cs, rw (is_list, are_classes) refl)
    where
      rules_schema : Value
      rules_schema = of_dict (("type", str "array") ∷ ("items", rule_schema) ∷ [])

      rules :
          (v : Value)
          → lookup "resolve" d ≡ some v
          → (vs : Items) × (v ≡ arr vs)
            × ((at : String) × (items_errors
                    (check search (suc f) root)
                    rule_schema
                    at
                    0
                    (elements vs)
                  ≡ some []))
      rules v found =
          let (at, valid) =
            field-accepted (suc (suc f)) d effect_schema path "resolve" v rules_schema refl h found
              refl in
          let (vs, is_arr, rest) =
            list-accepted (suc f) v rules_schema rule_schema at refl refl refl valid in
          (vs, is_arr, (at, rest))

      rule :
          (w : Value)
          → (vs : Items) × (lookup "resolve" d ≡ some (arr vs)) × Among w (elements vs)
          → (c : String) × (rule_class w ≡ ok c)
      rule w (vs, found, among) =
          let (us, is_arr, valid) = rules (arr vs) found in
          let (at, checked) = valid in
          let (here, accepted) =
            items-valid (check search (suc f) root) rule_schema at 0 (elements us) w checked
              (subst (λ x. Among w (values_of (some x))) is_arr among) in
          rule-accepted f w here accepted

  dict-checked :
      (f : ℕ) (fs : Fields) (schema : Value) (path : String)
      → get "$ref" schema ≡ none
      → check search (suc f) root (obj fs) schema path ≡ some []
      → dict_errors (check search f root) (entries fs) schema path ≡ some []
  unfolding parts_errors
  dict-checked f fs schema path no_ref h =
      (plain-valid (check search f root) search (obj fs) schema path
        (sym (check-plain f (obj fs) schema path no_ref) ∙ h)).1

  -- The effect of an accepted manifest, as the compiler reads it.
  effect-accepted :
      (f : ℕ) (m : Dict Value) (path : String)
      → dict_errors (check search (suc (suc (suc f))) root) m manifest_schema path ≡ some []
      → (e : Dict Value) × (cs as_ : List String) × (effect_of m ≡ ok e)
        × (classes_of e ≡ ok cs)
        × (texts "driving_args" e ≡ ok as_)
  unfolding get lookup fields entries has_properties classes_of texts listed rule_classes effect_of
  effect-accepted f m path h = elim (Option-cases (lookup "effect" m)) [
    | inl p ↦ ([], (shown_field "default_class" [] ∷ []), [], rw (p, effect_of) refl, refl, refl)
    | inr (v, p) ↦
        let (at, valid) =
          field-accepted (suc (suc (suc f))) m manifest_schema path "effect" v effect_schema refl h
            p refl in
        let (fs, is_obj, parts) = dict-accepted (suc (suc f)) v effect_schema at refl refl valid in
        let (cs, are_classes) = resolve-accepted f (entries fs) at parts in
        let (as_, are_args) =
          texts-accepted (suc f) "driving_args" (entries fs) effect_schema at refl parts refl in
        (entries fs, cs, as_, rw (p, is_obj, effect_of) refl, are_classes, are_args)
  ]

entries-fields : (d : Dict Value) → entries (fields d) ≡ d
unfolding entries fields
entries-fields [] = refl
entries-fields ((k, v) ∷ d) = ap (λ r. (k, v) ∷ r) (entries-fields d)

read-parts :
    (m e : Dict Value) (cs fs as_ : List String)
    → effect_of m ≡ ok e
    → classes_of e ≡ ok cs
    → texts "untrusted_fields" m ≡ ok fs
    → texts "driving_args" e ≡ ok as_
    → (r : Reading) × (read m ≡ ok r)
unfolding read
read-parts m e cs fs as_ a b c d = (
  record {
    tool_id = shown_field "id" m;
    classes = cs;
    fields = fs;
    is_sensitive = truthy_at "sensitive_fields" m;
    args = as_;
  },
  rw (a, b, c, d) refl,
)

module _ (search : String → String → Bool) where
  read-accepted :
      (m : Dict Value) → validate_manifest search (of_dict m) ≡ [] → (r : Reading) × (read m ≡ ok r)
  unfolding validate_manifest embedded_schema get lookup fields entries has_properties
  read-accepted m h =
      let valid =
        subst (λ d. dict_errors (check search 9 manifest_schema) d manifest_schema "$" ≡ some [])
          (entries-fields m)
          (dict-checked search manifest_schema 9 (fields m) manifest_schema "$" refl
            (or_no_errors-valid _ h)) in
      let (e, cs, as_, is_effect, are_classes, are_args) =
        effect-accepted search manifest_schema 6 m "$" valid in
      let (fs, are_fields) =
        texts-accepted search manifest_schema 8 "untrusted_fields" m manifest_schema "$" refl valid
          refl in
      read-parts m e cs fs as_ is_effect are_classes are_fields are_args

  read_all-accepted :
      (ms : List (Dict Value))
      → ((m : Dict Value) → Among m ms → validate_manifest search (of_dict m) ≡ [])
      → (rs : List Reading) × (read_all ms ≡ ok rs)
  unfolding read_all
  read_all-accepted [] h = ([], refl)
  read_all-accepted (m ∷ ms) h =
      let (r, p) = read-accepted m (h m (inl refl)) in
      let (rs, q) = read_all-accepted ms (λ n among. h n (inr among)) in (r ∷ rs, rw (p, q) refl)

  -- Manifests that all validate compile, without a policy.
  pub compile-accepted :
      (ms : List (Dict Value))
      → ((m : Dict Value) → Among m ms → validate_manifest search (of_dict m) ≡ [])
      → (c : Compiled) × (compile_manifests ms none none ≡ ok c)
  unfolding compile_manifests override_items policy_field allowed_values
  compile-accepted ms h = let (rs, p) = read_all-accepted ms h in (assemble rs [] none, rw (p) refl)
