-- ===== src/Manifest/Accepted.antt =====
-- manifest.py: what follows from a check that finds no error.
pub mod Compiles
use axor_wrap.Base.{
  ℕ, zero, suc, String, ◌<>◌, Bool, true, false, not, ◌&&◌, ◌||◌, Option, none, some, List, [], ◌∷◌,
  ◌++◌, map, ◌≡◌, refl, arith, ◌==◌, if◌then◌else◌, eq_iff, Bool-cases, Option-cases, inl, inr, ap,
  ◌∙◌, sym, subst, Among,
}
use axor_wrap.Base.Dict.{Dict, lookup}
use axor_wrap.Base.Text.{decimal}
use axor_wrap.Errors.{Result, ok}
use axor_wrap.Value.{
  Value, null, bool, int, str, arr, obj, Fields, Items, entries, elements, fields, items, get,
  iterate, end, field, of_strings, of_dict,
}
use axor_wrap.Value.Show.{show}
use axor_wrap.Manifest.Schema.{
  typed, texts_schema, rule_schema, effect_schema, manifest_schema, embedded_schema,
}
use axor_wrap.Manifest.Check.{
  both, list_errors, fields_of, or_true, field_errors, fields_errors, items_errors, dict_errors,
  parts_errors, plain_errors, values_of, has_properties, has_type, type_mismatch, type_name,
  const_errors, enum_errors, pattern_errors, required_errors, check, or_no_errors,
  validate_manifest,
}
use axor_wrap.Compile.Manifests.{
  effect_of, shown_field, listed, texts, rule_class, rule_classes, classes_of, Reading, truthy_at,
  assemble, read, read_all, Compiled, compile_manifests, override_items, policy_field,
  allowed_values,
}

append-empty : {A : Type 0} (xs ys : List A) → (xs ++ ys) ≡ [] → (xs ≡ []) × (ys ≡ [])
append-empty [] ys h = (refl, h)
append-empty (x ∷ xs) ys h = absurd (ground arith)

some_inj : {A : Type 0} (a b : A) → some a ≡ some b → a ≡ b
some_inj a b h = cc

both-valid : (a b : Option (List String)) → both a b ≡ some [] → (a ≡ some []) × (b ≡ some [])
both-valid (some es) (some fs) h =
    let (p, q) = append-empty es fs (some_inj (es ++ fs) [] h) in (ap some p, ap some q)
both-valid (some es) none h = absurd (ground arith)
both-valid none b h = absurd (ground arith)

typed-valid :
    (b : Bool) (e : String) (rest : Option (List String))
    → (if b then some (e ∷ []) else rest) ≡ some []
    → (b ≡ false) × (rest ≡ some [])
typed-valid true e rest h = absurd (ground arith)
typed-valid false e rest h = (refl, h)

or_no_errors-valid : (o : Option (List String)) → or_no_errors o ≡ [] → o ≡ some []
or_no_errors-valid none h = absurd (ground arith)
or_no_errors-valid (some es) h = ap some h

module _ (part : Value → Value → String → Option (List String)) where
  -- A field that the schema describes is valid where the dict is.
  lookup-valid :
      (properties : Dict Value) (additional : Value) (path k : String) (d : Dict Value)
      (v schema : Value)
      → fields_errors part properties additional path d ≡ some []
      → lookup k d ≡ some v
      → lookup k properties ≡ some schema
      → (at : String) × (part v schema at ≡ some [])
  unfolding fields_errors field_errors lookup
  lookup-valid properties additional path k [] v schema h found described = absurd (ground arith)
  lookup-valid properties additional path k ((j, w) ∷ d) v schema h found described =
      let (here, later) = both-valid _ _ h in
      elim (Bool-cases (k == j)) [
        | inl p ↦ (
          path <> ("." <> j),
          subst (λ x. part x schema (path <> ("." <> j)) ≡ some []) (found_here p)
              (ap (λ o. field_errors part o additional path j w)
                  (sym
                    (subst (λ x. lookup x properties ≡ some schema) ((eq_iff k j).0 p) described))
                ∙ here),
        )
        | inr p ↦
            lookup-valid properties additional path k d v schema later (found_later p) described
      ]
    where
      found_here : (k == j) ≡ true → w ≡ v
      found_here p = ground arith

      found_later : (k == j) ≡ false → lookup k d ≡ some v
      found_later p = ground arith

  items-valid :
      (schema : Value) (path : String) (i : ℕ) (vs : List Value) (v : Value)
      → items_errors part schema path i vs ≡ some []
      → Among v vs
      → (at : String) × (part v schema at ≡ some [])
  unfolding items_errors
  items-valid schema path i [] v h among = absurd among
  items-valid schema path i (w ∷ vs) v h among =
      let (here, later) = both-valid _ _ h in
      elim among [
        | inl p ↦ (
          path <> ("[" <> (decimal i <> "]")),
          ap (λ x. part x schema (path <> ("[" <> (decimal i <> "]")))) p ∙ here,
        )
        | inr rest ↦ items-valid schema path (suc i) vs v later rest
      ]

  module _ (search : String → String → Bool) where
    plain-valid :
        (node schema : Value) (path : String)
        → plain_errors search part node schema path ≡ some []
        → (type_mismatch node (get "type" schema) ≡ false)
          × (parts_errors part node schema path ≡ some [])
    unfolding plain_errors
    plain-valid node schema path h =
        let (values, kinds) =
          both-valid
            (some (
              const_errors node path (get "const" schema)
              ++ enum_errors node path (get "enum" schema)))
            (if type_mismatch node (get "type" schema)
              then some (
                  (path
                    <> (": type "
                        <> (show (or_true (get "type" schema)) <> (", got " <> type_name node))))
                  ∷ [])
              else both (some (pattern_errors search node path (get "pattern" schema)))
                  (parts_errors part node schema path))
            h in
        let (matches, rest) =
          typed-valid (type_mismatch node (get "type" schema)) _
            (both (some (pattern_errors search node path (get "pattern" schema)))
              (parts_errors part node schema path))
            kinds in
        (
          matches,
          (both-valid (some (pattern_errors search node path (get "pattern" schema)))
              (parts_errors part node schema path) rest).1,
        )

-- A value that is accepted where an object is asked for is a dict; so for a list.
object-accepted :
    (v : Value) → type_mismatch v (some (str "object")) ≡ false → (fs : Fields) × (v ≡ obj fs)
unfolding type_mismatch has_type
object-accepted (obj fs) h = (fs, refl)
object-accepted (arr vs) h = absurd (ground arith)
object-accepted (str s) h = absurd (ground arith)
object-accepted (int n) h = absurd (ground arith)
object-accepted (bool b) h = absurd (ground arith)
object-accepted null h = absurd (ground arith)

array-accepted :
    (v : Value) → type_mismatch v (some (str "array")) ≡ false → (vs : Items) × (v ≡ arr vs)
unfolding type_mismatch has_type
array-accepted (arr vs) h = (vs, refl)
array-accepted (obj fs) h = absurd (ground arith)
array-accepted (str s) h = absurd (ground arith)
array-accepted (int n) h = absurd (ground arith)
array-accepted (bool b) h = absurd (ground arith)
array-accepted null h = absurd (ground arith)

-- A list of required keys of which none is missing.
required-valid :
    (d : Dict Value) (path : String) (rs : List Value) (r : Value)
    → required_errors d path rs ≡ []
    → Among r rs
    → (v : Value) × (lookup (show r) d ≡ some v)
unfolding required_errors
required-valid d path [] r h among = absurd among
required-valid d path (q ∷ rs) r h among = elim (Option-cases (lookup (show q) d)) [
  | inl p ↦ absurd (missing p)
  | inr (v, p) ↦ elim among [
    | inl same ↦ (v, ap (λ x. lookup (show x) d) same ∙ p)
    | inr rest ↦ required-valid d path rs r (later v p) rest
  ]
]
  where
    missing : lookup (show q) d ≡ none → ⊥
    missing p = ground arith

    later : (v : Value) → lookup (show q) d ≡ some v → required_errors d path rs ≡ []
    later v p = ground arith
