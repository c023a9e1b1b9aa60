-- ===== src/Compile/Tests.antt =====
-- Two manifests: one tool reads, one can send by a rule.
use axor_wrap.Base.{
  String, true, false, Bool-cases, inl, inr, subst, arith, ◌==◌, List, [], ◌∷◌, ◌≡◌, refl, ◌↔◌,
  some, contains, Among,
}
use axor_wrap.Base.Dict.{Dict, lookup}
use axor_wrap.Base.Text.{strip_prefix}
use axor_wrap.Base.Sorting.{sorted}
use axor_wrap.Errors.{ok}
use axor_wrap.Value.{Value, str, of_dict, of_list, fields, items, elements}
use axor_wrap.Compile.Manifests.{
  Compiled, compile_manifests, shown_field, expand, read_all, override_items, policy_field,
  allowed_values, taint_fields, driving, value_policies_of, sorted_entries, ids, overrides_onto,
  spliced, reference,
}
use axor_wrap.Compile.Expand.{Resolved, expand-Resolved}
use axor_wrap.Compile.Sinks.{CanLeave, egress_sinks-CanLeave}
use axor_wrap.Compile.Policies.{Allows, Constrains, last_args, egress_sinks-policy}
use axor_wrap.Compile.Manifests.{ValuePolicy, Reading}
use axor_wrap.Value.{nil, cons, arr}

abbrev reader : Dict Value
reader =
    ("id", str "read_inbox")
    ∷ ("effect", of_dict (("default_class", str "READ") ∷ []))
    ∷ ("untrusted_fields", of_list (str "messages[].body" ∷ []))
    ∷ []

abbrev sender : Dict Value
sender =
    ("id", str "notify")
    ∷ (
      "effect",
      of_dict (
          ("default_class", str "WRITE")
          ∷ ("resolve", of_list (of_dict (("class", str "EXPORT") ∷ []) ∷ []))
          ∷ ("driving_args", of_list (str "to" ∷ []))
          ∷ []),
    )
    ∷ []

abbrev given_policy : Dict Value
given_policy = ("allowlist", of_list (str "$inputs.known" ∷ [])) ∷ []

abbrev given_inputs : Dict Value
given_inputs = ("known", of_list (str "a@x" ∷ str "b@x" ∷ [])) ∷ []

abbrev expected : Compiled
expected = record {
  egress_sinks = "notify" ∷ [];
  untrusted_sources = "read_inbox" ∷ [];
  sensitive_sources = [];
  untrusted_fields = ("read_inbox", "messages[].body" ∷ []) ∷ [];
  driving_args = ("notify", "to" ∷ []) ∷ [];
  value_policies = ("notify", record { arg = "to"; enum = "a@x" ∷ "b@x" ∷ [] }) ∷ [];
  consequence_overrides = [];
}

compiles :
    compile_manifests (reader ∷ sender ∷ []) (some given_policy) (some given_inputs) ≡ ok expected
unfolding compile_manifests read_all fields items override_items policy_field allowed_values
    reference sorted taint_fields driving value_policies_of sorted_entries ids spliced
    overrides_onto
compiles = refl

egress_sinks-CanLeave_example : (contains expected.egress_sinks "notify" ≡ true) ↔ (
    (m : Dict Value) × Among m (reader ∷ sender ∷ [])
    × (shown_field "id" m ≡ "notify")
    × CanLeave m)
egress_sinks-CanLeave_example =
    egress_sinks-CanLeave (reader ∷ sender ∷ []) (some given_policy) (some given_inputs) expected
      "notify" compiles

abbrev known : List Value
known = str "a@x" ∷ str "b@x" ∷ []

known-Resolved : (k : String) (v : Value) → lookup k given_inputs ≡ some v → Resolved (spliced v)
unfolding lookup fields items spliced elements reference strip_prefix
known-Resolved k v e = elim (Bool-cases (k == "known")) [
  | inl p ↦ subst (λ x. Resolved (spliced x)) (is_known p) (refl, (refl, tt))
  | inr p ↦ absurd (is_unknown p)
]
  where
    is_known : (k == "known") ≡ true → of_list known ≡ v
    is_known p = ground arith

    is_unknown : (k == "known") ≡ false → ⊥
    is_unknown p = ground arith

expands :
    expand (some given_inputs) (str "$inputs.known" ∷ str "c@x" ∷ [])
    ≡ ok (str "a@x" ∷ str "b@x" ∷ str "c@x" ∷ [])
unfolding expand reference strip_prefix lookup spliced elements fields items
expands = refl

expand-Resolved_example : Resolved (str "a@x" ∷ str "b@x" ∷ str "c@x" ∷ [])
expand-Resolved_example =
    expand-Resolved (some given_inputs) (str "$inputs.known" ∷ str "c@x" ∷ [])
      (str "a@x" ∷ str "b@x" ∷ str "c@x" ∷ []) known-Resolved expands

lists_known :
    policy_field "allowlist" (some given_policy) ≡ some (arr (cons (str "$inputs.known") nil))
unfolding policy_field lookup items
lists_known = refl

egress_sinks-policy_example :
    (rs : List Reading) × (p : ValuePolicy) × (read_all (reader ∷ sender ∷ []) ≡ ok rs)
    × (lookup "notify" expected.value_policies ≡ some p)
    × Constrains (last_args "notify" rs) p.arg
    × Allows (some given_inputs) (str "$inputs.known" ∷ []) p.enum
unfolding elements
egress_sinks-policy_example =
    egress_sinks-policy (reader ∷ sender ∷ []) (some given_policy) (some given_inputs) expected
      (str "$inputs.known") nil "notify" lists_known compiles refl
