-- ===== src/Compile/Policies.antt =====
-- compile.py, `compile_manifests`: the value policies of the sinks.
use axor_wrap.Base.{
  if◌then◌else◌, String, true, false, Option, none, some, List, [], ◌∷◌, ◌++◌, map, refl, ◌≡◌, sym,
  subst, ap, ◌∙◌, contains, arith, ◌==◌, ◌⊎◌, inl, inr, eq_iff, Bool-cases,
}
use axor_wrap.Base.Dict.{Dict, lookup, insert, lookup-insert, or_lookup}
use axor_wrap.Base.Sorting.{sorted}
use axor_wrap.Errors.{ok, bind-ok, ok_inj, ◌>>=◌}
use axor_wrap.Value.{Value, arr, Items, cons, elements, truthy, iterate}
use axor_wrap.Value.Show.{show}
use axor_wrap.Compile.Manifests.{
  ValuePolicy, Compiled, policies, first_arg, value_policies_of, allowed_values, policy_field,
  override_items, read_all, compile_manifests, Reading, assemble, driving, ids, is_sink, reference,
  spliced, find_input, spliced_or_refused, resolve_reference, expand,
}

abbrev policy_for : Dict (List String) → List String → String → ValuePolicy
policy_for driven vs z = record { arg = first_arg (lookup z driven); enum = vs }

module _ (driven : Dict (List String)) (vs : List String) (z : String) where
  insert-policy_for :
      (sink : String) (acc : Dict ValuePolicy)
      → (lookup z acc ≡ some (policy_for driven vs z)) ⊎ ((z == sink) ≡ true)
      → lookup z (insert sink (policy_for driven vs sink) acc) ≡ some (policy_for driven vs z)
  insert-policy_for sink acc h = elim (Bool-cases (z == sink)) [
    | inl p ↦
        rw (lookup-insert sink z (policy_for driven vs sink) acc, p)
          (ap (λ x. some (policy_for driven vs x)) (sym ((eq_iff z sink).0 p)))
    | inr p ↦
        rw (lookup-insert sink z (policy_for driven vs sink) acc, p)
          (elim h [ inl old ↦ old | inr q ↦ absurd (ground arith) ])
  ]

  lookup-policies :
      (sinks : List String) (acc : Dict ValuePolicy)
      → (lookup z acc ≡ some (policy_for driven vs z)) ⊎ (contains sinks z ≡ true)
      → lookup z (policies driven vs sinks acc) ≡ some (policy_for driven vs z)
  unfolding policies
  lookup-policies [] acc (inl h) = h
  lookup-policies [] acc (inr h) = absurd (ground arith)
  lookup-policies (sink ∷ sinks) acc h = lookup-policies sinks _ (elim h [
    | inl old ↦ inl (insert-policy_for sink acc (inl old))
    | inr m ↦ elim (Bool-cases (z == sink)) [
      | inl p ↦ inl (insert-policy_for sink acc (inr p))
      | inr p ↦ inr (later m p)
    ]
  ])
    where
      later : contains (sink ∷ sinks) z ≡ true → (z == sink) ≡ false → contains sinks z ≡ true
      later m p = ground arith

-- Each sink of a configuration has its policy.
abbrev Constrained : List String → String → Compiled → Type 0
Constrained vs z c =
    contains c.egress_sinks z ≡ true
    → lookup z c.value_policies ≡ some (policy_for c.driving_args vs z)

assemble-Constrained :
    (rs : List Reading) (given : Dict Value) (vs : List String) (z : String)
    → Constrained vs z (assemble rs given (some vs))
unfolding value_policies_of
assemble-Constrained rs given vs z sink =
    lookup-policies (driving [] rs) vs z (sorted (ids is_sink rs)) [] (inr sink)

-- The texts that an allowlist allows: of an item that is no reference its own, and of a reference to an
-- input those of the input's values.
abbrev pub Allows : Option (Dict Value) → List Value → List String → Type 0
Allows inputs [] ts = ts ≡ []
Allows inputs (v ∷ vs) ts =
    (here later : List String) × (ts ≡ (here ++ later))
    × Allows inputs vs later
    × (((reference v ≡ none) × (here ≡ show v ∷ []))
        ⊎ ((key : String) × (w : Value) × (reference v ≡ some key)
            × (find_input inputs key ≡ some w)
            × (here ≡ map show (spliced w))))

-- The argument that a policy constrains: the first that drives the tool, or else "recipient".
abbrev pub Constrains : Option (List String) → String → Type 0
Constrains (some (a ∷ rest)) arg = arg ≡ a
Constrains other arg = arg ≡ "recipient"

-- The arguments that drive a tool, by the last manifest of its id that names any.
abbrev pub own_args : String → Reading → Option (List String)
own_args z r = elim r.args [ [] ↦ none | a ∷ rest ↦ if z == r.tool_id then some r.args else none ]

unfoldable pub last_args : String → List Reading → Option (List String)
last_args z [] = none
last_args z (r ∷ rs) = or_lookup (last_args z rs) (own_args z r)

or_lookup-none : (o : Option (List String)) → or_lookup o none ≡ o
or_lookup-none none = refl
or_lookup-none (some a) = refl

or_lookup_assoc :
    (a b c : Option (List String)) → or_lookup (or_lookup a b) c ≡ or_lookup a (or_lookup b c)
or_lookup_assoc none b c = refl
or_lookup_assoc (some x) b c = refl

lookup-own_args :
    (z id : String) (whole args : List String) (acc : Dict (List String))
    → lookup z (elim args [ [] ↦ acc | a ∷ rest ↦ insert id whole acc ])
      ≡ or_lookup
          (elim args [ [] ↦ none | a ∷ rest ↦ if z == id then some whole else none ])
          (lookup z acc)
lookup-own_args z id whole [] acc = refl
lookup-own_args z id whole (a ∷ rest) acc = elim (Bool-cases (z == id)) [
  | inl p ↦ rw (lookup-insert id z whole acc, p) refl
  | inr p ↦ rw (lookup-insert id z whole acc, p) refl
]

lookup-driving :
    (z : String) (rs : List Reading) (acc : Dict (List String))
    → lookup z (driving acc rs) ≡ or_lookup (last_args z rs) (lookup z acc)
unfolding driving last_args
lookup-driving z [] acc = refl
lookup-driving z (r ∷ rs) acc =
    lookup-driving z rs (elim r.args [ [] ↦ acc | a ∷ rest ↦ insert r.tool_id r.args acc ])
    ∙ (ap (or_lookup (last_args z rs)) (lookup-own_args z r.tool_id r.args r.args acc)
        ∙ sym (or_lookup_assoc (last_args z rs) (own_args z r) (lookup z acc)))

driving-last_args : (z : String) (rs : List Reading) → lookup z (driving [] rs) ≡ last_args z rs
unfolding lookup
driving-last_args z rs = lookup-driving z rs [] ∙ or_lookup-none (last_args z rs)

first_arg-Constrains : (o : Option (List String)) → Constrains o (first_arg o)
unfolding first_arg
first_arg-Constrains (some (a ∷ rest)) = refl
first_arg-Constrains (some []) = refl
first_arg-Constrains none = refl

module _ (inputs : Option (Dict Value)) where
  abbrev Gives : Value → List String → Type 0
  Gives v here =
      ((reference v ≡ none) × (here ≡ show v ∷ []))
      ⊎ ((key : String) × (w : Value) × (reference v ≡ some key)
          × (find_input inputs key ≡ some w)
          × (here ≡ map show (spliced w)))

  found-Gives :
      (v : Value) (key : String) (found : Option Value) (out : List Value)
      → reference v ≡ some key
      → find_input inputs key ≡ found
      → spliced_or_refused found ≡ ok out
      → Gives v (map show out)
  found-Gives v key none out r e h = absurd (ground arith)
  found-Gives v key (some w) out r e h =
      inr (key, w, r, e, ap (map show) (sym (ok_inj (spliced w) out h)))

  item-Gives :
      (v : Value) (r : Option String) (out : List Value)
      → reference v ≡ r
      → resolve_reference inputs v r ≡ ok out
      → Gives v (map show out)
  item-Gives v none out r h = inl (r, ap (map show) (sym (ok_inj (v ∷ []) out h)))
  item-Gives v (some key) out r h = found-Gives v key (find_input inputs key) out r refl h

  map-append : (xs ys : List Value) → map show (xs ++ ys) ≡ (map show xs ++ map show ys)
  map-append [] ys = refl
  map-append (x ∷ xs) ys = ap (λ l. show x ∷ l) (map-append xs ys)

  expand-Allows :
      (vs out : List Value) → expand inputs vs ≡ ok out → Allows inputs vs (map show out)
  unfolding expand
  expand-Allows [] out h = ap (map show) (sym (ok_inj [] out h))
  expand-Allows (v ∷ vs) out h =
      let (here, found, h1) =
        bind-ok (resolve_reference inputs v (reference v))
          (λ here. expand inputs vs >>= λ later. ok (here ++ later)) out h in
      let (later, rest_ok, h2) = bind-ok (expand inputs vs) (λ later. ok (here ++ later)) out h1 in
      (
        map show here,
        map show later,
        ap (map show) (sym (ok_inj (here ++ later) out h2)) ∙ map-append here later,
        expand-Allows vs later rest_ok,
        item-Gives v (reference v) here refl found,
      )

  allowed_values-Allows :
      (v : Value) (vs : Items) (resolved : Option (List String))
      → allowed_values inputs (some (arr (cons v vs))) ≡ ok resolved
      → (ts : List String) × (resolved ≡ some ts) × Allows inputs (v ∷ elements vs) ts
  unfolding allowed_values truthy iterate elements
  allowed_values-Allows v vs resolved h =
      let (out, expanded, h1) =
        bind-ok (expand inputs (v ∷ elements vs)) (λ values. ok (some (map show values))) resolved
          h in
      (map show out, sym (ok_inj _ resolved h1), expand-Allows (v ∷ elements vs) out expanded)

-- If the manifests compile under an allowlist that is a list and not empty, every egress sink has a
-- policy. It is one of the first argument that drives the tool, by the last of the manifests of its id, as
-- they are read, that names any, or of "recipient" if none does. It allows just the texts of the list's
-- items, in order, with each reference replaced by its input's values.
pub egress_sinks-policy :
    (ms : List (Dict Value)) (policy inputs : Option (Dict Value)) (c : Compiled) (v : Value)
    (vs : Items) (z : String)
    → policy_field "allowlist" policy ≡ some (arr (cons v vs))
    → compile_manifests ms policy inputs ≡ ok c
    → contains c.egress_sinks z ≡ true
    → (rs : List Reading) × (p : ValuePolicy) × (read_all ms ≡ ok rs)
      × (lookup z c.value_policies ≡ some p)
      × Constrains (last_args z rs) p.arg
      × Allows inputs (v ∷ elements vs) p.enum
unfolding compile_manifests value_policies_of
egress_sinks-policy ms policy inputs c v vs z listed h sink =
    let (rs, rs_ok, h1) = bind-ok (read_all ms) _ c h in
    let (given, given_ok, h2) =
      bind-ok (override_items (policy_field "criticality_overrides" policy)) _ c h1 in
    let (resolved, resolved_ok, h3) =
      bind-ok (allowed_values inputs (policy_field "allowlist" policy)) _ c h2 in
    let (ts, same, allows) =
      allowed_values-Allows inputs v vs resolved
        (ap (allowed_values inputs) (sym listed) ∙ resolved_ok) in
    (
      rs,
      policy_for c.driving_args ts z,
      rs_ok,
      subst (Constrained ts z) (ok_inj _ c h3)
          (subst (λ r. Constrained ts z (assemble rs given r)) (sym same)
            (assemble-Constrained rs given ts z))
          sink,
      subst (λ o. Constrains o (first_arg (lookup z c.driving_args)))
          (ap (λ d. lookup z d) (sym (ap (λ k. k.driving_args) (ok_inj _ c h3)))
            ∙ driving-last_args z rs)
          (first_arg-Constrains (lookup z c.driving_args)),
      allows,
    )
