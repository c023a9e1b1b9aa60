-- ===== src/Compile/Readings.antt =====
-- compile.py, `compile_manifests`: what the loop reads from the manifests.
use axor_wrap.Base.{
  String, ◌∙◌, true, false, List, [], ◌∷◌, ◌≡◌, refl, sym, subst, ap, contains, Among, arith, ◌==◌,
  ◌⊎◌, inl, inr, eq_iff, eq_refl, Bool-cases,
}
use axor_wrap.Base.Dict.{Dict}
use axor_wrap.Errors.{ok, bind-ok, ok_inj}
use axor_wrap.Value.{Value}
use axor_wrap.Compile.Manifests.{
  Reading, read, shown_field, effect_of, listed, rule_class, rule_classes, classes_of, texts,
}

-- The class is the default one of the effect, or a rule's.
abbrev pub HasClass : Dict Value → String → Type 0
HasClass effect k =
    (shown_field "default_class" effect ≡ k)
    ⊎ ((rules : List Value) × (listed "resolve" effect ≡ ok rules)
        × ((rule : Value) × Among rule rules × (rule_class rule ≡ ok k)))

rule_classes-contains :
    (rules : List Value) (cs : List String) (rule : Value) (k : String)
    → rule_classes rules ≡ ok cs
    → Among rule rules
    → rule_class rule ≡ ok k
    → contains cs k ≡ true
unfolding rule_classes
rule_classes-contains [] cs rule k h m e = absurd m
rule_classes-contains (r ∷ rules) cs rule k h m e =
    let (c, c_ok, h1) = bind-ok (rule_class r) _ cs h in
    let (ds, ds_ok, h2) = bind-ok (rule_classes rules) _ cs h1 in
    elim m [
      | inl p ↦
          subst (λ l. contains l k ≡ true) (ok_inj (c ∷ ds) cs h2)
            (first c ds (ok_inj c k (sym c_ok ∙ (ap rule_class (sym p) ∙ e))))
      | inr later ↦
          subst (λ l. contains l k ≡ true) (ok_inj (c ∷ ds) cs h2)
            (ground (arith, rule_classes-contains rules ds rule k ds_ok later e))
    ]
  where
    first : (c : String) (ds : List String) → c ≡ k → contains (c ∷ ds) k ≡ true
    first c ds p = subst (λ x. contains (x ∷ ds) k ≡ true) (sym p) (ground (arith, eq_refl k))

contains-rule_classes :
    (rules : List Value) (cs : List String) (k : String)
    → rule_classes rules ≡ ok cs
    → contains cs k ≡ true
    → (rule : Value) × Among rule rules × (rule_class rule ≡ ok k)
unfolding rule_classes
contains-rule_classes [] cs k h m =
    absurd (ground (arith, subst (λ l. contains l k ≡ true) (sym (ok_inj [] cs h)) m))
contains-rule_classes (r ∷ rules) cs k h m =
    let (c, c_ok, h1) = bind-ok (rule_class r) _ cs h in
    let (ds, ds_ok, h2) = bind-ok (rule_classes rules) _ cs h1 in
    let m2 = subst (λ l. contains l k ≡ true) (sym (ok_inj (c ∷ ds) cs h2)) m in
    elim (Bool-cases (k == c)) [
      | inl p ↦ (r, inl refl, c_ok ∙ ap (λ x. ok x) (sym ((eq_iff k c).0 p)))
      | inr p ↦
          let (rule, among, e) = contains-rule_classes rules ds k ds_ok (rest c ds p m2) in
          (rule, inr among, e)
    ]
  where
    rest :
        (c : String) (ds : List String)
        → (k == c) ≡ false
        → contains (c ∷ ds) k ≡ true
        → contains ds k ≡ true
    rest c ds p m = ground arith

-- What one manifest is read as.
abbrev pub ReadAs : Dict Value → Reading → Type 0
ReadAs m r =
    (effect : Dict Value) × (effect_of m ≡ ok effect)
    × (classes_of effect ≡ ok r.classes)
    × (r.tool_id ≡ shown_field "id" m)

pub read-ReadAs : (m : Dict Value) (r : Reading) → read m ≡ ok r → ReadAs m r
unfolding read
read-ReadAs m r h =
    let (effect, effect_ok, h1) = bind-ok (effect_of m) _ r h in
    let (classes, classes_ok, h2) = bind-ok (classes_of effect) _ r h1 in
    let (fields, fields_ok, h3) = bind-ok (texts "untrusted_fields" m) _ r h2 in
    let (args, args_ok, h4) = bind-ok (texts "driving_args" effect) _ r h3 in
    let same = ok_inj _ r h4 in subst (ReadAs m) same (effect, effect_ok, classes_ok, refl)

module _ (effect : Dict Value) (cs : List String) (k : String) where
  pub classes_of-contains : classes_of effect ≡ ok cs → HasClass effect k → contains cs k ≡ true
  unfolding classes_of
  classes_of-contains h has =
      let (rules, rules_ok, h1) = bind-ok (listed "resolve" effect) _ cs h in
      let (ds, ds_ok, h2) = bind-ok (rule_classes rules) _ cs h1 in
      let same = ok_inj (shown_field "default_class" effect ∷ ds) cs h2 in
      subst (λ l. contains l k ≡ true) same
        (elim has [
          | inl p ↦ default_first ds p
          | inr (others, others_ok, found_rule) ↦
              let (rule, among, e) = found_rule in
              let there = ok_inj others rules (sym others_ok ∙ rules_ok) in
              let found =
                rule_classes-contains rules ds rule k ds_ok (subst (Among rule) there among) e in
              ground (arith, found)
        ])
    where
      default_first :
          (ds : List String)
          → shown_field "default_class" effect ≡ k
          → contains (shown_field "default_class" effect ∷ ds) k ≡ true
      default_first ds p = rw p (ground (arith, eq_refl k))

  pub contains-classes_of : classes_of effect ≡ ok cs → contains cs k ≡ true → HasClass effect k
  unfolding classes_of
  contains-classes_of h m =
      let (rules, rules_ok, h1) = bind-ok (listed "resolve" effect) _ cs h in
      let (ds, ds_ok, h2) = bind-ok (rule_classes rules) _ cs h1 in
      let same = ok_inj (shown_field "default_class" effect ∷ ds) cs h2 in
      elim (either ds (subst (λ l. contains l k ≡ true) (sym same) m)) [
        | inl p ↦ inl (sym p)
        | inr later ↦ inr (rules, rules_ok, contains-rule_classes rules ds k ds_ok later)
      ]
    where
      either :
          (ds : List String)
          → contains (shown_field "default_class" effect ∷ ds) k ≡ true
          → (k ≡ shown_field "default_class" effect) ⊎ (contains ds k ≡ true)
      either ds m = ground (arith, eq_iff k (shown_field "default_class" effect))
