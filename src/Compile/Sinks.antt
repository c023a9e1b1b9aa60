-- ===== src/Compile/Sinks.antt =====
-- compile.py, `compile_manifests`: which tools become egress sinks, and what each sink may reach.
use axor_wrap.Base.{
  String, Bool, true, false, Option, List, [], ◌∷◌, ◌≡◌, refl, sym, subst, ap, contains, Among,
  arith, ◌==◌, ◌⊎◌, ◌↔◌, ◌∙◌, inl, inr, eq_iff, eq_refl, Bool-cases,
}
use axor_wrap.Base.Dict.{Dict}
use axor_wrap.Base.Sorting.{sorted, contains-sorted}
use axor_wrap.Errors.{ok, bind-ok, ok_inj}
use axor_wrap.Value.{Value}
use axor_wrap.Compile.Manifests.{
  Reading, read, read_all, ids, shown_field, effect_of, meets_egress, is_sink, egress_classes,
  override_items, policy_field, allowed_values, Compiled, compile_manifests,
}
use axor_wrap.Compile.Readings.{
  HasClass, ReadAs, read-ReadAs, classes_of-contains, contains-classes_of,
}

-- The effect of the manifest can resolve to EXPORT or EXEC.
abbrev pub CanLeave : Dict Value → Type 0
CanLeave m =
    (effect : Dict Value) × (effect_of m ≡ ok effect)
    × ((k : String) × HasClass effect k × (contains egress_classes k ≡ true))

read_all-Among :
    (ms : List (Dict Value)) (rs : List Reading) (m : Dict Value)
    → read_all ms ≡ ok rs
    → Among m ms
    → (r : Reading) × Among r rs × ReadAs m r
unfolding read_all
read_all-Among [] rs m h among = absurd among
read_all-Among (n ∷ ms) rs m h among =
    let (s, s_ok, h1) = bind-ok (read n) _ rs h in
    let (ss, ss_ok, h2) = bind-ok (read_all ms) _ rs h1 in
    let same = ok_inj (s ∷ ss) rs h2 in
    elim among [
      | inl p ↦ (
        s,
        subst (Among s) same (inl refl),
        subst (λ x. ReadAs x s) (sym p) (read-ReadAs n s s_ok),
      )
      | inr later ↦
          let (r, there, reading) = read_all-Among ms ss m ss_ok later in
          (r, subst (Among r) same (inr there), reading)
    ]

Among-read_all :
    (ms : List (Dict Value)) (rs : List Reading) (r : Reading)
    → read_all ms ≡ ok rs
    → Among r rs
    → (m : Dict Value) × Among m ms × ReadAs m r
unfolding read_all
Among-read_all [] rs r h among = absurd (subst (Among r) (sym (ok_inj [] rs h)) among)
Among-read_all (n ∷ ms) rs r h among =
    let (s, s_ok, h1) = bind-ok (read n) _ rs h in
    let (ss, ss_ok, h2) = bind-ok (read_all ms) _ rs h1 in
    elim (split_first s ss (subst (Among r) (sym (ok_inj (s ∷ ss) rs h2)) among)) [
      | inl p ↦ (n, inl refl, subst (ReadAs n) (sym p) (read-ReadAs n s s_ok))
      | inr later ↦
          let (m, there, reading) = Among-read_all ms ss r ss_ok later in (m, inr there, reading)
    ]
  where
    split_first : (s : Reading) (ss : List Reading) → Among r (s ∷ ss) → (r ≡ s) ⊎ Among r ss
    split_first s ss x = x

pub ids-contains :
    (test : Reading → Bool) (rs : List Reading) (r : Reading)
    → Among r rs
    → test r ≡ true
    → contains (ids test rs) r.tool_id ≡ true
unfolding ids
ids-contains test [] r among h = absurd among
ids-contains test (s ∷ rs) r among h = elim among [
  | inl p ↦ here (subst (λ x. test x ≡ true) p h) (ap (λ x. x.tool_id) p)
  | inr later ↦ there (ids-contains test rs r later h)
]
  where
    here : test s ≡ true → r.tool_id ≡ s.tool_id → contains (ids test (s ∷ rs)) r.tool_id ≡ true
    here t p = rw (t, p) (ground (arith, eq_refl s.tool_id))

    there : contains (ids test rs) r.tool_id ≡ true → contains (ids test (s ∷ rs)) r.tool_id ≡ true
    there c = ground arith

pub contains-ids :
    (test : Reading → Bool) (rs : List Reading) (z : String)
    → contains (ids test rs) z ≡ true
    → (r : Reading) × Among r rs × (test r ≡ true) × (r.tool_id ≡ z)
unfolding ids
contains-ids test [] z h = absurd (ground arith)
contains-ids test (s ∷ rs) z h = elim first [
  | inl p ↦ (s, inl refl, p.0, p.1)
  | inr later ↦ let (r, among, p, q) = contains-ids test rs z later in (r, inr among, p, q)
]
  where
    first : ((test s ≡ true) × (s.tool_id ≡ z)) ⊎ (contains (ids test rs) z ≡ true)
    first = ground (arith, eq_iff z s.tool_id)

meets_egress-contains :
    (cs : List String) (k : String)
    → contains cs k ≡ true
    → contains egress_classes k ≡ true
    → meets_egress cs ≡ true
meets_egress-contains [] k h e = ground arith
meets_egress-contains (c ∷ cs) k h e = elim (Bool-cases (k == c)) [
  | inl p ↦ first (subst (λ x. contains egress_classes x ≡ true) ((eq_iff k c).0 p) e)
  | inr p ↦ later (meets_egress-contains cs k (rest p) e)
]
  where
    first : contains egress_classes c ≡ true → meets_egress (c ∷ cs) ≡ true
    first q = ground arith

    rest : (k == c) ≡ false → contains cs k ≡ true
    rest p = ground arith

    later : meets_egress cs ≡ true → meets_egress (c ∷ cs) ≡ true
    later q = ground arith

contains-meets_egress :
    (cs : List String)
    → meets_egress cs ≡ true
    → (k : String) × (contains cs k ≡ true) × (contains egress_classes k ≡ true)
contains-meets_egress [] h = absurd (ground arith)
contains-meets_egress (c ∷ cs) h = elim (Bool-cases (contains egress_classes c)) [
  | inl p ↦ (c, ground (arith, eq_refl c), p)
  | inr p ↦ let (k, m, e) = contains-meets_egress cs (rest p) in (k, later k m, e)
]
  where
    rest : contains egress_classes c ≡ false → meets_egress cs ≡ true
    rest p = ground arith

    later : (k : String) → contains cs k ≡ true → contains (c ∷ cs) k ≡ true
    later k m = ground arith

-- What compile_manifests takes from its manifests.
compiled_sinks :
    (ms : List (Dict Value)) (policy inputs : Option (Dict Value)) (c : Compiled)
    → compile_manifests ms policy inputs ≡ ok c
    → (rs : List Reading) × (read_all ms ≡ ok rs) × (c.egress_sinks ≡ sorted (ids is_sink rs))
unfolding compile_manifests
compiled_sinks ms policy inputs c h =
    let (rs, rs_ok, h1) = bind-ok (read_all ms) _ c h in
    let (given, given_ok, h2) =
      bind-ok (override_items (policy_field "criticality_overrides" policy)) _ c h1 in
    let (resolved, resolved_ok, h3) =
      bind-ok (allowed_values inputs (policy_field "allowlist" policy)) _ c h2 in
    (rs, rs_ok, sym (ap (λ x. x.egress_sinks) (ok_inj _ c h3)))

-- If the manifests compile, a tool is among the egress sinks if and only if one of the manifests of
-- its id has an effect that can resolve to EXPORT or EXEC, by default or by a rule.
pub egress_sinks-CanLeave :
    (ms : List (Dict Value)) (policy inputs : Option (Dict Value)) (c : Compiled) (z : String)
    → compile_manifests ms policy inputs ≡ ok c
    → (contains c.egress_sinks z ≡ true)
      ↔ ((m : Dict Value) × Among m ms × (shown_field "id" m ≡ z) × CanLeave m)
egress_sinks-CanLeave ms policy inputs c z h =
    let (rs, rs_ok, sinks) = compiled_sinks ms policy inputs c h in
    (is_declared rs rs_ok sinks, is_found rs rs_ok sinks)
  where
    is_declared :
        (rs : List Reading)
        → read_all ms ≡ ok rs
        → c.egress_sinks ≡ sorted (ids is_sink rs)
        → contains c.egress_sinks z ≡ true
        → (m : Dict Value) × Among m ms × (shown_field "id" m ≡ z) × CanLeave m
    is_declared rs rs_ok sinks found =
        let in_ids =
          sym (contains-sorted (ids is_sink rs) z) ∙ (ap (λ l. contains l z) (sym sinks) ∙ found) in
        let (r, there, test, id) = contains-ids is_sink rs z in_ids in
        let (m, among, reading) = Among-read_all ms rs r rs_ok there in
        let (effect, effect_ok, classes_ok, named) = reading in
        let (k, has, egress) = contains-meets_egress r.classes test in
        (
          m,
          among,
          sym named ∙ id,
          (effect, effect_ok, (k, contains-classes_of effect r.classes k classes_ok has, egress)),
        )

    is_found :
        (rs : List Reading)
        → read_all ms ≡ ok rs
        → c.egress_sinks ≡ sorted (ids is_sink rs)
        → (m : Dict Value) × Among m ms × (shown_field "id" m ≡ z) × CanLeave m
        → contains c.egress_sinks z ≡ true
    is_found rs rs_ok sinks (m, among, id, leaves) =
        let (effect, effect_ok, reaches) = leaves in
        let (k, has, egress) = reaches in
        let (r, there, reading) = read_all-Among ms rs m rs_ok among in
        let (effect2, effect2_ok, classes_ok, named) = reading in
        let same = ok_inj effect effect2 (sym effect_ok ∙ effect2_ok) in
        let test =
          meets_egress-contains r.classes k
            (classes_of-contains effect2 r.classes k classes_ok
              (subst (λ e. HasClass e k) same has))
            egress in
        let in_ids =
          subst (λ x. contains (ids is_sink rs) x ≡ true) (named ∙ id)
            (ids-contains is_sink rs r there test) in
        ap (λ l. contains l z) sinks ∙ (contains-sorted (ids is_sink rs) z ∙ in_ids)
