-- ===== src/Plane/Session/Apply/Outbox.antt =====
-- `apply` only adds to the outbox.
use axor_wrap.Base.{
  ℤ, Bool, true, false, Option, none, some, arith, refl, leb_ℤ, Bool-cases, inl, inr,
}
use axor_wrap.Base.Dict.{Dict}
use axor_wrap.Errors.Exec.{Exec, pure, ◌>>=◌}
use axor_wrap.Errors.Exec.Moves.{Moves, Moves-pure, Moves-modify, Moves-bind}
use axor_wrap.Value.{Value}
use axor_wrap.Plane.Session.State.{PlaneSession, AppliedEffect}
use axor_wrap.Plane.Session.Outbox.{
  Extends, Extends-same, Extends-refl, Extends-trans, report-Extends,
}
use axor_wrap.Plane.Session.Apply.{
  apply, set_fields, set_posture, set_budget, set_cap, set_one_shots, set_replan, set_injection,
  set_excision, absorb, apply_fresh, stopped_effect,
}

set_cap-Extends : (v n : ℤ) (s : PlaneSession) → Extends s (set_cap v n s).1
unfolding set_cap
set_cap-Extends v n s =
    grind (arith, Extends-same s (record s { budget_cap_calls = some n }) refl, report-Extends)

set_budget-Extends : (v : ℤ) (d : Dict Value) (s : PlaneSession) → Extends s (set_budget v d s).1
unfolding set_budget
set_budget-Extends v d s = grind (arith, Extends-refl, set_cap-Extends)

set_posture-Extends : (d : Dict Value) (s : PlaneSession) → Extends s (set_posture d s)
unfolding set_posture
set_posture-Extends d s = Extends-same s _ refl

set_replan-Extends : (d : Dict Value) (s : PlaneSession) → Extends s (set_replan d s)
unfolding set_replan
set_replan-Extends d s = Extends-same s _ (ground arith)

set_injection-Extends : (d : Dict Value) (s : PlaneSession) → Extends s (set_injection d s).1
unfolding set_injection
set_injection-Extends d s = Extends-same s _ (ground arith)

set_excision-Extends : (d : Dict Value) (s : PlaneSession) → Extends s (set_excision d s).1
unfolding set_excision
set_excision-Extends d s = Extends-same s _ (ground arith)

-- The rules for `Extends`.
pub Extending-pure : (e : AppliedEffect) → Moves Extends (pure e)
Extending-pure = Moves-pure Extends-refl

pub Extending-bind {κ μ} :
    {A : Type κ} {B : Type μ} (m : Exec PlaneSession A) (f : A → Exec PlaneSession B)
    → Moves Extends m
    → ((a : A) → Moves Extends (f a))
    → Moves Extends (m >>= f)
Extending-bind = Moves-bind Extends-refl Extends-trans

set_injection-Extending : (d : Dict Value) → Moves Extends (set_injection d)
set_injection-Extending d = record { at = set_injection-Extends d }

set_excision-Extending : (d : Dict Value) → Moves Extends (set_excision d)
set_excision-Extending d = record { at = set_excision-Extends d }

set_budget-Extending : (v : ℤ) (d : Dict Value) → Moves Extends (set_budget v d)
set_budget-Extending v d = record { at = set_budget-Extends v d }

pub ruleset extending_rules = (Extending-pure, Extending-bind, Moves-modify)

ruleset extending = (
  extending_rules, set_injection-Extending, set_excision-Extending, set_budget-Extending,
  set_posture-Extends, set_replan-Extends, report-Extends,
)

set_one_shots-Extending :
    (v : ℤ) (d : Dict Value) (e : Option AppliedEffect) → Moves Extends (set_one_shots v d e)
unfolding set_one_shots
set_one_shots-Extending v d (some e) = search extending
set_one_shots-Extending v d none = search extending depth 9

set_fields-Extending : (v : ℤ) (d : Dict Value) → Moves Extends (set_fields v d)
unfolding set_fields
set_fields-Extending v d = search (extending, set_one_shots-Extending) depth 9

apply_fresh-Extends :
    (v : ℤ) (d : Dict Value) (b : Bool) (s : PlaneSession) → Extends s (apply_fresh v d b s).1
unfolding apply_fresh absorb
apply_fresh-Extends v d true s = report-Extends stopped_effect v s
apply_fresh-Extends v d false s = (set_fields-Extending v d).at s

pub apply-Extends : (v : ℤ) (d : Dict Value) (s : PlaneSession) → Extends s (apply v d s).1
unfolding apply
apply-Extends v d s = elim (Bool-cases (leb_ℤ v s.applied_version)) [
  | inl stale ↦ rw (stale, apply) (Extends-refl s)
  | inr fresh ↦
      let t = record s { applied_version = v } in
      rw (fresh, apply)
        (Extends-trans s t (apply_fresh v d s.stopped t).1 (Extends-same s t refl)
          (apply_fresh-Extends v d s.stopped t))
]
