-- ===== src/Plane/Session/Apply/Lattice.antt =====
-- `apply` only narrows a session.
use axor_wrap.Base.{
  ℤ, ◌≤ℤ◌, ◌≡◌, Bool, true, false, Option, none, some, arith, refl, leb_ℤ, Bool-cases, inl, inr,
}
use axor_wrap.Base.Dict.{Dict}
use axor_wrap.Errors.{ok}
use axor_wrap.Errors.Exec.{Exec, pure, ◌>>=◌}
use axor_wrap.Errors.Exec.Moves.{Moves, Moves-pure, Moves-modify, Moves-bind}
use axor_wrap.Value.{Value}
use axor_wrap.Plane.Session.State.{PlaneSession, AppliedEffect, report, emit}
use axor_wrap.Plane.Session.Narrows.{Narrows, CapLe-refl, Narrows-refl, Narrows-trans}
use axor_wrap.Plane.Session.Apply.{
  apply, set_fields, set_posture, set_budget, set_cap, set_one_shots, set_replan, set_injection,
  set_excision, absorb, apply_fresh, stopped_effect, stale_effect,
}

pub report-Narrows : (e : AppliedEffect) (v : ℤ) (s : PlaneSession) → Narrows s (report e v s)
unfolding report emit
report-Narrows e v s = ground (arith, CapLe-refl s.budget_cap_calls)

set_cap-Narrows : (v n : ℤ) (s : PlaneSession) → Narrows s (set_cap v n s).1
unfolding set_cap report emit
set_cap-Narrows v n s = ground arith

set_budget-Narrows : (v : ℤ) (d : Dict Value) (s : PlaneSession) → Narrows s (set_budget v d s).1
unfolding set_budget
set_budget-Narrows v d s = grind (arith, set_cap-Narrows, Narrows-refl)

set_posture-Narrows :
    (d : Dict Value) (s : PlaneSession) → s.stopped ≡ false → Narrows s (set_posture d s)
unfolding set_posture
set_posture-Narrows d s h = ground (arith, CapLe-refl s.budget_cap_calls)

set_replan-Narrows : (d : Dict Value) (s : PlaneSession) → Narrows s (set_replan d s)
unfolding set_replan
set_replan-Narrows d s = ground (arith, CapLe-refl s.budget_cap_calls)

set_injection-Narrows : (d : Dict Value) (s : PlaneSession) → Narrows s (set_injection d s).1
unfolding set_injection
set_injection-Narrows d s = ground (arith, CapLe-refl s.budget_cap_calls)

set_excision-Narrows : (d : Dict Value) (s : PlaneSession) → Narrows s (set_excision d s).1
unfolding set_excision
set_excision-Narrows d s = ground (arith, CapLe-refl s.budget_cap_calls)

-- The rules for `Narrows`.
pub Narrowing-pure : (e : AppliedEffect) → Moves Narrows (pure e)
Narrowing-pure = Moves-pure Narrows-refl

pub Narrowing-bind {κ μ} :
    {A : Type κ} {B : Type μ} (m : Exec PlaneSession A) (f : A → Exec PlaneSession B)
    → Moves Narrows m
    → ((a : A) → Moves Narrows (f a))
    → Moves Narrows (m >>= f)
Narrowing-bind = Moves-bind Narrows-refl Narrows-trans

set_injection-Narrowing : (d : Dict Value) → Moves Narrows (set_injection d)
set_injection-Narrowing d = record { at = set_injection-Narrows d }

set_excision-Narrowing : (d : Dict Value) → Moves Narrows (set_excision d)
set_excision-Narrowing d = record { at = set_excision-Narrows d }

set_budget-Narrowing : (v : ℤ) (d : Dict Value) → Moves Narrows (set_budget v d)
set_budget-Narrowing v d = record { at = set_budget-Narrows v d }

pub ruleset narrowing_rules = (Narrowing-pure, Narrowing-bind, Moves-modify)

ruleset narrowing = (
  narrowing_rules, set_injection-Narrowing, set_excision-Narrowing, set_budget-Narrowing,
  set_replan-Narrows, report-Narrows,
)

set_one_shots-Narrowing :
    (v : ℤ) (d : Dict Value) (e : Option AppliedEffect) → Moves Narrows (set_one_shots v d e)
unfolding set_one_shots
set_one_shots-Narrowing v d (some e) = search narrowing
set_one_shots-Narrowing v d none = search narrowing depth 9

after_posture-Narrowing :
    (v : ℤ) (d : Dict Value) → Moves Narrows (set_budget v d >>= set_one_shots v d)
after_posture-Narrowing v d = search (narrowing, set_one_shots-Narrowing)

set_fields-Narrows :
    (v : ℤ) (d : Dict Value) (s : PlaneSession) → s.stopped ≡ false → Narrows s (set_fields v d s).1
unfolding set_fields ◌>>=◌
set_fields-Narrows v d s h =
    Narrows-trans s (set_posture d s) _ (set_posture-Narrows d s h)
      ((after_posture-Narrowing v d).at (set_posture d s))

pub take_version-Narrows :
    (v : ℤ) (s : PlaneSession)
    → leb_ℤ v s.applied_version ≡ false
    → Narrows s (record s { applied_version = v })
take_version-Narrows v s h = ground (arith, CapLe-refl s.budget_cap_calls)

apply_fresh-Narrows :
    (v : ℤ) (d : Dict Value) (b : Bool) (s : PlaneSession)
    → s.stopped ≡ b
    → Narrows s (apply_fresh v d b s).1
unfolding apply_fresh absorb
apply_fresh-Narrows v d true s h = report-Narrows stopped_effect v s
apply_fresh-Narrows v d false s h = set_fields-Narrows v d s h

-- Whatever a command holds, and also if it raises, the session has only narrowed.
pub apply-Narrows : (v : ℤ) (d : Dict Value) (s : PlaneSession) → Narrows s (apply v d s).1
unfolding apply
apply-Narrows v d s = elim (Bool-cases (leb_ℤ v s.applied_version)) [
  | inl stale ↦ rw (stale, apply) (Narrows-refl s)
  | inr fresh ↦
      let t = record s { applied_version = v } in
      rw (fresh, apply)
        (Narrows-trans s t (apply_fresh v d s.stopped t).1 (take_version-Narrows v s fresh)
          (apply_fresh-Narrows v d s.stopped t refl))
]

-- A command's version has been applied once the command was.
pub apply-version :
    (v : ℤ) (d : Dict Value) (s : PlaneSession) → v ≤ℤ (apply v d s).1.applied_version
unfolding apply
apply-version v d s = elim (Bool-cases (leb_ℤ v s.applied_version)) [
  | inl stale ↦ rw (stale, apply) (ground arith)
  | inr fresh ↦
      let t = record s { applied_version = v } in
      rw (fresh, apply) (apply_fresh-Narrows v d s.stopped t refl).version
]

pub apply-stale :
    (v : ℤ) (d : Dict Value) (s : PlaneSession)
    → leb_ℤ v s.applied_version ≡ true
    → apply v d s ≡ (ok (stale_effect v), s)
unfolding apply
apply-stale v d s h = rw (h, apply)
