-- ===== src/Plane/Session/Snapshot/Absorb.antt =====
-- A stopped node absorbs a snapshot, however many commands it carries.
use axor_wrap.Base.{ℤ, List, [], ◌∷◌, arith, leb_ℤ, Bool-cases, inl, inr}
use axor_wrap.Base.Dict.{Dict}
use axor_wrap.Errors.Exec.{Exec, pure, ◌>>=◌}
use axor_wrap.Errors.Exec.Moves.{Moves, Moves-pure, Moves-modify, Moves-bind}
use axor_wrap.Value.{Value}
use axor_wrap.Plane.Kernel.{Kernel}
use axor_wrap.Plane.Session.State.{PlaneSession, AppliedEffect, report}
use axor_wrap.Plane.Session.Frozen.{Frozen, Frozen-refl, Frozen-trans}
use axor_wrap.Plane.Session.Apply.{apply}
use axor_wrap.Plane.Session.Apply.Absorb.{apply-Frozen, report-SameEffects}
use axor_wrap.Plane.Session.Verify.{Command, refuse, apply_delta}
use axor_wrap.Plane.Session.Snapshot.{
  Checked, refused, passed, replay, replay_all, raise_version, conclude, apply_snapshot,
}

Freezing-pure : (e : AppliedEffect) → Moves Frozen (pure e)
Freezing-pure = Moves-pure Frozen-refl

Freezing-bind {κ μ} :
    {A : Type κ} {B : Type μ} (m : Exec PlaneSession A) (f : A → Exec PlaneSession B)
    → Moves Frozen m
    → ((a : A) → Moves Frozen (f a))
    → Moves Frozen (m >>= f)
Freezing-bind = Moves-bind Frozen-refl Frozen-trans

report-Frozen : (e : AppliedEffect) (v : ℤ) (s : PlaneSession) → Frozen s (report e v s)
report-Frozen e v s = record { effects = λ h. report-SameEffects e v s }

raise_version-Frozen : (v : ℤ) (s : PlaneSession) → Frozen s (raise_version v s)
raise_version-Frozen v s = ground arith

apply-Freezing : (v : ℤ) (d : Dict Value) → Moves Frozen (apply v d)
apply-Freezing v d = record { at = apply-Frozen v d }

ruleset freezing_rules =
    (Freezing-pure, Freezing-bind, Moves-modify, raise_version-Frozen, apply-Freezing)

replay-Freezing : (cs : List Command) (last : AppliedEffect) → Moves Frozen (replay cs last)
unfolding replay
replay-Freezing [] last = record { at = Frozen-refl }
replay-Freezing (c ∷ cs) last = record {
  at = λ s. elim (Bool-cases (leb_ℤ c.version s.applied_version)) [
    | inl stale ↦ rw (stale, replay) ((replay-Freezing cs last).at s)
    | inr fresh ↦ rw (fresh, replay) ((step (replay-Freezing cs)).at s)
  ];
}
  where
    step :
        ((e : AppliedEffect) → Moves Frozen (replay cs e))
        → Moves Frozen (apply c.version c.delta >>= replay cs)
    step ih = search freezing_rules

replay_all-Freezing : (v : ℤ) (cs : List Command) → Moves Frozen (replay_all v cs)
unfolding replay_all
replay_all-Freezing v cs = search (freezing_rules, replay-Freezing)

module _ (kernel : Kernel) where
  conclude-Frozen :
      (v : ℤ) (r : Checked (List Command)) (s : PlaneSession) → Frozen s (conclude kernel v r s).1
  unfolding conclude refuse
  conclude-Frozen v (refused e) s = report-Frozen e v s
  conclude-Frozen v (passed cs) s = (replay_all-Freezing v cs).at s

  pub apply_snapshot-Frozen :
      (v : ℤ) (state : Dict Value) (commands : List Value) (s : PlaneSession)
      → Frozen s (apply_snapshot kernel v state commands s).1
  unfolding apply_snapshot
  apply_snapshot-Frozen v state commands s = grind (arith, apply-Frozen, conclude-Frozen)

  pub apply_delta-Frozen : (c : Command) (s : PlaneSession) → Frozen s (apply_delta kernel c s).1
  unfolding apply_delta refuse
  apply_delta-Frozen c s = grind (arith, apply-Frozen, report-Frozen)
