-- ===== src/Plane/Session/Apply/Absorb.antt =====
-- A stopped node absorbs a command.
use axor_wrap.Base.{ℤ, true, ◌≡◌, arith}
use axor_wrap.Base.Dict.{Dict}
use axor_wrap.Value.{Value}
use axor_wrap.Plane.Session.State.{PlaneSession, AppliedEffect, report, emit}
use axor_wrap.Plane.Session.Frozen.{SameEffects, Frozen}
use axor_wrap.Plane.Session.Apply.{apply, apply_fresh, absorb}

pub report-SameEffects :
    (e : AppliedEffect) (v : ℤ) (s : PlaneSession) → SameEffects s (report e v s)
unfolding report emit
report-SameEffects e v s = ground arith

absorbed :
    (v : ℤ) (d : Dict Value) (s : PlaneSession) → s.stopped ≡ true → SameEffects s (apply v d s).1
unfolding apply apply_fresh absorb report emit
absorbed v d s h = ground arith

pub apply-Frozen : (v : ℤ) (d : Dict Value) (s : PlaneSession) → Frozen s (apply v d s).1
apply-Frozen v d s = record { effects = absorbed v d s }
