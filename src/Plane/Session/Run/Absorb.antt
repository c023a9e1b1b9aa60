-- ===== src/Plane/Session/Run/Absorb.antt =====
-- Once a node is stopped, the plane has no further effect on it.
use axor_wrap.Base.{true, ◌≡◌, List, [], ◌∷◌}
use axor_wrap.Plane.Kernel.{Kernel}
use axor_wrap.Plane.Session.State.{PlaneSession}
use axor_wrap.Plane.Session.Frozen.{SameEffects, Frozen, Frozen-refl, Frozen-trans}
use axor_wrap.Plane.Session.Snapshot.Absorb.{apply_snapshot-Frozen, apply_delta-Frozen}
use axor_wrap.Plane.Session.Run.{Call, delta, snapshot, injection, replan, excision, step, run}

-- The calls that a message of the plane makes.
abbrev pub FromPlane : Call → Type 0
FromPlane (delta c) = Unit
FromPlane (snapshot v d cs) = Unit
FromPlane _ = ⊥

abbrev pub AllFromPlane : List Call → Type 0
AllFromPlane [] = Unit
AllFromPlane (c ∷ cs) = FromPlane c × AllFromPlane cs

module _ (kernel : Kernel) where
  step-Frozen : (c : Call) (s : PlaneSession) → FromPlane c → Frozen s (step kernel c s)
  unfolding step
  step-Frozen (delta c) s h = apply_delta-Frozen kernel c s
  step-Frozen (snapshot v d cs) s h = apply_snapshot-Frozen kernel v d cs s
  step-Frozen injection s h = absurd h
  step-Frozen replan s h = absurd h
  step-Frozen (excision p) s h = absurd h

  run-Frozen : (cs : List Call) (s : PlaneSession) → AllFromPlane cs → Frozen s (run kernel cs s)
  unfolding run
  run-Frozen [] s h = Frozen-refl s
  run-Frozen (c ∷ cs) s h =
      let t = step kernel c s in
      Frozen-trans s t (run kernel cs t) (step-Frozen c s h.0) (run-Frozen cs t h.1)

  -- After any deltas and snapshots, signed or not, a node that was stopped is stopped, with the
  -- same pause, the same cap, the same pending injection, excision and replan, and the same consumed
  -- ids.
  pub stopped_absorbs :
      (cs : List Call) (s : PlaneSession)
      → AllFromPlane cs
      → s.stopped ≡ true
      → SameEffects s (run kernel cs s)
  stopped_absorbs cs s h stopped = (run-Frozen cs s h).effects stopped
