-- ===== src/Plane/Session/Run/Monotone.antt =====
-- Whatever the host calls, and whatever the plane sends, a session only narrows.
use axor_wrap.Base.{◌≡◌, true, false, List, [], ◌∷◌, arith}
use axor_wrap.Plane.Kernel.{Kernel}
use axor_wrap.Plane.Session.State.{PlaneSession, admit_intent}
use axor_wrap.Plane.Session.Narrows.{Narrows, Narrows-refl, Narrows-trans}
use axor_wrap.Plane.Session.Snapshot.Lattice.{apply_snapshot-Narrows, apply_delta-Narrows}
use axor_wrap.Plane.Session.Take.Lattice.{
  take_pending_injection-Narrows, take_pending_replan-Narrows, take_pending_excision-Narrows,
}
use axor_wrap.Plane.Session.Run.{Call, delta, snapshot, injection, replan, excision, step, run}

module _ (kernel : Kernel) where
  pub step-Narrows : (c : Call) (s : PlaneSession) → Narrows s (step kernel c s)
  unfolding step
  step-Narrows (delta c) s = apply_delta-Narrows kernel c s
  step-Narrows (snapshot v d cs) s = apply_snapshot-Narrows kernel v d cs s
  step-Narrows injection s = take_pending_injection-Narrows s
  step-Narrows replan s = take_pending_replan-Narrows s
  step-Narrows (excision p) s = take_pending_excision-Narrows kernel p s

  -- After any sequence of calls, with any commands, signed or not: the applied version has not
  -- fallen, a stopped node is still stopped, the cap on calls has not been raised or taken away,
  -- every consumed id is still consumed, and the node's id, its operators' keys and its test-bench
  -- mark are the same.
  pub run-Narrows : (calls : List Call) (s : PlaneSession) → Narrows s (run kernel calls s)
  unfolding run
  run-Narrows [] s = Narrows-refl s
  run-Narrows (c ∷ cs) s =
      Narrows-trans s (step kernel c s) (run kernel cs (step kernel c s)) (step-Narrows c s)
        (run-Narrows cs (step kernel c s))

  -- Once a node is stopped, no later sequence of calls makes it admit an intent.
  pub admit_intent-run :
      (calls : List Call) (s : PlaneSession)
      → s.stopped ≡ true
      → admit_intent (run kernel calls s) ≡ false
  unfolding admit_intent
  admit_intent-run calls s h = ground (arith, (run-Narrows calls s).stays_stopped h)
