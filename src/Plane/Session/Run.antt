-- ===== src/Plane/Session/Run.antt =====
-- The public methods of a session as the calls of a host: sequences of them, in any order.
pub mod Monotone
pub mod Outbox
pub mod Redelivery
pub mod Absorb
pub mod AtMostOnce
use axor_wrap.Base.{ℤ, String, List, [], ◌∷◌}
use axor_wrap.Base.Dict.{Dict}
use axor_wrap.Value.{Value}
use axor_wrap.Plane.Kernel.{Kernel}
use axor_wrap.Plane.Session.State.{PlaneSession}
use axor_wrap.Plane.Session.Verify.{Command, apply_delta}
use axor_wrap.Plane.Session.Snapshot.{apply_snapshot}
use axor_wrap.Plane.Session.Take.{
  take_pending_injection, take_pending_excision, take_pending_replan,
}

pub data Call : Type 0 where
  delta : Command → Call
  snapshot : ℤ → Dict Value → List Value → Call
  injection replan : Call
  excision : Dict String → Call

module _ (kernel : Kernel) where
  -- the state that a call leaves behind, whether it returns or raises
  unfoldable pub step : Call → PlaneSession → PlaneSession
  step (delta c) s = (apply_delta kernel c s).1
  step (snapshot version state commands) s = (apply_snapshot kernel version state commands s).1
  step injection s = (take_pending_injection s).0
  step replan s = (take_pending_replan s).0
  step (excision provenance) s = (take_pending_excision kernel provenance s).1

  unfoldable pub run : List Call → PlaneSession → PlaneSession
  run [] s = s
  run (c ∷ cs) s = run cs (step c s)
