-- ===== src/Plane/Session/Run/AtMostOnce.antt =====
-- A one-shot is handed to the runtime at most once by its id, whatever is called in between.
use axor_wrap.Base.{String, false, ◌≡◌, ◌≢◌, some, List, ap, contains}
use axor_wrap.Base.Dict.{Dict}
use axor_wrap.Base.Text.{empty}
use axor_wrap.Errors.{ok}
use axor_wrap.Plane.Kernel.{Kernel, Injection, Excision}
use axor_wrap.Plane.Session.State.{PlaneSession, Replan}
use axor_wrap.Plane.Session.Take.{
  take_pending_injection, take_pending_replan, take_pending_excision,
}
use axor_wrap.Plane.Session.Take.OneShot.{
  UsedUp, take_pending_injection-UsedUp, take_pending_replan-UsedUp, take_pending_excision-UsedUp,
}
use axor_wrap.Plane.Session.Run.{Call, run}
use axor_wrap.Plane.Session.Run.Monotone.{run-Narrows}

module _ (kernel : Kernel) (calls : List Call) where
  UsedUp-ne :
      (a b : String) (s t u : PlaneSession) → UsedUp a s t → UsedUp b (run kernel calls t) u → b ≢ a
  UsedUp-ne a b s t u h k e = cc (
    ap (contains (run kernel calls t).consumed_ids) e,
    (run-Narrows kernel calls t).consumed a h.after,
    k.before,
  )

  -- Two injections that are taken, with any calls in between, have different ids.
  pub injections_differ :
      (s t u : PlaneSession) (i j : Injection)
      → take_pending_injection s ≡ (t, some i)
      → take_pending_injection (run kernel calls t) ≡ (u, some j)
      → j.injection_id ≢ i.injection_id
  injections_differ s t u i j h k =
      UsedUp-ne i.injection_id j.injection_id s t u (take_pending_injection-UsedUp s t i h)
        (take_pending_injection-UsedUp (run kernel calls t) u j k)

  -- Two excisions that are taken, with any calls in between, have different ids.
  pub excisions_differ :
      (d e : Dict String) (s t u : PlaneSession) (x y : Excision)
      → take_pending_excision kernel d s ≡ (ok (some x), t)
      → take_pending_excision kernel e (run kernel calls t) ≡ (ok (some y), u)
      → y.excision_id ≢ x.excision_id
  excisions_differ d e s t u x y h k =
      UsedUp-ne x.excision_id y.excision_id s t u (take_pending_excision-UsedUp kernel d s t x h)
        (take_pending_excision-UsedUp kernel e (run kernel calls t) u y k)

  -- Two replans with ids that are not empty, taken with any calls in between, have different ids.
  pub replans_differ :
      (s t u : PlaneSession) (q r : Replan)
      → empty q.id ≡ false
      → empty r.id ≡ false
      → take_pending_replan s ≡ (t, some q)
      → take_pending_replan (run kernel calls t) ≡ (u, some r)
      → r.id ≢ q.id
  replans_differ s t u q r nq nr h k =
      UsedUp-ne q.id r.id s t u (take_pending_replan-UsedUp s t q h nq)
        (take_pending_replan-UsedUp (run kernel calls t) u r k nr)
